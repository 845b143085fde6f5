-- ===== src/Session/Connecting.antt =====
-- A circuit from the client to a hidden service: CONNECT by
-- cmd/client/usecase/send_connect_usecase.go, and cmd/relay/usecase/handle_connect_usecase.go at
-- every relay.
use go_ptor.Common.{ℕ, ◌≡◌, ◌≤◌, refl, sym, ap₂, subst, ◌∙◌, List, [], length, All, some, String}
use go_ptor.Common.Result.{ok}
use go_ptor.Value.Circuit.{CircuitId}
use go_ptor.Value.Command.{cmd_connect}
use go_ptor.Cell.{max_payload_size}
use go_ptor.Crypto.{IsAead, aes_multi_seal}
use go_ptor.Crypto.Onion.{IsKey}
use go_ptor.Crypto.Exchange.{Exchange}
use go_ptor.Payload.{RoundTrips}
use go_ptor.Net.{Env, History, circuit_id_from}
use go_ptor.Wire.Framing.{Sends}
use go_ptor.Wire.Reliable.{IsReliable}
use go_ptor.Relay.Repository.{find_address as relay_address}
use go_ptor.Relay.Use.Begin.{cell_of}
use go_ptor.Relay.Use.Begin.Path.{begin_layered, begin_sealed}
use go_ptor.Relay.Use.Connect.{default_target, target_of}
use go_ptor.Relay.Use.Connect.Path.{CanConnect, Connected, connecting_keys, path_connects}
use go_ptor.Relay.Use.Data.Hops.{Delivers}
use go_ptor.Relay.Use.Data.Path.{Hop, state_of}
use go_ptor.Client.Circuit.{Circuit, hop_begin_nonce, hop_begin_nonce_peek, conn, active_streams}
use go_ptor.Client.Circuit.Hops.{peeks}
use go_ptor.Client.World.{World, Address, Services, put_circuit}
use go_ptor.Client.Repository.{find_address}
use go_ptor.Client.Use.Send.{hop_keys, connect_payload, send_connect}
use go_ptor.Client.Use.Send.Connect.{send_connect-onion}
use go_ptor.Relay.World.{Services as Relays}
use go_ptor.Session.EndToEnd.{relays}
use go_ptor.Session.Hiding.{
  Connected-begin, Connected-data, Connected-up, Connected-Delivers, Connected-known,
}
use go_ptor.Session.Kinds.{
  InStepAll, begun_circuit, begun_kept, same_keys, same_nonces, InStepAll-moved,
}

module _ (v : Services) (env : Env) (exchange : Exchange) (laws : IsAead v.aead)
    (codec : RoundTrips v.gob.content) where
  -- When the client and the relays of a circuit agree for every kind of message, and the last
  -- relay has sent no data towards the client yet, asking to connect without a target sends one
  -- CONNECT cell, every relay in front passes it on with one layer less, and the last one dials
  -- its default target and sends BEGIN_ACK back. Afterwards the last relay finds the circuit at a
  -- new state, with which client and relays agree for every kind again, DATA for any stream goes
  -- to the connection that was dialled, and the client has kept its connection and its active
  -- streams. The networks take every write, every layer fits in a cell, the keys have 32 bytes,
  -- the relays in front have a next hop, and the last one has none and can dial its default
  -- target; the encoding of DATA can be decoded.
  pub send_connect-Connected :
      IsReliable v.env
      → IsReliable env
      → (text : String) (cid : CircuitId) (p : Address) (up d out : ℕ) (w : World) (hs : List Hop)
        (last : Hop)
      → circuit_id_from v.env text ≡ ok cid
      → find_address cid w ≡ some p
      → conn 0 (w.objects p) ≡ some out
      → InStepAll (w.objects p) hs last
      → (state_of last).upstream_data_counter ≡ 0
      → CanConnect (relays v env exchange) laws cid up d (default_target env) [] hs last
      → length (begin_layered (relays v env exchange) laws hs last []) ≤ max_payload_size
      → (h : History) × (hs' : List Hop) × (last' : Hop) × (send_connect v text "" w
          ≡ (ok tt, record (put_circuit p (begun_circuit (w.objects p)) w) { history = h }))
        × Sends w.history out cid
            (cell_of cmd_connect (begin_layered (relays v env exchange) laws hs last []))
            h
        × Connected
            (relays v env exchange)
            laws
            cid
            up
            d
            (default_target env)
            []
            hs
            last
            (begin_layered (relays v env exchange) laws hs last [])
            hs'
            last'
        × InStepAll (begun_circuit (w.objects p)) hs' last'
        × ((sid : ℕ)
            → Delivers (relays v env exchange) laws codec cid sid (state_of last') last'.world d)
        × (relay_address cid last'.world ≡ some last'.st)
        × (conn 0 (begun_circuit (w.objects p)) ≡ some out)
        × (active_streams (begun_circuit (w.objects p)) ≡ active_streams (w.objects p))
  unfolding hop_begin_nonce conn active_streams connect_payload target_of
  send_connect-Connected net net' text cid p up d out w hs last named known wired step unused ready
        small =
      let r : Relays = relays v env exchange in
      let target = default_target env in
      let c : Circuit = w.objects p in
      let onion = begin_layered r laws hs last [] in
      let keys = same_keys c hs last step.begins in
      let good = connecting_keys r laws cid up d target [] hs last ready in
      let sealed : aes_multi_seal v.aead (hop_keys (length c.hops) 0 c)
            (peeks hop_begin_nonce_peek (length c.hops) 0 c) []
          ≡ ok onion =
        ap₂ (λ ks ns. aes_multi_seal v.aead ks ns []) keys (same_nonces c hs last step.begins)
        ∙ begin_sealed r laws [] hs last good in
      let (h, sends, run) =
        send_connect-onion v laws net text "" cid p out [] onion w named known refl wired
          (subst (λ ks. All IsKey ks) (sym keys) good) sealed small in
      let (hs', last', o) = path_connects r laws cid up d target [] net' refl hs last ready in
      (
        h,
        hs',
        last',
        run,
        sends,
        o,
        InStepAll-moved c hs last hs' last' step
            (Connected-begin r laws cid up d target [] hs last onion hs' last' o)
            (Connected-data r laws cid up d target [] hs last onion hs' last' o)
            (Connected-up r laws cid up d target [] hs last onion hs' last' unused o),
        (λ sid. Connected-Delivers r laws cid up d target [] codec hs last onion hs' last' sid o),
        Connected-known r laws cid up d target [] hs last onion hs' last' o,
        begun_kept (λ c. conn 0 c) (λ i c. refl) c ∙ wired,
        begun_kept active_streams (λ i c. refl) c,
      )
