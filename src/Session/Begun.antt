-- ===== src/Session/Begun.antt =====
-- A stream from the client to a target: BEGIN by cmd/client/usecase/send_data_usecase.go, and
-- cmd/relay/usecase/handle_begin_usecase.go at every relay.
use go_ptor.Common.{
  ℕ, ◌≡◌, ◌≢◌, ◌≤◌, refl, sym, ap₂, subst, ◌∙◌, List, [], ◌∷◌, length, All, some, true, String,
}
use go_ptor.Common.Result.{ok}
use go_ptor.Value.Circuit.{CircuitId}
use go_ptor.Value.Command.{cmd_begin}
use go_ptor.Cell.{Bytes, max_payload_size}
use go_ptor.Crypto.{IsAead, aes_multi_seal}
use go_ptor.Crypto.Onion.{IsKey}
use go_ptor.Crypto.Exchange.{Exchange}
use go_ptor.Payload.{RoundTrips}
use go_ptor.Net.{Env, History, circuit_id_from}
use go_ptor.Wire.Framing.{Sends}
use go_ptor.Wire.Reliable.{IsReliable}
use go_ptor.Relay.Use.Begin.{cell_of}
use go_ptor.Relay.Use.Begin.Path.{begin_layered, CanBegin, Opened, path_opens, begin_sealed}
use go_ptor.Relay.Use.Data.Hops.{Delivers}
use go_ptor.Relay.Use.Data.Path.{Hop, state_of, keys_of}
use go_ptor.Client.Circuit.{Circuit, hop_begin_nonce, hop_begin_nonce_peek, conn, active_streams}
use go_ptor.Client.Circuit.Hops.{peeks}
use go_ptor.Client.World.{World, Address, Services, put_circuit}
use go_ptor.Client.Repository.{find_address}
use go_ptor.Client.Use.Send.{hop_keys, contains, send_data}
use go_ptor.Client.Use.Send.Begin.{send_data-begin}
use go_ptor.Relay.World.{Services as Relays}
use go_ptor.Session.EndToEnd.{relays}
use go_ptor.Session.Opening.{Opened-Delivers}
use go_ptor.Session.Kinds.{
  InStepAll, begun_circuit, begun_kept, same_keys, same_nonces, InStepAll-begun,
}

module _ (v : Services) (env : Env) (exchange : Exchange) (laws : IsAead v.aead)
    (codec : RoundTrips v.gob.content) (codec' : RoundTrips v.gob.begin) where
  good_keys :
      (cid : CircuitId) (sid up d : ℕ) (target : String) (x : Bytes) (hs : List Hop) (last : Hop)
      → CanBegin (relays v env exchange) laws cid sid up d target x hs last
      → All IsKey (keys_of hs last)
  good_keys cid sid up d target x [] last (key, visible, end, wired, there) = (key, tt)
  good_keys cid sid up d target x (h ∷ hs) last (key, visible, down, fits, ready) =
      (key, good_keys cid sid up d target x hs last ready)

  -- When the client and the relays of a circuit agree for every kind of message, sending BEGIN on
  -- an active stream of the circuit sends one BEGIN cell, every relay in front passes it on with
  -- one layer less, and the exit dials the target, registers the connection for the stream and
  -- sends BEGIN_ACK back. Afterwards client and relays agree for every kind again, DATA for the
  -- stream goes to the connection that was dialled, and the client has kept its connection and its
  -- active streams. The networks take every write, the BEGIN payload is encoded and decoded, every
  -- layer fits in a cell, the keys have 32 bytes, the relays in front have a next hop, no relay is
  -- hidden, and the exit has no next hop and can dial the target.
  pub send_data-Opened :
      IsReliable v.env
      → IsReliable env
      → (text : String) (cid : CircuitId) (p : Address) (sid up d out : ℕ) (target : String)
        (x : Bytes) (w : World) (hs : List Hop) (last : Hop)
      → circuit_id_from v.env text ≡ ok cid
      → sid ≢ 0
      → find_address cid w ≡ some p
      → contains sid (active_streams (w.objects p)) ≡ true
      → conn 0 (w.objects p) ≡ some out
      → v.gob.begin.gob_encode (record { stream_id = sid; target = target }) ≡ some x
      → InStepAll (w.objects p) hs last
      → CanBegin (relays v env exchange) laws cid sid up d target x hs last
      → length (begin_layered (relays v env exchange) laws hs last x) ≤ max_payload_size
      → (h : History) × (hs' : List Hop) × (last' : Hop) × (send_data v text sid x cmd_begin w
          ≡ (ok (length x), record (put_circuit p (begun_circuit (w.objects p)) w) { history = h }))
        × Sends w.history out cid
            (cell_of cmd_begin (begin_layered (relays v env exchange) laws hs last x))
            h
        × Opened
            (relays v env exchange)
            laws
            cid
            sid
            up
            d
            target
            x
            hs
            last
            (begin_layered (relays v env exchange) laws hs last x)
            hs'
            last'
        × InStepAll (begun_circuit (w.objects p)) hs' last'
        × Delivers (relays v env exchange) laws codec cid sid (state_of last') last'.world d
        × (conn 0 (begun_circuit (w.objects p)) ≡ some out)
        × (active_streams (begun_circuit (w.objects p)) ≡ active_streams (w.objects p))
  unfolding hop_begin_nonce conn active_streams
  send_data-Opened net net' text cid p sid up d out target x w hs last named ne known active wired
        coded step ready small =
      let r : Relays = relays v env exchange in
      let c : Circuit = w.objects p in
      let onion = begin_layered r laws hs last x in
      let keys = same_keys c hs last step.begins in
      let sealed : aes_multi_seal v.aead (hop_keys (length c.hops) 0 c)
            (peeks hop_begin_nonce_peek (length c.hops) 0 c) x
          ≡ ok onion =
        ap₂ (λ ks ns. aes_multi_seal v.aead ks ns x) keys (same_nonces c hs last step.begins)
        ∙ begin_sealed r laws x hs last (good_keys cid sid up d target x hs last ready) in
      let (h, sends, run) =
        send_data-begin v laws net text cid p sid out x onion w named ne known active wired
          (subst (λ ks. All IsKey ks) (sym keys) (good_keys cid sid up d target x hs last ready))
          sealed small in
      let (hs', last', o) =
        path_opens r laws cid sid up d target x net' codec' ne coded hs last ready in
      (
        h,
        hs',
        last',
        run,
        sends,
        o,
        InStepAll-begun r laws cid sid up d target x c hs last onion hs' last' step o,
        Opened-Delivers r laws cid sid up d target x codec hs last onion hs' last' ready o,
        begun_kept (λ c. conn 0 c) (λ i c. refl) c ∙ wired,
        begun_kept active_streams (λ i c. refl) c,
      )
