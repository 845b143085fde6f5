-- ===== src/Session/EndToEnd.antt =====
-- A message from the client to the end of its circuit: cmd/client/usecase/send_data_usecase.go, and
-- cmd/relay/usecase/handle_data_usecase.go at every relay.
use go_ptor.Common.{
  ℕ, ◌≡◌, ◌≢◌, ◌≤◌, sym, ap, ap₂, subst, ◌∙◌, List, map, length, All, some, true, String,
}
use go_ptor.Common.Result.{ok}
use go_ptor.Value.Circuit.{CircuitId}
use go_ptor.Value.Command.{cmd_data}
use go_ptor.Cell.{Bytes, max_payload_size}
use go_ptor.Crypto.{IsAead, aes_multi_seal}
use go_ptor.Crypto.Onion.{IsKey}
use go_ptor.Crypto.Exchange.{Exchange}
use go_ptor.Payload.{RoundTrips}
use go_ptor.Net.{Env, History, circuit_id_from}
use go_ptor.Wire.Framing.{Sends}
use go_ptor.Wire.Reliable.{IsReliable}
use go_ptor.Relay.World.{Services}
use go_ptor.Relay.Use.Begin.{cell_of}
use go_ptor.Relay.Use.Data.Path.{
  Hop, keys_of, nonces_of, layered, Ready, Delivered, path_delivers, multi_sealed,
}
use go_ptor.Client.Circuit.{Circuit, hop_data_nonce, hop_data_nonce_peek, conn, active_streams}
use go_ptor.Client.Circuit.Hops.{peeks}
use go_ptor.Client.World.{World, Address, put_circuit}
use go_ptor.Client.World.{Services as ClientServices}
use go_ptor.Client.Repository.{find_address}
use go_ptor.Client.Use.Send.{hop_keys, hop_nonces, contains, send_data}
use go_ptor.Client.Use.Send.Onion.{send_data-onion}
use go_ptor.Session.{counted_layer, client_layers, relay_layers, InStep}
use go_ptor.Session.Counts.{data-Counts, hops-hop_nonces}
use go_ptor.Session.Counters.{
  client_layers-hop_nonces, client_keys, client_nonces, relay_keys, relay_nonces, nonce_of,
}
use go_ptor.Session.Delivery.{moved, moved_last, relay_layers-moved, keys_good}

-- What InStep says of the keys and of the next DATA nonces.
same_keys :
    (c : Circuit) (hs : List Hop) (last : Hop)
    → InStep c hs last
    → hop_keys (length c.hops) 0 c ≡ keys_of hs last
same_keys c hs last step =
    client_keys (length c.hops) 0 c ∙ ap (λ l. map (λ a. a.key) l) step ∙ sym (relay_keys hs last)

same_nonces :
    (c : Circuit) (hs : List Hop) (last : Hop)
    → InStep c hs last
    → peeks hop_data_nonce_peek (length c.hops) 0 c ≡ nonces_of hs last
same_nonces c hs last step =
    client_nonces (length c.hops) 0 c ∙ ap (λ l. map nonce_of l) step ∙ sym (relay_nonces hs last)

-- The circuit once the client has taken a DATA nonce from every hop.
abbrev pub spent : Circuit → Circuit
spent c = (hop_nonces hop_data_nonce (length c.hops) 0 c).1

InStep-spent :
    (c : Circuit) (hs hs' : List Hop) (last last' : Hop)
    → InStep c hs last
    → relay_layers hs' last' ≡ map counted_layer (relay_layers hs last)
    → InStep (spent c) hs' last'
InStep-spent c hs hs' last last' step moved_on =
    ap (λ n. client_layers n 0 (spent c))
      (ap (λ l. length l)
        (hops-hop_nonces hop_data_nonce (λ c. c.data_counter) data-Counts (length c.hops) 0 c))
    ∙ client_layers-hop_nonces (length c.hops) 0 c
    ∙ ap (λ l. map counted_layer l) step
    ∙ sym moved_on

-- The relays have the client's AEAD and codecs, and a network and a key exchange of their own.
abbrev pub relays : ClientServices → Env → Exchange → Services
relays v env exchange = record { env = env; aead = v.aead; gob = v.gob; exchange = exchange }

module _ (v : ClientServices) (env : Env) (exchange : Exchange) (laws : IsAead v.aead)
    (codec : RoundTrips v.gob.content) where
  -- When the client and the relays of a circuit agree on the key, base nonce and DATA counter of
  -- every layer, sending data on an active stream of the circuit succeeds with one DATA cell, the
  -- relays pass it on one after the other, the last one writes exactly the data to the connection
  -- of the stream, and afterwards client and relays agree on every layer again. The networks take
  -- every write, the encoder does not fail and decoding undoes it, every layer fits in a cell, the
  -- keys have 32 bytes, and the relays in front are not hidden and have a next hop.
  pub send_data-Delivered :
      IsReliable v.env
      → IsReliable env
      → (text : String) (cid : CircuitId) (p : Address) (sid d out : ℕ) (plain : Bytes) (w : World)
        (wire : Bytes → Bytes) (hs : List Hop) (last : Hop)
      → circuit_id_from v.env text ≡ ok cid
      → sid ≢ 0
      → find_address cid w ≡ some p
      → contains sid (active_streams (w.objects p)) ≡ true
      → conn 0 (w.objects p) ≡ some d
      → ((b : Bytes)
          → v.gob.content.gob_encode (record { stream_id = sid; content = b }) ≡ some (wire b))
      → InStep (w.objects p) hs last
      → Ready (relays v env exchange) laws codec cid sid out wire plain hs last
      → length (wire (layered (relays v env exchange) laws codec hs last plain)) ≤ max_payload_size
      → (h : History) × (send_data v text sid plain 0 w
          ≡ (ok (length plain), record (put_circuit p (spent (w.objects p)) w) { history = h }))
        × Sends w.history d cid
            (cell_of cmd_data (wire (layered (relays v env exchange) laws codec hs last plain)))
            h
        × Delivered
            (relays v env exchange)
            laws
            codec
            cid
            sid
            out
            wire
            plain
            hs
            last
            (layered (relays v env exchange) laws codec hs last plain)
        × InStep
            (spent (w.objects p))
            (moved (relays v env exchange) laws codec cid sid out wire plain hs last)
            (moved_last (relays v env exchange) laws codec cid sid out wire plain last)
  send_data-Delivered net net' text cid p sid d out plain w wire hs last named ne known active wired
        coded step ready small =
      let r : Services = relays v env exchange in
      let c : Circuit = w.objects p in
      let onion = layered r laws codec hs last plain in
      let keys = same_keys c hs last step in
      let sealed : aes_multi_seal v.aead (hop_keys (length c.hops) 0 c)
            (peeks hop_data_nonce_peek (length c.hops) 0 c) plain
          ≡ ok onion =
        ap₂ (λ ks ns. aes_multi_seal v.aead ks ns plain) keys (same_nonces c hs last step)
        ∙ multi_sealed r laws codec cid sid out wire plain hs last ready in
      let (enc, again, opened, h, sends, run) =
        send_data-onion v laws net text cid p sid d plain w wire named ne known active wired
          (subst (λ ks. All IsKey ks) (sym keys)
            (keys_good r laws codec cid sid out wire plain hs last ready))
          coded (λ enc e. subst (λ b. length (wire b) ≤ max_payload_size) (cc (sealed, e)) small) in
      let same : enc ≡ onion = cc (sealed, again) in
      (
        h,
        run,
        subst (λ b. Sends w.history d cid (cell_of cmd_data (wire b)) h) same sends,
        path_delivers r laws codec cid sid out wire plain net' coded ne hs last ready,
        InStep-spent c hs _ last _ step
            (relay_layers-moved r laws codec cid sid out wire plain net' coded ne hs last ready),
      )
