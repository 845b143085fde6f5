-- ===== src/Session/Carried.antt =====
-- A stream from its BEGIN to the first data: cmd/client/usecase/send_data_usecase.go twice, and
-- handle_begin_usecase.go and handle_data_usecase.go of cmd/relay/usecase at every relay.
use go_ptor.Common.{
  ℕ, ◌≡◌, ◌≢◌, ◌≤◌, refl, sym, ap, subst, ◌∙◌, List, length, some, true, ==-refl, String,
}
use go_ptor.Common.Result.{ok}
use go_ptor.Value.Circuit.{CircuitId}
use go_ptor.Value.Command.{cmd_begin, cmd_data}
use go_ptor.Cell.{Bytes, max_payload_size}
use go_ptor.Crypto.{IsAead}
use go_ptor.Crypto.Exchange.{Exchange}
use go_ptor.Payload.{RoundTrips}
use go_ptor.Net.{Env, circuit_id_from}
use go_ptor.Wire.Framing.{Sends}
use go_ptor.Wire.Reliable.{IsReliable}
use go_ptor.Relay.Use.Begin.{cell_of}
use go_ptor.Relay.Use.Begin.Path.{begin_layered, CanBegin, Opened}
use go_ptor.Relay.Use.Data.Path.{Hop, layered, Delivered}
use go_ptor.Relay.World.{Services as Relays}
use go_ptor.Client.Circuit.{conn, active_streams}
use go_ptor.Client.World.{World, Address, Services, put_circuit}
use go_ptor.Client.Repository.{find_address}
use go_ptor.Client.Use.Send.{contains, send_data}
use go_ptor.Session.{InStep}
use go_ptor.Session.EndToEnd.{relays, spent, send_data-Delivered}
use go_ptor.Session.Kinds.{InStepAll, begun_circuit}
use go_ptor.Session.Begun.{send_data-Opened}
use go_ptor.Session.Carrying.{LayersFit, Opened-layered, Opened-Ready}

module _ (v : Services) (env : Env) (exchange : Exchange) (laws : IsAead v.aead)
    (codec : RoundTrips v.gob.content) (codec' : RoundTrips v.gob.begin) where
  -- When the client and the relays of a circuit agree for every kind of message, sending BEGIN and
  -- then data on an active stream of the circuit opens the stream at the exit and delivers the
  -- data: BEGIN goes from relay to relay until the exit dials the target, the data then goes out
  -- in one DATA cell and from relay to relay, and the exit writes exactly the data to the
  -- connection that it has dialled. The networks take every write, the payloads are encoded and
  -- decoded, every layer of both messages fits in a cell, the keys have 32 bytes, the relays in
  -- front have a next hop, no relay is hidden, and the exit has no next hop and can dial the
  -- target.
  pub send_data-Carried :
      IsReliable v.env
      → IsReliable env
      → (text : String) (cid : CircuitId) (p : Address) (sid up d out : ℕ) (target : String)
        (x plain : Bytes) (wire : Bytes → Bytes) (w : World) (hs : List Hop) (last : Hop)
      → circuit_id_from v.env text ≡ ok cid
      → sid ≢ 0
      → find_address cid w ≡ some p
      → contains sid (active_streams (w.objects p)) ≡ true
      → conn 0 (w.objects p) ≡ some out
      → v.gob.begin.gob_encode (record { stream_id = sid; target = target }) ≡ some x
      → ((b : Bytes)
          → v.gob.content.gob_encode (record { stream_id = sid; content = b }) ≡ some (wire b))
      → InStepAll (w.objects p) hs last
      → CanBegin (relays v env exchange) laws cid sid up d target x hs last
      → LayersFit (relays v env exchange) laws codec wire plain hs last
      → length (begin_layered (relays v env exchange) laws hs last x) ≤ max_payload_size
      → length (wire (layered (relays v env exchange) laws codec hs last plain)) ≤ max_payload_size
      → (w₁ w₂ : World) × (hs' : List Hop) × (last' : Hop) × (send_data v text sid x cmd_begin w
          ≡ (ok (length x), w₁))
        × Sends w.history out cid
            (cell_of cmd_begin (begin_layered (relays v env exchange) laws hs last x))
            w₁.history
        × Opened
            (relays v env exchange)
            laws
            cid
            sid
            up
            d
            target
            x
            hs
            last
            (begin_layered (relays v env exchange) laws hs last x)
            hs'
            last'
        × (send_data v text sid plain 0 w₁ ≡ (ok (length plain), w₂))
        × Sends w₁.history out cid
            (cell_of cmd_data (wire (layered (relays v env exchange) laws codec hs last plain)))
            w₂.history
        × Delivered
            (relays v env exchange)
            laws
            codec
            cid
            sid
            d
            wire
            plain
            hs'
            last'
            (layered (relays v env exchange) laws codec hs last plain)
  send_data-Carried net net' text cid p sid up d out target x plain wire w hs last named ne known
        active wired coded coded' step ready fits small small' =
      let r : Relays = relays v env exchange in
      let (h, hs', last', begins, first, o, step', goes, wired', active') =
        send_data-Opened v env exchange laws codec codec' net net' text cid p sid up d out target x
          w hs last named ne known active wired coded step ready small in
      let w₁ : World = record (put_circuit p (begun_circuit (w.objects p)) w) { history = h } in
      let here : w₁.objects p ≡ begun_circuit (w.objects p) = rw (==-refl p) refl in
      let same =
        Opened-layered r laws codec cid sid up d target x plain hs last
          (begin_layered r laws hs last x) hs' last' o in
      let (h₂, runs, sends, arrives, after) =
        send_data-Delivered v env exchange laws codec net net' text cid p sid out d plain w₁ wire
          hs' last' named ne known
          (ap (λ c. contains sid (active_streams c)) here
            ∙ ap (λ l. contains sid l) active'
            ∙ active)
          (ap (λ c. conn 0 c) here ∙ wired') coded'
          (subst (λ c. InStep c hs' last') (sym here) step'.down)
          (Opened-Ready r laws codec cid sid up d target x wire plain hs last
            (begin_layered r laws hs last x) hs' last' ready fits o)
          (subst (λ b. length (wire b) ≤ max_payload_size) (sym same) small') in
      (
        w₁,
        record (put_circuit p (spent (w₁.objects p)) w₁) { history = h₂ },
        hs',
        last',
        begins,
        first,
        o,
        runs,
        subst (λ b. Sends h out cid (cell_of cmd_data (wire b)) h₂) same sends,
        subst (λ b. Delivered r laws codec cid sid d wire plain hs' last' b) same arrives,
      )
