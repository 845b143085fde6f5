-- ===== src/Session/OutOfStep.antt =====
-- DATA after an answer: cmd/relay/usecase/handle_data_usecase.go takes a DATA nonce for every cell,
-- also for one from the relay behind, while cmd/client/usecase/decrypt_cell_data_usecase.go takes
-- none.
use go_ptor.Common.{ℕ, ◌≡◌, ◌≢◌, List, ◌∷◌, some, ap}
use go_ptor.Value.Circuit.{CircuitId}
use go_ptor.Value.Command.{cmd_data}
use go_ptor.Cell.{Bytes}
use go_ptor.Crypto.{IsAead}
use go_ptor.Crypto.Exchange.{Exchange}
use go_ptor.Payload.{RoundTrips}
use go_ptor.Net.{Env}
use go_ptor.Wire.Reliable.{IsReliable}
use go_ptor.Relay.Use.Begin.{cell_of}
use go_ptor.Relay.Use.Data.Hops.{data_payload}
use go_ptor.Relay.Use.Data.Path.{Hop}
use go_ptor.Client.Circuit.{Circuit}
use go_ptor.Client.World.{Services}
use go_ptor.Client.Use.Receive.{handle_data_cell}
use go_ptor.Session.{InStep}
use go_ptor.Session.EndToEnd.{relays}
use go_ptor.Session.Answer.{InStepUp, AnswerReady, Answered}
use go_ptor.Session.Heard.{heard, Answered-ne-InStep}
use go_ptor.Session.ToClient.{handle_data_cell-Answered}

module _ (v : Services) (env : Env) (exchange : Exchange) (laws : IsAead v.aead)
    (codec : RoundTrips v.gob.content) (cid : CircuitId) (sid : ℕ) (wire : Bytes → Bytes)
    (x : Bytes) where
  -- When the client and the relays of a circuit with at least one relay in front of the last agree
  -- on the DATA counters, and data from the target comes back to the client, they no longer agree
  -- on the DATA counters: the relay in front has taken a DATA nonce for the answer, the client
  -- none. This holds when they also agree on the upstream counters, the network takes every write,
  -- the encoder does not fail and decoding undoes it, every relay has a connection towards the
  -- client, every cell fits, the keys have 32 bytes, the stream is not 0, and the relays in front
  -- have a next hop and their cipher refuses what they are sent.
  pub out_of_step :
      IsReliable env
      → ((b : Bytes) → v.gob.content.gob_encode (data_payload sid b) ≡ some (wire b))
      → sid ≢ 0
      → (c : Circuit) (h : Hop) (hs : List Hop) (last : Hop) → InStep c (h ∷ hs) last
      → InStepUp c (h ∷ hs) last
      → AnswerReady (relays v env exchange) laws codec cid sid wire x (h ∷ hs) last
      → (out : Bytes) × (hs' : List Hop) × (last' : Hop) × Answered
          (relays v env exchange)
          laws
          codec
          cid
          sid
          wire
          x
          (h ∷ hs)
          last
          out
          hs'
          last'
        × ((handle_data_cell v (cell_of cmd_data (wire out)) c).1 ≡ heard c)
        × (¬ InStep (heard c) hs' last')
  out_of_step net coded ne c h hs last step step_up ready =
      let (out, hs', last', o, up, run) =
        handle_data_cell-Answered v env exchange laws codec cid sid wire x net coded ne c (h ∷ hs)
          last step_up ready in
      (
        out,
        hs',
        last',
        o,
        ap (λ r. r.1) run,
        Answered-ne-InStep (relays v env exchange) laws codec cid sid wire x c h hs last out hs'
            last' step o,
      )
