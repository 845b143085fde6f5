-- ===== src/Relay/Handler/Joining.antt =====
-- EXTEND at a relay (cmd/relay/handler/relay_handler.go, cmd/relay/usecase/handle_extend_usecase.go):
-- one that does not know the circuit joins it, one that does passes the cell on and the answer back.
use go_ptor.Common.{ℕ, ◌≤◌, ◌≡◌, refl, ap, ◌∙◌, ==-refl, none, some, ◌∷◌, length, String}
use go_ptor.Common.Exec.{handled}
use go_ptor.Common.Result.{Result, ok, err, not_found}
use go_ptor.Value.Circuit.{CircuitId, IsUuid}
use go_ptor.Value.Command.{cmd_extend}
use go_ptor.Cell.{Bytes, max_payload_size}
use go_ptor.Crypto.{Key}
use go_ptor.Nonce.{Nonce}
use go_ptor.Net.{Conn, History, drew}
use go_ptor.Payload.{RoundTrips}
use go_ptor.Wire.Framing.{Sends}
use go_ptor.Wire.Reliable.{IsReliable}
use go_ptor.Wire.Answer.{Answers, answered, created}
use go_ptor.Relay.ConnState.{ConnState, new_conn_state, touch}
use go_ptor.Relay.World.{World, Address, Services}
use go_ptor.Relay.Repository.{find, find_address}
use go_ptor.Relay.Use.Begin.{cell_of}
use go_ptor.Relay.Use.Extend.{extend, to32, forward_extend}
use go_ptor.Relay.Use.Extend.Joins.{
  Dials, extend-joined, joined-state, joined-known, joined, forward_extend-passes,
}
use go_ptor.Relay.Handler.{handle_cell, dispatch, unknown_circuit}
use go_ptor.Relay.Handler.Removal.{handle_cell-known, found_world}

module _ (v : Services) (cid : CircuitId) where
  open v use {env, gob, exchange}

  find-unknown : (w : World) → find_address cid w ≡ none → find env cid w ≡ (err not_found, w)
  unfolding find
  find-unknown w e = rw (e, find) refl

  handle_cell-unknown :
      (up : Conn) (p : Bytes) (w : World)
      → find_address cid w ≡ none
      → handle_cell v up cid (cell_of cmd_extend p) w ≡ extend v up cid (cell_of cmd_extend p) w
  unfolding handle_cell unknown_circuit
  handle_cell-unknown up p w e =
      ap
        (λ (r : Result Address × World).
          handled r.0 (λ st. dispatch v st cid (cell_of cmd_extend p))
            (λ x. unknown_circuit v up cid (cell_of cmd_extend p)) r.1)
        (find-unknown w e)

  dispatch-extend :
      (st : Address) (p : Bytes) (w : World)
      → dispatch v st cid (cell_of cmd_extend p) w
        ≡ forward_extend v st cid (cell_of cmd_extend p) w
  unfolding dispatch
  dispatch-extend st p w = refl

  module _ (net : IsReliable env) where
    -- The relay that a circuit is extended to keeps the key and base nonce of its secret, with all
    -- counters at 0, and answers with its public key.
    pub handle_cell-joins :
        (up : ℕ) (next : String) (client_pub p secret payload : Bytes) (pair : Bytes × Bytes)
        (key : Key) (nonce : Nonce) (down : Conn) (h' : History) (w : World)
        → RoundTrips gob.extend
        → find_address cid w ≡ none
        → gob.extend.gob_encode (record { next_hop = next; client_pub = client_pub }) ≡ some p
        → exchange.generate_key w.history ≡ some pair
        → exchange.ecdh pair.0 client_pub ≡ some secret
        → exchange.hkdf secret ≡ some (key, nonce)
        → Dials env next (drew ∷ w.history) down h'
        → gob.created.gob_encode (record { relay_pub = to32 pair.1 }) ≡ some payload
        → (w' : World) × (handle_cell v (some up) cid (cell_of cmd_extend p) w ≡ (ok tt, w'))
          × (w'.states w.next_address ≡ new_conn_state key nonce (some up) down (env.now h'))
          × (find_address cid w' ≡ some w.next_address)
          × (w'.history ≡ created env up cid payload h')
    handle_cell-joins up next client_pub p secret payload pair key nonce down h' w laws new coded
          drawn shared derived dials coded' =
        (
          joined v net cid up key nonce down payload h' w,
          handle_cell-unknown (some up) p w new
              ∙ extend-joined v net cid up next client_pub p secret payload pair key nonce down h' w
                  laws coded drawn shared derived dials coded',
          joined-state v net cid up key nonce down payload h' w,
          joined-known v net cid up key nonce down payload h' w,
          refl,
        )

    -- A relay that knows the circuit and has a next hop passes EXTEND on to it and writes the
    -- answer that it reads from there, unchanged, towards the client; the state of the circuit
    -- changes only in the time of its last use, and the circuits it knows stay. The network takes
    -- every write, the cell fits, the identifier has 16 bytes and the answer between 1 and 65535.
    pub handle_cell-passes :
        (st : Address) (from : Conn) (up d : ℕ) (p payload : Bytes) (w : World)
        → IsUuid cid
        → find_address cid w ≡ some st
        → (w.states st).up ≡ some up
        → (w.states st).down ≡ some d
        → length p ≤ max_payload_size
        → Answers env d cid (cell_of cmd_extend p) payload w.history
        → (w' : World) × (h' : History) × (handle_cell v from cid (cell_of cmd_extend p) w
            ≡ (ok tt, w'))
          × (w'.states st ≡ touch (env.now w.history) (w.states st))
          × (w'.circuits ≡ w.circuits)
          × Sends w.history d cid (cell_of cmd_extend p) h'
          × (w'.history ≡ created env up cid payload (answered d payload h'))
    unfolding touch
    handle_cell-passes st from up d p payload w u known wired there fits a =
        let w₁ = found_world v st w in
        let same : w₁.states st ≡ touch (env.now w.history) (w.states st) = rw (==-refl st) refl in
        let (h', passed, sends) =
          forward_extend-passes v net cid st (cell_of cmd_extend p) up d payload w₁ u
            (ap (λ (s : ConnState). s.up) same ∙ wired)
            (ap (λ (s : ConnState). s.down) same ∙ there) fits a in
        (
          record w₁ { history = created env up cid payload (answered d payload h') },
          h',
          handle_cell-known v from cid (cell_of cmd_extend p) st w known
              ∙ dispatch-extend st p w₁
              ∙ passed,
          same,
          refl,
          sends,
          refl,
        )
