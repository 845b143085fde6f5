-- ===== src/Relay/Handler/Removal.antt =====
-- What DESTROY does to a circuit that a relay knows (cmd/relay/usecase/handle_destroy_usecase.go).
use go_ptor.Common.{ℕ, ◌≡◌, refl, ap, ite, ◌∙◌, [], arith, none, some, Option-cases, inl, inr}
use go_ptor.Common.Map.{lookup-delete_self, lookup-delete}
use go_ptor.Common.Result.{Result, ok, err, not_found}
use go_ptor.Value.Command.{cmd_destroy}
use go_ptor.Value.Circuit.{CircuitId, CircuitId-discrete}
use go_ptor.Value.Stream.{StreamId}
use go_ptor.Cell.{Cell}
use go_ptor.Net.{Conn}
use go_ptor.Common.Exec.{ignored, handled, continue, modify}
use go_ptor.Cell.{encode}
use go_ptor.Net.{Env, History, encode_now, write}
use go_ptor.Wire.{forward_cell}
use go_ptor.Relay.Use.Begin.{cell_of}
use go_ptor.Relay.ConnState.{touch}
use go_ptor.Relay.World.{World, Address, Services, put_state}
use go_ptor.Relay.Repository.{
  find_address, streams_of, get_stream, destroy_all_streams, remove_circuit, find,
}
use go_ptor.Relay.Repository.Laws.{get_stream-destroy_all_streams}
use go_ptor.Relay.Use.End.{destroy, destroy_down}
use go_ptor.Relay.Handler.{handle_cell, dispatch, unknown_circuit}

-- Nothing that is left knows the circuit, and every other circuit is as known as before.
pub record IsRemoved (cid : CircuitId) (w w' : World) : Type 0 where
  pub circuit : find_address cid w' ≡ none
  pub streams : (sid : StreamId) → get_stream cid sid w' ≡ err not_found
  pub others :
      (j : CircuitId) → find_address j w' ≡ ite (CircuitId-discrete j cid) none (find_address j w)

destroy_all_streams-circuits :
    (cid : CircuitId) (w : World) → (destroy_all_streams cid w).circuits ≡ w.circuits
unfolding destroy_all_streams
destroy_all_streams-circuits cid w = elim (Option-cases (streams_of cid w)) [
  | inl e ↦ rw (e, destroy_all_streams) refl
  | inr (m, e) ↦ rw (e, destroy_all_streams) refl
]

ite-same : {A : Type 0} (cid : CircuitId) (a b : A) → ite (CircuitId-discrete cid cid) a b ≡ a
ite-same cid a b = ground arith

-- Removing a circuit that is known removes its streams too.
pub remove_circuit-IsRemoved :
    (cid : CircuitId) (p : Address) (w : World)
    → find_address cid w ≡ some p
    → IsRemoved cid w (remove_circuit cid w)
unfolding remove_circuit
remove_circuit-IsRemoved cid p w known =
    rw (known, remove_circuit)
      (record {
        circuit =
            rw (destroy_all_streams-circuits cid _)
              (lookup-delete_self CircuitId-discrete cid w.circuits);
        streams = λ sid. get_stream-destroy_all_streams cid cid sid _ ∙ ite-same cid _ _;
        others = λ j.
            rw (destroy_all_streams-circuits cid _)
              (lookup-delete CircuitId-discrete j cid w.circuits);
      })

ignored-send :
    (env : Env) (d : ℕ) (cid : CircuitId) (h : History)
    → ignored (forward_cell env (some d) cid (cell_of cmd_destroy []) h).0 ≡ ok tt
unfolding forward_cell encode_now encode write
ignored-send env d cid h = ground arith

destroy_down-ok :
    (v : Services) (cid : CircuitId) (d : Conn) (w : World)
    → (h : History) × (destroy_down v cid d w ≡ (ok tt, record w { history = h }))
unfolding destroy_down
destroy_down-ok v cid none w = (w.history, refl)
destroy_down-ok v cid (some d) w =
    let r = forward_cell v.env (some d) cid (cell_of cmd_destroy []) w.history in
    (
      r.1,
      ap (λ (x : Result (Unit {0})). (x, record w { history = r.1 }))
          (ignored-send v.env d cid w.history),
    )

-- What find leaves behind when it finds a circuit's state.
abbrev pub found_world : Services → Address → World → World
found_world v p w = put_state p (touch (v.env.now w.history) (w.states p)) w

find-known :
    (v : Services) (cid : CircuitId) (p : Address) (w : World)
    → find_address cid w ≡ some p
    → find v.env cid w ≡ (ok p, found_world v p w)
unfolding find
find-known v cid p w known = rw (known, find) refl

-- A cell of a circuit that is known goes to the second switch.
pub handle_cell-known :
    (v : Services) (up : Conn) (cid : CircuitId) (cell : Cell) (p : Address) (w : World)
    → find_address cid w ≡ some p
    → handle_cell v up cid cell w ≡ dispatch v p cid cell (found_world v p w)
unfolding handle_cell
handle_cell-known v up cid cell p w known =
    ap
      (λ (r : Result Address × World).
        handled r.0 (λ st. dispatch v st cid cell) (λ e. unknown_circuit v up cid cell) r.1)
      (find-known v cid p w known)

dispatch-destroy :
    (v : Services) (p : Address) (cid : CircuitId) (cell : Cell) (w : World)
    → cell.cmd ≡ cmd_destroy
    → dispatch v p cid cell w ≡ destroy v p cid w
unfolding dispatch
dispatch-destroy v p cid cell w cmd = rw (cmd, dispatch) refl

-- A DESTROY for a known circuit succeeds whatever the network does, and afterwards neither the
-- circuit nor any of its streams is found while every other circuit is as known as before.
pub handle_cell-destroy :
    (v : Services) (up : Conn) (cid : CircuitId) (cell : Cell) (p : Address) (w : World)
    → find_address cid w ≡ some p
    → cell.cmd ≡ cmd_destroy
    → (w' : World) × (handle_cell v up cid cell w ≡ (ok tt, w')) × IsRemoved cid w w'
unfolding destroy
handle_cell-destroy v up cid cell p w known cmd =
    let w₁ = found_world v p w in
    let (h, passed) = destroy_down-ok v cid (w₁.states p).down w₁ in
    let w₂ : World = record w₁ { history = h } in
    let gone : IsRemoved cid w₂ (remove_circuit cid w₂) = remove_circuit-IsRemoved cid p w₂ known in
    (
      remove_circuit cid w₂,
      handle_cell-known v up cid cell p w known
          ∙ dispatch-destroy v p cid cell w₁ cmd
          ∙ ap
              (λ (r : Result (Unit {0}) × World).
                continue r.0 (λ x. modify (remove_circuit cid)) r.1)
              passed,
      record { circuit = gone.circuit; streams = gone.streams; others = gone.others },
    )
