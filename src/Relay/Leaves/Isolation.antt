-- ===== src/Relay/Leaves/Isolation.antt =====
-- The circuits of a relay are kept apart: HandleCell of cmd/relay/handler/relay_handler.go, gc of
-- cmd/relay/infrastructure/repository/conn_state_repository.go and the goroutines of forwardUpstream.
use go_ptor.Common.{◌≡◌, ◌≢◌, ◌<◌, inl, inr, sym, ◌∙◌, none, some, arith, Option-cases, ◌==◌}
use go_ptor.Common.Result.{not_found}
use go_ptor.Value.Circuit.{CircuitId, CircuitId-discrete}
use go_ptor.Value.Command.{
  cmd_extend, cmd_connect, cmd_data, cmd_end, cmd_destroy, cmd_begin, cmd_begin_ack,
}
use go_ptor.Cell.{Cell}
use go_ptor.Net.{Conn}
use go_ptor.Wire.Grows.{Grows}
use go_ptor.Relay.ConnState.{ConnState, touch}
use go_ptor.Relay.World.{World, Address, Services}
use go_ptor.Relay.Repository.{find_address, streams_of, find}
use go_ptor.Relay.Handler.{handle_cell, dispatch, unknown_circuit}
use go_ptor.Relay.Leaves.{Leaves, Leaves-IsPreorder, Leaving, put_state-Leaves}
use go_ptor.Relay.Leaves.Steps.{bind, done, failed, chosen, looked_up, forward}
use go_ptor.Relay.Leaves.Traffic.{begin-Leaves, data_cell-Leaves}
use go_ptor.Relay.Leaves.Control.{
  end_stream-Leaves, destroy-Leaves, forward_extend-Leaves, connect-Leaves, extend-Leaves,
}

-- Every listed address is allocated, and no two circuits have the same state.
pub record IsSeparate (w : World) : Type 0 where
  pub bounded : (id : CircuitId) (p : Address) → find_address id w ≡ some p → p < w.next_address
  pub separate :
      (i j : CircuitId) (p : Address)
      → find_address i w ≡ some p
      → find_address j w ≡ some p
      → i ≡ j

module _ (v : Services) (cid : CircuitId) (st : Address) where
  pub dispatch-Leaves : (cell : Cell) → Leaving cid st (dispatch v st cid cell)
  unfolding dispatch
  dispatch-Leaves cell = chosen v cid st (cell.cmd == cmd_begin) (begin-Leaves v cid st cell) (
      chosen v cid st (cell.cmd == cmd_begin_ack)
        (bind v cid st _ _ (looked_up v cid st) (λ (s : ConnState). forward v cid st s.up cell))
        (chosen v cid st (cell.cmd == cmd_end) (end_stream-Leaves v cid st cell) (
          chosen v cid st (cell.cmd == cmd_destroy) (destroy-Leaves v cid st) (
            chosen v cid st (cell.cmd == cmd_extend) (forward_extend-Leaves v cid st cell) (
              chosen v cid st (cell.cmd == cmd_connect) (connect-Leaves v cid st cell) (
                chosen v cid st (cell.cmd == cmd_data) (data_cell-Leaves v cid st cell)
                  (done v cid st tt)))))))

  pub unknown_circuit-Leaves :
      (up : Conn) (cell : Cell) → Leaving cid st (unknown_circuit v up cid cell)
  unfolding unknown_circuit
  unknown_circuit-Leaves up cell = chosen v cid st (cell.cmd == cmd_end) (done v cid st tt) (
      chosen v cid st (cell.cmd == cmd_extend) (extend-Leaves v cid st up cell)
        (failed v cid st not_found))

-- The state that a cell for the circuit may change, if the circuit is known.
module _ (v : Services) (up : Conn) (cid : CircuitId) (cell : Cell) (w : World) where
  known-Leaves :
      (p : Address) → find_address cid w ≡ some p → Leaves cid p w (handle_cell v up cid cell w).1
  unfolding handle_cell find touch
  known-Leaves p e =
      rw (e, handle_cell, find)
        ((Leaves-IsPreorder cid p).transitive (put_state-Leaves cid p _ w)
          ((dispatch-Leaves v cid p cell).step _))

  unknown-Leaves :
      (p : Address) → find_address cid w ≡ none → Leaves cid p w (handle_cell v up cid cell w).1
  unfolding handle_cell find
  unknown-Leaves p e = rw (e, handle_cell, find) ((unknown_circuit-Leaves v cid p up cell).step w)

-- Whatever the cell, the history only grows.
pub handle_cell-Grows :
    (v : Services) (up : Conn) (cid : CircuitId) (cell : Cell) (w : World)
    → Grows w.history (handle_cell v up cid cell w).1.history
handle_cell-Grows v up cid cell w = elim (Option-cases (find_address cid w)) [
  | inl e ↦ (unknown-Leaves v up cid cell w 0 e).history
  | inr (p, e) ↦ (known-Leaves v up cid cell w p e).history
]

module _ (w w' : World) (cid : CircuitId) (st : Address) (sep : IsSeparate w)
    (h : Leaves cid st w w') where
  still_bounded : (id : CircuitId) (p : Address) → find_address id w' ≡ some p → p < w'.next_address
  still_bounded id p e = elim (CircuitId-discrete id cid) [
    | yes same ↦
        let mine : find_address cid w' ≡ some p = cc (e, same) in
        elim (h.own p mine) [
          | inl e' ↦ let b = sep.bounded cid p e' in omega (arith, b, h.next)
          | inr (low, high) ↦ high
        ]
    | no ne ↦ let b = sep.bounded id p (sym (h.circuits id ne) ∙ e) in omega (arith, b, h.next)
  ]

  -- A state of the circuit is no other circuit's.
  not_shared :
      (j : CircuitId) (p : Address)
      → j ≢ cid
      → find_address cid w' ≡ some p
      → ¬ (find_address j w' ≡ some p)
  not_shared j p ne mine other =
      let old = sym (h.circuits j ne) ∙ other in
      elim (h.own p mine) [
        | inl e ↦ ne (sep.separate j cid p old e)
        | inr (low, high) ↦ let b = sep.bounded j p old in omega (arith, b, low)
      ]

  still_separate :
      (i j : CircuitId) (p : Address)
      → find_address i w' ≡ some p
      → find_address j w' ≡ some p
      → i ≡ j
  still_separate i j p e f = elim (CircuitId-discrete i cid) [
    | yes si ↦ elim (CircuitId-discrete j cid) [
      | yes sj ↦ si ∙ sym sj
      | no nj ↦ absurd (not_shared j p nj (cc (e, si)) f)
    ]
    | no ni ↦ elim (CircuitId-discrete j cid) [
      | yes sj ↦ absurd (not_shared i p ni (cc (f, sj)) e)
      | no nj ↦ sep.separate i j p (sym (h.circuits i ni) ∙ e) (sym (h.circuits j nj) ∙ f)
    ]
  ]

  pub Leaves-IsSeparate : IsSeparate w'
  Leaves-IsSeparate = record { bounded = still_bounded; separate = still_separate }

pub handle_cell-IsSeparate :
    (v : Services) (up : Conn) (cid : CircuitId) (cell : Cell) (w : World)
    → IsSeparate w
    → IsSeparate (handle_cell v up cid cell w).1
handle_cell-IsSeparate v up cid cell w sep = elim (Option-cases (find_address cid w)) [
  | inl e ↦ Leaves-IsSeparate w _ cid 0 sep (unknown-Leaves v up cid cell w 0 e)
  | inr (p, e) ↦ Leaves-IsSeparate w _ cid p sep (known-Leaves v up cid cell w p e)
]

-- For a relay whose circuits are kept apart: another circuit keeps its entry, its state and its streams.
pub handle_cell-isolates :
    (v : Services) (up : Conn) (cid j : CircuitId) (cell : Cell) (w : World) (q : Address)
    → IsSeparate w
    → j ≢ cid
    → find_address j w ≡ some q
    → (find_address j (handle_cell v up cid cell w).1 ≡ some q)
      × ((handle_cell v up cid cell w).1.states q ≡ w.states q)
      × (streams_of j (handle_cell v up cid cell w).1 ≡ streams_of j w)
handle_cell-isolates v up cid j cell w q sep ne e = elim (Option-cases (find_address cid w)) [
  | inl none_yet ↦
      let h = unknown-Leaves v up cid cell w w.next_address none_yet in
      let b = sep.bounded j q e in
      (h.circuits j ne ∙ e, h.states q b (λ same. omega (arith, b, same)), h.streams j ne)
  | inr (p, mine) ↦
      let h = known-Leaves v up cid cell w p mine in
      (
        h.circuits j ne ∙ e,
        h.states q (sep.bounded j q e) (λ same. ne (sep.separate j cid q e (cc (mine, same)))),
        h.streams j ne,
      )
]
