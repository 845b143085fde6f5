-- ===== src/Relay/Leaves/Runs.antt =====
-- A relay as a machine: its steps are those of HandleCell (cmd/relay/handler/relay_handler.go), of gc
-- (cmd/relay/infrastructure/repository/conn_state_repository.go) and of the goroutines of
-- forwardUpstream (cmd/relay/usecase/handle_begin_usecase.go), in any order.
use mathlib.Core.List.{Mem}
use go_ptor.Common.{
  ℕ, ◌≡◌, ◌≢◌, ◌-◌, inl, inr, refl, sym, ap, ◌∙◌, none, some, [], ◌∷◌, Bool-cases, ltb,
}
use go_ptor.Common.Map.{Map, delete, lookup, lookup-delete_ne, lookup-delete_self}
use go_ptor.Value.Circuit.{CircuitId, CircuitId-discrete}
use go_ptor.Value.Stream.{StreamId}
use go_ptor.Cell.{Bytes, Cell}
use go_ptor.Net.{Conn}
use go_ptor.Relay.World.{World, Address, Services, forward_upstream}
use go_ptor.Relay.Repository.{find_address, streams_of, gc_entry, gc_loop, gc_tick}
use go_ptor.Relay.Use.Begin.{upstream_chunk, end_upstream}
use go_ptor.Relay.Handler.{handle_cell}
use go_ptor.Relay.Leaves.Control.{upstream_chunk-Leaves, end_upstream-Leaves}
use go_ptor.Relay.Leaves.Isolation.{
  IsSeparate, Leaves-IsSeparate, handle_cell-IsSeparate, handle_cell-isolates,
}

-- The circuits of the second world are among those of the first.
record Shrinks (w w' : World) : Type 0 where
  next : w'.next_address ≡ w.next_address
  kept : (id : CircuitId) (p : Address) → find_address id w' ≡ some p → find_address id w ≡ some p

Shrinks-IsSeparate : {w w' : World} → Shrinks w w' → IsSeparate w → IsSeparate w'
Shrinks-IsSeparate s sep = record {
  bounded = λ id p e. rw (s.next) (sep.bounded id p (s.kept id p e));
  separate = λ i j p e f. sep.separate i j p (s.kept i p e) (s.kept j p f);
}

kept_by_delete :
    (m : Map CircuitId Address) (j id : CircuitId) (p : Address)
    → lookup CircuitId-discrete id (delete CircuitId-discrete j m) ≡ some p
    → lookup CircuitId-discrete id m ≡ some p
kept_by_delete m j id p e = elim (CircuitId-discrete id j) [
  | yes same ↦ let gone = lookup-delete_self CircuitId-discrete j m in absurd (cc (gone, e, same))
  | no ne ↦ sym (lookup-delete_ne CircuitId-discrete id j m ne) ∙ e
]

gc_entry-Shrinks :
    (ttl now : ℕ) (id : CircuitId) (p : Address) (w : World)
    → Shrinks w (gc_entry ttl now (id, p) w)
unfolding gc_entry
gc_entry-Shrinks ttl now id p w = elim (Bool-cases (ltb ttl (now - (w.states p).last))) [
  | inl e ↦
      rw (e, gc_entry) (record { next = refl; kept = λ i q f. kept_by_delete w.circuits id i q f })
  | inr e ↦ rw (e, gc_entry) (record { next = refl; kept = λ i q f. f })
]

gc_loop-IsSeparate :
    (ttl now : ℕ) (m : Map CircuitId Address) (w : World)
    → IsSeparate w
    → IsSeparate (gc_loop ttl now m w)
unfolding gc_loop
gc_loop-IsSeparate ttl now [] w sep = sep
gc_loop-IsSeparate ttl now ((id, p) ∷ m) w sep =
    gc_loop-IsSeparate ttl now m _ (Shrinks-IsSeparate (gc_entry-Shrinks ttl now id p w) sep)

module _ (v : Services) where
  -- A goroutine of forwardUpstream does one round of its loop at a time, and closes its connection
  -- at the end.
  pub data Step (w : World) : World → Type 0 where
    handled : (up : Conn) (cid : CircuitId) (cell : Cell) → Step w (handle_cell v up cid cell w).1
    collected : (ttl now : ℕ) → Step w (gc_tick ttl now w)
    sent :
        (st : Address) (cid : CircuitId) (sid : StreamId) (down : Conn) (chunk : Bytes)
        → Mem (forward_upstream st cid sid down) w.tasks
        → Step w (upstream_chunk v st cid sid chunk w).1
    ended :
        (st : Address) (cid : CircuitId) (sid : StreamId) (down : Conn)
        → Mem (forward_upstream st cid sid down) w.tasks
        → Step w (end_upstream v st cid sid down w).1

  pub data Reach (w : World) : World → Type 0 where
    here : Reach w w
    next : {t u : World} → Reach w t → Step t u → Reach w u

  Step-IsSeparate : {t u : World} → Step t u → IsSeparate t → IsSeparate u
  unfolding gc_tick
  Step-IsSeparate {t} (handled up cid cell) sep = handle_cell-IsSeparate v up cid cell t sep
  Step-IsSeparate {t} (collected ttl now) sep = gc_loop-IsSeparate ttl now t.circuits t sep
  Step-IsSeparate {t} (sent st cid sid down chunk m) sep =
      Leaves-IsSeparate t _ cid st sep ((upstream_chunk-Leaves v cid st sid chunk).step t)
  Step-IsSeparate {t} (ended st cid sid down m) sep =
      Leaves-IsSeparate t _ cid st sep ((end_upstream-Leaves v cid st sid down).step t)

  Reach-IsSeparate : {w u : World} → Reach w u → IsSeparate w → IsSeparate u
  Reach-IsSeparate here sep = sep
  Reach-IsSeparate (next r s) sep = Step-IsSeparate s (Reach-IsSeparate r sep)

unlisted : (id : CircuitId) (p : Address) (w : World) → w.circuits ≡ [] → find_address id w ≢ some p
unfolding lookup
unlisted id p w e f =
    let none_there : find_address id w ≡ none = ap (λ m. lookup CircuitId-discrete id m) e in
    absurd (cc (none_there, f))

-- A repository without circuits, as NewConnStateRepository leaves it.
started-IsSeparate : (w : World) → w.circuits ≡ [] → IsSeparate w
started-IsSeparate w e = record {
  bounded = λ id p f. absurd (unlisted id p w e f);
  separate = λ i j p f g. absurd (unlisted i p w e f);
}

-- In every state that a relay reaches from an empty repository, by cells in any order, garbage
-- collection and the goroutines that forward upstream, a cell for one circuit leaves every other
-- known circuit alone: it has the same entry, its state is unchanged and its streams are the same,
-- whatever the network does.
pub Reach-isolates :
    (v : Services) (w u : World) (up : Conn) (cid j : CircuitId) (cell : Cell) (q : Address)
    → w.circuits ≡ []
    → Reach v w u
    → j ≢ cid
    → find_address j u ≡ some q
    → (find_address j (handle_cell v up cid cell u).1 ≡ some q)
      × ((handle_cell v up cid cell u).1.states q ≡ u.states q)
      × (streams_of j (handle_cell v up cid cell u).1 ≡ streams_of j u)
Reach-isolates v w u up cid j cell q e r ne f =
    handle_cell-isolates v up cid j cell u q (Reach-IsSeparate v r (started-IsSeparate w e)) ne f
