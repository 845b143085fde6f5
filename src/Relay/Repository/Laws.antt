-- ===== src/Relay/Repository/Laws.antt =====
-- The streams of a repository as one map from circuit and stream to connection
-- (conn_state_repository.go of cmd/relay/infrastructure/repository and of the client).
use go_ptor.Common.{
  ℕ, ◌≡◌, ◌≢◌, ◌∙◌, refl, Option, none, some, [], ◌∷◌, arith, ite, ℕ_discrete, Option-cases, inl,
  inr,
}
use go_ptor.Common.Map.{
  Map, lookup, insert, delete, lookup-insert, lookup-delete, lookup-insert_self, lookup-insert_ne,
  lookup-delete_self, lookup-delete_ne,
}
use go_ptor.Common.Result.{ok, err, not_found}
use go_ptor.Value.Circuit.{CircuitId, CircuitId-discrete}
use go_ptor.Value.Stream.{StreamId}
use go_ptor.Net.{Conn}
use go_ptor.Relay.World.{World, Address}
use go_ptor.Relay.Repository.{
  streams_of, find_address, destroy_all_streams, remove_circuit, gc_entry, gc_loop, gc_tick,
  streams_or_new, in_streams, found, add_stream, get_stream, put_back, remove_stream,
}

in_streams-insert :
    (sid t : StreamId) (conn : Conn) (o : Option (Map StreamId Conn))
    → in_streams t (some (insert ℕ_discrete sid conn (streams_or_new o)))
      ≡ ite (ℕ_discrete t sid) (ok conn) (in_streams t o)
unfolding in_streams streams_or_new
in_streams-insert sid t conn none =
    rw (lookup-insert ℕ_discrete t sid conn []) (unfold lookup in ground arith)
in_streams-insert sid t conn (some m) = rw (lookup-insert ℕ_discrete t sid conn m) (ground arith)

-- A stream that was added is found; every other entry is as before.
pub get_stream-add_stream :
    (id : CircuitId) (sid : StreamId) (conn : Conn) (w : World)
    → ((t : StreamId)
        → get_stream id t (add_stream id sid conn w)
          ≡ ite (ℕ_discrete t sid) (ok conn) (get_stream id t w))
      × ((j : CircuitId) (t : StreamId)
          → j ≢ id
          → get_stream j t (add_stream id sid conn w) ≡ get_stream j t w)
unfolding get_stream add_stream
get_stream-add_stream id sid conn w = (
  λ t.
      rw (lookup-insert_self CircuitId-discrete id _ w.streams)
        (in_streams-insert sid t conn (streams_of id w)),
  λ j t ne. rw (lookup-insert_ne CircuitId-discrete j id _ w.streams ne) refl,
)

in_streams-put_back :
    (id : CircuitId) (m : Map StreamId Conn) (t : StreamId) (w : World)
    → get_stream id t (put_back id m w) ≡ in_streams t (some m)
unfolding get_stream in_streams put_back lookup
in_streams-put_back id [] t w = rw (lookup-delete_self CircuitId-discrete id w.streams) refl
in_streams-put_back id (e ∷ m) t w =
    rw (lookup-insert_self CircuitId-discrete id (e ∷ m) w.streams) refl

put_back_ne :
    (id j : CircuitId) (m : Map StreamId Conn) (t : StreamId) (w : World)
    → j ≢ id
    → get_stream j t (put_back id m w) ≡ get_stream j t w
unfolding get_stream put_back
put_back_ne id j [] t w ne = rw (lookup-delete_ne CircuitId-discrete j id w.streams ne) refl
put_back_ne id j (e ∷ m) t w ne =
    rw (lookup-insert_ne CircuitId-discrete j id (e ∷ m) w.streams ne) refl

get_missing :
    (id : CircuitId) (t : StreamId) (w : World)
    → streams_of id w ≡ none
    → get_stream id t w ≡ err not_found
unfolding get_stream
get_missing id t w e = rw e refl

get_there :
    (id : CircuitId) (t : StreamId) (w : World) (m : Map StreamId Conn)
    → streams_of id w ≡ some m
    → get_stream id t w ≡ found (lookup ℕ_discrete t m)
unfolding get_stream
get_there id t w m e = rw e refl

remove_stream_self :
    (id : CircuitId) (sid t : StreamId) (w : World)
    → get_stream id t (remove_stream id sid w)
      ≡ ite (ℕ_discrete t sid) (err not_found) (get_stream id t w)
unfolding remove_stream in_streams ℕ_discrete
remove_stream_self id sid t w = elim (Option-cases (streams_of id w)) [
  | inl missing ↦ rw (missing, remove_stream) (ground (arith, get_missing id t w missing))
  | inr (m, there) ↦ elim (Option-cases (lookup ℕ_discrete sid m)) [
    | inl missing ↦
        rw (there, missing, remove_stream, in_streams-put_back id m t w, get_there id t w m there)
          (unfold in_streams in ground arith)
    | inr (conn, here) ↦
        rw
          (
            there,
            here,
            remove_stream,
            in_streams-put_back id (delete ℕ_discrete sid m) t _,
            get_there id t w m there,
            in_streams,
            lookup-delete ℕ_discrete t sid m,
          )
          (unfold found in ground arith)
  ]
]

remove_stream_ne :
    (id j : CircuitId) (sid t : StreamId) (w : World)
    → j ≢ id
    → get_stream j t (remove_stream id sid w) ≡ get_stream j t w
unfolding remove_stream get_stream
remove_stream_ne id j sid t w ne = elim (Option-cases (streams_of id w)) [
  | inl missing ↦ rw (missing, remove_stream) refl
  | inr (m, there) ↦ elim (Option-cases (lookup ℕ_discrete sid m)) [
    | inl missing ↦ rw (there, missing, remove_stream) (put_back_ne id j m t w ne)
    | inr (conn, here) ↦
        rw (there, here, remove_stream) (put_back_ne id j (delete ℕ_discrete sid m) t _ ne)
  ]
]

-- After RemoveStream the stream is not found, and every other stream of this and of other circuits
-- is found as before.
pub get_stream-remove_stream :
    (id j : CircuitId) (sid t : StreamId) (w : World)
    → get_stream j t (remove_stream id sid w)
      ≡ ite
          (CircuitId-discrete j id)
          (ite (ℕ_discrete t sid) (err not_found) (get_stream j t w))
          (get_stream j t w)
get_stream-remove_stream id j sid t w = elim (CircuitId-discrete j id) [
  | yes y ↦ ground (arith, y, remove_stream_self id sid t w)
  | no n ↦ ground (arith, n, remove_stream_ne id j sid t w n)
]

-- Destroying the streams of a circuit removes all of them and no other.
pub get_stream-destroy_all_streams :
    (id j : CircuitId) (t : StreamId) (w : World)
    → get_stream j t (destroy_all_streams id w)
      ≡ ite (CircuitId-discrete j id) (err not_found) (get_stream j t w)
unfolding get_stream in_streams destroy_all_streams
get_stream-destroy_all_streams id j t w =
    ground (arith, lookup-delete CircuitId-discrete j id w.streams)

streams-gc_loop :
    (ttl now : ℕ) (m : Map CircuitId Address) (w : World)
    → (gc_loop ttl now m w).streams ≡ w.streams
unfolding gc_loop gc_entry
streams-gc_loop ttl now [] w = refl
streams-gc_loop ttl now ((id, p) ∷ m) w =
    streams-gc_loop ttl now m (gc_entry ttl now (id, p) w) ∙ ground arith

-- For a known circuit, garbage collection leaves every stream of it in place, also when it drops
-- the circuit, while deleting the circuit removes its streams.
pub get_stream-gc_tick :
    (ttl now : ℕ) (id : CircuitId) (p : Address) (sid : StreamId) (w : World)
    → find_address id w ≡ some p
    → (get_stream id sid (gc_tick ttl now w) ≡ get_stream id sid w)
      × (get_stream id sid (remove_circuit id w) ≡ err not_found)
unfolding gc_tick remove_circuit
get_stream-gc_tick ttl now id p sid w here = (
  unfold get_stream in rw (streams-gc_loop ttl now w.circuits w) refl,
  rw (here, remove_circuit, get_stream-destroy_all_streams id id sid _) (ground arith),
)
