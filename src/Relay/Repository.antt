-- ===== src/Relay/Repository.antt =====
-- cmd/relay/infrastructure/repository/conn_state_repository.go. The client's package of the same
-- name is a copy of the file. Each method holds the lock throughout, so it is one step.
pub mod Laws
pub mod Table
use go_ptor.Common.{
  ℕ, ◌-◌, ◌≡◌, Bool, Option, none, some, List, [], ◌∷◌, ltb, if◌then◌else◌, ℕ_discrete,
}
use go_ptor.Common.Map.{Map, lookup, insert, delete}
use go_ptor.Common.Result.{Result, ok, err, not_found}
use go_ptor.Value.Circuit.{CircuitId, CircuitId-discrete}
use go_ptor.Value.Stream.{StreamId}
use go_ptor.Net.{Conn, Env, History}
use go_ptor.Relay.ConnState.{ConnState, touch, close_conn, close_both}
use go_ptor.Relay.World.{World, Address, Act, put_state}

-- `for _, conn := range streams { if conn != nil { conn.Close() } }`
unfoldable pub close_streams : Map StreamId Conn → History → History
unfolding close_conn
close_streams [] h = h
close_streams ((sid, conn) ∷ m) h = close_streams m (close_conn conn h)

abbrev pub streams_of : CircuitId → World → Option (Map StreamId Conn)
streams_of id w = lookup CircuitId-discrete id w.streams

abbrev pub find_address : CircuitId → World → Option Address
find_address id w = lookup CircuitId-discrete id w.circuits

-- `if streams, exists := r.streams[id]; exists { … }` of Delete, and DestroyAllStreams
unfoldable pub destroy_all_streams : CircuitId → World → World
unfolding close_streams
destroy_all_streams id w = elim (streams_of id w) [
  | none ↦ w
  | some m ↦ record w {
    history = close_streams m w.history;
    streams = delete CircuitId-discrete id w.streams;
  }
]

module _ (env : Env) where
  -- Add; it never fails.
  unfoldable pub add : CircuitId → Address → World → World
  unfolding touch
  add id p w = record (put_state p (touch (env.now w.history) (w.states p)) w) {
    circuits = insert CircuitId-discrete id p w.circuits;
  }

  unfoldable pub find : CircuitId → Act Address
  unfolding touch
  find id w = elim (find_address id w) [
    | none ↦ (err not_found, w)
    | some p ↦ (ok p, put_state p (touch (env.now w.history) (w.states p)) w)
  ]

-- Delete; it never fails.
unfoldable pub remove_circuit : CircuitId → World → World
unfolding close_both destroy_all_streams
remove_circuit id w = elim (find_address id w) [
  | none ↦ w
  | some p ↦ destroy_all_streams id (record w {
    history = close_both (w.states p) w.history;
    circuits = delete CircuitId-discrete id w.circuits;
  })
]

-- One entry of the loop in gc: `since` is time.Since(st.LastUsed()).
unfoldable pub gc_entry : ℕ → ℕ → CircuitId × Address → World → World
unfolding close_both
gc_entry ttl now (id, p) w =
    if ltb ttl (now - (w.states p).last)
    then record w {
      history = close_both (w.states p) w.history;
      circuits = delete CircuitId-discrete id w.circuits;
    }
    else w

unfoldable pub gc_loop : ℕ → ℕ → Map CircuitId Address → World → World
unfolding gc_entry
gc_loop ttl now [] w = w
gc_loop ttl now (e ∷ m) w = gc_loop ttl now m (gc_entry ttl now e w)

-- What gc does at a tick at time `now`, under the lock.
unfoldable pub gc_tick : ℕ → ℕ → World → World
unfolding gc_loop
gc_tick ttl now w = gc_loop ttl now w.circuits w

streams_or_new : Option (Map StreamId Conn) → Map StreamId Conn
streams_or_new none = []
streams_or_new (some m) = m

-- AddStream; it never fails.
unfoldable pub add_stream : CircuitId → StreamId → Conn → World → World
unfolding streams_or_new
add_stream id sid conn w = record w {
  streams =
      insert CircuitId-discrete id (insert ℕ_discrete sid conn (streams_or_new (streams_of id w)))
        w.streams;
}

found : Option Conn → Result Conn
found none = err not_found
found (some conn) = ok conn

in_streams : StreamId → Option (Map StreamId Conn) → Result Conn
unfolding found
in_streams sid none = err not_found
in_streams sid (some m) = found (lookup ℕ_discrete sid m)

unfoldable pub get_stream : CircuitId → StreamId → World → Result Conn
unfolding in_streams
get_stream id sid w = in_streams sid (streams_of id w)

-- The inner map after `delete(streams, streamID)`, and the outer one after the clean-up.
unfoldable pub put_back : CircuitId → Map StreamId Conn → World → World
put_back id [] w = record w { streams = delete CircuitId-discrete id w.streams }
put_back id (e ∷ m) w = record w { streams = insert CircuitId-discrete id (e ∷ m) w.streams }

-- RemoveStream; it never fails.
unfoldable pub remove_stream : CircuitId → StreamId → World → World
unfolding close_conn put_back
remove_stream id sid w = elim (streams_of id w) [
  | none ↦ w
  | some m ↦ elim (lookup ℕ_discrete sid m) [
    | none ↦ put_back id m w
    | some conn ↦
        put_back id (delete ℕ_discrete sid m) (record w { history = close_conn conn w.history })
  ]
]
