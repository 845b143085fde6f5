-- ===== src/Relay/Repository/Table.antt =====
-- What the repository of cmd/relay/infrastructure/repository/conn_state_repository.go promises: two
-- finite maps, without the nested map of streams and its clean-up.
use go_ptor.Common.{◌≡◌, ◌∙◌, refl, ap, Option, none, some, List, [], ◌∷◌, arith, ite, ℕ_discrete}
use go_ptor.Relay.ConnState.{close_both}
use go_ptor.Common.Map.{delete, lookup, lookup-insert, lookup-delete}
use go_ptor.Common.Result.{Result, ok, err, not_found}
use go_ptor.Value.Circuit.{CircuitId, CircuitId-discrete}
use go_ptor.Value.Stream.{StreamId}
use go_ptor.Net.{Conn, Env}
use go_ptor.Relay.World.{World, Address}
use go_ptor.Relay.Repository.{
  find_address, add, add_stream, remove_stream, remove_circuit, destroy_all_streams, get_stream,
  put_back,
}
use go_ptor.Relay.Repository.Laws.{
  get_stream-add_stream, get_stream-remove_stream, get_stream-destroy_all_streams,
}

-- The methods that change the repository, but for the garbage collector.
pub data Method : Type 0 where
  add_circuit : CircuitId → Address → Method
  delete_circuit : CircuitId → Method
  add_to : CircuitId → StreamId → Conn → Method
  remove_from : CircuitId → StreamId → Method
  destroy_all : CircuitId → Method

pub record Table : Type 0 where
  pub circuits : CircuitId → Option Address
  pub streams : CircuitId → StreamId → Option Conn

without_streams : CircuitId → Table → CircuitId → StreamId → Option Conn
without_streams id t j s = ite (CircuitId-discrete j id) none (t.streams j s)

deleted : CircuitId → Option Address → Table → Table
unfolding without_streams
deleted id none t = t
deleted id (some p) t = record {
  circuits = λ j. ite (CircuitId-discrete j id) none (t.circuits j);
  streams = without_streams id t;
}

-- What a method does to the two maps.
unfoldable pub promised : Method → Table → Table
unfolding deleted without_streams
promised (add_circuit id p) t = record t {
  circuits = λ j. ite (CircuitId-discrete j id) (some p) (t.circuits j);
}
promised (delete_circuit id) t = deleted id (t.circuits id) t
promised (add_to id sid c) t = record t {
  streams = λ j s.
      ite (CircuitId-discrete j id) (ite (ℕ_discrete s sid) (some c) (t.streams j s))
        (t.streams j s);
}
promised (remove_from id sid) t = record t {
  streams = λ j s.
      ite (CircuitId-discrete j id) (ite (ℕ_discrete s sid) none (t.streams j s)) (t.streams j s);
}
promised (destroy_all id) t = record t { streams = without_streams id t }

unfoldable pub perform : Env → Method → World → World
perform env (add_circuit id p) w = add env id p w
perform env (delete_circuit id) w = remove_circuit id w
perform env (add_to id sid c) w = add_stream id sid c w
perform env (remove_from id sid) w = remove_stream id sid w
perform env (destroy_all id) w = destroy_all_streams id w

abbrev pub or_missing : Option Conn → Result Conn
or_missing none = err not_found
or_missing (some c) = ok c

-- Find and GetStream answer by the two maps.
pub record Shows (w : World) (t : Table) : Type 0 where
  pub circuit : (j : CircuitId) → find_address j w ≡ t.circuits j
  pub stream : (j : CircuitId) (s : StreamId) → get_stream j s w ≡ or_missing (t.streams j s)

or_missing-ite :
    {P : Type 0} (d : Dec P) (a b : Option Conn)
    → or_missing (ite d a b) ≡ ite d (or_missing a) (or_missing b)
or_missing-ite (yes y) a b = refl
or_missing-ite (no n) a b = refl

get_stream-add_stream_any :
    (id j : CircuitId) (sid s : StreamId) (c : Conn) (w : World)
    → get_stream j s (add_stream id sid c w)
      ≡ ite
          (CircuitId-discrete j id)
          (ite (ℕ_discrete s sid) (ok c) (get_stream j s w))
          (get_stream j s w)
get_stream-add_stream_any id j sid s c w = elim (CircuitId-discrete j id) [
  | yes y ↦ ground (arith, y, (get_stream-add_stream id sid c w).0 s)
  | no n ↦ ground (arith, n, (get_stream-add_stream id sid c w).1 j s n)
]

circuits-remove_stream :
    (id : CircuitId) (sid : StreamId) (w : World) → (remove_stream id sid w).circuits ≡ w.circuits
unfolding remove_stream put_back
circuits-remove_stream id sid w = ground arith

circuits-destroy_all_streams :
    (id : CircuitId) (w : World) → (destroy_all_streams id w).circuits ≡ w.circuits
unfolding destroy_all_streams
circuits-destroy_all_streams id w = ground arith

-- Every table has one view of what is there; a step of the repository is that of the table.
module _ (env : Env) (w : World) (t : Table) (shows : Shows w t) where
  add_circuit-Shows :
      (id : CircuitId) (p : Address) → Shows (add env id p w) (promised (add_circuit id p) t)
  unfolding add get_stream promised
  add_circuit-Shows id p = record {
    circuit = λ j.
        lookup-insert CircuitId-discrete j id p w.circuits
        ∙ ap (λ o. ite (CircuitId-discrete j id) (some p) o) (shows.circuit j);
    stream = λ j s. shows.stream j s;
  }

  add_to-Shows :
      (id : CircuitId) (sid : StreamId) (c : Conn)
      → Shows (add_stream id sid c w) (promised (add_to id sid c) t)
  unfolding promised
  add_to-Shows id sid c = record {
    circuit = λ j. unfold add_stream in shows.circuit j;
    stream = λ j s.
        rw
          (
            or_missing-ite (CircuitId-discrete j id),
            or_missing-ite (ℕ_discrete s sid),
            ← shows.stream j s,
          )
          (get_stream-add_stream_any id j sid s c w);
  }

  remove_from-Shows :
      (id : CircuitId) (sid : StreamId)
      → Shows (remove_stream id sid w) (promised (remove_from id sid) t)
  unfolding promised
  remove_from-Shows id sid = record {
    circuit = λ j.
        ap (λ m. lookup CircuitId-discrete j m) (circuits-remove_stream id sid w) ∙ shows.circuit j;
    stream = λ j s.
        rw
          (
            or_missing-ite (CircuitId-discrete j id),
            or_missing-ite (ℕ_discrete s sid),
            ← shows.stream j s,
          )
          (get_stream-remove_stream id j sid s w);
  }

  destroy_all-Shows :
      (id : CircuitId) → Shows (destroy_all_streams id w) (promised (destroy_all id) t)
  unfolding promised without_streams
  destroy_all-Shows id = record {
    circuit = λ j.
        ap (λ m. lookup CircuitId-discrete j m) (circuits-destroy_all_streams id w)
        ∙ shows.circuit j;
    stream = λ j s.
        rw (or_missing-ite (CircuitId-discrete j id), ← shows.stream j s)
          (get_stream-destroy_all_streams id j s w);
  }

  deleted-Shows :
      (id : CircuitId) (o : Option Address)
      → find_address id w ≡ o
      → Shows (remove_circuit id w) (deleted id o t)
  unfolding remove_circuit deleted without_streams get_stream
  deleted-Shows id none e = rw (e, remove_circuit) shows
  deleted-Shows id (some p) e =
      let w₁ : World = record w {
        history = close_both (w.states p) w.history;
        circuits = delete CircuitId-discrete id w.circuits;
      } in
      rw (e, remove_circuit)
        (record {
          circuit = λ j.
              ap (λ m. lookup CircuitId-discrete j m) (circuits-destroy_all_streams id w₁)
              ∙ lookup-delete CircuitId-discrete j id w.circuits
              ∙ ap (λ o. ite (CircuitId-discrete j id) none o) (shows.circuit j);
          stream = λ j s.
              rw (or_missing-ite (CircuitId-discrete j id), ← shows.stream j s)
                (get_stream-destroy_all_streams id j s w₁);
        })

  pub perform-Shows : (m : Method) → Shows (perform env m w) (promised m t)
  unfolding perform promised
  perform-Shows (add_circuit id p) = add_circuit-Shows id p
  perform-Shows (delete_circuit id) = deleted-Shows id (t.circuits id) (shows.circuit id)
  perform-Shows (add_to id sid c) = add_to-Shows id sid c
  perform-Shows (remove_from id sid) = remove_from-Shows id sid
  perform-Shows (destroy_all id) = destroy_all-Shows id

-- Methods one after the other.
abbrev pub perform_all : Env → List Method → World → World
perform_all env [] w = w
perform_all env (m ∷ ms) w = perform_all env ms (perform env m w)

abbrev pub promised_all : List Method → Table → Table
promised_all [] t = t
promised_all (m ∷ ms) t = promised_all ms (promised m t)

-- Every sequence of Add, Delete, AddStream, RemoveStream and DestroyAllStreams keeps what Find and
-- GetStream answer equal to two plain maps, from circuits to states and from circuits and streams
-- to connections, that are updated alongside; Delete of an unknown circuit changes neither.
pub perform_all-refines :
    (env : Env) (ms : List Method) (w : World) (t : Table)
    → Shows w t
    → Shows (perform_all env ms w) (promised_all ms t)
perform_all-refines env [] w t shows = shows
perform_all-refines env (m ∷ ms) w t shows =
    perform_all-refines env ms (perform env m w) (promised m t) (perform-Shows env w t shows m)
