-- ===== src/Relay/World.antt =====
-- The state of a relay process. A *ConnState is an address into `states`, since the repository, a
-- handler and a goroutine may hold one pointer; `circuits` and `streams` are the two maps of
-- cmd/relay/infrastructure/repository/conn_state_repository.go (r.m and r.streams).
use go_ptor.Common.{ap, ◌≡◌, ℕ, suc, List, ◌∷◌, ◌==◌, if◌then◌else◌}
use go_ptor.Common.Map.{Map}
use go_ptor.Common.Result.{Result, ok}
use go_ptor.Common.Exec.{Exec}
use go_ptor.Value.Circuit.{CircuitId}
use go_ptor.Value.Stream.{StreamId}
use go_ptor.Crypto.{Aead}
use go_ptor.Crypto.Exchange.{Exchange}
use go_ptor.Net.{Conn, Env, History}
use go_ptor.Payload.{Gob}
use go_ptor.Relay.ConnState.{ConnState}

abbrev pub Address : Type 0
Address = ℕ

-- The goroutines that the use cases start.
pub data Task : Type 0 where
  serve_conn : Conn → Task
  forward_upstream : Address → CircuitId → StreamId → Conn → Task

pub record World : Type 0 where
  pub history : History
  pub states : Address → ConnState
  pub next_address : Address
  pub circuits : Map CircuitId Address
  pub streams : Map CircuitId (Map StreamId Conn)
  pub tasks : List Task

-- What a relay is built from.
pub record Services : Type 0 where
  pub env : Env
  pub aead : Aead
  pub gob : Gob
  pub exchange : Exchange

abbrev pub Act : Type 0 → Type 0
Act A = Exec World A

-- Runs an action on the network alone.
abbrev pub net : {A : Type 0} → Exec History A → Act A
net m w = ((m w.history).0, record w { history = (m w.history).1 })

-- `*p = s`
abbrev pub store : (Address → ConnState) → Address → ConnState → Address → ConnState
store f p s q = if p == q then s else f q

abbrev pub put_state : Address → ConnState → World → World
put_state p s w = record w { states = store w.states p s }

-- `*p`
abbrev pub get_state : Address → Act ConnState
get_state p w = (ok (w.states p), w)

-- A method that changes the object and returns a value.
abbrev pub on_state : {A : Type 0} → (ConnState → A × ConnState) → Address → Act A
on_state f p w = (ok (f (w.states p)).0, put_state p (f (w.states p)).1 w)

-- `&ConnState{…}`: a fresh address.
abbrev pub allocate : ConnState → Act Address
allocate s w =
    (ok w.next_address, record (put_state w.next_address s w) { next_address = suc w.next_address })

-- `go task`
abbrev pub go : Task → Act (Unit {0})
go t w = (ok tt, record w { tasks = t ∷ w.tasks })

-- A network action that succeeds, run in a world.
pub net-ok :
    (m : Exec History (Unit {0})) (w : World) {h' : History}
    → m w.history ≡ (ok tt, h')
    → net m w ≡ (ok tt, record w { history = h' })
net-ok m w e = ap (λ (r : Result (Unit {0}) × History). (r.0, record w { history = r.1 })) e
