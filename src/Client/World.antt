-- ===== src/Client/World.antt =====
-- The state of a client process. A *Circuit is an address into `objects`, since the repository, the
-- receiving loop and a request may hold one pointer; `circuits` is the map of
-- cmd/client/infrastructure/repository/circuit_repository.go, `streams` that of
-- shared/service/stream_manager_service.go, and `stream_counter` the one of stream_id.go.
use go_ptor.Common.{ℕ, Option, List, ◌∷◌, String, suc, ◌==◌, if◌then◌else◌}
use go_ptor.Common.Map.{Map}
use go_ptor.Common.Result.{ok}
use go_ptor.Common.Exec.{Exec}
use go_ptor.Value.Circuit.{CircuitId}
use go_ptor.Value.Stream.{StreamId}
use go_ptor.Cell.{Bytes}
use go_ptor.Crypto.{Aead}
use go_ptor.Crypto.Exchange.{Exchange}
use go_ptor.Net.{Env, History}
use go_ptor.Payload.{Gob}
use go_ptor.Client.Circuit.{Circuit}

abbrev pub Address : Type 0
Address = ℕ

-- The goroutine that setupStreamAndRelay starts.
pub data Task : Type 0 where
  recv_loop : String → Task

pub record World : Type 0 where
  pub history : History
  pub objects : Address → Circuit
  pub next_address : Address
  pub circuits : Map CircuitId Address
  pub streams : Map StreamId ℕ
  pub stream_counter : ℕ
  pub tasks : List Task

-- What the client's use cases are built from; `generate_rsa` is rsa.GenerateKey, and `new_uuid` the
-- uuid.New of vo.NewCircuitID.
pub record Services : Type 0 where
  pub env : Env
  pub aead : Aead
  pub gob : Gob
  pub exchange : Exchange
  pub generate_rsa : History → Option Bytes
  pub new_uuid : History → CircuitId

abbrev pub Act : Type 0 → Type 0
Act A = Exec World A

-- Runs an action on the network alone.
abbrev pub net : {A : Type 0} → Exec History A → Act A
net m w = ((m w.history).0, record w { history = (m w.history).1 })

-- `*p = c`
abbrev pub store : (Address → Circuit) → Address → Circuit → Address → Circuit
store f p c q = if p == q then c else f q

abbrev pub put_circuit : Address → Circuit → World → World
put_circuit p c w = record w { objects = store w.objects p c }

-- `*p`
abbrev pub get_circuit : Address → Act Circuit
get_circuit p w = (ok (w.objects p), w)

-- A method that changes the object and returns a value.
abbrev pub on_circuit : {A : Type 0} → (Circuit → A × Circuit) → Address → Act A
on_circuit f p w = (ok (f (w.objects p)).0, put_circuit p (f (w.objects p)).1 w)

-- `&Circuit{…}`: a fresh address.
abbrev pub allocate : Circuit → Act Address
allocate c w = (
  ok w.next_address,
  record (put_circuit w.next_address c w) { next_address = suc w.next_address },
)

-- `go task`
abbrev pub go : Task → Act (Unit {0})
go t w = (ok tt, record w { tasks = t ∷ w.tasks })
