-- ===== src/Client/Repository.antt =====
-- cmd/client/infrastructure/repository/circuit_repository.go. Each method holds the lock
-- throughout, so it is one step.
use go_ptor.Common.{Option, none, some, List}
use go_ptor.Common.Map.{lookup, insert, delete, values}
use go_ptor.Common.Result.{Result, ok, err, not_found}
use go_ptor.Value.Circuit.{CircuitId, CircuitId-discrete}
use go_ptor.Client.Circuit.{wipe_keys}
use go_ptor.Client.World.{World, Address, Act, put_circuit}

abbrev pub find_address : CircuitId → World → Option Address
find_address id w = lookup CircuitId-discrete id w.circuits

-- Save; it never fails.
unfoldable pub save : Address → World → World
save p w = record w { circuits = insert CircuitId-discrete (w.objects p).id p w.circuits }

unfoldable pub or_not_found : Option Address → Result Address
or_not_found none = err not_found
or_not_found (some p) = ok p

unfoldable pub find : CircuitId → Act Address
unfolding or_not_found
find id w = (or_not_found (find_address id w), w)

unfoldable pub wipe_and_delete : CircuitId → Option Address → World → World
wipe_and_delete id none w = w
wipe_and_delete id (some p) w = record (put_circuit p (wipe_keys (w.objects p)) w) {
  circuits = delete CircuitId-discrete id w.circuits;
}

-- Delete; it never fails.
unfoldable pub remove_circuit : CircuitId → World → World
unfolding wipe_and_delete
remove_circuit id w = wipe_and_delete id (find_address id w) w

unfoldable pub list_active : World → List Address
list_active w = values w.circuits
