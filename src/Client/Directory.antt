-- ===== src/Client/Directory.antt =====
-- The relays a client knows: shared/domain/entity/relay.go and
-- cmd/client/infrastructure/repository/relay_repository.go.
pub mod Laws
pub mod Load
pub mod Start
use go_ptor.Common.{
  Bool, true, false, Option, none, some, List, [], ◌∷◌, ◌++◌, ℕ_discrete, ite, if◌then◌else◌,
  String,
}
use go_ptor.Common.Result.{Result, ok, err, not_found}
use go_ptor.Value.Relay.{RelayId}

-- The key and the metrics of a relay, which the client does not use, are left out.
pub record Relay : Type 0 where
  pub id : RelayId
  pub endpoint : String
  pub online : Bool

unfoldable pub new_relay : RelayId → String → Relay
new_relay id endpoint = record { id = id; endpoint = endpoint; online = false }

unfoldable pub set_online : Relay → Relay
set_online r = record r { online = true }

unfoldable pub set_offline : Relay → Relay
set_offline r = record r { online = false }

unfoldable pub RelayId-discrete : Discrete RelayId
RelayId-discrete = hlevel ℕ_discrete

-- The loop of Save: every entry with the identifier is replaced.
unfoldable pub replace_each : Relay → List Relay → List Relay
replace_each rel [] = []
replace_each rel (r ∷ rs) =
    let rest = replace_each rel rs in ite (RelayId-discrete r.id rel.id) (rel ∷ rest) (r ∷ rest)

-- Save; it never fails.
unfoldable pub save : Relay → List Relay → List Relay
unfolding replace_each
save rel s = replace_each rel s ++ (rel ∷ [])

unfoldable pub find_by_id : RelayId → List Relay → Result Relay
find_by_id id [] = err not_found
find_by_id id (r ∷ rs) = ite (RelayId-discrete r.id id) (ok r) (find_by_id id rs)

unfoldable pub online_of : List Relay → List Relay
online_of [] = []
online_of (r ∷ rs) = let rest = online_of rs in if r.online then r ∷ rest else rest

unfoldable pub or_not_found : List Relay → Result (List Relay)
or_not_found [] = err not_found
or_not_found (r ∷ rs) = ok (r ∷ rs)

unfoldable pub all_online : List Relay → Result (List Relay)
unfolding online_of or_not_found
all_online s = or_not_found (online_of s)
