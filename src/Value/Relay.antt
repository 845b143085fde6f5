-- ===== src/Value/Relay.antt =====
-- relay_id.go. A RelayID is a UUID of version 4; its zero value stands for none.
use go_ptor.Common.{Option, none, some, List, ℕ, not, ◌==◌, if◌then◌else◌, replicate, String}
use go_ptor.Common.Result.{Result, ok, err, bad_uuid, not_uuid_v4}
use go_ptor.Cell.{Bytes}
use go_ptor.Net.{Env}

abbrev pub RelayId : Type 0
RelayId = List ℕ

-- vo.RelayID{}
abbrev pub zero_relay_id : RelayId
zero_relay_id = replicate 16 0

of_version : Env → Option Bytes → Result RelayId
of_version env none = err bad_uuid
of_version env (some id) = if not (env.uuid_version id == 4) then err not_uuid_v4 else ok id

unfoldable pub new_relay_id : Env → String → Result RelayId
unfolding of_version
new_relay_id env s = of_version env (env.uuid_parse s)
