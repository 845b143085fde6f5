-- ===== src/Client/Directory/Load.antt =====
-- Loading the directory: NewRelayRepository of relay_repository.go, NewHiddenServiceRepository of
-- hidden_service_repository.go and FetchJSON of http_client.go (cmd/client/infrastructure).
use Prim.Native.Char.{code}
use Prim.Native.String as Text
use text.Mathlib.Text.{◌==◌ as str_eq}
use go_ptor.Common.{
  ℕ, ◌-◌, ◌%◌, ◌^◌, ◌&&◌, Option, none, some, List, [], ◌∷◌, ◌==◌, if◌then◌else◌, String,
}
use go_ptor.Common.Result.{Result, ok, err, ◌>>=◌, bad_endpoint, bad_port, fetch_failed}
use go_ptor.Cell.{Bytes}
use go_ptor.Net.{Env}
use go_ptor.Value.Relay.{new_relay_id}
use go_ptor.Keys.{KeyFormats, rsa_pub_key_from_pem, parse_public_key_from_pem, or_error}
use go_ptor.Client.Resolve.{Names, new_endpoint, endpoint_string}
use go_ptor.Client.Directory.{Relay, new_relay, set_online}
use go_ptor.Client.Hidden.{HiddenService}

-- The entries of the two JSON lists.
pub record RelayDto : Type 0 where
  pub id : String
  pub endpoint : String
  pub pub_key : Bytes

pub record HiddenServiceDto : Type 0 where
  pub address : String
  pub relay : String
  pub pub_key : Bytes

-- A Go int: `n` and `-(n + 1)`.
pub data GoInt : Type 0 where
  pos negsuc : ℕ → GoInt

-- uint16(n)
unfoldable pub to_uint16 : GoInt → ℕ
to_uint16 (pos n) = n % 2 ^ 16
to_uint16 (negsuc n) = 2 ^ 16 - 1 - n % 2 ^ 16

-- net/http (the status and the body, or an error), encoding/json, net.SplitHostPort, strconv.Atoi.
pub record Web : Type 0 where
  pub get : String → Option (ℕ × Bytes)
  pub relays_json : Bytes → Option (List RelayDto)
  pub hidden_services_json : Bytes → Option (List HiddenServiceDto)
  pub split_host_port : String → Option (String × String)
  pub atoi : String → Option GoInt

-- strings.TrimRight(s, "/")
unfoldable pub trim_slashes : String → String
trim_slashes Text.[] = ""
trim_slashes (Text.◌∷◌ c s) =
    let rest = trim_slashes s in if str_eq rest "" && code c == 47 then "" else Text.◌∷◌ c rest

module _ {T : Type 0} (web : Web) (decode : Bytes → Option T) where
  with_status : Option (ℕ × Bytes) → Result T
  with_status none = err fetch_failed
  with_status (some (status, body)) =
      if status == 200 then or_error fetch_failed (decode body) else err fetch_failed

  unfoldable pub fetch_json : String → Result T
  unfolding with_status
  fetch_json url = with_status (web.get url)

module _ (env : Env) (web : Web) (t : Names) (f : KeyFormats) where
  -- One round of the loop over the entries.
  unfoldable pub load_relay : RelayDto → Result Relay
  unfolding to_uint16
  load_relay r = new_relay_id env r.id >>= λ id.
      or_error bad_endpoint (web.split_host_port r.endpoint) >>= λ parts.
      or_error bad_port (web.atoi parts.1) >>= λ port.
      new_endpoint t parts.0 (to_uint16 port) >>= λ endpoint.
      rsa_pub_key_from_pem f r.pub_key >>= λ key.
      ok (set_online (new_relay id (endpoint_string endpoint)))

  -- The loop stops at the first error.
  unfoldable pub load_relays : List RelayDto → Result (List Relay)
  unfolding load_relay
  load_relays [] = ok []
  load_relays (r ∷ rs) = load_relay r >>= λ relay. load_relays rs >>= λ relays. ok (relay ∷ relays)

  unfoldable pub new_relay_repository : String → Result (List Relay)
  unfolding fetch_json load_relays trim_slashes
  new_relay_repository url =
      fetch_json web web.relays_json (Text.◌++◌ (trim_slashes url) "/relays") >>= load_relays

  unfoldable pub load_hidden_service : HiddenServiceDto → Result HiddenService
  load_hidden_service h = new_relay_id env h.relay >>= λ id.
      parse_public_key_from_pem f h.pub_key >>= λ key.
      ok (record { address = h.address; relay_id = id })

  unfoldable pub load_hidden_services : List HiddenServiceDto → Result (List HiddenService)
  unfolding load_hidden_service
  load_hidden_services [] = ok []
  load_hidden_services (h ∷ hs) =
      load_hidden_service h >>= λ s. load_hidden_services hs >>= λ rest. ok (s ∷ rest)

  unfoldable pub new_hidden_service_repository : String → Result (List HiddenService)
  unfolding fetch_json load_hidden_services trim_slashes
  new_hidden_service_repository url =
      fetch_json web web.hidden_services_json (Text.◌++◌ (trim_slashes url) "/hidden_services")
      >>= load_hidden_services
