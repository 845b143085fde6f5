-- ===== src/Client/Resolve.antt =====
-- cmd/client/usecase/resolve_target_address_usecase.go: the address that the exit relay is to dial.
-- Also hidden_addr.go and endpoint.go of shared/domain/value_object.
pub mod Printed
use Prim.Native.String.{slice, len}
use Prim.Native.String as Text
use text.Mathlib.Text.{◌==◌ as str_eq}
use go_ptor.Common.{
  ◌≡◌, ◌<◌, ◌≤◌, refl, inl, inr, Bool-cases, arith, ℕ, zero, suc, ◌+◌, ◌-◌, ◌/◌, ◌%◌, Bool, true,
  false, ◌&&◌, Option, none, some, List, [], ◌∷◌, ◌==◌, leb, ltb, if◌then◌else◌, String,
}
use go_ptor.Common.Result.{Result, ok, err, panic, bad_endpoint, hidden_service_not_found}
use go_ptor.Cell.{Bytes}
use go_ptor.Net.{Env}
use go_ptor.Value.Relay.{RelayId}
use go_ptor.Client.Hidden.{HiddenService, find_by_address_string}

-- net.ParseIP (`none` is nil) and what To4 and To16 find of the address, strings.ToLower, SHA3-256,
-- and base32 with the standard alphabet.
pub record Names : Type 0 where
  pub parse_ip : String → Option Bytes
  pub to4 : Bytes → Option Bytes
  pub to16 : Bytes → Option Bytes
  pub to_lower : String → String
  pub sha3 : Bytes → Bytes
  pub base32 : Bytes → String

-- `%d`: one digit, and the digits of a number with fuel for each of them.
abbrev digit : ℕ → String
digit d = slice "0123456789" d (d + 1)

unfoldable pub digits : ℕ → ℕ → String
digits zero n = ""
digits (suc fuel) n =
    let front = digits fuel (n / 10) in
    if ltb n 10 then digit n else Text.◌++◌ front (digit (n % 10))

unfoldable pub decimal : ℕ → String
unfolding digits
decimal n = digits (suc n) n

-- Fuel above the number is enough: more of it changes nothing.
digits-enough : (f g n : ℕ) → n < f → n < g → digits f n ≡ digits g n
unfolding digits
digits-enough zero g n h k = absurd (omega (arith, h))
digits-enough (suc f) zero n h k = absurd (omega (arith, k))
digits-enough (suc f) (suc g) n h k = elim (Bool-cases (ltb n 10)) [
  | inl small ↦ rw small refl
  | inr big ↦
      let more : 10 ≤ n = ground (arith, big) in
      let fewer : n / 10 < n = omega (arith, more) in
      rw (big, digits-enough f g (n / 10) (omega (arith, h, fewer)) (omega (arith, k, fewer))) refl
]

-- strings.HasSuffix
unfoldable pub has_suffix : String → String → Bool
has_suffix s t = leb (len t) (len s) && str_eq (slice s (len s - len t) (len s)) t

-- fmt.Sprintf("%s:%d", host, port), and with brackets
unfoldable pub host_port : String → ℕ → String
unfolding decimal
host_port host port = Text.◌++◌ host (Text.◌++◌ ":" (decimal port))

unfoldable pub bracketed : String → ℕ → String
unfolding decimal
bracketed host port = Text.◌++◌ "[" (Text.◌++◌ host (Text.◌++◌ "]:" (decimal port)))

is_some : Option Bytes → Bool
is_some none = false
is_some (some b) = true

-- ResolveTargetAddressOutput
pub record Resolved : Type 0 where
  pub dial_address : String
  pub exit_relay_id : String

module _ (t : Names) where
  -- `if ip := net.ParseIP(in.Host); ip != nil { … } else { … }`
  unfoldable pub plain_address : Option Bytes → String → ℕ → String
  unfolding is_some host_port bracketed
  plain_address none host port = host_port host port
  plain_address (some ip) host port =
      if is_some (t.to16 ip) && (if is_some (t.to4 ip) then false else true)
      then bracketed host port
      else host_port host port

  -- A .ptor name, once its service is looked up.
  unfoldable pub hidden_target : Env → String → ℕ → Result HiddenService → Result Resolved
  unfolding host_port
  hidden_target env host port (ok hs) =
      ok
        (record { dial_address = host_port host port; exit_relay_id = env.uuid_string hs.relay_id })
  hidden_target env host port (err e) = err hidden_service_not_found
  hidden_target env host port panic = panic

  unfoldable pub resolve : Env → List HiddenService → String → ℕ → Result Resolved
  unfolding has_suffix plain_address hidden_target
  resolve env known host port =
      let lower = t.to_lower host in
      if has_suffix lower ".ptor"
      then hidden_target env lower port (find_by_address_string t.to_lower lower known)
      else ok
          (record { dial_address = plain_address (t.parse_ip host) host port; exit_relay_id = "" })

  -- NewHiddenAddr; slicing a text shorter than 52 bytes panics.
  unfoldable pub new_hidden_addr : Bytes → Result String
  new_hidden_addr pub_key =
      let text = t.base32 (t.sha3 pub_key) in
      if ltb (len text) 52 then panic else ok (Text.◌++◌ (slice text 0 52) ".ptor")

  -- NewEndpoint and Endpoint.String
  unfoldable pub new_endpoint : String → ℕ → Result (String × ℕ)
  unfolding is_some
  new_endpoint host port =
      if port == 0
      then err bad_endpoint
      else if (if is_some (t.parse_ip host) then false else true) && str_eq host ""
      then err bad_endpoint
      else ok (host, port)

unfoldable pub endpoint_string : String × ℕ → String
unfolding host_port
endpoint_string e = host_port e.0 e.1
