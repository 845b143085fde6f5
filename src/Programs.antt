-- ===== src/Programs.antt =====
-- Decisions of the programs: cmd/relay/main.go (defaultTTL, loadPrivateKey), cmd/hidden/main.go (the
-- check of the listen address) and cmd/keygen/main.go (what is written to the two files).
use text.Mathlib.Text.{◌==◌ as str_eq}
use go_ptor.Common.{
  ℕ, zero, suc, ◌*◌, ◌-◌, ◌%◌, ◌^◌, ltb, Bool, false, ◌||◌, Option, none, some, if◌then◌else◌,
  String,
}
use go_ptor.Common.Result.{Result, ok, ◌>>=◌, bad_host, read_failed}
use go_ptor.Cell.{Bytes}
use go_ptor.Net.{Env}
use go_ptor.Keys.{KeyFormats, PrivateKey, parse_private_key_from_pem, or_error}
use go_ptor.Client.Directory.Load.{GoInt, pos, negsuc}

abbrev pub second : ℕ
second = 1000000000

-- A time.Duration, in nanoseconds: an int64, which wraps.
unfoldable pub to_int64 : ℕ → GoInt
to_int64 n = let m = n % 2 ^ 64 in if ltb m (2 ^ 63) then pos m else negsuc (2 ^ 64 - 1 - m)

-- `err == nil && secs > 0`
positive_or : GoInt → Option GoInt → GoInt
unfolding to_int64
positive_or ttl none = ttl
positive_or ttl (some (negsuc n)) = ttl
positive_or ttl (some (pos zero)) = ttl
positive_or ttl (some (pos (suc n))) = to_int64 (suc n * second)

-- `atoi` is strconv.Atoi.
unfoldable pub default_ttl : Env → (String → Option GoInt) → GoInt
unfolding positive_or
default_ttl env atoi =
    let text = env.getenv "PTOR_TTL_SECONDS" in
    if str_eq text "" then pos (60 * second) else positive_or (pos (60 * second)) (atoi text)

-- `file` is what os.ReadFile returns.
unfoldable pub load_private_key : KeyFormats → Option Bytes → Result PrivateKey
unfolding or_error
load_private_key f file = or_error read_failed file >>= parse_private_key_from_pem f

-- net.SplitHostPort (its host), net.ParseIP, IsLoopback, IsUnspecified and strings.EqualFold.
pub record Listening : Type 0 where
  pub host_of : String → Option String
  pub parse_ip : String → Option Bytes
  pub is_loopback : Bytes → Bool
  pub is_unspecified : Bytes → Bool
  pub equal_fold : String → String → Bool

module _ (l : Listening) where
  -- `if ip == nil && strings.EqualFold(host, "localhost") { … }`
  or_localhost : String → Option Bytes → Option Bytes
  or_localhost host none = if l.equal_fold host "localhost" then l.parse_ip "127.0.0.1" else none
  or_localhost host (some ip) = some ip

  allowed : Option Bytes → Bool
  allowed none = false
  allowed (some ip) = l.is_loopback ip || l.is_unspecified ip

  -- Whether the program of a hidden service goes on to listen.
  unfoldable pub may_listen : String → Result Bool
  unfolding or_localhost allowed
  may_listen address = or_error bad_host (l.host_of address) >>= λ host.
      let host = if str_eq host "" then "0.0.0.0" else host in
      ok (allowed (or_localhost host (l.parse_ip host)))

-- saveRSAPriv and saveRSAPub: what is written to the file.
unfoldable pub saved_rsa_priv : KeyFormats → Bytes → Bytes
saved_rsa_priv f key = f.pem_encode "RSA PRIVATE KEY" (f.marshal_pkcs1_private key)

unfoldable pub saved_rsa_pub : KeyFormats → Bytes → Bytes
saved_rsa_pub f key = f.pem_encode "RSA PUBLIC KEY" (f.marshal_pkcs1_public key)
