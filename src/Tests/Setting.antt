-- ===== src/Tests/Setting.antt =====
-- A concrete environment, cipher and encoding for the tests; no code of the repository.
use Prim.Native.Char.{code}
use go_ptor.Common.{
  ℕ, zero, suc, ◌≡◌, refl, subst, true, Option, none, some, [], ◌∷◌, ◌++◌, ◌==◌, if◌then◌else◌, ite,
  length, take, drop, replicate, length-replicate, take-append, drop-append, arith, ℕ_discrete,
  String,
}
use go_ptor.Common.Result.{err, eof}
use go_ptor.Cell.{Bytes}
use go_ptor.Crypto.{Aead, IsAead}
use go_ptor.Crypto.Exchange.{Exchange}
use go_ptor.Net.{Env, IsUuidText}
use go_ptor.Payload.{Codec, Gob, DataPayload, RoundTrips}
use go_ptor.Wire.Framing.{IsRandom}
use go_ptor.Wire.Reliable.{IsReliable}

abbrev pub ones : ℕ → String → String
ones zero s = String.◌∷◌ "b" s
ones (suc n) s = String.◌∷◌ "a" (ones n s)

abbrev pub to_text : Bytes → String
to_text [] = String.[]
to_text (n ∷ ns) = ones n (to_text ns)

abbrev pub bump_head : Bytes → Bytes
bump_head [] = []
bump_head (n ∷ ns) = suc n ∷ ns

abbrev pub from_text : String → Bytes
from_text String.[] = []
from_text (String.◌∷◌ c s) =
    let rest = from_text s in if code c == 97 then bump_head rest else 0 ∷ rest

from_text-ones : (n : ℕ) (s : String) → from_text (ones n s) ≡ n ∷ from_text s
from_text-ones zero s = refl
from_text-ones (suc n) s = rw (from_text-ones n s) refl

from_text-to_text : (b : Bytes) → from_text (to_text b) ≡ b
from_text-to_text [] = refl
from_text-to_text (n ∷ ns) = rw (from_text-ones n (to_text ns), from_text-to_text ns) refl

-- Takes every write, answers no read and dials connection 7.
abbrev pub test_env : Env
test_env = record {
  rand = λ h n. some (replicate n 0);
  writable = λ h c b. true;
  read_full = λ h c n. err eof;
  dial_tcp = λ h addr. some 7;
  getenv = λ name. "";
  now = λ h. length h;
  uuid_string = to_text;
  uuid_parse = λ s. some (from_text s);
  uuid_version = λ b. 4;
}

pub test_env-IsUuidText : IsUuidText test_env
test_env-IsUuidText = record { parse_string = λ b u. rw (from_text-to_text b) refl }

pub test_env-IsRandom : IsRandom test_env
test_env-IsRandom h n pad e = subst (λ (p : Bytes). length p ≡ n) (cc e) (length-replicate n 0)

pub test_env-IsReliable : IsReliable test_env
test_env-IsReliable = record {
  writes = λ h c b. refl;
  fills = λ h n. (replicate n 0, refl, length-replicate n 0);
}

abbrev pub Bytes-discrete : Discrete Bytes
Bytes-discrete = hlevel ℕ_discrete

-- The nonce in front of the plaintext, which another nonce does not open.
abbrev pub open_prefixed : Bytes → Bytes → Option Bytes
open_prefixed n c = ite (Bytes-discrete (take (length n) c) n) (some (drop (length n) c)) none

open_prefixed-append : (n p : Bytes) → open_prefixed n (n ++ p) ≡ some p
open_prefixed-append n p = ground (arith, take-append n p, drop-append n p)

abbrev pub test_aead : Aead
test_aead = record {
  accepts = λ k. true;
  gcm_seal = λ k n p. n ++ p;
  gcm_open = λ k n c. open_prefixed n c;
}

pub test_aead-IsAead : IsAead test_aead
test_aead-IsAead = record { key_size = λ k e. refl; open_seal = λ k n p. open_prefixed-append n p }

abbrev pub no_codec : {T : Type 0} → Codec T
no_codec = record { gob_encode = λ p. none; gob_decode = λ b. none }

abbrev pub content_of : Bytes → Option DataPayload
content_of [] = none
content_of (n ∷ b) = some (record { stream_id = n; content = b })

abbrev pub content_codec : Codec DataPayload
content_codec = record { gob_encode = λ p. some (p.stream_id ∷ p.content); gob_decode = content_of }

pub content_codec-RoundTrips : RoundTrips content_codec
content_codec-RoundTrips p b e =
    let same : p.stream_id ∷ p.content ≡ b = cc e in
    subst (λ (x : Bytes). content_of x ≡ some p) same refl

abbrev pub test_gob : Gob
test_gob = record {
  extend = no_codec;
  created = no_codec;
  begin = no_codec;
  connect = no_codec;
  content = content_codec;
}

abbrev pub test_exchange : Exchange
test_exchange = record { generate_key = λ h. none; ecdh = λ a b. none; hkdf = λ s. none }
