-- ===== src/Tests/Keys.antt =====
-- Key files at concrete inputs; no code of the repository.
use text.Mathlib.Text.{◌==◌ as str_eq}
use go_ptor.Common.{ℕ, ◌≡◌, refl, Option, none, some, [], ◌∷◌, ◌==◌, if◌then◌else◌, String}
use go_ptor.Common.Result.{ok, ◌>>=◌}
use go_ptor.Cell.{Bytes}
use go_ptor.Keys.{
  X509Key, ed25519_key, KeyFormats, rsa_priv_key, ed25519_priv_key, rsa_pub_key,
  parse_private_key_from_pem, rsa_priv_key_from_pem, ed25519_priv_key_from_pem,
  parse_public_key_from_pem, public_to_pem, private_to_pem,
}
use go_ptor.Keys.Pem.{
  BlockType, rsa_private, pkcs8_private, rsa_public, pkix_public, IsKeyFormats, its_ed25519, reread,
  parse_private_key_from_pem-to_pem, parse_public_key_from_pem-to_pem, parsers_agree,
}

abbrev pub tag : String → ℕ
tag kind =
    if str_eq kind "RSA PRIVATE KEY"
    then 0
    else if str_eq kind "PRIVATE KEY"
    then 1
    else if str_eq kind "RSA PUBLIC KEY"
    then 2
    else 3

abbrev pub kind_of : ℕ → String
kind_of n =
    if n == 0
    then "RSA PRIVATE KEY"
    else if n == 1
    then "PRIVATE KEY"
    else if n == 2
    then "RSA PUBLIC KEY"
    else "PUBLIC KEY"

abbrev pub block : Bytes → Option (String × Bytes)
block [] = none
block (n ∷ der) = some (kind_of n, der)

abbrev pub after : ℕ → Bytes → Option Bytes
after n [] = none
after n (m ∷ b) = if m == n then some b else none

abbrev pub as_ed25519 : Option Bytes → Option X509Key
as_ed25519 none = none
as_ed25519 (some k) = some (ed25519_key k)

abbrev pub formats : KeyFormats
formats = record {
  pem_decode = block;
  pem_encode = λ kind der. tag kind ∷ der;
  parse_pkcs1_private = after 1;
  parse_pkcs8_private = λ der. as_ed25519 (after 2 der);
  parse_pkix_public = λ der. as_ed25519 (after 3 der);
  marshal_pkcs1_private = λ k. 1 ∷ k;
  marshal_pkcs8_private = λ k. some (2 ∷ k);
  marshal_pkcs1_public = λ k. 4 ∷ k;
  marshal_pkix_public = λ k. some (3 ∷ k);
  rsa_public = λ k. k;
  ed25519_public = λ k. k;
}

block-tag :
    (kind : String) (der : Bytes) → BlockType kind → block (tag kind ∷ der) ≡ some (kind, der)
block-tag kind der rsa_private = refl
block-tag kind der pkcs8_private = refl
block-tag kind der rsa_public = refl
block-tag kind der pkix_public = refl

parsed : (k der : Bytes) → some (2 ∷ k) ≡ some der → as_ed25519 (after 2 der) ≡ some (ed25519_key k)
parsed k der e = let same : 2 ∷ k ≡ der = cc e in rw (← same) refl

formats-IsKeyFormats : IsKeyFormats formats
formats-IsKeyFormats = record {
  pem = block-tag;
  pkcs1 = λ k. refl;
  pkcs8 = parsed;
  marshals = λ k. (3 ∷ k, refl, refl);
  not_pkix = λ k. refl;
}

parse_private_key_from_pem-to_pem_example :
    parse_private_key_from_pem formats (1 ∷ 2 ∷ 7 ∷ []) ≡ ok (ed25519_priv_key (some (7 ∷ [])))
unfolding private_to_pem
parse_private_key_from_pem-to_pem_example =
    parse_private_key_from_pem-to_pem formats formats-IsKeyFormats
      (ed25519_priv_key (some (7 ∷ []))) (1 ∷ 2 ∷ 7 ∷ []) refl

parse_public_key_from_pem-to_pem_example :
    parse_public_key_from_pem formats (public_to_pem formats (rsa_pub_key (7 ∷ [])))
    ≡ reread formats formats-IsKeyFormats (rsa_pub_key (7 ∷ []))
parse_public_key_from_pem-to_pem_example =
    parse_public_key_from_pem-to_pem formats formats-IsKeyFormats (rsa_pub_key (7 ∷ []))

parsers_agree_example :
    (parse_private_key_from_pem formats (formats.pem_encode "RSA PRIVATE KEY" (1 ∷ 7 ∷ [])) ≡ (
      rsa_priv_key_from_pem formats (formats.pem_encode "RSA PRIVATE KEY" (1 ∷ 7 ∷ [])) >>= λ k.
      ok (rsa_priv_key (some k))))
    × (ed25519_priv_key_from_pem formats (formats.pem_encode "PRIVATE KEY" (1 ∷ 7 ∷ [])) ≡ (
        parse_private_key_from_pem formats (formats.pem_encode "PRIVATE KEY" (1 ∷ 7 ∷ []))
        >>= its_ed25519 formats formats-IsKeyFormats))
parsers_agree_example = parsers_agree formats formats-IsKeyFormats (1 ∷ 7 ∷ [])
