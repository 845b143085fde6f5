-- ===== src/Keys/Pem.antt =====
-- What is written as PEM and read back (shared/domain/value_object).
use go_ptor.Common.{◌≡◌, refl, ap, subst, inl, inr, Option-cases, Option, none, some, String}
use go_ptor.Common.Result.{Result, ok, err, ◌>>=◌, unsupported_key_type, bad_der}
use go_ptor.Cell.{Bytes}
use go_ptor.Keys.{
  X509Key, rsa_key, ed25519_key, other_key, KeyFormats, PrivateKey, rsa_priv_key, ed25519_priv_key,
  PublicKey, rsa_pub_key, ed25519_pub_key, first_block, parse_private_key_from_pem,
  rsa_priv_key_from_pem, ed25519_priv_key_from_pem, private_to_pem, parse_public_key_from_pem,
  public_to_pem, only_ed25519, private_of, in_block, or_error,
}

-- The types of the blocks that the program writes.
pub data BlockType : String → Type 0 where
  rsa_private : BlockType "RSA PRIVATE KEY"
  pkcs8_private : BlockType "PRIVATE KEY"
  rsa_public : BlockType "RSA PUBLIC KEY"
  pkix_public : BlockType "PUBLIC KEY"

-- What the documentation says: decoding undoes encoding, parsing undoes marshalling, keys of Ed25519
-- can be marshalled, and the parser of PKIX refuses PKCS#1.
pub record IsKeyFormats (f : KeyFormats) : Type 0 where
  pub pem :
      (kind : String) (der : Bytes)
      → BlockType kind
      → f.pem_decode (f.pem_encode kind der) ≡ some (kind, der)
  pub pkcs1 : (k : Bytes) → f.parse_pkcs1_private (f.marshal_pkcs1_private k) ≡ some k
  pub pkcs8 :
      (k der : Bytes)
      → f.marshal_pkcs8_private k ≡ some der
      → f.parse_pkcs8_private der ≡ some (ed25519_key k)
  pub marshals :
      (k : Bytes)
      → (der : Bytes) × (f.marshal_pkix_public k ≡ some der)
        × (f.parse_pkix_public der ≡ some (ed25519_key k))
  pub not_pkix : (k : Bytes) → f.parse_pkix_public (f.marshal_pkcs1_public k) ≡ none

module _ (f : KeyFormats) (laws : IsKeyFormats f) where
  -- A private key of either kind that was written as PEM is read back as the same key, when
  -- decoding undoes encoding and parsing undoes marshalling.
  pub parse_private_key_from_pem-to_pem :
      (k : PrivateKey) (b : Bytes)
      → private_to_pem f k ≡ some b
      → parse_private_key_from_pem f b ≡ ok k
  unfolding private_to_pem parse_private_key_from_pem first_block
  parse_private_key_from_pem-to_pem (rsa_priv_key none) b e = absurd (cc e)
  parse_private_key_from_pem-to_pem (ed25519_priv_key none) b e = absurd (cc e)
  parse_private_key_from_pem-to_pem (rsa_priv_key (some k)) b e =
      let same : f.pem_encode "RSA PRIVATE KEY" (f.marshal_pkcs1_private k) ≡ b = cc e in
      subst (λ b. parse_private_key_from_pem f b ≡ ok (rsa_priv_key (some k))) same
        (rw (laws.pem "RSA PRIVATE KEY" (f.marshal_pkcs1_private k) rsa_private, laws.pkcs1 k) refl)
  parse_private_key_from_pem-to_pem (ed25519_priv_key (some k)) b e =
      elim (Option-cases (f.marshal_pkcs8_private k)) [
        | inl m ↦
            let gone : in_block f "PRIVATE KEY" (f.marshal_pkcs8_private k) ≡ none =
              ap (λ o. in_block f "PRIVATE KEY" o) m in
            absurd (cc (gone, e))
        | inr (der, m) ↦
            let there : in_block f "PRIVATE KEY" (f.marshal_pkcs8_private k)
                ≡ some (f.pem_encode "PRIVATE KEY" der) =
              ap (λ o. in_block f "PRIVATE KEY" o) m in
            let same : f.pem_encode "PRIVATE KEY" der ≡ b = cc (there, e) in
            subst (λ b. parse_private_key_from_pem f b ≡ ok (ed25519_priv_key (some k))) same
              (rw (laws.pem "PRIVATE KEY" der pkcs8_private, laws.pkcs8 k der m) refl)
      ]

  -- What a public key is parsed to.
  abbrev pub reread : PublicKey → Result PublicKey
  reread (rsa_pub_key k) = err bad_der
  reread (ed25519_pub_key k) = ok (ed25519_pub_key k)

  -- What ToPEM writes for an Ed25519 public key is read back as that key, and what it writes for
  -- an RSA public key is refused, when the PKIX parser refuses PKCS#1 and decoding and parsing
  -- undo encoding and marshalling.
  pub parse_public_key_from_pem-to_pem :
      (k : PublicKey) → parse_public_key_from_pem f (public_to_pem f k) ≡ reread k
  unfolding public_to_pem parse_public_key_from_pem first_block
  parse_public_key_from_pem-to_pem (rsa_pub_key k) =
      rw (laws.pem "RSA PUBLIC KEY" (f.marshal_pkcs1_public k) rsa_public, laws.not_pkix k) refl
  parse_public_key_from_pem-to_pem (ed25519_pub_key k) =
      let (der, e, p) = laws.marshals k in
      rw (e, public_to_pem, laws.pem "PUBLIC KEY" der pkix_public, p) refl

  -- `key.(*Ed25519PrivKey)`
  abbrev pub its_ed25519 : PrivateKey → Result Bytes
  its_ed25519 (rsa_priv_key o) = err unsupported_key_type
  its_ed25519 (ed25519_priv_key none) = err unsupported_key_type
  its_ed25519 (ed25519_priv_key (some k)) = ok k

  same_ed25519 :
      (o : Option X509Key)
      → ((or_error bad_der o >>= only_ed25519 f)
          ≡ ((or_error bad_der o >>= private_of f) >>= its_ed25519))
  unfolding only_ed25519 private_of or_error
  same_ed25519 none = refl
  same_ed25519 (some (rsa_key k)) = refl
  same_ed25519 (some (ed25519_key k)) = refl
  same_ed25519 (some other_key) = refl

  -- On a block of type RSA PRIVATE KEY the parser for any private key does what the one for RSA
  -- keys does, and on a block of type PRIVATE KEY the parser for Ed25519 keys does what the
  -- general one followed by a check for that type does, for any bytes in the block, when decoding
  -- PEM undoes encoding.
  pub parsers_agree :
      (der : Bytes)
      → (parse_private_key_from_pem f (f.pem_encode "RSA PRIVATE KEY" der) ≡ (
          rsa_priv_key_from_pem f (f.pem_encode "RSA PRIVATE KEY" der) >>= λ k.
          ok (rsa_priv_key (some k))))
        × (ed25519_priv_key_from_pem f (f.pem_encode "PRIVATE KEY" der)
            ≡ (parse_private_key_from_pem f (f.pem_encode "PRIVATE KEY" der) >>= its_ed25519))
  unfolding parse_private_key_from_pem rsa_priv_key_from_pem ed25519_priv_key_from_pem first_block
  parsers_agree der = (
    rw (laws.pem "RSA PRIVATE KEY" der rsa_private) refl,
    rw (laws.pem "PRIVATE KEY" der pkcs8_private) (same_ed25519 (f.parse_pkcs8_private der)),
  )
