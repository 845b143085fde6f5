-- ===== src/Keys.antt =====
-- Key files: private_key.go, public_key.go, rsa_privkey.go, rsa_pubkey.go, ed25519_privkey.go and
-- ed25519_pubkey.go of shared/domain/value_object, the RSA methods of
-- shared/service/crypto_service.go, and the loaders of cmd/relay/main.go and cmd/hidden/main.go.
pub mod Pem
pub mod Rsa
pub mod Symmetric
use go_ptor.Common.{ℕ, ◌≡◌, Option, none, some, List, [], ◌∷◌, if◌then◌else◌, String}
use text.Mathlib.Text.{◌==◌ as str_eq}
use go_ptor.Common.Result.{
  Result, Error, ok, err, panic, ◌>>=◌, no_pem_data, unsupported_key_type, unsupported_pem_block,
  bad_der,
}
use go_ptor.Cell.{Bytes}

-- What x509 gives back: the types that the code tells apart. A key of crypto/rsa or crypto/ed25519
-- is the bytes that stand for it.
pub data X509Key : Type 0 where
  rsa_key ed25519_key : Bytes → X509Key
  other_key : X509Key

-- encoding/pem (the type and the bytes of the first block), crypto/x509, and the public halves.
pub record KeyFormats : Type 0 where
  pub pem_decode : Bytes → Option (String × Bytes)
  pub pem_encode : String → Bytes → Bytes
  pub parse_pkcs1_private : Bytes → Option Bytes
  pub parse_pkcs8_private : Bytes → Option X509Key
  pub parse_pkix_public : Bytes → Option X509Key
  pub marshal_pkcs1_private : Bytes → Bytes
  pub marshal_pkcs8_private : Bytes → Option Bytes
  pub marshal_pkcs1_public : Bytes → Bytes
  pub marshal_pkix_public : Bytes → Option Bytes
  pub rsa_public : Bytes → Bytes
  pub ed25519_public : Bytes → Bytes

-- The interface PrivateKey: a *RSAPrivKey or a *Ed25519PrivKey, where `none` is a nil pointer. The
-- constructors never wrap a nil key.
pub data PrivateKey : Type 0 where
  rsa_priv_key ed25519_priv_key : Option Bytes → PrivateKey

-- The interface PublicKey.
pub data PublicKey : Type 0 where
  rsa_pub_key ed25519_pub_key : Bytes → PublicKey

-- KeyType
unfoldable pub key_type : PrivateKey → String
key_type (rsa_priv_key none) = ""
key_type (rsa_priv_key (some k)) = "RSA"
key_type (ed25519_priv_key none) = ""
key_type (ed25519_priv_key (some k)) = "Ed25519"

unfoldable pub or_error : {A : Type 0} → Error → Option A → Result A
or_error e none = err e
or_error e (some a) = ok a

module _ (f : KeyFormats) where
  -- `block, _ := pem.Decode(pemBytes); if block == nil { … }`
  unfoldable pub first_block : Bytes → Result (String × Bytes)
  unfolding or_error
  first_block pem = or_error no_pem_data (f.pem_decode pem)

  -- `switch k := key.(type)` in ParsePrivateKeyFromPEM
  unfoldable pub private_of : X509Key → Result PrivateKey
  private_of (rsa_key k) = ok (rsa_priv_key (some k))
  private_of (ed25519_key k) = ok (ed25519_priv_key (some k))
  private_of other_key = err unsupported_key_type

  unfoldable pub parse_private_key_from_pem : Bytes → Result PrivateKey
  unfolding first_block private_of or_error
  parse_private_key_from_pem pem = first_block pem >>= λ block.
      if str_eq block.0 "RSA PRIVATE KEY"
      then (or_error bad_der (f.parse_pkcs1_private block.1) >>= λ k. ok (rsa_priv_key (some k)))
      else if str_eq block.0 "PRIVATE KEY"
      then (or_error bad_der (f.parse_pkcs8_private block.1) >>= private_of)
      else err unsupported_pem_block

  -- RSAPrivKeyFromPEM; the type of the block is not looked at.
  unfoldable pub rsa_priv_key_from_pem : Bytes → Result Bytes
  unfolding first_block or_error
  rsa_priv_key_from_pem pem =
      first_block pem >>= λ block. or_error bad_der (f.parse_pkcs1_private block.1)

  -- `ed25519Key, ok := key.(ed25519.PrivateKey)`
  unfoldable pub only_ed25519 : X509Key → Result Bytes
  only_ed25519 (rsa_key k) = err unsupported_key_type
  only_ed25519 (ed25519_key k) = ok k
  only_ed25519 other_key = err unsupported_key_type

  unfoldable pub ed25519_priv_key_from_pem : Bytes → Result Bytes
  unfolding first_block or_error only_ed25519
  ed25519_priv_key_from_pem pem =
      first_block pem >>= λ block. or_error bad_der (f.parse_pkcs8_private block.1) >>= only_ed25519

  in_block : String → Option Bytes → Option Bytes
  in_block kind none = none
  in_block kind (some der) = some (f.pem_encode kind der)

  -- ToPEM of both kinds; `none` is a nil slice.
  unfoldable pub private_to_pem : PrivateKey → Option Bytes
  unfolding in_block
  private_to_pem (rsa_priv_key none) = none
  private_to_pem (rsa_priv_key (some k)) =
      some (f.pem_encode "RSA PRIVATE KEY" (f.marshal_pkcs1_private k))
  private_to_pem (ed25519_priv_key none) = none
  private_to_pem (ed25519_priv_key (some k)) = in_block "PRIVATE KEY" (f.marshal_pkcs8_private k)

  unfoldable pub public_key : PrivateKey → Option PublicKey
  public_key (rsa_priv_key none) = none
  public_key (rsa_priv_key (some k)) = some (rsa_pub_key (f.rsa_public k))
  public_key (ed25519_priv_key none) = none
  public_key (ed25519_priv_key (some k)) = some (ed25519_pub_key (f.ed25519_public k))

  -- `switch key := pub.(type)` in ParsePublicKeyFromPEM
  unfoldable pub public_of : X509Key → Result PublicKey
  public_of (rsa_key k) = ok (rsa_pub_key k)
  public_of (ed25519_key k) = ok (ed25519_pub_key k)
  public_of other_key = err unsupported_key_type

  unfoldable pub parse_public_key_from_pem : Bytes → Result PublicKey
  unfolding first_block or_error public_of
  parse_public_key_from_pem pem =
      first_block pem >>= λ block. or_error bad_der (f.parse_pkix_public block.1) >>= public_of

  unfoldable pub only_rsa : X509Key → Result Bytes
  only_rsa (rsa_key k) = ok k
  only_rsa (ed25519_key k) = err unsupported_key_type
  only_rsa other_key = err unsupported_key_type

  unfoldable pub rsa_pub_key_from_pem : Bytes → Result Bytes
  unfolding first_block or_error only_rsa
  rsa_pub_key_from_pem pem =
      first_block pem >>= λ block. or_error bad_der (f.parse_pkix_public block.1) >>= only_rsa

  -- Ed25519PubKeyFromPEM
  unfoldable pub ed25519_pub_key_from_pem : Bytes → Result Bytes
  unfolding first_block or_error only_ed25519
  ed25519_pub_key_from_pem pem =
      first_block pem >>= λ block. or_error bad_der (f.parse_pkix_public block.1) >>= only_ed25519

  -- `b, _ := x509.MarshalPKIXPublicKey(…)`
  or_nil : Option Bytes → Bytes
  or_nil none = []
  or_nil (some b) = b

  -- ToPEM of both kinds
  unfoldable pub public_to_pem : PublicKey → Bytes
  unfolding or_nil
  public_to_pem (rsa_pub_key k) = f.pem_encode "RSA PUBLIC KEY" (f.marshal_pkcs1_public k)
  public_to_pem (ed25519_pub_key k) = f.pem_encode "PUBLIC KEY" (or_nil (f.marshal_pkix_public k))

  -- loadEDPriv of cmd/hidden/main.go on what the file holds: the bytes of the block are the key.
  unfoldable pub load_ed_priv : Bytes → Result Bytes
  unfolding first_block
  load_ed_priv pem = first_block pem >>= λ block. ok block.1
