-- ===== src/Crypto/Agreement.antt =====
-- What crypto/ecdh and golang.org/x/crypto/hkdf promise to two parties that exchange public keys, for
-- X25519Generate, X25519Shared and DeriveKeyNonce of shared/service/crypto_service.go.
use go_ptor.Common.{◌≡◌, some, length}
use go_ptor.Cell.{Bytes}
use go_ptor.Crypto.{Key}
use go_ptor.Crypto.Onion.{IsKey}
use go_ptor.Crypto.Exchange.{Exchange}
use go_ptor.Nonce.{Nonce}
use go_ptor.Net.{History}

-- Both draw key pairs with public keys of 32 bytes, each gets the same secret from its private key
-- and the other's public key, and both derive the same key, of 32 bytes, and nonce from a secret.
pub record Agreement (x y : Exchange) : Type 0 where
  pub pair : History → Bytes × Bytes
  pub pair' : History → Bytes × Bytes
  pub secret : Bytes × Bytes → Bytes × Bytes → Bytes
  pub derived : Bytes → Key × Nonce
  pub draws : (h : History) → x.generate_key h ≡ some (pair h)
  pub draws' : (h : History) → y.generate_key h ≡ some (pair' h)
  pub size : (h : History) → length (pair h).1 ≡ 32
  pub size' : (h : History) → length (pair' h).1 ≡ 32
  pub shares : (h h' : History) → x.ecdh (pair h).0 (pair' h').1 ≡ some (secret (pair h) (pair' h'))
  pub shares' :
      (h h' : History) → y.ecdh (pair' h').0 (pair h).1 ≡ some (secret (pair h) (pair' h'))
  pub derives : (s : Bytes) → x.hkdf s ≡ some (derived s)
  pub derives' : (s : Bytes) → y.hkdf s ≡ some (derived s)
  pub key_size : (s : Bytes) → IsKey (derived s).0
