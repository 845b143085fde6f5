-- ===== src/Crypto/Exchange.antt =====
-- X25519Generate, X25519Shared and DeriveKeyNonce of shared/service/crypto_service.go. Of
-- crypto/ecdh and golang.org/x/crypto/hkdf: the key pair, the shared secret, the bytes HKDF yields.
use go_ptor.Common.{Option, none, some, ◌∷◌}
use go_ptor.Common.Result.{Error, Result, ok, err, keygen_failed, bad_key, derive_failed}
use go_ptor.Common.Exec.{Exec}
use go_ptor.Cell.{Bytes}
use go_ptor.Crypto.{Key}
use go_ptor.Nonce.{Nonce}
use go_ptor.Net.{History, drew}

pub record Exchange : Type 0 where
  pub generate_key : History → Option (Bytes × Bytes)
  pub ecdh : Bytes → Bytes → Option Bytes
  pub hkdf : Bytes → Option (Key × Nonce)

module _ {A : Type 0} where
  unfoldable pub or_fail : Error → Option A → Result A
  or_fail e none = err e
  or_fail e (some a) = ok a

module _ (x : Exchange) where
  unfoldable pub x25519_generate : Exec History (Bytes × Bytes)
  unfolding or_fail
  x25519_generate h = (or_fail keygen_failed (x.generate_key h), drew ∷ h)

  unfoldable pub x25519_shared : Bytes → Bytes → Result Bytes
  unfolding or_fail
  x25519_shared priv_bytes pub_bytes = or_fail bad_key (x.ecdh priv_bytes pub_bytes)

  unfoldable pub derive_key_nonce : Bytes → Result (Key × Nonce)
  unfolding or_fail
  derive_key_nonce secret = or_fail derive_failed (x.hkdf secret)
