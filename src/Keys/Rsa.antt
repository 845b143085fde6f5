-- ===== src/Keys/Rsa.antt =====
-- The RSA methods of shared/service/crypto_service.go.
use go_ptor.Common.{◌≡◌, refl, ap, Option, none, some, ◌∷◌}
use go_ptor.Common.Result.{
  Result, ok, err, panic, unsupported_key_type, no_private_key, payload_too_big, decrypt_failed,
}
use go_ptor.Common.Exec.{Exec}
use go_ptor.Cell.{Bytes}
use go_ptor.Net.{History, drew}
use go_ptor.Keys.{
  KeyFormats, PrivateKey, rsa_priv_key, ed25519_priv_key, rsa_pub_key, public_key, or_error,
}

-- rsa.EncryptOAEP with the randomness of the moment, and rsa.DecryptOAEP, both with SHA-256.
pub record Oaep : Type 0 where
  pub encrypt : History → Bytes → Bytes → Option Bytes
  pub decrypt : Bytes → Bytes → Option Bytes

-- What their documentation says: the private key undoes what was done with its public half.
pub record IsOaep (f : KeyFormats) (o : Oaep) : Type 0 where
  pub decrypts :
      (h : History) (k x enc : Bytes)
      → o.encrypt h (f.rsa_public k) x ≡ some enc
      → o.decrypt k enc ≡ some x

module _ (o : Oaep) where
  -- RSAEncrypt and RSADecrypt
  unfoldable pub rsa_encrypt : Bytes → Bytes → Exec History Bytes
  unfolding or_error
  rsa_encrypt pub_key x h = (or_error payload_too_big (o.encrypt h pub_key x), drew ∷ h)

  unfoldable pub rsa_decrypt : Bytes → Bytes → Result Bytes
  unfolding or_error
  rsa_decrypt key enc = or_error decrypt_failed (o.decrypt key enc)

  unfoldable pub rsa_encrypt_vo : Bytes → Bytes → Exec History Bytes
  unfolding rsa_encrypt
  rsa_encrypt_vo pub_key x = rsa_encrypt pub_key x

  -- `none` is a nil interface, on which the call of KeyType panics.
  unfoldable pub rsa_decrypt_vo : Option PrivateKey → Bytes → Result Bytes
  unfolding rsa_decrypt
  rsa_decrypt_vo none enc = panic
  rsa_decrypt_vo (some (ed25519_priv_key k)) enc = err unsupported_key_type
  rsa_decrypt_vo (some (rsa_priv_key none)) enc = err no_private_key
  rsa_decrypt_vo (some (rsa_priv_key (some key))) enc = rsa_decrypt key enc

encrypt-ok : (r : Option Bytes) (enc : Bytes) → or_error payload_too_big r ≡ ok enc → r ≡ some enc
unfolding or_error
encrypt-ok none enc e = absurd (cc e)
encrypt-ok (some b) enc e = cc e

-- What was encrypted for the public half of a private key is decrypted with the private key, when
-- RSA-OAEP itself undoes what it did.
pub rsa_decrypt_vo-encrypt :
    (f : KeyFormats) (o : Oaep)
    → IsOaep f o
    → (k : PrivateKey) (p x enc : Bytes) (h h' : History) → public_key f k ≡ some (rsa_pub_key p)
    → rsa_encrypt_vo o p x h ≡ (ok enc, h')
    → rsa_decrypt_vo o (some k) enc ≡ ok x
unfolding public_key rsa_encrypt_vo rsa_encrypt rsa_decrypt_vo rsa_decrypt or_error
rsa_decrypt_vo-encrypt f o laws (rsa_priv_key none) p x enc h h' e r = absurd (cc e)
rsa_decrypt_vo-encrypt f o laws (ed25519_priv_key none) p x enc h h' e r = absurd (cc e)
rsa_decrypt_vo-encrypt f o laws (ed25519_priv_key (some k)) p x enc h h' e r = absurd (cc e)
rsa_decrypt_vo-encrypt f o laws (rsa_priv_key (some k)) p x enc h h' e r =
    let same : f.rsa_public k ≡ p = cc e in
    let done : o.encrypt h p x ≡ some enc = encrypt-ok (o.encrypt h p x) enc (ap (λ a. a.0) r) in
    let there : o.encrypt h (f.rsa_public k) x ≡ some enc = cc (same, done) in
    rw (laws.decrypts h k x enc there) refl
