-- ===== src/Crypto.antt =====
-- shared/service/crypto_service.go: sealing, opening and their onion forms.
pub mod Onion
pub mod Exchange
pub mod Agreement
use go_ptor.Common.{
  ℕ, ◌≡◌, ◌≢◌, Bool, true, not, Option, none, some, List, [], ◌∷◌, ◌==◌, if◌then◌else◌, length,
  replicate,
}
use go_ptor.Common.Result.{Result, ok, err, ◌>>=◌, bad_key, decrypt_failed, key_nonce_mismatch}
use go_ptor.Cell.{Bytes}
use go_ptor.Nonce.{Nonce}

abbrev pub Key : Type 0
Key = Bytes

-- vo.AESKey{}
abbrev pub zero_key : Key
zero_key = replicate 32 0

-- crypto/aes and crypto/cipher: whether NewCipher and NewGCM accept a key, GCM's Seal and its Open.
pub record Aead : Type 0 where
  pub accepts : Key → Bool
  pub gcm_seal : Key → Nonce → Bytes → Bytes
  pub gcm_open : Key → Nonce → Bytes → Option Bytes

-- What their documentation says: a key of 32 bytes selects AES-256, and Open undoes Seal.
pub record IsAead (a : Aead) : Type 0 where
  pub key_size : (k : Key) → length k ≡ 32 → a.accepts k ≡ true
  pub open_seal : (k : Key) (n : Nonce) (p : Bytes) → a.gcm_open k n (a.gcm_seal k n p) ≡ some p

module _ (a : Aead) where
  unfoldable pub aes_seal : Key → Nonce → Bytes → Result Bytes
  aes_seal key nonce plain =
      if not (a.accepts key) then err bad_key else ok (a.gcm_seal key nonce plain)

  opened : Option Bytes → Result Bytes
  opened none = err decrypt_failed
  opened (some plain) = ok plain

  unfoldable pub aes_open : Key → Nonce → Bytes → Result Bytes
  unfolding opened
  aes_open key nonce enc =
      if not (a.accepts key) then err bad_key else opened (a.gcm_open key nonce enc)

  -- `for i := len(keys) - 1; i >= 0; i--`: the rounds for the later keys come first.
  unfoldable pub seal_loop : List Key → List Nonce → Bytes → Result Bytes
  seal_loop (k ∷ ks) (n ∷ ns) plain = seal_loop ks ns plain >>= λ out. aes_seal k n out
  seal_loop _ _ plain = ok plain

  unfoldable pub open_loop : List Key → List Nonce → Bytes → Result Bytes
  open_loop (k ∷ ks) (n ∷ ns) out = aes_open k n out >>= λ out'. open_loop ks ns out'
  open_loop _ _ out = ok out

  unfoldable pub aes_multi_seal : List Key → List Nonce → Bytes → Result Bytes
  unfolding seal_loop
  aes_multi_seal keys nonces plain =
      if not (length keys == length nonces)
      then err key_nonce_mismatch
      else seal_loop keys nonces plain

  unfoldable pub aes_multi_open : List Key → List Nonce → Bytes → Result Bytes
  unfolding open_loop
  aes_multi_open keys nonces enc =
      if not (length keys == length nonces)
      then err key_nonce_mismatch
      else open_loop keys nonces enc
