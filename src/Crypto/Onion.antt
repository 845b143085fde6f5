-- ===== src/Crypto/Onion.antt =====
-- The onion: what AESMultiSeal builds is taken off layer by layer (crypto_service.go).
use go_ptor.Common.{◌≡◌, ◌≢◌, refl, List, [], ◌∷◌, arith, length, All}
use go_ptor.Common.Result.{ok, err, key_nonce_mismatch}
use go_ptor.Cell.{Bytes}
use go_ptor.Nonce.{Nonce}
use go_ptor.Crypto.{
  Key, Aead, IsAead, aes_seal, aes_open, seal_loop, open_loop, aes_multi_seal, aes_multi_open,
}

abbrev pub IsKey : Key → Type 0
IsKey k = length k ≡ 32

module _ (a : Aead) (laws : IsAead a) where
  pub aes_seal_lem :
      (k : Key) (n : Nonce) (p : Bytes) → IsKey k → aes_seal a k n p ≡ ok (a.gcm_seal k n p)
  unfolding aes_seal
  aes_seal_lem k n p h = rw (laws.key_size k h) refl

  -- One layer that is put on is taken off by the same key and nonce.
  pub aes_open-seal :
      (k : Key) (n : Nonce) (p : Bytes) → IsKey k → aes_open a k n (a.gcm_seal k n p) ≡ ok p
  unfolding aes_open
  aes_open-seal k n p h = rw (laws.key_size k h, laws.open_seal k n p) refl

  onion :
      (ks : List Key) (ns : List Nonce) (p : Bytes)
      → length ks ≡ length ns
      → All IsKey ks
      → (c : Bytes) × (seal_loop a ks ns p ≡ ok c) × (open_loop a ks ns c ≡ ok p)
  unfolding seal_loop open_loop
  onion [] [] p size v = (p, refl, refl)
  onion [] (n ∷ ns) p size v = absurd (omega arith)
  onion (k ∷ ks) [] p size v = absurd (omega arith)
  onion (k ∷ ks) (n ∷ ns) p size v =
      let (c, sealed, unsealed) = onion ks ns p (omega arith) v.1 in
      (a.gcm_seal k n c, rw sealed (aes_seal_lem k n c v.0), rw (aes_open-seal k n c v.0) unsealed)

  -- With as many nonces as keys, all keys of 32 bytes, sealing succeeds and opening with the same
  -- keys and nonces returns the plaintext.
  pub aes_multi_open-aes_multi_seal :
      (ks : List Key) (ns : List Nonce) (p : Bytes)
      → length ks ≡ length ns
      → All IsKey ks
      → (c : Bytes) × (aes_multi_seal a ks ns p ≡ ok c) × (aes_multi_open a ks ns c ≡ ok p)
  unfolding aes_multi_seal aes_multi_open
  aes_multi_open-aes_multi_seal ks ns p size v =
      let (c, sealed, unsealed) = onion ks ns p size v in (c, ground arith, ground arith)

  -- With as many nonces as keys, all keys of 32 bytes, the holder of the first key takes one layer
  -- off an onion and is left with the onion of the other keys.
  pub aes_open-aes_multi_seal :
      (k : Key) (n : Nonce) (ks : List Key) (ns : List Nonce) (p : Bytes)
      → length ks ≡ length ns
      → IsKey k
      → All IsKey ks
      → (c d : Bytes) × (aes_multi_seal a (k ∷ ks) (n ∷ ns) p ≡ ok c)
        × (aes_multi_seal a ks ns p ≡ ok d)
        × (aes_open a k n c ≡ ok d)
  unfolding aes_multi_seal
  aes_open-aes_multi_seal k n ks ns p size h v =
      let (d, sealed, _) = onion ks ns p size v in
      (
        a.gcm_seal k n d,
        d,
        ground (arith, aes_seal_lem k n d h),
        ground arith,
        aes_open-seal k n d h,
      )

-- Lists of different lengths are refused, whatever the keys are.
pub aes_multi_mismatch :
    (a : Aead) (ks : List Key) (ns : List Nonce) (p : Bytes)
    → length ks ≢ length ns
    → (aes_multi_seal a ks ns p ≡ err key_nonce_mismatch)
      × (aes_multi_open a ks ns p ≡ err key_nonce_mismatch)
unfolding aes_multi_seal aes_multi_open
aes_multi_mismatch a ks ns p h = (ground arith, ground arith)
