-- ===== src/Nonce.antt =====
-- Nonces (shared/service/crypto_service.go, ModifyNonceWithSequence; the nonce methods of
-- shared/domain/entity repeat its loop). A nonce is an array of 12 bytes, a counter a uint64.
pub mod Unique
use go_ptor.Common.{
  ℕ, zero, suc, ◌+◌, ◌/◌, ◌%◌, ◌^◌, ◌<◌, ◌≡◌, bit_xor, length, get_or, set, replicate,
}
use go_ptor.Cell.{Bytes, IsBytes}

abbrev pub Nonce : Type 0
Nonce = Bytes

pub record IsNonce (n : Nonce) : Type 0 where
  pub size : length n ≡ 12
  pub of_bytes : IsBytes n

-- vo.Nonce{}
abbrev pub zero_nonce : Nonce
zero_nonce = replicate 12 0

-- The rounds that are left of `for i := 0; i < 8; i++`: with `k + 1` of them, `11 - i` is `4 + k`.
unfoldable pub xor_loop : ℕ → Nonce → ℕ → Nonce
xor_loop zero nonce counter = nonce
xor_loop (suc k) nonce counter =
    xor_loop k (set nonce (4 + k) (bit_xor (get_or nonce (4 + k) 0) (counter % 2 ^ 8)))
      (counter / 2 ^ 8)

unfoldable pub modify_nonce_with_sequence : Nonce → ℕ → Nonce
unfolding xor_loop
modify_nonce_with_sequence base_nonce sequence = xor_loop 8 base_nonce sequence

-- c++ on a uint64
unfoldable pub increment : ℕ → ℕ
increment counter = (counter + 1) % 2 ^ 64
