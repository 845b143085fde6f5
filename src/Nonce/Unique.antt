-- ===== src/Nonce/Unique.antt =====
-- Distinct counters give distinct nonces (shared/service/crypto_service.go).
use go_ptor.Common.{
  ℕ, zero, suc, ◌+◌, ◌/◌, ◌%◌, ◌^◌, ◌<◌, ◌≤◌, ◌≡◌, refl, sym, ◌∙◌, bit_xor, length, get_or,
  get_elem?, set, arith, some, length-set, get_or-set_ne, get_elem?-set_self, get_elem?-set_ne,
}
use go_ptor.Common.Bits.{bit_xor-injective}
use native.Mathlib.Nat.{pow-suc}
use go_ptor.Nonce.{Nonce, IsNonce, xor_loop, modify_nonce_with_sequence}

pub length-xor_loop : (k : ℕ) (n : Nonce) (c : ℕ) → length (xor_loop k n c) ≡ length n
unfolding xor_loop
length-xor_loop zero n c = refl
length-xor_loop (suc k) n c = length-xor_loop k _ (c / 2 ^ 8) ∙ length-set n (4 + k) _

-- The rounds that are left write below `4 + k` and not below 4.
xor_loop_above :
    (k : ℕ) (n : Nonce) (c j : ℕ) → 4 + k ≤ j → get_elem? (xor_loop k n c) j ≡ get_elem? n j
unfolding xor_loop
xor_loop_above zero n c j h = refl
xor_loop_above (suc k) n c j h =
    xor_loop_above k _ (c / 2 ^ 8) j (omega arith) ∙ get_elem?-set_ne n (4 + k) j _ (omega arith)

xor_loop_below :
    (k : ℕ) (n : Nonce) (c j : ℕ) → j < 4 → get_elem? (xor_loop k n c) j ≡ get_elem? n j
unfolding xor_loop
xor_loop_below zero n c j h = refl
xor_loop_below (suc k) n c j h =
    xor_loop_below k _ (c / 2 ^ 8) j h ∙ get_elem?-set_ne n (4 + k) j _ (omega arith)

-- The byte that the next round writes is final.
xor_loop_at :
    (k : ℕ) (n : Nonce) (c : ℕ)
    → 4 + k < length n
    → get_elem? (xor_loop (suc k) n c) (4 + k) ≡ some (bit_xor (get_or n (4 + k) 0) (c % 2 ^ 8))
unfolding xor_loop
xor_loop_at k n c h =
    xor_loop_above k _ (c / 2 ^ 8) (4 + k) (omega arith) ∙ get_elem?-set_self n (4 + k) _ h

-- Equal results have equal bytes at the position of the next round, so equal low counter bytes.
xor_loop_low :
    (k : ℕ) (n m : Nonce) (c d : ℕ)
    → 4 + k < length n
    → 4 + k < length m
    → get_or n (4 + k) 0 ≡ get_or m (4 + k) 0
    → xor_loop (suc k) n c ≡ xor_loop (suc k) m d
    → c % 2 ^ 8 ≡ d % 2 ^ 8
xor_loop_low k n m c d hn hm same e =
    bit_xor-injective (get_or n (4 + k) 0) _ _
      (cc (xor_loop_at k n c hn, xor_loop_at k m d hm, same, e))

xor_loop-injective :
    (k : ℕ) (n m : Nonce) (c d : ℕ)
    → length n ≡ length m
    → 4 + k ≤ length n
    → ((j : ℕ) → j < 4 + k → get_or n j 0 ≡ get_or m j 0)
    → c < 256 ^ k
    → d < 256 ^ k
    → xor_loop k n c ≡ xor_loop k m d
    → c ≡ d
unfolding xor_loop
xor_loop-injective zero n m c d size room same hc hd e = omega arith
xor_loop-injective (suc k) n m c d size room same hc hd e = omega (
  arith,
  xor_loop_low k n m c d (omega arith) (omega arith) (same (4 + k) (omega arith)) e,
  xor_loop-injective k (set n (4 + k) _) (set m (4 + k) _) (c / 2 ^ 8) (d / 2 ^ 8)
      (length-set n (4 + k) _ ∙ size ∙ sym (length-set m (4 + k) _))
      (omega (arith, length-set n (4 + k) (bit_xor (get_or n (4 + k) 0) (c % 2 ^ 8))))
      (λ j h.
        get_or-set_ne n (4 + k) j _ 0 (omega arith)
        ∙ same j (omega arith)
        ∙ sym (get_or-set_ne m (4 + k) j _ 0 (omega arith)))
      (omega (arith, pow-suc 256 k)) (omega (arith, pow-suc 256 k)) e,
)

-- Two 64-bit sequence numbers that give the same nonce from a 12-byte base are equal.
pub modify_nonce_with_sequence-injective :
    (base : Nonce) (c d : ℕ)
    → IsNonce base
    → c < 2 ^ 64
    → d < 2 ^ 64
    → modify_nonce_with_sequence base c ≡ modify_nonce_with_sequence base d
    → c ≡ d
unfolding modify_nonce_with_sequence
modify_nonce_with_sequence-injective base c d v hc hd e =
    xor_loop-injective 8 base base c d refl (omega (arith, v.size)) (λ j h. refl) hc hd e

-- The result is a nonce, and its first four bytes are those of the base.
pub modify_nonce_with_sequence-prefix :
    (base : Nonce) (c j : ℕ)
    → j < 4
    → get_elem? (modify_nonce_with_sequence base c) j ≡ get_elem? base j
unfolding modify_nonce_with_sequence
modify_nonce_with_sequence-prefix base c j h = xor_loop_below 8 base c j h

pub length-modify_nonce_with_sequence :
    (base : Nonce) (c : ℕ) → length (modify_nonce_with_sequence base c) ≡ length base
unfolding modify_nonce_with_sequence
length-modify_nonce_with_sequence base c = length-xor_loop 8 base c
