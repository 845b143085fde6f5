-- ===== src/Client/Circuit/Hops.antt =====
-- The per-hop keys, nonces and counters of a circuit.
use go_ptor.Common.{ℕ, zero, suc, ◌≡◌, ◌≢◌, refl, ap, arith, ℕ_discrete, List, [], ◌∷◌, ◌<◌}
use go_ptor.Common.Map.{Map, lookup-insert_ne, lookup-insert_self}
use go_ptor.Nonce.{Nonce, modify_nonce_with_sequence, increment}
use go_ptor.Client.Circuit.{
  Circuit, at_hop, bump, hop_base_nonce, hop_data_nonce, hop_data_nonce_peek, hop_begin_nonce,
  hop_begin_nonce_peek, hop_upstream_data_nonce, hop_upstream_data_nonce_peek,
}

pub at_hop-bump_ne : (i j : ℕ) (m : Map ℕ ℕ) → j ≢ i → at_hop 0 (bump i m) j ≡ at_hop 0 m j
unfolding at_hop bump
at_hop-bump_ne i j m ne = rw (lookup-insert_ne ℕ_discrete j i _ m ne) refl

pub at_hop-bump_self : (i : ℕ) (m : Map ℕ ℕ) → at_hop 0 (bump i m) i ≡ increment (at_hop 0 m i)
unfolding at_hop bump
at_hop-bump_self i m = rw (lookup-insert_self ℕ_discrete i _ m) refl

-- Taking a hop's upstream nonce does not change the next one of another hop.
pub hop_upstream_data_nonce_ne :
    (i j : ℕ) (c : Circuit)
    → j ≢ i
    → hop_upstream_data_nonce_peek j (hop_upstream_data_nonce i c).1
      ≡ hop_upstream_data_nonce_peek j c
unfolding hop_upstream_data_nonce hop_upstream_data_nonce_peek
hop_upstream_data_nonce_ne i j c ne =
    ap (modify_nonce_with_sequence (hop_base_nonce j c))
      (at_hop-bump_ne i j c.upstream_data_counter ne)

pub hop_data_nonce_ne :
    (i j : ℕ) (c : Circuit)
    → j ≢ i
    → hop_data_nonce_peek j (hop_data_nonce i c).1 ≡ hop_data_nonce_peek j c
unfolding hop_data_nonce hop_data_nonce_peek
hop_data_nonce_ne i j c ne =
    ap (modify_nonce_with_sequence (hop_base_nonce j c)) (at_hop-bump_ne i j c.data_counter ne)

pub hop_begin_nonce_ne :
    (i j : ℕ) (c : Circuit)
    → j ≢ i
    → hop_begin_nonce_peek j (hop_begin_nonce i c).1 ≡ hop_begin_nonce_peek j c
unfolding hop_begin_nonce hop_begin_nonce_peek
hop_begin_nonce_ne i j c ne =
    ap (modify_nonce_with_sequence (hop_base_nonce j c)) (at_hop-bump_ne i j c.begin_counter ne)

-- What the `n` hops from `i` on would give next.
abbrev pub peeks : (ℕ → Circuit → Nonce) → ℕ → ℕ → Circuit → List Nonce
peeks peek zero i c = []
peeks peek (suc n) i c = peek i c ∷ peeks peek n (suc i) c

-- A way to take nonces that leaves the hops before the next ones alone.
pub record IsPerHop (next : ℕ → Circuit → Nonce × Circuit) (peek : ℕ → Circuit → Nonce)
    : Type 0 where
  pub takes : (i : ℕ) (c : Circuit) → (next i c).0 ≡ peek i c
  pub others : (i j : ℕ) (c : Circuit) → j ≢ i → peek j (next i c).1 ≡ peek j c

module _ (next : ℕ → Circuit → Nonce × Circuit) (peek : ℕ → Circuit → Nonce)
    (fair : IsPerHop next peek) where
  pub peeks-next :
      (n i j : ℕ) (c : Circuit) → i < j → peeks peek n j (next i c).1 ≡ peeks peek n j c
  peeks-next zero i j c h = refl
  peeks-next (suc n) i j c h =
      cc (fair.others i j c (λ e. omega (arith, e, h)), peeks-next n i (suc j) c (omega arith))

pub data-IsPerHop : IsPerHop hop_data_nonce hop_data_nonce_peek
unfolding hop_data_nonce
data-IsPerHop = record { takes = λ i c. refl; others = hop_data_nonce_ne }

pub begin-IsPerHop : IsPerHop hop_begin_nonce hop_begin_nonce_peek
unfolding hop_begin_nonce
begin-IsPerHop = record { takes = λ i c. refl; others = hop_begin_nonce_ne }

pub upstream-IsPerHop : IsPerHop hop_upstream_data_nonce hop_upstream_data_nonce_peek
unfolding hop_upstream_data_nonce
upstream-IsPerHop = record { takes = λ i c. refl; others = hop_upstream_data_nonce_ne }
