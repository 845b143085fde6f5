-- ===== src/Client/Use/Build/Shuffle.antt =====
-- secureShuffle of build_circuit_usecase.go.
use go_ptor.Common.{
  ℕ, zero, suc, ◌+◌, ◌-◌, ◌≡◌, refl, ap, sym, ◌∙◌, subst, inl, inr, List, length, All, Option, none,
  some, Option-cases, get_elem?, length-set, All-set, All-get_elem?, ◌%◌, get_or,
}
use go_ptor.Common.Result.{ok}
use go_ptor.Common.Exec.{continue-ok}
use go_ptor.Cell.{uint16}
use go_ptor.Crypto.Exchange.{or_fail}
use go_ptor.Net.{Env, History}
use go_ptor.Client.Use.Build.{put_at, swap, shuffle_loop, secure_shuffle}

module _ {A : Type 0} (P : A → Type 0) where
  All-swap : (i j : ℕ) (xs : List A) → All P xs → All P (swap i j xs)
  unfolding swap put_at
  All-swap i j xs h = elim (Option-cases (get_elem? xs i)) [
    | inl e ↦ elim (Option-cases (get_elem? xs j)) [
      | inl f ↦ rw (e, f) h
      | inr (b, f) ↦ rw (e, f) (All-set P i b xs (All-get_elem? P j b xs h f) h)
    ]
    | inr (a, e) ↦ elim (Option-cases (get_elem? xs j)) [
      | inl f ↦ rw (e, f) (All-set P j a xs (All-get_elem? P i a xs h e) h)
      | inr (b, f) ↦
          rw (e, f)
            (All-set P j a _ (All-get_elem? P i a xs h e)
              (All-set P i b xs (All-get_elem? P j b xs h f) h))
    ]
  ]

  length-put_at : (i : ℕ) (o : Option A) (xs : List A) → length (put_at i o xs) ≡ length xs
  unfolding put_at
  length-put_at i none xs = refl
  length-put_at i (some a) xs = length-set xs i a

  length-swap : (i j : ℕ) (xs : List A) → length (swap i j xs) ≡ length xs
  unfolding swap
  length-swap i j xs =
      length-put_at j (get_elem? xs i) (put_at i (get_elem? xs j) xs)
      ∙ length-put_at i (get_elem? xs j) xs

  -- Rounds of the shuffle keep the length and every property that all entries have.
  shuffle_loop-All :
      (env : Env) (i : ℕ) (xs : List A) (h : History) {ys : List A} {h' : History}
      → All P xs
      → shuffle_loop env i xs h ≡ (ok ys, h')
      → All P ys × (length ys ≡ length xs)
  unfolding shuffle_loop
  shuffle_loop-All env zero xs h p e =
      let same : xs ≡ _ = cc e in (subst (All P) same p, ap length (sym same))
  shuffle_loop-All env (suc i) xs h p e =
      let (b, _, e') = continue-ok (or_fail _ (env.rand h 2)) _ _ e in
      let j = uint16 (get_or b 0 0) (get_or b 1 0) % (suc i + 1) in
      let (q, size) = shuffle_loop-All env i (swap (suc i) j xs) _ (All-swap (suc i) j xs p) e' in
      (q, size ∙ length-swap (suc i) j xs)

  pub secure_shuffle-All :
      (env : Env) (xs : List A) (h : History) {ys : List A} {h' : History}
      → All P xs
      → secure_shuffle env xs h ≡ (ok ys, h')
      → All P ys × (length ys ≡ length xs)
  unfolding secure_shuffle
  secure_shuffle-All env xs h p e = shuffle_loop-All env (length xs - 1) xs h p e
