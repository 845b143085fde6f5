-- ===== src/Common/Exec.antt =====
-- Methods that change a state and may fail: what was written before an error stays written, so the
-- state comes back beside the error too.
use mathlib.Core.Path.{◌≡◌, refl}
use go_ptor.Common.Result.{Result, Error, ok, err, panic}

abbrev pub Exec {ℓ} : Type ℓ → Type ℓ → Type ℓ
Exec S A = S → Result A × S

module _ {ℓ} {S A : Type ℓ} where
  abbrev pub pure : A → Exec S A
  pure a s = (ok a, s)

  abbrev pub fail : Error → Exec S A
  fail e s = (err e, s)

  abbrev pub crash : Exec S A
  crash s = (panic, s)

  abbrev pub lift : Result A → Exec S A
  lift r s = (r, s)

  abbrev pub gets : (S → A) → Exec S A
  gets f s = (ok (f s), s)

module _ {ℓ} {S : Type ℓ} where
  abbrev pub modify : (S → S) → Exec S (Unit {ℓ})
  modify f s = (ok tt, f s)

module _ {ℓ} {S A B : Type ℓ} where
  abbrev pub continue : Result A → (A → Exec S B) → Exec S B
  continue (ok a) f s = f a s
  continue (err e) f s = (err e, s)
  continue panic f s = (panic, s)

  infixl 5 ◌>>=◌ ◌>>◌
  abbrev pub ◌>>=◌ : Exec S A → (A → Exec S B) → Exec S B
  ◌>>=◌ m f s = continue (m s).0 f (m s).1

  abbrev pub ◌>>◌ : Exec S A → Exec S B → Exec S B
  m >> n = m >>= λ _. n

  -- `if err := m; err != nil { … }` where the block does not just pass the error on
  abbrev pub handled : Result A → (A → Exec S B) → (Error → Exec S B) → Exec S B
  handled (ok a) f g s = f a s
  handled (err e) f g s = g e s
  handled panic f g s = (panic, s)

  abbrev pub on_error : Exec S A → (A → Exec S B) → (Error → Exec S B) → Exec S B
  on_error m f g s = handled (m s).0 f g (m s).1

abbrev pub ignored {ℓ} : {A : Type ℓ} → Result A → Result (Unit {ℓ})
ignored (ok a) = ok tt
ignored (err e) = ok tt
ignored panic = panic

-- `_ = m`: the error is dropped, a panic is not.
abbrev pub ignore {ℓ} : {S A : Type ℓ} → Exec S A → Exec S (Unit {ℓ})
ignore m s = (ignored (m s).0, (m s).1)

-- A chain that succeeds does so because its first action does.
pub continue-ok {ℓ} :
    {S A B : Type ℓ} (r : Result A) (f : A → Exec S B) (s : S) {b : B} {s' : S}
    → continue r f s ≡ (ok b, s')
    → (a : A) × (r ≡ ok a) × (f a s ≡ (ok b, s'))
continue-ok (ok a) f s e = (a, refl, e)
continue-ok (err x) f s e = absurd (cc e)
continue-ok panic f s e = absurd (cc e)
