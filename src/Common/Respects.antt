-- ===== src/Common/Respects.antt =====
-- Actions that move their state along a preorder, whether they succeed or not; no code of the
-- repository. A property of whole handlers follows from that of their steps.
use go_ptor.Common.Result.{Result, Error, ok, err, panic}
use go_ptor.Common.Exec.{Exec, continue, handled, on_error, ◌>>=◌}

pub record IsPreorder {S : Type 0} (R : S → S → Type 0) : Type 0 where
  pub reflexive : (s : S) → R s s
  pub transitive : {s t u : S} → R s t → R t u → R s u

module _ {S : Type 0} (R : S → S → Type 0) (pre : IsPreorder R) where
  pub record Respects {A : Type 0} (m : Exec S A) : Type 0 where
    pub step : (s : S) → R s (m s).1

  Respects-continue :
      {A B : Type 0} (r : Result A) (f : A → Exec S B) {s t : S}
      → R s t
      → ((a : A) → Respects (f a))
      → R s (continue r f t).1
  Respects-continue (ok a) f h k = pre.transitive h ((k a).step _)
  Respects-continue (err e) f h k = h
  Respects-continue panic f h k = h

  pub Respects-bind :
      {A B : Type 0} (m : Exec S A) (f : A → Exec S B)
      → Respects m
      → ((a : A) → Respects (f a))
      → Respects (m >>= f)
  Respects-bind m f h k = record { step = λ s. Respects-continue (m s).0 f (h.step s) k }

  Respects-handled :
      {A B : Type 0} (r : Result A) (f : A → Exec S B) (g : Error → Exec S B) {s t : S}
      → R s t
      → ((a : A) → Respects (f a))
      → ((e : Error) → Respects (g e))
      → R s (handled r f g t).1
  Respects-handled (ok a) f g h k l = pre.transitive h ((k a).step _)
  Respects-handled (err e) f g h k l = pre.transitive h ((l e).step _)
  Respects-handled panic f g h k l = h

  pub Respects-on_error :
      {A B : Type 0} (m : Exec S A) (f : A → Exec S B) (g : Error → Exec S B)
      → Respects m
      → ((a : A) → Respects (f a))
      → ((e : Error) → Respects (g e))
      → Respects (on_error m f g)
  Respects-on_error m f g h k l = record { step = λ s. Respects-handled (m s).0 f g (h.step s) k l }
