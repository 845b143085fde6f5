-- ===== src/Client/Controller/Quiet.antt =====
-- Actions of the client that leave the stream manager (shared/service/stream_manager_service.go) as it
-- is.
use go_ptor.Common.{◌≡◌, refl, ◌∙◌, Bool, true, false, if◌then◌else◌}
use go_ptor.Common.Result.{Result, Error}
use go_ptor.Common.Exec.{Exec, pure, fail, lift, modify, ignore, on_error, ◌>>=◌}
use go_ptor.Common.Respects.{IsPreorder, Respects, Respects-bind, Respects-on_error}
use go_ptor.Net.{History}
use go_ptor.Client.Circuit.{Circuit}
use go_ptor.Client.World.{World, Address, Act, net, get_circuit, on_circuit}

-- The stream manager is as before.
abbrev pub Same : World → World → Type 0
Same w w' = w'.streams ≡ w.streams

pub Same-IsPreorder : IsPreorder Same
Same-IsPreorder = record { reflexive = λ w. refl; transitive = λ a b. b ∙ a }

abbrev pub Quiet : {A : Type 0} → Act A → Type 0
Quiet m = Respects Same Same-IsPreorder m

pub net-Quiet : {A : Type 0} (m : Exec History A) → Quiet (net m)
net-Quiet m = record { step = λ w. refl }

pub still : {A : Type 0} (r : World → Result A) → Quiet (λ w. (r w, w))
still r = record { step = λ w. refl }

pub lifted : {A : Type 0} (r : Result A) → Quiet (lift r)
lifted r = record { step = λ w. refl }

pub looked_up : (p : Address) → Quiet (get_circuit p)
looked_up p = record { step = λ w. refl }

pub on_circuit-Quiet :
    {A : Type 0} (f : Circuit → A × Circuit) (p : Address) → Quiet (on_circuit f p)
on_circuit-Quiet f p = record { step = λ w. refl }

pub changed : (f : World → World) → ((w : World) → Same w (f w)) → Quiet (modify f)
changed f h = record { step = h }

pub dropped : {A : Type 0} (m : Act A) → Quiet m → Quiet (ignore m)
dropped m h = record { step = h.step }

pub failed : {A : Type 0} (e : Error) → Quiet (fail {A = A} e)
failed e = record { step = λ w. refl }

pub done : {A : Type 0} (a : A) → Quiet (pure a)
done a = record { step = λ w. refl }

pub chosen : {A : Type 0} (b : Bool) {m n : Act A} → Quiet m → Quiet n → Quiet (if b then m else n)
chosen true h k = h
chosen false h k = k

pub bind :
    {A B : Type 0} (m : Act A) (f : A → Act B) → Quiet m → ((a : A) → Quiet (f a)) → Quiet (m >>= f)
bind = Respects-bind Same Same-IsPreorder

pub caught :
    {A B : Type 0} (m : Act A) (f : A → Act B) (g : Error → Act B)
    → Quiet m
    → ((a : A) → Quiet (f a))
    → ((e : Error) → Quiet (g e))
    → Quiet (on_error m f g)
caught = Respects-on_error Same Same-IsPreorder
