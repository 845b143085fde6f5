-- ===== src/Relay/Use.antt =====
-- The use cases of cmd/relay/usecase, one module each, over the state of `Relay.World`. The
-- callback ensureServeDown comes from cmd/relay/handler/relay_handler.go.
pub mod Begin
pub mod Data
pub mod Connect
pub mod Extend
pub mod End
use go_ptor.Common.Result.{ok}
use go_ptor.Common.{◌≡◌, refl, ==-refl, Option, none, some, if◌then◌else◌, Bool, true, false}
use go_ptor.Common.Exec.{Exec, pure, modify, ◌>>=◌, ◌>>◌}
use go_ptor.Net.{Conn}
use go_ptor.Relay.ConnState.{ConnState, mark_served}
use go_ptor.Relay.World.{World, Address, Act, get_state, put_state, go, serve_conn}

-- `if st == nil || st.Down() == nil || st.IsServed()`; no caller passes a nil pointer.
unfoldable pub served_down : Address → ConnState → Conn → Bool → Act (Unit {0})
served_down st s none served = pure tt
served_down st s (some d) true = pure tt
served_down st s (some d) false = do modify (put_state st (mark_served s)); go (serve_conn (some d))

unfoldable pub ensure_serve_down : Address → Act (Unit {0})
unfolding served_down mark_served
ensure_serve_down st = do s ← get_state st; served_down st s s.down s.served

-- It always succeeds, writes nothing, and changes at most the mark `served` of the state.
served_down_lem :
    (st : Address) (s : ConnState) (c : Conn) (b : Bool) (w : World)
    → ((served_down st s c b w).0 ≡ ok tt) × ((served_down st s c b w).1.history ≡ w.history)
unfolding served_down
served_down_lem st s none b w = (refl, refl)
served_down_lem st s (some d) true w = (refl, refl)
served_down_lem st s (some d) false w = (refl, refl)

pub ensure_serve_down_lem :
    (st : Address) (w : World)
    → ((ensure_serve_down st w).0 ≡ ok tt) × ((ensure_serve_down st w).1.history ≡ w.history)
unfolding ensure_serve_down
ensure_serve_down_lem st w = served_down_lem st (w.states st) _ _ w

served_down-keeps :
    {A : Type 0} (f : ConnState → A)
    → ((s : ConnState) → f (mark_served s) ≡ f s)
    → (st : Address) (c : Conn) (b : Bool) (w : World)
    → f ((served_down st (w.states st) c b w).1.states st) ≡ f (w.states st)
unfolding served_down
served_down-keeps f keeps st none b w = refl
served_down-keeps f keeps st (some d) true w = refl
served_down-keeps f keeps st (some d) false w = rw (==-refl st) (keeps (w.states st))

-- What does not depend on the mark stays.
pub ensure_serve_down-keeps :
    {A : Type 0} (f : ConnState → A)
    → ((s : ConnState) → f (mark_served s) ≡ f s)
    → (st : Address) (w : World) → f ((ensure_serve_down st w).1.states st) ≡ f (w.states st)
unfolding ensure_serve_down
ensure_serve_down-keeps f keeps st w =
    served_down-keeps f keeps st (w.states st).down (w.states st).served w

pub ensure_serve_down-counter :
    (st : Address) (w : World)
    → ((ensure_serve_down st w).1.states st).data_counter ≡ (w.states st).data_counter
unfolding mark_served
ensure_serve_down-counter st w = ensure_serve_down-keeps (λ s. s.data_counter) (λ s. refl) st w
