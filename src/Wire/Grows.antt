-- ===== src/Wire/Grows.antt =====
-- What happens on the network is only ever added to (the actions of `Net` and `Wire`).
use mathlib.Core.List.{append_assoc}
use go_ptor.Common.{
  ℕ, ◌≡◌, refl, sym, ap, ◌∙◌, Bool-cases, inl, inr, none, some, [], ◌∷◌, ◌++◌, String,
}
use go_ptor.Common.Exec.{Exec}
use go_ptor.Common.Respects.{IsPreorder, Respects, Respects-bind}
use go_ptor.Value.Circuit.{CircuitId}
use go_ptor.Cell.{Bytes, Cell}
use go_ptor.Net.{
  Env, Conn, History, Event, write, read_conn, dial, encode_now, close, closed, wrote, write_broke,
  read, dialed, drew,
}
use go_ptor.Relay.ConnState.{close_conn}
use go_ptor.Wire.{forward_cell, send_ack, send_created}

abbrev pub Grows : History → History → Type 0
Grows h h' = (events : History) × (h' ≡ events ++ h)

pub Grows-one : (e : Event) (h : History) → Grows h (e ∷ h)
Grows-one e h = (e ∷ [], refl)

pub Grows-IsPreorder : IsPreorder Grows
Grows-IsPreorder = record {
  reflexive = λ h. ([], refl);
  transitive =
      λ {s} {t} {u} (a, e) (b, f). (b ++ a, f ∙ ap (λ t. b ++ t) e ∙ sym (append_assoc b a s));
}

-- An action that only adds to the history.
abbrev pub Growing : {A : Type 0} → Exec History A → Type 0
Growing m = Respects Grows Grows-IsPreorder m

module _ (env : Env) where
  grown_by : (c : Conn) (b : Bytes) (h : History) → Grows h (write env c b h).1
  unfolding write
  grown_by none b h = ([], refl)
  grown_by (some c) b h = elim (Bool-cases (env.writable h c b)) [
    | inl e ↦ rw (e, write) (Grows-one (wrote c b) h)
    | inr e ↦ rw (e, write) (Grows-one (write_broke c) h)
  ]

  pub write-Grows : (c : Conn) (b : Bytes) → Growing (write env c b)
  write-Grows c b = record { step = grown_by c b }

  encode_now-Grows : (cell : Cell) → Growing (encode_now env cell)
  unfolding encode_now
  encode_now-Grows cell = record { step = λ h. Grows-one drew h }

  pub forward_cell-Grows :
      (w : Conn) (cid : CircuitId) (cell : Cell) → Growing (forward_cell env w cid cell)
  unfolding forward_cell
  forward_cell-Grows w cid cell =
      Respects-bind Grows Grows-IsPreorder (encode_now env cell) _ (encode_now-Grows cell)
        (λ b. write-Grows w _)

  pub send_ack-Grows : (w : Conn) (cid : CircuitId) → Growing (send_ack env w cid)
  unfolding send_ack
  send_ack-Grows w cid = forward_cell-Grows w cid _

  pub send_created-Grows :
      (w : Conn) (cid : CircuitId) (payload : Bytes) → Growing (send_created env w cid payload)
  unfolding send_created
  send_created-Grows w cid payload =
      Respects-bind Grows Grows-IsPreorder (write env w _) _ (write-Grows w _)
        (λ _. write-Grows w payload)

  pub dial-Grows : (addr : String) → Growing (dial env addr)
  unfolding dial
  dial-Grows addr = record { step = λ h. Grows-one (dialed addr) h }

  read_by : (c : Conn) (n : ℕ) (h : History) → Grows h (read_conn env c n h).1
  unfolding read_conn
  read_by none n h = ([], refl)
  read_by (some c) n h = Grows-one (read c n) h

  pub read_conn-Grows : (c : Conn) (n : ℕ) → Growing (read_conn env c n)
  read_conn-Grows c n = record { step = read_by c n }

pub close_conn-Grows : (c : Conn) (h : History) → Grows h (close_conn c h)
unfolding close_conn close
close_conn-Grows none h = ([], refl)
close_conn-Grows (some c) h = Grows-one (closed c) h
