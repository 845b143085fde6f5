-- ===== src/Wire/Asked.antt =====
-- How much is asked of a connection that ends after so many bytes (ReadCell of
-- shared/service/cell_reader_service.go).
use go_ptor.Common.{
  ℕ, ◌+◌, ◌≡◌, ◌≤◌, ◌<◌, refl, ap, ◌∙◌, true, some, [], ◌∷◌, ◌++◌, arith, dec_lt, if◌then◌else◌,
  ◌==◌, ==-refl,
}
use go_ptor.Common.Result.{Result, Error, ok, err}
use go_ptor.Common.Exec.{continue-ok, lift}
use go_ptor.Common.Respects.{Respects-bind}
use go_ptor.Value.Circuit.{CircuitId}
use go_ptor.Cell.{Bytes, Cell, decode}
use go_ptor.Net.{
  Env, History, wrote, write_broke, closed, read, dialed, drew, read_conn, circuit_id_from, Conn,
}
use go_ptor.Wire.{read_cell}
use go_ptor.Wire.Grows.{Grows, Growing, Grows-IsPreorder, read_conn-Grows}

-- How many bytes were asked of a connection.
unfoldable pub asked : ℕ → History → ℕ
asked c [] = 0
asked c (read d n ∷ h) = if d == c then n + asked c h else asked c h
asked c (_ ∷ h) = asked c h

-- A connection that gives at most `total` bytes and is then closed or broken: a read that goes beyond
-- them returns an error. A peer that stays connected and silent is not of this kind, since no read of
-- the loops has a deadline.
pub record EndsAfter (env : Env) (c total : ℕ) : Type 0 where
  pub dries_up :
      (h : History) (n : ℕ) → total < asked c h + n → (e : Error) × (env.read_full h c n ≡ err e)

pub asked-append : (c : ℕ) (a h : History) → asked c h ≤ asked c (a ++ h)
unfolding asked
asked-append c [] h = omega arith
asked-append c (wrote d b ∷ a) h = asked-append c a h
asked-append c (write_broke d ∷ a) h = asked-append c a h
asked-append c (closed d ∷ a) h = asked-append c a h
asked-append c (read d n ∷ a) h = ground (arith, asked-append c a h)
asked-append c (dialed s ∷ a) h = asked-append c a h
asked-append c (drew ∷ a) h = asked-append c a h

pub asked-Grows : (c : ℕ) {h h' : History} → Grows h h' → asked c h ≤ asked c h'
asked-Grows c {h} (a, e) = rw e (asked-append c a h)

module _ (env : Env) (c total : ℕ) (finite : EndsAfter env c total) where
  -- A read that succeeds stays within what the connection gives.
  pub read-within :
      (h : History) (n : ℕ) {b : Bytes} → env.read_full h c n ≡ ok b → asked c h + n ≤ total
  read-within h n e = elim (dec_lt total (asked c h + n)) [
    | yes more ↦ let (x, f) = finite.dries_up h n more in absurd (cc (e, f))
    | no less ↦ omega (arith, less)
  ]

  pub read_cell-asks :
      (h : History) {r : CircuitId × Cell} {h' : History}
      → read_cell env (read_conn env (some c)) h ≡ (ok r, h')
      → (asked c h + 528 ≤ total) × (asked c h + 528 ≤ asked c h')
  unfolding read_cell read_conn asked
  read_cell-asks h {r} {h'} e =
      let (id_buf, e1, k1) = continue-ok (env.read_full h c 16) _ (read c 16 ∷ h) e in
      let (cid, e2, k2) =
        continue-ok (circuit_id_from env (env.uuid_string id_buf)) _ (read c 16 ∷ h) k1 in
      let (cell_buf, e3, k3) =
        continue-ok (env.read_full (read c 16 ∷ h) c 512) _ (read c 512 ∷ read c 16 ∷ h) k2 in
      let (cell, e4, k4) = continue-ok (decode cell_buf) _ (read c 512 ∷ read c 16 ∷ h) k3 in
      let bound = read-within (read c 16 ∷ h) 512 e3 in
      let same : c == c ≡ true = ==-refl c in
      let first : asked c (read c 16 ∷ h) ≡ 16 + asked c h = rw (same, asked) refl in
      let second : asked c (read c 512 ∷ read c 16 ∷ h) ≡ 512 + (16 + asked c h) =
        rw (same, asked) refl in
      let last : h' ≡ read c 512 ∷ read c 16 ∷ h = cc k4 in
      let all : asked c h' ≡ 512 + (16 + asked c h) = ap (λ g. asked c g) last ∙ second in
      (omega (arith, bound, first), omega (arith, all))

still : {A : Type 0} (r : Result A) → Growing (lift r)
still r = record { step = λ h. Grows-IsPreorder.reflexive h }

-- Reading a cell only adds to what has happened.
pub read_cell-Grows : (env : Env) (c : Conn) → Growing (read_cell env (read_conn env c))
unfolding read_cell
read_cell-Grows env c =
    Respects-bind Grows Grows-IsPreorder _ _ (read_conn-Grows env c 16) (λ id_buf.
      Respects-bind Grows Grows-IsPreorder _ _
        (still (circuit_id_from env (env.uuid_string id_buf)))
        (λ cid. Respects-bind Grows Grows-IsPreorder _ _ (read_conn-Grows env c 512) (λ cell_buf.
          Respects-bind Grows Grows-IsPreorder _ _ (still (decode cell_buf))
            (λ cell. still (ok (cid, cell))))))
