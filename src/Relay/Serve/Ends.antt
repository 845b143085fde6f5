-- ===== src/Relay/Serve/Ends.antt =====
-- ServeConn of cmd/relay/handler/relay_handler.go stops when its connection ends.
use go_ptor.Common.{
  ℕ, zero, suc, ◌+◌, ◌*◌, ◌≡◌, ◌≤◌, ◌<◌, ◌⊎◌, inl, inr, refl, ap, Bool, true, false, some, arith,
}
use go_ptor.Common.Result.{Result, ok, err, panic}
use go_ptor.Common.Exec.{continue, ◌>>◌, pure, ignore, handled, ignored}
use go_ptor.Value.Circuit.{CircuitId}
use go_ptor.Cell.{Cell}
use go_ptor.Net.{History, read_conn}
use go_ptor.Wire.{read_cell}
use go_ptor.Wire.Grows.{Grows}
use go_ptor.Wire.Asked.{asked, EndsAfter, asked-Grows, read_cell-asks}
use go_ptor.Relay.World.{World, Services}
use go_ptor.Relay.Handler.{handle_cell}
use go_ptor.Relay.Leaves.Isolation.{handle_cell-Grows}
use go_ptor.Relay.Serve.{serve_round, serve_rounds, serve}

-- How a round ended: the loop is over, or what a cell takes was read.
abbrev Round : ℕ → ℕ → World → Result Bool × World → Type 0
Round c total w r =
    (r.0 ≡ ok false)
    ⊎ (r.0 ≡ panic)
    ⊎ ((r.0 ≡ ok true)
        × (asked c w.history + 528 ≤ total)
        × (asked c w.history + 528 ≤ asked c r.1.history))

-- The error is dropped.
went_on :
    (r : Result (Unit {0})) (w : World)
    → ((continue (ignored r) (λ _. pure true) w).0 ≡ panic)
      ⊎ (continue (ignored r) (λ _. pure true) w ≡ (ok true, w))
went_on (ok a) w = inr refl
went_on (err e) w = inr refl
went_on panic w = inl refl

module _ (v : Services) (other : World → World) (c total : ℕ)
    (finite : EndsAfter v.env c total) where
  open v use {env}

  handled-Round :
      (w : World) (r : Result (CircuitId × Cell)) (h' : History)
      → read_cell env (read_conn env (some c)) w.history ≡ (r, h')
      → Round c total w (
          handled r
            (λ r. (ignore (handle_cell v (some c) r.0 r.1) >> pure true))
            (λ e. pure false)
            (record w { history = h' }))
  handled-Round w (err x) h' e = inl refl
  handled-Round w panic h' e = inr (inl refl)
  handled-Round w (ok (cid, cell)) h' e =
      let w₁ : World = record w { history = h' } in
      let out = handle_cell v (some c) cid cell w₁ in
      let (within, more) = read_cell-asks env c total finite w.history e in
      let later = asked-Grows c (handle_cell-Grows v (some c) cid cell w₁) in
      elim (went_on out.0 out.1) [
        | inl stuck ↦ inr (inl stuck)
        | inr on ↦
            let same : (continue (ignored out.0) (λ _. pure true) out.1).1.history ≡ out.1.history =
              ap (λ r. r.1.history) on in
            let most : asked c (continue (ignored out.0) (λ _. pure true) out.1).1.history
                ≡ asked c out.1.history =
              ap (λ g. asked c g) same in
            inr (inr (ap (λ r. r.0) on, within, omega (arith, more, later, most)))
      ]

  serve_round-Round : (w : World) → Round c total w (serve_round v other (some c) w)
  unfolding serve_round
  serve_round-Round w = handled-Round w _ _ refl

  serve_rounds-ends :
      (grows : (w : World) → Grows w.history (other w).history) (k : ℕ) (w : World)
      → total < asked c w.history + 528 * k
      → ((serve_rounds v other (suc k) (some c) w).0 ≡ ok true)
        ⊎ ((serve_rounds v other (suc k) (some c) w).0 ≡ panic)
  unfolding serve_rounds
  serve_rounds-ends grows zero w enough = elim (serve_round-Round w) [
    | inl e ↦ rw e (inl refl)
    | inr (inl e) ↦ rw e (inr refl)
    | inr (inr (e, within, more)) ↦ absurd (omega (arith, enough, within))
  ]
  serve_rounds-ends grows (suc k) w enough = elim (serve_round-Round w) [
    | inl e ↦ rw e (inl refl)
    | inr (inl e) ↦ rw e (inr refl)
    | inr (inr (e, within, more)) ↦
        let w₁ = (serve_round v other (some c) w).1 in
        let later = asked-Grows c (grows w₁) in
        rw e (serve_rounds-ends grows k (other w₁) (omega (arith, enough, more, later)))
  ]

  -- When every read and write that the loop and its handlers start returns, and reads of the
  -- served connection return an error once more than a given number of bytes have been asked of
  -- it, since it is closed or broken then, the loop that serves the connection ends, by returning
  -- or by a panic: one round for each 528 of the bytes and one more suffice, whatever the handlers
  -- do and whatever other goroutines do in between, as long as that only adds to what has happened
  -- on the network. Nothing is said of a peer that stays connected and silent, as no read has a
  -- deadline.
  pub serve-ends :
      (k : ℕ) (w : World)
      → ((w : World) → Grows w.history (other w).history)
      → total < asked c w.history + 528 * k
      → ((serve v other (suc k) (some c) w).0 ≡ ok true)
        ⊎ ((serve v other (suc k) (some c) w).0 ≡ panic)
  unfolding serve
  serve-ends k w grows enough = serve_rounds-ends grows k w enough
