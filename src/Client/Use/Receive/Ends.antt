-- ===== src/Client/Use/Receive/Ends.antt =====
-- recvLoop of cmd/client/handler/socks5_controller.go stops when the connection to the first relay
-- ends, and leaves no stream behind.
use go_ptor.Common.{
  ℕ, zero, suc, ◌+◌, ◌*◌, ◌≡◌, ◌≤◌, ◌<◌, ◌⊎◌, inl, inr, refl, ap, ◌∙◌, sym, Bool, true, false,
  Option, none, some, [], arith, get_or, if◌then◌else◌, ◌==◌, String,
}
use go_ptor.Common.Result.{Result, Error, ok, err, panic, nil_connection}
use go_ptor.Common.Exec.{continue, continue-ok, pure, fail, handled, ignored}
use go_ptor.Value.Circuit.{CircuitId, CircuitId-discrete}
use go_ptor.Common.Map.{lookup}
use go_ptor.Value.Command.{cmd_data, cmd_end}
use go_ptor.Cell.{Bytes, Cell}
use go_ptor.Net.{Env, read_conn, circuit_id_from}
use go_ptor.Wire.{read_cell}
use go_ptor.Wire.Grows.{Grows}
use go_ptor.Wire.Asked.{asked, EndsAfter, asked-Grows, read_cell-asks}
use go_ptor.Client.Circuit.{conn}
use go_ptor.Client.World.{Act, World, Address, Services}
use go_ptor.Client.Repository.{find, find_address, or_not_found}
use go_ptor.Client.Streams.{close_all}
use go_ptor.Client.Use.Receive.{
  Received, received, is_eof, is_end, Decrypted, CellData, from_conn, receive_cell, to_stream,
  deliver, process, decrypt_cell_data, recv_round, recv_rounds, stop,
}
use go_ptor.Client.Use.Receive.Kept.{Kept, process-Keeping, recv_round-Keeping}

-- The first connection of the circuit, while it is known, is this one or was never made.
abbrev pub ReadsFrom : Env → String → ℕ → World → Type 0
ReadsFrom env text c w =
    (cid : CircuitId) (p : Address)
    → circuit_id_from env text ≡ ok cid
    → find_address cid w ≡ some p
    → (conn 0 (w.objects p) ≡ some c) ⊎ (conn 0 (w.objects p) ≡ none)

ReadsFrom-Kept :
    (env : Env) (text : String) (c : ℕ) {w w' : World}
    → Kept w w'
    → ReadsFrom env text c w
    → ReadsFrom env text c w'
unfolding conn
ReadsFrom-Kept env text c {w} {w'} kept reads cid p named known =
    let same : conn 0 (w'.objects p) ≡ conn 0 (w.objects p) =
      ap (λ l. get_or l 0 none) (kept.wired p) in
    let there : find_address cid w ≡ some p =
      ap (λ m. lookup CircuitId-discrete cid m) (sym kept.found) ∙ known in
    elim (reads cid p named there) [ inl e ↦ inl (same ∙ e) | inr e ↦ inr (same ∙ e) ]

found_at : (o : Option Address) (p : Address) → or_not_found o ≡ ok p → o ≡ some p
unfolding or_not_found
found_at none p e = absurd (cc e)
found_at (some q) p e = cc e

eof_or_error :
    (b : Bool) (x : Error) (cell : Cell) (q : Address) (w w' : World)
    → (if b then pure is_eof else fail x) w ≡ (ok (received cell q), w')
    → ⊥
eof_or_error true x cell q w w' e = absurd (cc e)
eof_or_error false x cell q w w' e = absurd (cc e)

was_read :
    (r : Result (CircuitId × Cell)) (p q : Address) (cell : Cell) (w w' : World)
    → handled r (λ r. pure (received r.1 p)) (λ e. if is_end e then pure is_eof else fail e) w
      ≡ (ok (received cell q), w')
    → (a : CircuitId × Cell) × (r ≡ ok a) × (w' ≡ w)
was_read (ok a) p q cell w w' e = (a, refl, sym (ap (λ r. r.1) e))
was_read (err x) p q cell w w' e = absurd (eof_or_error (is_end x) x cell q w w' e)
was_read panic p q cell w w' e = absurd (cc e)

-- A loop that is over has closed all streams.
abbrev Goes : Result Bool × World → Type 0
Goes r = ((r.0 ≡ ok false) × (r.1.streams ≡ [])) ⊎ (r.0 ≡ panic) ⊎ (r.0 ≡ ok true)

abbrev pub Ended : Result Bool × World → Type 0
Ended r = ((r.0 ≡ ok true) × (r.1.streams ≡ [])) ⊎ (r.0 ≡ panic)

went_on : (r : Result (Unit {0})) (w : World) → Goes (continue (ignored r) (λ _. pure true) w)
went_on (ok a) w = inr (inr refl)
went_on (err e) w = inr (inr refl)
went_on panic w = inr (inl refl)

chosen :
    (b : Bool) (m n : Act Bool) (w : World)
    → Goes (m w)
    → Goes (n w)
    → Goes ((if b then m else n) w)
chosen true m n w h k = h
chosen false m n w h k = k

module _ (v : Services) where
  open v use {env}

  to_stream-Goes : (c : Option ℕ) (b : Bytes) (w : World) → Goes (to_stream v c b w)
  unfolding to_stream
  to_stream-Goes none b w = inr (inr refl)
  to_stream-Goes (some c) b w = went_on _ _

  deliver-Goes : (d : Option CellData) (w : World) → Goes (deliver v d w)
  unfolding deliver close_all
  deliver-Goes none w = inr (inr refl)
  deliver-Goes (some d) w = chosen (d.command == cmd_data) _ _ w (to_stream-Goes _ d.content w) (
      chosen (d.command == cmd_end) _ _ w
        (chosen (d.stream_id == 0) _ _ w (inl (refl, refl)) (inr (inr refl))) (inr (inr refl)))

  opened-Goes :
      (r : Result Decrypted) (w : World)
      → Goes (
          handled r (λ d. if d.should_close then stop v else deliver v d.cell_data) (λ e. stop v) w)
  unfolding close_all
  opened-Goes (ok d) w = chosen d.should_close _ _ w (inl (refl, refl)) (deliver-Goes d.cell_data w)
  opened-Goes (err e) w = inl (refl, refl)
  opened-Goes panic w = inr (inl refl)

  process-Goes : (r : Received) (w : World) → Goes (process v r w)
  unfolding process close_all
  process-Goes is_eof w = inl (refl, refl)
  process-Goes (received cell p) w =
      opened-Goes (decrypt_cell_data v cell p w).0 (decrypt_cell_data v cell p w).1

module _ (v : Services) (other : World → World) (text : String) (c total : ℕ)
    (finite : EndsAfter v.env c total) where
  open v use {env}

  receive_cell-asks :
      (w w' : World) (cell : Cell) (q : Address)
      → ReadsFrom env text c w
      → receive_cell v text w ≡ (ok (received cell q), w')
      → (asked c w.history + 528 ≤ total) × (asked c w.history + 528 ≤ asked c w'.history)
  unfolding receive_cell find from_conn
  receive_cell-asks w w' cell q reads e =
      let (cid, e1, k1) = continue-ok (circuit_id_from env text) _ w e in
      let (p, e2, k2) = continue-ok (or_not_found (find_address cid w)) _ w k1 in
      elim (reads cid p e1 (found_at _ p e2)) [
        | inl there ↦
            let read = read_cell env (read_conn env (some c)) w.history in
            let (a, e3, e4) =
              was_read read.0 p q cell (record w { history = read.1 }) w'
                (ap (λ d. from_conn v p d w) (sym there) ∙ k2) in
            let (within, more) =
              read_cell-asks env c total finite w.history (ap (λ x. (x, read.1)) e3) in
            let same : w'.history ≡ read.1 = ap (λ w. w.history) e4 in
            (within, omega (arith, more, ap (λ h. asked c h) same))
        | inr gone ↦
            let bad : (err nil_connection, w) ≡ (ok (received cell q), w') =
              ap (λ d. from_conn v p d w) (sym gone) ∙ k2 in
            absurd (cc bad)
      ]

  abbrev Round : World → Result Bool × World → Type 0
  Round w r =
      ((r.0 ≡ ok false) × (r.1.streams ≡ []))
      ⊎ (r.0 ≡ panic)
      ⊎ ((r.0 ≡ ok true)
          × (asked c w.history + 528 ≤ total)
          × (asked c w.history + 528 ≤ asked c r.1.history))

  handled-Round :
      (w : World) (r : Result Received) (w' : World)
      → ReadsFrom env text c w
      → receive_cell v text w ≡ (r, w')
      → Round w (handled r (λ r. process v r) (λ e. stop v) w')
  unfolding close_all process
  handled-Round w (err x) w' reads e = inl (refl, refl)
  handled-Round w panic w' reads e = inr (inl refl)
  handled-Round w (ok is_eof) w' reads e = inl (refl, refl)
  handled-Round w (ok (received cell p)) w' reads e =
      let (within, more) = receive_cell-asks w w' cell p reads e in
      let later = asked-Grows c ((process-Keeping v (received cell p)).step w').grown in
      elim (process-Goes v (received cell p) w') [
        | inl over ↦ inl over
        | inr (inl stuck) ↦ inr (inl stuck)
        | inr (inr on) ↦ inr (inr (on, within, omega (arith, more, later)))
      ]

  recv_round-Round : (w : World) → ReadsFrom env text c w → Round w (recv_round v text w)
  unfolding recv_round
  recv_round-Round w reads =
      handled-Round w (receive_cell v text w).0 (receive_cell v text w).1 reads refl

  -- When every read and write returns, and reads of the connection to the first relay return an
  -- error once more than a given number of bytes have been asked of it, since it is closed or
  -- broken then, the loop that receives the cells of a circuit ends, by returning with no stream
  -- left in the stream manager or by a panic: one round for each 528 of the bytes and one more
  -- suffice, whatever the cells hold. The first connection of the circuit, while the circuit is
  -- known, is the one to this relay or was never made; other goroutines may do anything in between
  -- that keeps this and only adds to what has happened on the network. Nothing is said of a relay
  -- that stays connected and silent, as no read has a deadline.
  pub recv_rounds-ends :
      (k : ℕ) (w : World)
      → ((w : World) → Grows w.history (other w).history)
      → ((w : World) → ReadsFrom env text c w → ReadsFrom env text c (other w))
      → ReadsFrom env text c w
      → total < asked c w.history + 528 * k
      → Ended (recv_rounds v other (suc k) text w)
  unfolding recv_rounds
  recv_rounds-ends zero w grows stays reads enough = elim (recv_round-Round w reads) [
    | inl (e, none_left) ↦ rw e (inl (refl, none_left))
    | inr (inl e) ↦ rw e (inr refl)
    | inr (inr (e, within, more)) ↦ absurd (omega (arith, enough, within))
  ]
  recv_rounds-ends (suc k) w grows stays reads enough = elim (recv_round-Round w reads) [
    | inl (e, none_left) ↦ rw e (inl (refl, none_left))
    | inr (inl e) ↦ rw e (inr refl)
    | inr (inr (e, within, more)) ↦
        let w₁ = (recv_round v text w).1 in
        let later = asked-Grows c (grows w₁) in
        let still = ReadsFrom-Kept env text c ((recv_round-Keeping v text).step w) reads in
        rw e (
          recv_rounds-ends k (other w₁) grows stays (stays w₁ still)
            (omega (arith, enough, more, later)))
  ]
