-- ===== src/Value/Stream.antt =====
-- stream_id.go. The process-wide counter is an explicit number, an atomic uint32.
use go_ptor.Common.{
  zero, suc, ◌<◌, ◌≡◌, ◌≢◌, arith, ℕ, ◌+◌, ◌%◌, ◌^◌, ◌≤◌, ltb, if◌then◌else◌, ◌==◌,
}
use go_ptor.Common.Result.{Result, ok, err, reserved_stream_id}

abbrev pub StreamId : Type 0
StreamId = ℕ

-- The new counter and the identifier; `Add` wraps at 32 bits.
unfoldable pub new_stream_id_auto : ℕ → ℕ × StreamId
new_stream_id_auto counter =
    let v = (counter + 1) % 2 ^ 32 in if ltb 0xFFFF v then (1, 1) else (v, v % 2 ^ 16)

unfoldable pub stream_id_from : ℕ → Result StreamId
stream_id_from v = if v == 0 then err reserved_stream_id else ok v

pub stream_id_from-ok : (v : ℕ) → v ≢ 0 → stream_id_from v ≡ ok v
unfolding stream_id_from
stream_id_from-ok v h = ground arith

-- The identifier that the call after `k` others gets, one after the other from a counter.
abbrev pub nth_stream_id : ℕ → ℕ → StreamId
nth_stream_id zero counter = (new_stream_id_auto counter).1
nth_stream_id (suc k) counter = nth_stream_id k (new_stream_id_auto counter).0

new_stream_id_auto-step :
    (counter : ℕ)
    → counter ≤ 0xFFFF
    → ((new_stream_id_auto counter).0 ≡ counter % 65535 + 1)
      × ((new_stream_id_auto counter).1 ≡ counter % 65535 + 1)
unfolding new_stream_id_auto
new_stream_id_auto-step counter h = (ground arith, ground arith)

nth_stream_id_lem :
    (k counter : ℕ) → counter ≤ 0xFFFF → nth_stream_id k counter ≡ (counter + k) % 65535 + 1
nth_stream_id_lem zero counter h = omega (arith, (new_stream_id_auto-step counter h).1)
nth_stream_id_lem (suc k) counter h =
    let step = (new_stream_id_auto-step counter h).0 in
    omega (arith, step, nth_stream_id_lem k (new_stream_id_auto counter).0 (omega (arith, step)))

-- Stream identifiers that are taken one after the other, from a counter of at most 65535, count up
-- from it and go from 65535 to 1; none is the reserved 0, all fit in 16 bits, and any two that are
-- fewer than 65535 calls apart differ.
pub nth_stream_id_unique :
    (counter i j : ℕ)
    → counter ≤ 0xFFFF
    → i < j
    → j < i + 65535
    → (nth_stream_id i counter ≡ (counter + i) % 65535 + 1)
      × (nth_stream_id i counter ≢ 0)
      × (nth_stream_id i counter ≤ 0xFFFF)
      × (nth_stream_id i counter ≢ nth_stream_id j counter)
nth_stream_id_unique counter i j h before near =
    let at_i = nth_stream_id_lem i counter h in
    let at_j = nth_stream_id_lem j counter h in
    (
      at_i,
      (λ e. omega (arith, at_i, e)),
      omega (arith, at_i),
      (λ e. omega (arith, at_i, at_j, e, before, near)),
    )
