-- ===== src/Relay/Use/Connect.antt =====
-- cmd/relay/usecase/handle_connect_usecase.go
pub mod Hops
pub mod Path
use text.Mathlib.Text.{◌==◌ as str_eq}
use go_ptor.Common.{ℕ, true, none, some, [], ◌∷◌, if◌then◌else◌, String}
use go_ptor.Common.Result.{Result, ok, err, panic}
use go_ptor.Common.Exec.{lift, modify, gets, ◌>>=◌, ◌>>◌}
use go_ptor.Value.Command.{cmd_connect}
use go_ptor.Value.Circuit.{CircuitId}
use go_ptor.Cell.{Bytes, Cell}
use go_ptor.Crypto.{aes_open}
use go_ptor.Net.{Conn, Env, dial}
use go_ptor.Payload.{decode_payload}
use go_ptor.Wire.{forward_cell, send_ack}
use go_ptor.Relay.ConnState.{
  ConnState, begin_nonce, get_counters, new_conn_state_with_counters, set_hidden, close_conn,
}
use go_ptor.Relay.World.{Address, Act, Services, net, get_state, on_state, allocate}
use go_ptor.Relay.Repository.{add}
use go_ptor.Relay.Use.{ensure_serve_down}
use go_ptor.Relay.Use.Begin.{cell_of}

-- The address from the environment variables, or the built-in one.
unfoldable pub default_target : Env → String
default_target env =
    let first = env.getenv "PTOR_HIDDEN_ADDR" in
    let second = env.getenv "HIDDEN_ADDR" in
    if str_eq first "" then (if str_eq second "" then "hidden:5000" else second) else first

module _ (v : Services) where
  open v use {env, aead, gob}

  unfoldable pub connect_forward : Address → CircuitId → Cell → Conn → Act (Unit {0})
  unfolding ensure_serve_down begin_nonce
  connect_forward st cid cell down = do
    ensure_serve_down st
    nonce ← on_state begin_nonce st
    s ← get_state st
    dec ← lift (aes_open aead s.key nonce cell.payload)
    net (forward_cell env s.down cid (cell_of cmd_connect dec))

  -- `if len(dec) > 0 { … }`: a target in the payload overrides the default.
  unfoldable pub target_of : Bytes → Result String
  unfolding default_target
  target_of [] = ok (default_target env)
  target_of (b ∷ bs) = elim (decode_payload gob.connect (b ∷ bs)) [
    | ok p ↦ ok (if str_eq p.target "" then default_target env else p.target)
    | err e ↦ err e
    | panic ↦ panic
  ]

  -- `&ConnState{…}` with the time of its creation, hidden.
  unfoldable pub hidden_state : ConnState → ℕ → ℕ → ConnState
  unfolding new_conn_state_with_counters set_hidden get_counters
  hidden_state s down now =
      let (begin_counter, data_counter) = get_counters s in
      set_hidden true (
        new_conn_state_with_counters s.key s.base_nonce s.up (some down) begin_counter data_counter
          now)

  -- What follows a dial that has succeeded.
  unfoldable pub connect_dialed : CircuitId → ConnState → ℕ → Act (Unit {0})
  unfolding close_conn hidden_state
  connect_dialed cid s down = do
    modify (λ w. record w { history = close_conn s.down w.history })
    now ← gets (λ w. env.now w.history)
    fresh ← allocate (hidden_state s down now)
    modify (add env cid fresh)
    net (send_ack env s.up cid)

  unfoldable pub connect_exit : Address → CircuitId → Cell → Act (Unit {0})
  unfolding begin_nonce target_of
  connect_exit st cid cell = do
    nonce ← on_state begin_nonce st
    s ← get_state st
    dec ← lift (aes_open aead s.key nonce cell.payload)
    addr ← lift (target_of dec)
    down ← net (dial env addr)
    connect_dialed cid s down

  unfoldable pub by_down : Address → CircuitId → Cell → Conn → Act (Unit {0})
  unfolding connect_forward connect_exit
  by_down st cid cell (some d) = connect_forward st cid cell (some d)
  by_down st cid cell none = connect_exit st cid cell

  unfoldable pub connect : Address → CircuitId → Cell → Act (Unit {0})
  unfolding by_down
  connect st cid cell = do s ← get_state st; by_down st cid cell s.down
