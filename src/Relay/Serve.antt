-- ===== src/Relay/Serve.antt =====
-- ServeConn of cmd/relay/handler/relay_handler.go: the loop that one goroutine runs for a connection.
pub mod Ends
use go_ptor.Common.{ℕ, zero, suc, Bool, true, false, if◌then◌else◌}
use go_ptor.Common.Exec.{Exec, pure, modify, ignore, on_error, ◌>>=◌, ◌>>◌}
use go_ptor.Net.{Conn, read_conn}
use go_ptor.Wire.{read_cell}
use go_ptor.Relay.ConnState.{close_conn}
use go_ptor.Relay.World.{World, Act, Services, net}
use go_ptor.Relay.Handler.{handle_cell}

-- `other` is what the other goroutines of the relay do to its state between two rounds.
module _ (v : Services) (other : World → World) where
  open v use {env}

  -- One round: whether there is another one. The error of HandleCell is only logged.
  unfoldable pub serve_round : Conn → Act Bool
  serve_round c =
      on_error (net (read_cell env (read_conn env c)))
        (λ r. do ignore (handle_cell v c r.0 r.1); pure true) (λ e. pure false)

  -- At most `fuel` rounds; `false` when they did not suffice.
  unfoldable pub serve_rounds : ℕ → Conn → Act Bool
  unfolding serve_round
  serve_rounds zero c = pure false
  serve_rounds (suc fuel) c = do
    more ← serve_round c
    if more then (do modify other; serve_rounds fuel c) else pure true

  -- The deferred Close runs however the loop ends.
  unfoldable pub serve : ℕ → Conn → Act Bool
  unfolding serve_rounds close_conn
  serve fuel c w =
      let r = serve_rounds fuel c w in (r.0, record r.1 { history = close_conn c r.1.history })
