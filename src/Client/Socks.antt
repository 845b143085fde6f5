-- ===== src/Client/Socks.antt =====
-- cmd/client/handler/socks5_controller.go and shared/domain/value_object/socks5_constants.go: what
-- a SOCKS5 client asks for. Of Go's packages: the text of an IPv4 address and of raw bytes.
use go_ptor.Common.{ℕ, ◌+◌, ◌*◌, not, [], ◌∷◌, ◌==◌, if◌then◌else◌, get_or, String}
use go_ptor.Common.Result.{unsupported_command, bad_host}
use go_ptor.Common.Exec.{Exec, pure, fail, ignore, ◌>>=◌, ◌>>◌}
use go_ptor.Cell.{Bytes}
use go_ptor.Net.{Conn, Env, History, read_conn, write}

abbrev pub socks5_version : ℕ
socks5_version = 5

abbrev pub socks5_cmd_connect : ℕ
socks5_cmd_connect = 1

abbrev pub socks5_addr_ipv4 : ℕ
socks5_addr_ipv4 = 1

abbrev pub socks5_addr_domain : ℕ
socks5_addr_domain = 3

abbrev pub socks5_handshake_resp : Bytes
socks5_handshake_resp = 5 ∷ 0 ∷ []

-- SOCKS5SuccessResp, SOCKS5ErrorResp and SOCKS5HostUnreachResp, by their response code
abbrev pub socks5_resp : ℕ → Bytes
socks5_resp code = 5 ∷ code ∷ 0 ∷ 1 ∷ 0 ∷ 0 ∷ 0 ∷ 0 ∷ 0 ∷ 0 ∷ []

pub record Texts : Type 0 where
  pub ip_string : Bytes → String
  pub of_bytes : Bytes → String

module _ (env : Env) (t : Texts) where
  -- `switch buf[3]`
  unfoldable pub read_host : Conn → ℕ → Exec History String
  read_host c kind =
      if kind == socks5_addr_ipv4
      then (do ip ← read_conn env c 4; pure (t.ip_string ip))
      else if kind == socks5_addr_domain
      then (do l ← read_conn env c 1; name ← read_conn env c (get_or l 0 0); pure (t.of_bytes name))
      else fail bad_host

  -- Phase 1 of HandleConnection: the host and the port. The buffer is longer than any read.
  unfoldable pub negotiate : Conn → Exec History (String × ℕ)
  unfolding read_host
  negotiate c = do
    hello ← read_conn env c 2
    read_conn env c (get_or hello 1 0)
    ignore (write env c socks5_handshake_resp)
    request ← read_conn env c 4
    if not (get_or request 1 0 == socks5_cmd_connect) then fail unsupported_command else (do
      host ← read_host c (get_or request 3 0)
      port ← read_conn env c 2
      pure (host, get_or port 0 0 * 256 + get_or port 1 0))
