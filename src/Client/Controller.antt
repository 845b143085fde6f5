-- ===== src/Client/Controller.antt =====
-- cmd/client/handler/socks5_controller.go: HandleConnection and setupStreamAndRelay. What its
-- receiving loop does is in `Client.Use.Receive`.
pub mod Quiet
pub mod UseCases
pub mod Registered
use text.Mathlib.Text.{◌==◌ as str_eq}
use go_ptor.Common.{ℕ, some, Bool, true, false, List, [], ◌∷◌, if◌then◌else◌, String}
use go_ptor.Common.Result.{Result, ok, err, panic}
use go_ptor.Common.Exec.{Exec, pure, lift, gets, modify, ignore, on_error, ◌>>=◌, ◌>>◌}
use go_ptor.Value.Command.{cmd_begin}
use go_ptor.Value.Stream.{StreamId}
use go_ptor.Cell.{Bytes}
use go_ptor.Payload.{encode_payload}
use go_ptor.Net.{Conn, write, close, circuit_id_string}
use go_ptor.Client.Directory.{Relay}
use go_ptor.Client.Hidden.{HiddenService}
use go_ptor.Client.Resolve.{Names, Resolved, resolve}
use go_ptor.Client.Socks.{Texts, negotiate, socks5_resp}
use go_ptor.Client.Streams
use go_ptor.Client.World.{World, Act, Services, net, get_circuit, go, recv_loop}
use go_ptor.Client.Use.Send.{send_data, send_connect}
use go_ptor.Client.Use.Stream.{open_stream_use, close_stream_use, handle_end}
use go_ptor.Client.Use.Build.{build_circuit}

-- `defer f()`: it runs however the rest ends.
abbrev pub deferred : {A : Type 0} → (World → World) → Act A → Act A
deferred f m w = let r = m w in (r.0, f r.1)

-- What the reads of a client's connection return: `chunks` without an error, then `last` beside an
-- error, which is io.EOF or another one. A read gives at most 4096 bytes.
pub record Reads : Type 0 where
  pub chunks : List Bytes
  pub last : Bytes
  pub at_eof : Bool

module _ (v : Services) where
  open v use {env, gob}

  -- `if n > 0 { … }`: whether the loop goes on.
  unfoldable pub send_chunk : String → StreamId → Bytes → Act Bool
  send_chunk circuit_id sid [] = pure true
  send_chunk circuit_id sid (b ∷ bs) =
      on_error (send_data v circuit_id sid (b ∷ bs) 0) (λ n. pure true) (λ e. pure false)

  -- `if err != nil { … }`
  unfoldable pub at_end : String → StreamId → Bool → Act (Unit {0})
  at_end circuit_id sid true = ignore (handle_end v circuit_id sid)
  at_end circuit_id sid false = pure tt

  unfoldable pub relay_loop : String → StreamId → List Bytes → Bytes → Bool → Act (Unit {0})
  unfolding send_chunk at_end
  relay_loop circuit_id sid [] last at_eof = do
    sent ← send_chunk circuit_id sid last
    if sent then at_end circuit_id sid at_eof else pure tt
  relay_loop circuit_id sid (chunk ∷ chunks) last at_eof = do
    sent ← send_chunk circuit_id sid chunk
    if sent then relay_loop circuit_id sid chunks last at_eof else pure tt

  -- Parts 4 to 7, while the stream is registered.
  unfoldable pub begin_and_relay : ℕ → String → StreamId → String → Reads → Act (Unit {0})
  unfolding relay_loop
  begin_and_relay conn circuit_id sid addr reads = do
    payload ← lift (encode_payload gob.begin (record { stream_id = sid; target = addr }))
    send_data v circuit_id sid payload cmd_begin
    ignore (net (write env (some conn) (socks5_resp 0)))
    relay_loop circuit_id sid reads.chunks reads.last reads.at_eof
    ignore (close_stream_use v circuit_id sid)

  -- `if exitRelayID != "" { … }`
  unfoldable pub connect_hidden : String → String → Act (Unit {0})
  connect_hidden circuit_id exit_relay_id =
      if str_eq exit_relay_id "" then pure tt else send_connect v circuit_id ""

  -- The part that has registered the stream, with the deferred Remove.
  unfoldable pub registered : ℕ → String → StreamId → String → Reads → Act (Unit {0})
  unfolding begin_and_relay
  registered conn circuit_id sid addr reads = do
    modify (Streams.add sid conn)
    deferred (Streams.remove sid) (begin_and_relay conn circuit_id sid addr reads)

  unfoldable pub setup_stream_and_relay : ℕ → String → String → String → Reads → Act (Unit {0})
  unfolding connect_hidden registered
  setup_stream_and_relay conn circuit_id exit_relay_id addr reads = do
    go (recv_loop circuit_id)
    connect_hidden circuit_id exit_relay_id
    st ← open_stream_use v circuit_id
    registered conn circuit_id st.1 addr reads

  -- A SOCKS5 answer; the error of the write is dropped.
  unfoldable pub answer : ℕ → ℕ → Act (Unit {0})
  answer conn code = ignore (net (write env (some conn) (socks5_resp code)))

  module _ (texts : Texts) (names : Names) (known : List Relay) (services : List HiddenService)
      (hops : ℕ) where
    unfoldable pub connected : ℕ → Reads → Resolved → Act (Unit {0})
    unfolding setup_stream_and_relay answer
    connected conn reads out =
        on_error (build_circuit v known hops out.exit_relay_id)
          (λ p. do
            c ← get_circuit p
            on_error
                (setup_stream_and_relay conn (circuit_id_string env c.id) out.exit_relay_id
                  out.dial_address reads)
                pure (λ e. pure tt))
          (λ e. answer conn 1)

    -- The errors of the negotiation are only logged, as is that of setupStreamAndRelay.
    unfoldable pub handle_connection : ℕ → Reads → Act (Unit {0})
    unfolding connected answer
    handle_connection conn reads =
        deferred (λ w. record w { history = close conn w.history })
          (on_error (net (negotiate env texts (some conn)))
            (λ target.
              on_error (lift (resolve names env services target.0 target.1)) (connected conn reads)
                (λ e. answer conn 4))
            (λ e. pure tt))
