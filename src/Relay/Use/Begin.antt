-- ===== src/Relay/Use/Begin.antt =====
-- cmd/relay/usecase/handle_begin_usecase.go
pub mod Chunk
pub mod Hops
pub mod Path
use go_ptor.Common.{ℕ, Bool, true, false, Option, none, some, List, [], ◌∷◌, ◌==◌, if◌then◌else◌}
use go_ptor.Common.Exec.{pure, lift, modify, fail, ignore, on_error, ◌>>=◌, ◌>>◌}
use go_ptor.Value.Command.{cmd_begin, cmd_begin_ack, cmd_data, cmd_end, cmd_destroy, protocol_v1}
use go_ptor.Value.Circuit.{CircuitId}
use go_ptor.Value.Stream.{StreamId, stream_id_from}
use go_ptor.Cell.{Bytes, Cell}
use go_ptor.Crypto.{aes_open, aes_seal}
use go_ptor.Net.{Conn, dial}
use go_ptor.Payload.{encode_payload, decode_payload}
use go_ptor.Wire.{forward_cell, send_ack}
use go_ptor.Relay.ConnState.{ConnState, begin_nonce, upstream_data_nonce, close_conn}
use go_ptor.Relay.World.{Address, Act, Services, net, get_state, on_state, go, forward_upstream}
use go_ptor.Relay.Repository.{add_stream, remove_stream}
use go_ptor.Relay.Use.{ensure_serve_down}

abbrev pub cell_of : ℕ → Bytes → Cell
cell_of cmd payload = record { cmd = cmd; version = protocol_v1; payload = payload }

module _ (v : Services) where
  open v use {env, aead, gob}

  -- The branch for a connection to a hidden service.
  unfoldable pub begin_hidden : Address → CircuitId → Bytes → ConnState → Act (Unit {0})
  begin_hidden st cid dec s = do
    p ← lift (decode_payload gob.begin dec)
    sid ← lift (stream_id_from p.stream_id)
    go (forward_upstream st cid sid s.down)
    net (send_ack env s.up cid)

  -- The middle relay: one layer less, downstream.
  unfoldable pub begin_forward : Address → CircuitId → Bytes → Conn → Act (Unit {0})
  unfolding ensure_serve_down
  begin_forward st cid dec down = do
    ensure_serve_down st
    net (forward_cell env down cid (cell_of cmd_begin dec))

  -- The exit relay, once it has dialled the target.
  unfoldable pub begin_dialed : Address → CircuitId → StreamId → ConnState → ℕ → Act (Unit {0})
  begin_dialed st cid sid s down = do
    modify (add_stream cid sid (some down))
    net (forward_cell env s.up cid (cell_of cmd_begin_ack []))
    go (forward_upstream st cid sid (some down))

  unfoldable pub begin_exit : Address → CircuitId → Bytes → ConnState → Act (Unit {0})
  unfolding begin_dialed
  begin_exit st cid dec s = do
    p ← lift (decode_payload gob.begin dec)
    sid ← lift (stream_id_from p.stream_id)
    on_error (net (dial env p.target)) (λ down. begin_dialed st cid sid s down)
        (λ e. do ignore (net (forward_cell env s.up cid (cell_of cmd_destroy []))); fail e)

  unfoldable pub begin_opened :
      Address → CircuitId → Bytes → ConnState → Bool → Conn → Act (Unit {0})
  begin_opened st cid dec s true down = begin_hidden st cid dec s
  begin_opened st cid dec s false (some d) = begin_forward st cid dec (some d)
  begin_opened st cid dec s false none = begin_exit st cid dec s

  unfoldable pub begin : Address → CircuitId → Cell → Act (Unit {0})
  unfolding begin_opened begin_nonce
  begin st cid cell = do
    nonce ← on_state begin_nonce st
    s ← get_state st
    dec ← lift (aes_open aead s.key nonce cell.payload)
    begin_opened st cid dec s s.hidden s.down

  -- `if n > 0 { … }` in the loop of forwardUpstream: every error is dropped.
  unfoldable pub send_upstream : Address → CircuitId → StreamId → Bytes → Act (Unit {0})
  unfolding upstream_data_nonce
  send_upstream st cid sid chunk = ignore (do
    nonce ← on_state upstream_data_nonce st
    s ← get_state st
    enc ← lift (aes_seal aead s.key nonce chunk)
    payload ← lift (encode_payload gob.content (record { stream_id = sid; content = enc }))
    net (forward_cell env s.up cid (cell_of cmd_data payload)))

  unfoldable pub upstream_chunk : Address → CircuitId → StreamId → Bytes → Act (Unit {0})
  unfolding send_upstream
  upstream_chunk st cid sid [] = pure tt
  upstream_chunk st cid sid (b ∷ bs) = send_upstream st cid sid (b ∷ bs)

  -- EncodeDataPayload with its error dropped gives what it had written, modelled as no bytes.
  unfoldable pub end_payload : Option Bytes → Bytes
  end_payload none = []
  end_payload (some b) = b

  -- `if err != nil { … }` in the loop of forwardUpstream, and the deferred Close.
  unfoldable pub end_upstream : Address → CircuitId → StreamId → Conn → Act (Unit {0})
  unfolding end_payload close_conn
  end_upstream st cid sid down = do
    modify (if sid == 0 then (λ w. w) else remove_stream cid sid)
    s ← get_state st
    ignore (
        net (
          forward_cell env s.up cid (
            cell_of cmd_end (
              if sid == 0
              then []
              else end_payload
                  (gob.content.gob_encode (record { stream_id = sid; content = [] }))))))
    modify (λ w. record w { history = close_conn down w.history })

  -- forwardUpstream over what the reads return: `chunks` from the reads without an error, and
  -- `last` from the read that reports one.
  unfoldable pub forward_upstream_loop :
      Address → CircuitId → StreamId → Conn → List Bytes → Bytes → Act (Unit {0})
  unfolding upstream_chunk end_upstream
  forward_upstream_loop st cid sid down [] last = do
    upstream_chunk st cid sid last
    end_upstream st cid sid down
  forward_upstream_loop st cid sid down (chunk ∷ chunks) last = do
    upstream_chunk st cid sid chunk
    forward_upstream_loop st cid sid down chunks last
