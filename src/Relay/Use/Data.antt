-- ===== src/Relay/Use/Data.antt =====
-- cmd/relay/usecase/handle_data_usecase.go
pub mod Path
pub mod Hops
pub mod Upstream
use go_ptor.Common.{Bool, true, false, none, some, []}
use go_ptor.Common.Result.{Error}
use go_ptor.Common.Exec.{pure, lift, modify, fail, ignore, on_error, ◌>>=◌, ◌>>◌}
use go_ptor.Value.Command.{cmd_data, cmd_destroy}
use go_ptor.Value.Circuit.{CircuitId}
use go_ptor.Value.Stream.{StreamId, stream_id_from}
use go_ptor.Cell.{Bytes, Cell}
use go_ptor.Crypto.{aes_open, aes_seal}
use go_ptor.Net.{Conn, write}
use go_ptor.Payload.{encode_payload, decode_payload}
use go_ptor.Wire.{forward_cell}
use go_ptor.Relay.ConnState.{ConnState, data_nonce, upstream_data_nonce}
use go_ptor.Relay.World.{Address, Act, Services, net, get_state, on_state}
use go_ptor.Relay.Repository.{get_stream, remove_stream}
use go_ptor.Relay.Use.{ensure_serve_down}
use go_ptor.Relay.Use.Begin.{cell_of}

module _ (v : Services) where
  open v use {env, aead, gob}

  -- Decryption failed, and there is a next hop: the cell is taken for upstream data.
  unfoldable pub data_upstream : Address → CircuitId → StreamId → Bytes → Act (Unit {0})
  unfolding upstream_data_nonce
  data_upstream st cid sid content = do
    nonce ← on_state upstream_data_nonce st
    s ← get_state st
    enc ← lift (aes_seal aead s.key nonce content)
    payload ← lift (encode_payload gob.content (record { stream_id = sid; content = enc }))
    net (forward_cell env s.up cid (cell_of cmd_data payload))

  unfoldable pub data_not_opened :
      Address → CircuitId → StreamId → Bytes → Error → Conn → Act (Unit {0})
  unfolding data_upstream
  data_not_opened st cid sid content e none = fail e
  data_not_opened st cid sid content e (some d) = data_upstream st cid sid content

  -- The middle relay: one layer less, downstream.
  unfoldable pub data_forward : Address → CircuitId → StreamId → Bytes → Conn → Act (Unit {0})
  unfolding ensure_serve_down
  data_forward st cid sid dec down = do
    ensure_serve_down st
    payload ← lift (encode_payload gob.content (record { stream_id = sid; content = dec }))
    net (forward_cell env down cid (cell_of cmd_data payload))

  -- The exit relay: plaintext to the local stream, and a DESTROY upstream where that fails.
  unfoldable pub data_exit : CircuitId → StreamId → Bytes → ConnState → Act (Unit {0})
  data_exit cid sid dec s = do
    on_error (λ w. (get_stream cid sid w, w))
        (λ conn.
          on_error (net (write env conn dec)) (λ _. pure tt)
            (λ e. do
              modify (remove_stream cid sid)
              ignore (net (forward_cell env s.up cid (cell_of cmd_destroy [])))
              fail e))
        (λ _. ignore (net (forward_cell env s.up cid (cell_of cmd_destroy []))))

  unfoldable pub data_opened :
      Address → CircuitId → StreamId → Bytes → ConnState → Bool → Conn → Act (Unit {0})
  unfolding data_forward data_exit
  data_opened st cid sid dec s true down = net (write env down dec)
  data_opened st cid sid dec s false (some d) = data_forward st cid sid dec (some d)
  data_opened st cid sid dec s false none = data_exit cid sid dec s

  unfoldable pub data_cell : Address → CircuitId → Cell → Act (Unit {0})
  unfolding data_opened data_not_opened data_nonce
  data_cell st cid cell = do
    p ← lift (decode_payload gob.content cell.payload)
    sid ← lift (stream_id_from p.stream_id)
    nonce ← on_state data_nonce st
    s ← get_state st
    on_error (lift (aes_open aead s.key nonce p.content))
        (λ dec. data_opened st cid sid dec s s.hidden s.down)
        (λ e. data_not_opened st cid sid p.content e s.down)
