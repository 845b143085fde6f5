-- ===== src/Relay/Leaves/Traffic.antt =====
-- handle_begin_usecase.go and handle_data_usecase.go of cmd/relay/usecase leave the other circuits alone.
use go_ptor.Common.{ℕ, Bool, true, false, none, some, []}
use go_ptor.Common.Result.{Error}
use go_ptor.Value.Circuit.{CircuitId}
use go_ptor.Value.Stream.{StreamId, stream_id_from}
use go_ptor.Value.Command.{cmd_data, cmd_destroy, cmd_begin, cmd_begin_ack}
use go_ptor.Cell.{Bytes, Cell}
use go_ptor.Crypto.{aes_open, aes_seal}
use go_ptor.Payload.{encode_payload, decode_payload, BeginPayload, DataPayload}
use go_ptor.Net.{Conn}
use go_ptor.Relay.ConnState.{ConnState, begin_nonce, data_nonce, upstream_data_nonce}
use go_ptor.Relay.World.{Address, Services, forward_upstream}
use go_ptor.Relay.Repository.{get_stream}
use go_ptor.Relay.Leaves.{
  Leaving, on_state-Leaves, go-Leaves, add_stream-Leaves, remove_stream-Leaves,
}
use go_ptor.Relay.Use.Begin.{
  begin, begin_opened, begin_hidden, begin_forward, begin_exit, begin_dialed, cell_of,
}
use go_ptor.Relay.Use.Data.{
  data_cell, data_opened, data_not_opened, data_upstream, data_forward, data_exit,
}
use go_ptor.Relay.Leaves.Steps.{
  bind, caught, still, lifted, looked_up, done, failed, changed, dropped, forward, acked, dialled,
  written, ensure_serve_down-Leaves,
}

module _ (v : Services) (cid : CircuitId) (st : Address) where
  open v use {env, aead, gob, exchange}

  begin_dialed-Leaves :
      (sid : StreamId) (s : ConnState) (down : ℕ)
      → Leaving cid st (begin_dialed v st cid sid s down)
  unfolding begin_dialed
  begin_dialed-Leaves sid s down =
      bind v cid st _ _ (changed v cid st _ (add_stream-Leaves cid st sid (some down))) (λ _.
        bind v cid st _ _ (forward v cid st s.up (cell_of cmd_begin_ack []))
          (λ _. go-Leaves cid st (forward_upstream st cid sid (some down))))

  begin_opened-Leaves :
      (dec : Bytes) (s : ConnState) (hidden : Bool) (down : Conn)
      → Leaving cid st (begin_opened v st cid dec s hidden down)
  unfolding begin_opened begin_hidden begin_forward begin_exit
  begin_opened-Leaves dec s true down =
      bind v cid st _ _ (lifted v cid st (decode_payload gob.begin dec)) (λ (p : BeginPayload).
        bind v cid st _ _ (lifted v cid st (stream_id_from p.stream_id)) (λ sid.
          bind v cid st _ _ (go-Leaves cid st (forward_upstream st cid sid s.down))
            (λ _. acked v cid st s.up)))
  begin_opened-Leaves dec s false (some d) =
      bind v cid st _ _ (ensure_serve_down-Leaves v cid st)
        (λ _. forward v cid st (some d) (cell_of cmd_begin dec))
  begin_opened-Leaves dec s false none =
      bind v cid st _ _ (lifted v cid st (decode_payload gob.begin dec)) (λ (p : BeginPayload).
        bind v cid st _ _ (lifted v cid st (stream_id_from p.stream_id)) (λ sid.
          caught v cid st _ _ _ (dialled v cid st p.target) (λ down. begin_dialed-Leaves sid s down)
            (λ e.
              bind v cid st _ _
                (dropped v cid st _ (forward v cid st s.up (cell_of cmd_destroy [])))
                (λ _. failed v cid st e))))

  pub begin-Leaves : (cell : Cell) → Leaving cid st (begin v st cid cell)
  unfolding begin
  begin-Leaves cell = bind v cid st _ _ (on_state-Leaves cid st begin_nonce) (λ nonce.
      bind v cid st _ _ (looked_up v cid st) (λ (s : ConnState).
        bind v cid st _ _ (lifted v cid st (aes_open aead s.key nonce cell.payload))
          (λ dec. begin_opened-Leaves dec s s.hidden s.down)))

  data_opened-Leaves :
      (sid : StreamId) (dec : Bytes) (s : ConnState) (hidden : Bool) (down : Conn)
      → Leaving cid st (data_opened v st cid sid dec s hidden down)
  unfolding data_opened data_forward data_exit
  data_opened-Leaves sid dec s true down = written v cid st down dec
  data_opened-Leaves sid dec s false (some d) =
      bind v cid st _ _ (ensure_serve_down-Leaves v cid st) (λ _.
        bind v cid st _ _
          (lifted v cid st (encode_payload gob.content (record { stream_id = sid; content = dec })))
          (λ p. forward v cid st (some d) (cell_of cmd_data p)))
  data_opened-Leaves sid dec s false none =
      caught v cid st _ _ _ (still v cid st (get_stream cid sid))
        (λ conn.
          caught v cid st _ _ _ (written v cid st conn dec) (λ _. done v cid st tt)
            (λ e. bind v cid st _ _ (changed v cid st _ (remove_stream-Leaves cid st sid)) (λ _.
              bind v cid st _ _
                (dropped v cid st _ (forward v cid st s.up (cell_of cmd_destroy [])))
                (λ _. failed v cid st e))))
        (λ _. dropped v cid st _ (forward v cid st s.up (cell_of cmd_destroy [])))

  sealed_up-Leaves : (sid : StreamId) (b : Bytes) → Leaving cid st (data_upstream v st cid sid b)
  unfolding data_upstream
  sealed_up-Leaves sid b = bind v cid st _ _ (on_state-Leaves cid st upstream_data_nonce) (λ nonce.
      bind v cid st _ _ (looked_up v cid st) (λ (s : ConnState).
        bind v cid st _ _ (lifted v cid st (aes_seal aead s.key nonce b)) (λ enc.
          bind v cid st _ _
            (lifted v cid st
              (encode_payload gob.content (record { stream_id = sid; content = enc })))
            (λ p. forward v cid st s.up (cell_of cmd_data p)))))

  data_not_opened-Leaves :
      (sid : StreamId) (b : Bytes) (e : Error) (down : Conn)
      → Leaving cid st (data_not_opened v st cid sid b e down)
  unfolding data_not_opened
  data_not_opened-Leaves sid b e none = failed v cid st e
  data_not_opened-Leaves sid b e (some d) = sealed_up-Leaves sid b

  pub data_cell-Leaves : (cell : Cell) → Leaving cid st (data_cell v st cid cell)
  unfolding data_cell
  data_cell-Leaves cell =
      bind v cid st _ _ (lifted v cid st (decode_payload gob.content cell.payload))
        (λ (p : DataPayload).
          bind v cid st _ _ (lifted v cid st (stream_id_from p.stream_id)) (λ sid.
            bind v cid st _ _ (on_state-Leaves cid st data_nonce) (λ nonce.
              bind v cid st _ _ (looked_up v cid st) (λ (s : ConnState).
                caught v cid st _ _ _ (lifted v cid st (aes_open aead s.key nonce p.content))
                  (λ dec. data_opened-Leaves sid dec s s.hidden s.down)
                  (λ e. data_not_opened-Leaves sid p.content e s.down)))))
