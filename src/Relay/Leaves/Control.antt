-- ===== src/Relay/Leaves/Control.antt =====
-- The other use cases of cmd/relay/usecase, and forwardUpstream, leave the other circuits alone.
use go_ptor.Common.{ℕ, Bool, true, false, none, some, [], ◌∷◌, if◌then◌else◌, ◌==◌, String, get_or}
use text.Mathlib.Text.{◌==◌ as str_eq}
use go_ptor.Common.Result.{malformed_created, no_downstream, ok}
use go_ptor.Common.Exec.{modify}
use go_ptor.Value.Circuit.{CircuitId}
use go_ptor.Value.Stream.{StreamId, stream_id_from}
use go_ptor.Value.Command.{cmd_connect, cmd_data, cmd_end, cmd_destroy}
use go_ptor.Cell.{Bytes, Cell, uint16}
use go_ptor.Nonce.{Nonce}
use go_ptor.Crypto.{Key, aes_open, aes_seal}
use go_ptor.Payload.{encode_payload, decode_payload, DataPayload, ExtendPayload}
use go_ptor.Crypto.Exchange.{x25519_shared, derive_key_nonce}
use go_ptor.Net.{Conn}
use go_ptor.Relay.ConnState.{ConnState, new_conn_state, begin_nonce, upstream_data_nonce}
use go_ptor.Relay.World.{Address, Services}
use go_ptor.Relay.Repository.{remove_stream}
use go_ptor.Relay.Leaves.{
  Leaving, on_state-Leaves, remove_stream-Leaves, destroy_all_streams-Leaves, remove_circuit-Leaves,
  enlist-Leaves,
}
use go_ptor.Relay.Use.Begin.{send_upstream, upstream_chunk, end_upstream, cell_of, end_payload}
use go_ptor.Relay.Use.Connect.{
  connect, connect_forward, connect_dialed, connect_exit, hidden_state, target_of,
}
use go_ptor.Relay.Use.Connect.{by_down as connect_by_down}
use go_ptor.Relay.Use.Extend.{extend, forward_extend, forward_created, dial_next, to32}
use go_ptor.Relay.Use.Extend.{by_down as extend_by_down}
use go_ptor.Relay.Use.End.{
  end_stream, end_circuit, end_one, pass_down, destroy, destroy_down, end_target,
}
use go_ptor.Relay.Leaves.Steps.{
  bind, still, lifted, chosen, looked_up, done, failed, changed, dropped, forward, acked, dialled,
  closing, reading, created, keyed, ensure_serve_down-Leaves,
}

module _ (v : Services) (cid : CircuitId) (st : Address) where
  open v use {env, aead, gob, exchange}

  pass_down-Leaves : (cell : Cell) (down : Conn) → Leaving cid st (pass_down v st cid cell down)
  unfolding pass_down
  pass_down-Leaves cell none = done v cid st tt
  pass_down-Leaves cell (some d) =
      bind v cid st _ _ (ensure_serve_down-Leaves v cid st) (λ _. forward v cid st (some d) cell)

  end_circuit-Leaves : (cell : Cell) → Leaving cid st (end_circuit v st cid cell)
  unfolding end_circuit
  end_circuit-Leaves cell =
      bind v cid st _ _ (changed v cid st _ (destroy_all_streams-Leaves cid st)) (λ _.
        bind v cid st _ _ (looked_up v cid st) (λ (s : ConnState).
          bind v cid st _ _ (dropped v cid st _ (pass_down-Leaves cell s.down))
            (λ _. changed v cid st _ (remove_circuit-Leaves cid st))))

  end_one-Leaves : (cell : Cell) (id : ℕ) → Leaving cid st (end_one v st cid cell id)
  unfolding end_one
  end_one-Leaves cell id = bind v cid st _ _ (lifted v cid st (stream_id_from id)) (λ sid.
      bind v cid st _ _ (changed v cid st _ (remove_stream-Leaves cid st sid)) (λ _.
        bind v cid st _ _ (looked_up v cid st) (λ (s : ConnState). pass_down-Leaves cell s.down)))

  pub end_stream-Leaves : (cell : Cell) → Leaving cid st (end_stream v st cid cell)
  unfolding end_stream
  end_stream-Leaves cell =
      bind v cid st _ _ (lifted v cid st (end_target v cell.payload)) (λ (p : DataPayload).
        chosen v cid st (p.stream_id == 0) (end_circuit-Leaves cell)
          (end_one-Leaves cell p.stream_id))

  destroy_down-Leaves : (down : Conn) → Leaving cid st (destroy_down v cid down)
  unfolding destroy_down
  destroy_down-Leaves none = done v cid st tt
  destroy_down-Leaves (some d) =
      dropped v cid st _ (forward v cid st (some d) (cell_of cmd_destroy []))

  pub destroy-Leaves : Leaving cid st (destroy v st cid)
  unfolding destroy
  destroy-Leaves = bind v cid st _ _ (looked_up v cid st) (λ (s : ConnState).
      bind v cid st _ _ (destroy_down-Leaves s.down)
        (λ _. changed v cid st _ (remove_circuit-Leaves cid st)))

  forward_created-Leaves : (s : ConnState) → Leaving cid st (forward_created v cid s)
  unfolding forward_created
  forward_created-Leaves s = bind v cid st _ _ (reading v cid st s.down 20) (λ hdr.
      chosen v cid st (uint16 (get_or hdr 18 0) (get_or hdr 19 0) == 0)
        (failed v cid st malformed_created)
        (bind v cid st _ _ (reading v cid st s.down (uint16 (get_or hdr 18 0) (get_or hdr 19 0)))
          (λ payload. created v cid st s.up payload)))

  extend_by_down-Leaves :
      (cell : Cell) (s : ConnState) (down : Conn)
      → Leaving cid st (extend_by_down v cid cell s down)
  unfolding extend_by_down
  extend_by_down-Leaves cell s none = failed v cid st no_downstream
  extend_by_down-Leaves cell s (some d) =
      bind v cid st _ _ (forward v cid st (some d) cell) (λ _. forward_created-Leaves s)

  pub forward_extend-Leaves : (cell : Cell) → Leaving cid st (forward_extend v st cid cell)
  unfolding forward_extend
  forward_extend-Leaves cell =
      bind v cid st _ _ (looked_up v cid st)
        (λ (s : ConnState). extend_by_down-Leaves cell s s.down)

  connect_forward-Leaves :
      (cell : Cell) (d : Conn) → Leaving cid st (connect_forward v st cid cell d)
  unfolding connect_forward
  connect_forward-Leaves cell d = bind v cid st _ _ (ensure_serve_down-Leaves v cid st) (λ _.
      bind v cid st _ _ (on_state-Leaves cid st begin_nonce) (λ nonce.
        bind v cid st _ _ (looked_up v cid st) (λ (s : ConnState).
          bind v cid st _ _ (lifted v cid st (aes_open aead s.key nonce cell.payload))
            (λ dec. forward v cid st s.down (cell_of cmd_connect dec)))))

  connect_exit-Leaves : (cell : Cell) → Leaving cid st (connect_exit v st cid cell)
  unfolding connect_exit connect_dialed
  connect_exit-Leaves cell = bind v cid st _ _ (on_state-Leaves cid st begin_nonce) (λ nonce.
      bind v cid st _ _ (looked_up v cid st) (λ (s : ConnState).
        bind v cid st _ _ (lifted v cid st (aes_open aead s.key nonce cell.payload)) (λ dec.
          bind v cid st _ _ (lifted v cid st (target_of v dec)) (λ addr.
            bind v cid st _ _ (dialled v cid st addr) (λ down.
              bind v cid st _ _ (closing v cid st s.down) (λ _.
                bind v cid st _ _ (still v cid st (λ w. ok (env.now w.history))) (λ now.
                  enlist-Leaves cid st env (hidden_state v s down now) _
                    (λ p. acked v cid st s.up))))))))

  connect_by_down-Leaves :
      (cell : Cell) (down : Conn) → Leaving cid st (connect_by_down v st cid cell down)
  unfolding connect_by_down
  connect_by_down-Leaves cell none = connect_exit-Leaves cell
  connect_by_down-Leaves cell (some d) = connect_forward-Leaves cell (some d)

  pub connect-Leaves : (cell : Cell) → Leaving cid st (connect v st cid cell)
  unfolding connect
  connect-Leaves cell =
      bind v cid st _ _ (looked_up v cid st) (λ (s : ConnState). connect_by_down-Leaves cell s.down)

  dial_next-Leaves : (hop : String) → Leaving cid st (dial_next v hop)
  unfolding dial_next
  dial_next-Leaves hop =
      chosen v cid st (str_eq hop "") (done v cid st none)
        (bind v cid st _ _ (dialled v cid st hop) (λ d. done v cid st (some d)))

  pub extend-Leaves : (up : Conn) (cell : Cell) → Leaving cid st (extend v up cid cell)
  unfolding extend
  extend-Leaves up cell =
      bind v cid st _ _ (lifted v cid st (decode_payload gob.extend cell.payload))
        (λ (p : ExtendPayload). bind v cid st _ _ (keyed v cid st) (λ (pair : Bytes × Bytes).
          bind v cid st _ _ (lifted v cid st (x25519_shared exchange pair.0 p.client_pub))
            (λ secret.
              bind v cid st _ _ (lifted v cid st (derive_key_nonce exchange secret))
                (λ (derived : Key × Nonce). bind v cid st _ _ (dial_next-Leaves p.next_hop) (λ down.
                  bind v cid st _ _ (still v cid st (λ w. ok (env.now w.history))) (λ now.
                    enlist-Leaves cid st env (new_conn_state derived.0 derived.1 up down now) _
                      (λ q.
                        bind v cid st _ _
                          (lifted v cid st
                            (encode_payload gob.created (record { relay_pub = to32 pair.1 })))
                          (λ payload. created v cid st up payload))))))))

  send_upstream-Leaves :
      (sid : StreamId) (chunk : Bytes) → Leaving cid st (send_upstream v st cid sid chunk)
  unfolding send_upstream
  send_upstream-Leaves sid chunk = dropped v cid st _ (
      bind v cid st _ _ (on_state-Leaves cid st upstream_data_nonce) (λ nonce.
        bind v cid st _ _ (looked_up v cid st) (λ (s : ConnState).
          bind v cid st _ _ (lifted v cid st (aes_seal aead s.key nonce chunk)) (λ enc.
            bind v cid st _ _
              (lifted v cid st
                (encode_payload gob.content (record { stream_id = sid; content = enc })))
              (λ p. forward v cid st s.up (cell_of cmd_data p))))))

  pub upstream_chunk-Leaves :
      (sid : StreamId) (chunk : Bytes) → Leaving cid st (upstream_chunk v st cid sid chunk)
  unfolding upstream_chunk
  upstream_chunk-Leaves sid [] = done v cid st tt
  upstream_chunk-Leaves sid (b ∷ bs) = send_upstream-Leaves sid (b ∷ bs)

  delisted :
      (b : Bool) (sid : StreamId)
      → Leaving cid st (modify (if b then (λ w. w) else remove_stream cid sid))
  delisted true sid = done v cid st tt
  delisted false sid = changed v cid st _ (remove_stream-Leaves cid st sid)

  pub end_upstream-Leaves :
      (sid : StreamId) (down : Conn) → Leaving cid st (end_upstream v st cid sid down)
  unfolding end_upstream
  end_upstream-Leaves sid down = bind v cid st _ _ (delisted (sid == 0) sid) (λ _.
      bind v cid st _ _ (looked_up v cid st) (λ (s : ConnState).
        bind v cid st _ _
          (dropped v cid st _ (
            forward v cid st s.up (
              cell_of cmd_end (
                if sid == 0
                then []
                else end_payload v
                    (gob.content.gob_encode (record { stream_id = sid; content = [] }))))))
          (λ _. closing v cid st down)))
