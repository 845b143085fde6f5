-- ===== src/Relay/Use/Begin/Chunk.antt =====
-- A chunk that forwardUpstream of cmd/relay/usecase/handle_begin_usecase.go cannot put in a cell.
use go_ptor.Common.{ℕ, ◌≡◌, ◌<◌, refl, some, ◌∷◌, length, arith, ==-refl}
use go_ptor.Common.Result.{ok, err, payload_too_big}
use go_ptor.Value.Command.{cmd_data}
use go_ptor.Value.Circuit.{CircuitId}
use go_ptor.Cell.{Bytes, max_payload_size, encode}
use go_ptor.Crypto.{IsAead}
use go_ptor.Crypto.Onion.{IsKey, aes_seal_lem}
use go_ptor.Net.{Conn, Env, History, drew, encode_now}
use go_ptor.Nonce.{modify_nonce_with_sequence, increment}
use go_ptor.Payload.{encode_payload-some}
use go_ptor.Wire.{forward_cell}
use go_ptor.Relay.ConnState.{ConnState, upstream_data_nonce}
use go_ptor.Relay.World.{World, Address, Services, put_state}
use go_ptor.Relay.Use.Begin.{cell_of, send_upstream}

-- The state once its upstream counter has moved on.
abbrev pub upstream_counted : ConnState → ConnState
upstream_counted s = record s { upstream_data_counter = increment s.upstream_data_counter }

forward_cell-too_big :
    (env : Env) (up : Conn) (cid : CircuitId) (payload : Bytes) (h : History)
    → max_payload_size < length payload
    → forward_cell env up cid (cell_of cmd_data payload) h ≡ (err payload_too_big, drew ∷ h)
unfolding forward_cell encode_now encode
forward_cell-too_big env up cid payload h big = ground arith

module _ (v : Services) (laws : IsAead v.aead) where
  open v use {env, aead, gob}

  -- With a key of 32 bytes, a chunk read from the target whose sealed and encoded form is longer
  -- than 508 bytes is dropped: forwarding it upstream reports success, sends nothing, and moves
  -- the upstream counter on.
  pub send_upstream-too_big :
      (st : Address) (cid : CircuitId) (sid : ℕ) (chunk payload : Bytes) (w : World)
      → IsKey (w.states st).key
      → gob.content.gob_encode (record {
        stream_id = sid;
        content =
            aead.gcm_seal
              (w.states st).key
              (modify_nonce_with_sequence
                (w.states st).base_nonce
                (w.states st).upstream_data_counter)
              chunk;
      })
        ≡ some payload
      → max_payload_size < length payload
      → send_upstream v st cid sid chunk w ≡ (
        ok tt,
        record (put_state st (upstream_counted (w.states st)) w) { history = drew ∷ w.history },
      )
  unfolding send_upstream upstream_data_nonce
  send_upstream-too_big st cid sid chunk payload w key coded big =
      rw
        (
          ==-refl st,
          send_upstream,
          aes_seal_lem aead laws (w.states st).key _ chunk key,
          encode_payload-some gob.content _ payload coded,
          forward_cell-too_big env (w.states st).up cid payload w.history big,
        )
        refl
