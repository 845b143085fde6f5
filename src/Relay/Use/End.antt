-- ===== src/Relay/Use/End.antt =====
-- cmd/relay/usecase/handle_endstream_usecase.go and handle_destroy_usecase.go
use go_ptor.Common.{ℕ, none, some, [], ◌∷◌, ◌==◌, if◌then◌else◌}
use go_ptor.Common.Result.{Result, ok}
use go_ptor.Common.Exec.{pure, lift, modify, ignore, ◌>>=◌, ◌>>◌}
use go_ptor.Value.Command.{cmd_destroy}
use go_ptor.Value.Circuit.{CircuitId}
use go_ptor.Value.Stream.{stream_id_from}
use go_ptor.Cell.{Bytes, Cell}
use go_ptor.Net.{Conn}
use go_ptor.Payload.{DataPayload, decode_payload}
use go_ptor.Wire.{forward_cell}
use go_ptor.Relay.World.{Address, Act, Services, net, get_state}
use go_ptor.Relay.Repository.{destroy_all_streams, remove_circuit, remove_stream}
use go_ptor.Relay.Use.{ensure_serve_down}
use go_ptor.Relay.Use.Begin.{cell_of}

module _ (v : Services) where
  open v use {env, aead, gob}

  -- `&DataPayloadDTO{}` for an empty payload
  unfoldable pub end_target : Bytes → Result DataPayload
  end_target [] = ok (record { stream_id = 0; content = [] })
  end_target (b ∷ bs) = decode_payload gob.content (b ∷ bs)

  -- `if st.Down() != nil { … }`
  unfoldable pub pass_down : Address → CircuitId → Cell → Conn → Act (Unit {0})
  unfolding ensure_serve_down
  pass_down st cid cell none = pure tt
  pass_down st cid cell (some d) = do ensure_serve_down st; net (forward_cell env (some d) cid cell)

  unfoldable pub end_circuit : Address → CircuitId → Cell → Act (Unit {0})
  unfolding pass_down
  end_circuit st cid cell = do
    modify (destroy_all_streams cid)
    s ← get_state st
    ignore (pass_down st cid cell s.down)
    modify (remove_circuit cid)

  unfoldable pub end_one : Address → CircuitId → Cell → ℕ → Act (Unit {0})
  unfolding pass_down
  end_one st cid cell id = do
    sid ← lift (stream_id_from id)
    modify (remove_stream cid sid)
    s ← get_state st
    pass_down st cid cell s.down

  unfoldable pub end_stream : Address → CircuitId → Cell → Act (Unit {0})
  unfolding end_target end_circuit end_one
  end_stream st cid cell = do
    p ← lift (end_target cell.payload)
    if p.stream_id == 0 then end_circuit st cid cell else end_one st cid cell p.stream_id

  unfoldable pub destroy_down : CircuitId → Conn → Act (Unit {0})
  destroy_down cid none = pure tt
  destroy_down cid (some d) = ignore (net (forward_cell env (some d) cid (cell_of cmd_destroy [])))

  unfoldable pub destroy : Address → CircuitId → Act (Unit {0})
  unfolding destroy_down
  destroy st cid = do s ← get_state st; destroy_down cid s.down; modify (remove_circuit cid)
