-- ===== src/Client/Use/Stream.antt =====
-- open_stream_usecase.go, close_stream_usecase.go and handle_end_usecase.go
pub mod Life
use go_ptor.Common.{ℕ, Bool, true, List, [], ◌∷◌, ◌==◌, if◌then◌else◌, length, String}
use go_ptor.Common.Result.{ok}
use go_ptor.Common.Exec.{pure, lift, gets, modify, ◌>>=◌, ◌>>◌}
use go_ptor.Value.Command.{cmd_end}
use go_ptor.Value.Circuit.{CircuitId}
use go_ptor.Value.Stream.{StreamId, stream_id_from}
use go_ptor.Cell.{new_cell}
use go_ptor.Net.{circuit_id_from, circuit_id_string}
use go_ptor.Payload.{encode_payload}
use go_ptor.Wire.{send_to_connection}
use go_ptor.Client.Circuit.{Circuit, open_stream, close_stream, active_streams, conn}
use go_ptor.Client.World.{World, Address, Act, Services, net, get_circuit, put_circuit}
use go_ptor.Client.Repository.{find, remove_circuit}

-- cir.OpenStream() on the object at an address, with the process-wide counter.
unfoldable pub open_at : Address → World → World
open_at p w = record (put_circuit p (open_stream w.stream_counter (w.objects p)).1 w) {
  stream_counter = (open_stream w.stream_counter (w.objects p)).0.0;
}

unfoldable pub close_at : StreamId → Address → World → World
close_at sid p w = put_circuit p (close_stream sid (w.objects p)) w

-- `for _, sid := range cir.ActiveStreams() { cir.CloseStream(sid) }`
unfoldable pub close_each : List StreamId → Circuit → Circuit
close_each [] c = c
close_each (sid ∷ sids) c = close_each sids (close_stream sid c)

unfoldable pub close_all_at : Address → World → World
unfolding close_each
close_all_at p w = let c = w.objects p in put_circuit p (close_each (active_streams c) c) w

module _ (v : Services) where
  open v use {env, gob}

  unfoldable pub open_stream_use : String → Act (String × StreamId)
  unfolding open_at
  open_stream_use circuit_id = do
    cid ← lift (circuit_id_from env circuit_id)
    p ← find cid
    sid ← gets (λ w. (open_stream w.stream_counter (w.objects p)).0.1)
    modify (open_at p)
    c ← get_circuit p
    pure (circuit_id_string env c.id, sid)

  -- An END cell for a stream, or for the circuit when the stream is 0.
  unfoldable pub send_end : Address → CircuitId → StreamId → Act (Unit {0})
  send_end p cid sid = do
    payload ← lift (encode_payload gob.content (record { stream_id = sid; content = [] }))
    cell ← lift (new_cell cmd_end payload)
    c ← get_circuit p
    net (send_to_connection env cell (conn 0 c) cid)

  unfoldable pub close_stream_use : String → ℕ → Act Bool
  unfolding close_at send_end
  close_stream_use circuit_id stream_id = do
    cid ← lift (circuit_id_from env circuit_id)
    sid ← lift (stream_id_from stream_id)
    p ← find cid
    modify (close_at sid p)
    send_end p cid sid
    c ← get_circuit p
    if length (active_streams c) == 0 then (do send_end p cid 0; pure true) else pure true

  unfoldable pub handle_end : String → ℕ → Act Bool
  unfolding close_at close_all_at
  handle_end circuit_id stream_id = do
    cid ← lift (circuit_id_from env circuit_id)
    p ← find cid
    if stream_id == 0
        then (do modify (close_all_at p); modify (remove_circuit cid); pure true)
        else (do sid ← lift (stream_id_from stream_id); modify (close_at sid p); pure true)
