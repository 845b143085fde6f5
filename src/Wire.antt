-- ===== src/Wire.antt =====
-- Cells on a connection: shared/service/cell_sender_service.go, cell_reader_service.go,
-- tcp_circuit_build_service.go, and SendToConnection of shared/domain/entity/cell.go.
pub mod Framing
pub mod Created
pub mod Reliable
pub mod Grows
pub mod Asked
pub mod Answer
use go_ptor.Common.{
  ℕ, ◌+◌, ◌≡◌, Bool, not, ◌||◌, Option, none, some, List, [], ◌∷◌, ◌++◌, ◌==◌, if◌then◌else◌,
  length, get_or, take, drop, replicate,
}
use go_ptor.Common.Result.{Result, ok, err, nil_connection, invalid_created_header, no_payload}
use go_ptor.Common.Exec.{Exec, pure, fail, lift, ◌>>=◌, ◌>>◌}
use go_ptor.Value.Command.{cmd_created, cmd_begin_ack, protocol_v1}
use go_ptor.Value.Circuit.{CircuitId, bytes}
use go_ptor.Cell.{Bytes, Cell, decode, put_uint16, uint16}
use go_ptor.Net.{
  Env, Conn, History, write, read_conn, dial, encode_now, circuit_id_from, circuit_id_string,
}

module _ (env : Env) where
  unfoldable pub forward_cell : Conn → CircuitId → Cell → Exec History (Unit {0})
  forward_cell w cid cell = do buf ← encode_now env cell; write env w (bytes cid ++ buf)

  -- A nil slice has no elements.
  unfoldable pub send_ack : Conn → CircuitId → Exec History (Unit {0})
  unfolding forward_cell
  send_ack w cid =
      forward_cell w cid (record { cmd = cmd_begin_ack; version = protocol_v1; payload = [] })

  -- `var hdr [20]byte` and the writes into it: copy takes at most 16 bytes of the identifier.
  unfoldable pub created_header : CircuitId → ℕ → Bytes
  unfolding put_uint16
  created_header cid n = take 16 (bytes cid) ++ (cmd_created ∷ protocol_v1 ∷ put_uint16 n)

  unfoldable pub send_created : Conn → CircuitId → Bytes → Exec History (Unit {0})
  unfolding created_header
  send_created w cid payload = do
    write env w (created_header cid (length payload))
    write env w payload

  -- Cell.SendToConnection
  unfoldable pub send_to_connection : Cell → Conn → CircuitId → Exec History (Unit {0})
  send_to_connection c none cid = fail nil_connection
  send_to_connection c (some conn) cid = do
    buf ← encode_now env c
    write env (some conn) (bytes cid ++ buf)

  -- ConnectToRelay, SendExtendCell and TeardownCircuit of TCPCircuitBuildService
  unfoldable pub send_extend_cell : Conn → CircuitId → Cell → Exec History (Unit {0})
  send_extend_cell conn cid cell = do buf ← encode_now env cell; write env conn (bytes cid ++ buf)

  unfoldable pub teardown_packet : CircuitId → Bytes
  teardown_packet cid = take 16 (bytes cid) ++ (0 ∷ 0 ∷ 0xFE ∷ 0 ∷ [])

  unfoldable pub teardown_circuit : Conn → CircuitId → Exec History (Unit {0})
  unfolding teardown_packet
  teardown_circuit conn cid = write env conn (teardown_packet cid)

  -- `S` is the state of the io.Reader, and `read n` is io.ReadFull with a buffer of `n` bytes.
  module _ {S : Type 0} (read : ℕ → Exec S Bytes) where
    unfoldable pub read_cell : Exec S (CircuitId × Cell)
    read_cell = do
      id_buf ← read 16
      cid ← lift (circuit_id_from env (env.uuid_string id_buf))
      cell_buf ← read 512
      cell ← lift (decode cell_buf)
      pure (cid, cell)

    unfoldable pub wait_for_created_response : Exec S Bytes
    unfolding uint16
    wait_for_created_response = do
      hdr ← read 20
      if not (get_or hdr 16 0 == cmd_created) || not (get_or hdr 17 0 == protocol_v1)
          then fail invalid_created_header
          else let l = uint16 (get_or hdr 18 0) (get_or hdr 19 0) in
            if l == 0 then fail no_payload else read l
