-- ===== src/Cell/Aggregate.antt =====
-- shared/domain/aggregate/relay_cell.go: a cell with its circuit and stream.
use go_ptor.Common.{Bool, true, false, ◌||◌, ◌==◌, ltb, if◌then◌else◌, length, ite}
use go_ptor.Common.Result.{Result, ok, err, payload_too_big, circuit_mismatch}
use go_ptor.Value.Command.{
  CellCommand, cmd_extend, cmd_connect, cmd_data, cmd_end, cmd_destroy, cmd_begin, cmd_begin_ack,
  cmd_created, protocol_v1,
}
use go_ptor.Value.Circuit.{CircuitId, CircuitId-discrete}
use go_ptor.Value.Stream.{StreamId}
use go_ptor.Cell.{Bytes, Cell, max_payload_size}

pub record RelayCell : Type 0 where
  pub cell : Cell
  pub circuit_id : CircuitId
  pub stream_id : StreamId
  pub end : Bool

unfoldable pub new_relay_cell : CellCommand → CircuitId → StreamId → Bytes → Result RelayCell
new_relay_cell cmd circuit_id stream_id payload =
    if ltb max_payload_size (length payload)
    then err payload_too_big
    else ok (record {
      cell = record { cmd = cmd; version = protocol_v1; payload = payload };
      circuit_id = circuit_id;
      stream_id = stream_id;
      end = false;
    })

unfoldable pub mark_end : RelayCell → RelayCell
mark_end rc = record rc { end = true }

unfoldable pub is_data_cell : RelayCell → Bool
is_data_cell rc = rc.cell.cmd == cmd_data

unfoldable pub is_control_cell : RelayCell → Bool
is_control_cell rc =
    let cmd = rc.cell.cmd in
    cmd == cmd_begin
    || cmd == cmd_end
    || cmd == cmd_connect
    || cmd == cmd_extend
    || cmd == cmd_destroy
    || cmd == cmd_created
    || cmd == cmd_begin_ack

unfoldable pub validate_for_circuit : CircuitId → RelayCell → Result (Unit {0})
validate_for_circuit expected rc =
    ite (CircuitId-discrete rc.circuit_id expected) (ok tt) (err circuit_mismatch)
