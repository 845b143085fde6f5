-- ===== src/Relay/Handler.antt =====
-- cmd/relay/handler/relay_handler.go: which use case a cell goes to.
pub mod Removal
pub mod OneWay
pub mod Joining
use go_ptor.Common.{◌==◌, if◌then◌else◌}
use go_ptor.Common.Result.{not_found}
use go_ptor.Common.Exec.{pure, fail, on_error, ◌>>=◌}
use go_ptor.Value.Command.{
  cmd_extend, cmd_connect, cmd_data, cmd_end, cmd_destroy, cmd_begin, cmd_begin_ack,
}
use go_ptor.Value.Circuit.{CircuitId}
use go_ptor.Cell.{Cell}
use go_ptor.Net.{Conn}
use go_ptor.Wire.{forward_cell}
use go_ptor.Relay.World.{Address, Act, Services, net, get_state}
use go_ptor.Relay.Repository.{find}
use go_ptor.Relay.Use.Begin.{begin}
use go_ptor.Relay.Use.Data.{data_cell}
use go_ptor.Relay.Use.Connect.{connect}
use go_ptor.Relay.Use.Extend.{extend, forward_extend}
use go_ptor.Relay.Use.End.{end_stream, destroy}

module _ (v : Services) where
  -- The second switch of HandleCell.
  unfoldable pub dispatch : Address → CircuitId → Cell → Act (Unit {0})
  dispatch st cid cell =
      if cell.cmd == cmd_begin
      then begin v st cid cell
      else if cell.cmd == cmd_begin_ack
      then (do s ← get_state st; net (forward_cell v.env s.up cid cell))
      else if cell.cmd == cmd_end
      then end_stream v st cid cell
      else if cell.cmd == cmd_destroy
      then destroy v st cid
      else if cell.cmd == cmd_extend
      then forward_extend v st cid cell
      else if cell.cmd == cmd_connect
      then connect v st cid cell
      else if cell.cmd == cmd_data
      then data_cell v st cid cell
      else pure tt

  -- The first switch, on an unknown circuit. `find` has no other error.
  unfoldable pub unknown_circuit : Conn → CircuitId → Cell → Act (Unit {0})
  unknown_circuit up cid cell =
      if cell.cmd == cmd_end
      then pure tt
      else if cell.cmd == cmd_extend
      then extend v up cid cell
      else fail not_found

  unfoldable pub handle_cell : Conn → CircuitId → Cell → Act (Unit {0})
  unfolding dispatch unknown_circuit
  handle_cell up cid cell =
      on_error (find v.env cid) (λ st. dispatch st cid cell) (λ e. unknown_circuit up cid cell)
