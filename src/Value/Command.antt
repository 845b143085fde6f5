-- ===== src/Value/Command.antt =====
-- cell_command.go and protocol_version.go. Both types are bytes: a value outside the constants can
-- be built, so the type is the byte, and the constants are numbers.
use go_ptor.Common.{ℕ, Bool, ◌||◌, ◌==◌}

abbrev pub CellCommand : Type 0
CellCommand = ℕ

abbrev pub cmd_extend : CellCommand
cmd_extend = 0x01

abbrev pub cmd_connect : CellCommand
cmd_connect = 0x02

abbrev pub cmd_data : CellCommand
cmd_data = 0x03

abbrev pub cmd_end : CellCommand
cmd_end = 0x04

abbrev pub cmd_destroy : CellCommand
cmd_destroy = 0x05

abbrev pub cmd_begin : CellCommand
cmd_begin = 0x06

abbrev pub cmd_begin_ack : CellCommand
cmd_begin_ack = 0x07

abbrev pub cmd_created : CellCommand
cmd_created = 0x08

unfoldable pub is_valid : CellCommand → Bool
is_valid c =
    c == cmd_extend
    || c == cmd_connect
    || c == cmd_data
    || c == cmd_end
    || c == cmd_destroy
    || c == cmd_begin
    || c == cmd_begin_ack
    || c == cmd_created

abbrev pub ProtocolVersion : Type 0
ProtocolVersion = ℕ

abbrev pub protocol_v1 : ProtocolVersion
protocol_v1 = 0x01

unfoldable pub is_supported : ProtocolVersion → Bool
is_supported v = v == protocol_v1
