-- ===== src/Cell.antt =====
-- shared/domain/entity/cell.go: the 512-byte cell and its codec. A byte slice is a list of numbers.
pub mod RoundTrip
pub mod Aggregate
use go_ptor.Common.{
  ℕ, ◌+◌, ◌-◌, ◌*◌, ◌/◌, ◌%◌, ◌^◌, ◌<◌, Bool, not, Option, none, some, List, [], ◌∷◌, ◌++◌, ltb,
  ◌==◌, if◌then◌else◌, length, get_or, take, drop, All,
}
use go_ptor.Common.Result.{
  Result, ok, err, payload_too_big, rand_failed, invalid_length, invalid_command,
  unsupported_version, invalid_payload_length,
}
use go_ptor.Value.Command.{CellCommand, ProtocolVersion, protocol_v1, is_valid, is_supported}

abbrev pub Bytes : Type 0
Bytes = List ℕ

abbrev pub IsBytes : Bytes → Type 0
IsBytes = All (λ b. b < 256)

abbrev pub max_cell_size : ℕ
max_cell_size = 512

abbrev pub header_overhead : ℕ
header_overhead = 4

abbrev pub max_payload_size : ℕ
max_payload_size = max_cell_size - header_overhead

pub record Cell : Type 0 where
  pub cmd : CellCommand
  pub version : ProtocolVersion
  pub payload : Bytes

unfoldable pub new_cell : CellCommand → Bytes → Result Cell
new_cell cmd payload =
    if ltb max_payload_size (length payload)
    then err payload_too_big
    else ok (record { cmd = cmd; version = protocol_v1; payload = payload })

-- binary.BigEndian.PutUint16 of uint16(n), and binary.BigEndian.Uint16
unfoldable pub put_uint16 : ℕ → Bytes
put_uint16 n = (n % 2 ^ 16 / 256) ∷ (n % 256) ∷ []

unfoldable pub uint16 : ℕ → ℕ → ℕ
uint16 hi lo = hi * 256 + lo

-- Each of the `if err` blocks after a check returns, so the rest is the other branch. `rand n` is
-- what rand.Read leaves in a slice of `n` bytes, or its error.
unfoldable pub encode : (ℕ → Option Bytes) → Cell → Result Bytes
unfolding put_uint16
encode rand c =
    if ltb max_payload_size (length c.payload)
    then err payload_too_big
    else elim (rand (max_cell_size - (4 + length c.payload))) [
      | none ↦ err rand_failed
      | some padding ↦
          ok (c.cmd ∷ c.version ∷ put_uint16 (length c.payload) ++ c.payload ++ padding)
    ]

unfoldable pub decode : Bytes → Result Cell
unfolding uint16
decode buf =
    if not (length buf == max_cell_size)
    then err invalid_length
    else if not (is_valid (get_or buf 0 0))
    then err invalid_command
    else if not (is_supported (get_or buf 1 0))
    then err unsupported_version
    else let l = uint16 (get_or buf 2 0) (get_or buf 3 0) in
      if ltb max_payload_size l
      then err invalid_payload_length
      else ok
          (record { cmd = get_or buf 0 0; version = get_or buf 1 0; payload = take l (drop 4 buf) })
