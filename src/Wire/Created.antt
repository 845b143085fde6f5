-- ===== src/Wire/Created.antt =====
-- The answer to EXTEND, and the packet that announces a teardown
-- (shared/service/cell_sender_service.go and tcp_circuit_build_service.go). Neither is a cell.
use mathlib.Core.List.{append_assoc}
use go_ptor.Common.{
  ℕ, ◌+◌, ◌^◌, ◌<◌, ◌≡◌, refl, [], ◌∷◌, ◌++◌, arith, length, take, length-append, length-take,
  get_or, take_of_length-eq, get_or-append, dec_lt, ◌/◌, ◌%◌,
}
use go_ptor.Common.Result.{Error, ok, err, read_failed, invalid_command}
use go_ptor.Value.Circuit.{CircuitId, IsUuid, bytes}
use go_ptor.Value.Command.{is_valid}
use go_ptor.Cell.{Bytes, decode, put_uint16, uint16}
use go_ptor.Net.{Env, IsUuidText, read_bytes, circuit_id_from}
use go_ptor.Wire.{created_header, teardown_packet, read_cell, wait_for_created_response}
use go_ptor.Wire.Framing.{read_bytes-append, read_bytes_short, read_bytes_long}

module _ (env : Env) (cid : CircuitId) (u : IsUuid cid) where
  created_header-eq : (n : ℕ) → created_header env cid n ≡ bytes cid ++ (0x08 ∷ 0x01 ∷ put_uint16 n)
  unfolding created_header
  created_header-eq n = rw (take_of_length-eq 16 (bytes cid) u) refl

  header_at :
      (n i j v : ℕ)
      → 16 + i ≡ j
      → get_or (0x08 ∷ 0x01 ∷ put_uint16 n) i 0 ≡ v
      → get_or (created_header env cid n) j 0 ≡ v
  header_at n i j v e h =
      rw
        (
          created_header-eq n,
          get_or-append (bytes cid) (0x08 ∷ 0x01 ∷ put_uint16 n) i j 0 (omega arith),
        )
        h

  -- The command, the version and the length that the header holds.
  pub created_header-reads :
      (n : ℕ)
      → n < 2 ^ 16
      → (get_or (created_header env cid n) 16 0 ≡ 0x08)
        × (get_or (created_header env cid n) 17 0 ≡ 0x01)
        × (uint16 (get_or (created_header env cid n) 18 0) (get_or (created_header env cid n) 19 0)
            ≡ n)
  unfolding put_uint16 uint16
  created_header-reads n small = (
    header_at n 0 16 0x08 refl refl,
    header_at n 1 17 0x01 refl refl,
    rw (header_at n 2 18 (n % 2 ^ 16 / 256) refl refl, header_at n 3 19 (n % 256) refl refl)
        (omega arith),
  )

  length-created_header : (n : ℕ) → length (created_header env cid n) ≡ 20
  unfolding put_uint16
  length-created_header n =
      rw (created_header-eq n)
        (omega (arith, length-append (bytes cid) (0x08 ∷ 0x01 ∷ put_uint16 n)))

  -- The client reads back the payload of a CREATED answer that has between 1 and 65535 bytes, and
  -- nothing of what follows it.
  pub wait_for_created_response-send_created :
      (payload rest : Bytes)
      → 0 < length payload
      → length payload < 2 ^ 16
      → wait_for_created_response env read_bytes
          (created_header env cid (length payload) ++ (payload ++ rest))
        ≡ (ok payload, rest)
  unfolding wait_for_created_response put_uint16
  wait_for_created_response-send_created payload rest pos fits =
      let n : ℕ = length payload in
      let hi : ℕ = n % 2 ^ 16 / 256 in
      rw
        (
          read_bytes-append 20 (created_header env cid n) (payload ++ rest)
              (length-created_header n),
          header_at n 0 16 0x08 refl refl,
          header_at n 1 17 0x01 refl refl,
          header_at n 2 18 (n % 2 ^ 16 / 256) refl refl,
          header_at n 3 19 (n % 256) refl refl,
        )
        (ground (arith, read_bytes-append n payload rest refl))

-- A buffer of the right size that begins with 0 is not a cell.
decode_zero : (b : Bytes) → length b ≡ 511 → decode (0 ∷ b) ≡ err invalid_command
unfolding decode is_valid
decode_zero b h = ground arith

-- The packet that TeardownCircuit writes for a 16-byte identifier is never read as a cell: the
-- reader returns an error, whatever bytes follow, when the text form of identifiers round-trips.
pub read_cell-teardown_packet :
    (env : Env) (cid : CircuitId) (rest : Bytes)
    → IsUuidText env
    → IsUuid cid
    → (e : Error) × ((read_cell env read_bytes (teardown_packet env cid ++ rest)).0 ≡ err e)
unfolding teardown_packet read_cell circuit_id_from
read_cell-teardown_packet env cid rest texts u =
    let tail : Bytes = 0 ∷ 0 ∷ 0xFE ∷ 0 ∷ rest in
    rw
      (
        take_of_length-eq 16 (bytes cid) u,
        append_assoc (bytes cid) (0 ∷ 0 ∷ 0xFE ∷ 0 ∷ []) rest,
        read_bytes-append 16 (bytes cid) tail u,
        texts.parse_string (bytes cid) u,
      )
      (elim (dec_lt (length tail) 512) [
        | yes short ↦ (read_failed, rw (read_bytes_short 512 0 (0 ∷ 0xFE ∷ 0 ∷ rest) short) refl)
        | no long ↦ (
          invalid_command,
          rw
              (
                read_bytes_long 512 tail (omega arith),
                decode_zero (take 511 (0 ∷ 0xFE ∷ 0 ∷ rest))
                    (length-take 511 (0 ∷ 0xFE ∷ 0 ∷ rest) (omega arith)),
              )
              refl,
        )
      ])
