-- ===== src/Cell/RoundTrip.antt =====
-- Encoding and decoding of cells (shared/domain/entity/cell.go).
use go_ptor.Common.{
  ℕ, ◌+◌, ◌-◌, ◌≤◌, ◌<◌, ◌≡◌, refl, true, Option, some, [], ◌∷◌, ◌++◌, arith, length, take, drop,
  suc, length-take, take-append-drop, inl, inr, ap, length-append, take-append, get_or,
  Option-cases,
}
use go_ptor.Common.Result.{ok}
use go_ptor.Value.Command.{is_valid, is_supported}
use go_ptor.Cell.{
  Bytes, IsBytes, Cell, max_payload_size, max_cell_size, encode, decode, put_uint16, uint16,
}

-- What the documentation of crypto/rand says of Read: it fills the slice or fails.
abbrev pub Fills : (ℕ → Option Bytes) → Type 0
Fills rand = (n : ℕ) (pad : Bytes) → rand n ≡ some pad → length pad ≡ n

-- A command and a version that `decode` accepts.
pub record IsProtocol (c : Cell) : Type 0 where
  pub valid : is_valid c.cmd ≡ true
  pub supported : is_supported c.version ≡ true

-- What `encode` lays out, with the padding.
abbrev pub frame : Cell → Bytes → Bytes
frame c pad = c.cmd ∷ c.version ∷ put_uint16 (length c.payload) ++ (c.payload ++ pad)

pub encode-eq-ok :
    (rand : ℕ → Option Bytes) (c : Cell) {buf : Bytes}
    → encode rand c ≡ ok buf
    → (pad : Bytes) × (rand (max_cell_size - (4 + length c.payload)) ≡ some pad)
      × (length c.payload ≤ max_payload_size)
      × (buf ≡ frame c pad)
unfolding encode
encode-eq-ok rand c e = elim (Option-cases (rand (max_cell_size - (4 + length c.payload)))) [
  | inl no_rand ↦ ground arith
  | inr (pad, drawn) ↦ (pad, drawn, ground arith, ground arith)
]

pub decode-frame :
    (c : Cell) (pad : Bytes)
    → IsProtocol c
    → length c.payload ≤ max_payload_size
    → length pad ≡ max_cell_size - (4 + length c.payload)
    → decode (frame c pad) ≡ ok c
unfolding decode put_uint16
decode-frame c pad p fits full =
    ground (arith, length-append c.payload pad, take-append c.payload pad)

pub length-frame :
    (c : Cell) (pad : Bytes) → length (frame c pad) ≡ 4 + length c.payload + length pad
unfolding put_uint16
length-frame c pad = omega (arith, length-append c.payload pad)

-- A successful encoding has the size of a cell.
pub length-encode :
    (rand : ℕ → Option Bytes) (c : Cell) {buf : Bytes}
    → Fills rand
    → encode rand c ≡ ok buf
    → length buf ≡ max_cell_size
length-encode rand c fills e =
    let (pad, drawn, fits, shape) = encode-eq-ok rand c e in
    omega (arith, ap length shape, length-frame c pad, fills _ pad drawn)

-- Decoding what a cell of a known command and version was encoded to gives the cell back, when the
-- random source fills the padding.
pub decode-encode :
    (rand : ℕ → Option Bytes) (c : Cell) {buf : Bytes}
    → Fills rand
    → IsProtocol c
    → encode rand c ≡ ok buf
    → decode buf ≡ ok c
decode-encode rand c fills p e =
    let (pad, drawn, fits, shape) = encode-eq-ok rand c e in
    rw shape (decode-frame c pad p fits (fills _ pad drawn))

-- A buffer of the size of a cell with command, version, length and payload where they belong.
pub record Holds (c : Cell) (buf : Bytes) : Type 0 where
  pub size : length buf ≡ max_cell_size
  pub command : get_or buf 0 0 ≡ c.cmd
  pub version : get_or buf 1 0 ≡ c.version
  pub announced : uint16 (get_or buf 2 0) (get_or buf 3 0) ≡ length c.payload
  pub content : take (length c.payload) (drop 4 buf) ≡ c.payload

-- The cell that a buffer with a header holds.
abbrev parsed : ℕ → ℕ → ℕ → ℕ → Bytes → Cell
parsed b0 b1 b2 b3 rest = record { cmd = b0; version = b1; payload = take (uint16 b2 b3) rest }

decode-eq-ok :
    (b0 b1 b2 b3 : ℕ) (rest : Bytes) {c : Cell}
    → decode (b0 ∷ b1 ∷ b2 ∷ b3 ∷ rest) ≡ ok c
    → IsProtocol (parsed b0 b1 b2 b3 rest)
      × (length rest ≡ max_payload_size)
      × (uint16 b2 b3 ≤ max_payload_size)
      × (c ≡ parsed b0 b1 b2 b3 rest)
unfolding decode
decode-eq-ok b0 b1 b2 b3 rest e = ground arith

drop-header :
    (n b0 b1 b2 b3 : ℕ) (rest : Bytes) → drop (4 + n) (b0 ∷ b1 ∷ b2 ∷ b3 ∷ rest) ≡ drop n rest
drop-header n b0 b1 b2 b3 rest = let e : 4 + n ≡ suc (suc (suc (suc n))) = omega arith in rw e refl

encode-parsed :
    (b0 b1 b2 b3 : ℕ) (rest : Bytes)
    → b2 < 256
    → b3 < 256
    → length rest ≡ max_payload_size
    → uint16 b2 b3 ≤ max_payload_size
    → encode
        (λ n. some (drop (4 + uint16 b2 b3) (b0 ∷ b1 ∷ b2 ∷ b3 ∷ rest)))
        (parsed b0 b1 b2 b3 rest)
      ≡ ok (b0 ∷ b1 ∷ b2 ∷ b3 ∷ rest)
unfolding encode uint16
encode-parsed b0 b1 b2 b3 rest h2 h3 full fits = ground (
  arith,
  length-take (uint16 b2 b3) rest,
  take-append-drop (uint16 b2 b3) rest,
  drop-header (uint16 b2 b3) b0 b1 b2 b3 rest,
)

-- A buffer of bytes that decodes holds the encoding of the cell, its tail as the padding; the cell
-- keeps to the protocol and to the payload limit.
pub encode-decode :
    (buf : Bytes) (c : Cell)
    → IsBytes buf
    → decode buf ≡ ok c
    → (encode (λ n. some (drop (4 + length c.payload) buf)) c ≡ ok buf)
      × IsProtocol c
      × (length c.payload ≤ max_payload_size)
unfolding decode
encode-decode (b0 ∷ b1 ∷ b2 ∷ b3 ∷ rest) c h e =
    let (p, full, fits, shape) = decode-eq-ok b0 b1 b2 b3 rest e in
    let size : length (take (uint16 b2 b3) rest) ≡ uint16 b2 b3 =
      length-take _ rest (omega arith) in
    rw (shape, size) (encode-parsed b0 b1 b2 b3 rest h.1.1.0 h.1.1.1.0 full fits, p, fits)
encode-decode [] c h e = ground arith
encode-decode (b0 ∷ []) c h e = ground arith
encode-decode (b0 ∷ b1 ∷ []) c h e = ground arith
encode-decode (b0 ∷ b1 ∷ b2 ∷ []) c h e = ground arith
