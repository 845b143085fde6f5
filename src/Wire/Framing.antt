-- ===== src/Wire/Framing.antt =====
-- What is sent as cells is read back as cells (shared/service/cell_sender_service.go and
-- cell_reader_service.go).
use go_ptor.Common.{
  ◌<◌, take, drop, ℕ, ◌+◌, ◌-◌, ◌≤◌, ◌≡◌, refl, ap, ◌∙◌, some, [], ◌∷◌, ◌++◌, arith, length,
  length-append, take-append, drop-append, ◌==◌, if◌then◌else◌,
}
use mathlib.Core.List.{append_assoc}
use go_ptor.Common.Result.{Result, ok, err, panic, read_failed}
use go_ptor.Common.Exec.{continue}
use go_ptor.Value.Circuit.{CircuitId, IsUuid, bytes}
use go_ptor.Cell.{Bytes, Cell, decode, encode, max_cell_size, max_payload_size}
use go_ptor.Cell.RoundTrip.{Fills, IsProtocol, encode-eq-ok, decode-frame, length-frame, frame}
use go_ptor.Net.{
  Env, IsUuidText, History, read_bytes, wrote, drew, write, encode_now, circuit_id_from,
}
use go_ptor.Wire.{forward_cell, read_cell}

-- A reader that ends too early, and one that holds enough.
pub read_bytes_short :
    (n x : ℕ) (b : Bytes) → length (x ∷ b) < n → read_bytes n (x ∷ b) ≡ (err read_failed, [])
unfolding read_bytes
read_bytes_short n x b h = ground arith

pub read_bytes_long :
    (n : ℕ) (b : Bytes) → n ≤ length b → read_bytes n b ≡ (ok (take n b), drop n b)
unfolding read_bytes
read_bytes_long n b h = ground arith

pub read_bytes-append :
    (n : ℕ) (b rest : Bytes) → length b ≡ n → read_bytes n (b ++ rest) ≡ (ok b, rest)
unfolding read_bytes
read_bytes-append n b rest h =
    rw (← h) (ground (arith, length-append b rest, take-append b rest, drop-append b rest))

module _ (env : Env) (laws : IsUuidText env) where
  pub read_cell-packet :
      (cid : CircuitId) (c : Cell) (buf rest : Bytes)
      → IsUuid cid
      → length buf ≡ max_cell_size
      → decode buf ≡ ok c
      → read_cell env read_bytes ((bytes cid ++ buf) ++ rest) ≡ (ok (cid, c), rest)
  unfolding read_cell circuit_id_from
  read_cell-packet cid c buf rest u size d =
      rw
        (
          append_assoc (bytes cid) buf rest,
          read_bytes-append 16 (bytes cid) (buf ++ rest) u,
          laws.parse_string (bytes cid) u,
          read_bytes-append 512 buf rest size,
          d,
        )
        refl

-- What a successful write of a cell leaves in the history: one packet, made of the identifier and
-- an encoding of the cell.
pub record Sends (h : History) (conn : ℕ) (cid : CircuitId) (c : Cell) (h' : History) : Type 0 where
  pub pad : Bytes
  pub size : length pad ≡ max_cell_size - (4 + length c.payload)
  pub fits : length c.payload ≤ max_payload_size
  pub event : h' ≡ wrote conn (bytes cid ++ frame c pad) ∷ drew ∷ h

-- Random bytes are never too few or too many.
abbrev pub IsRandom : Env → Type 0
IsRandom env = (h : History) → Fills (env.rand h)

write-eq-ok :
    (env : Env) (conn : ℕ) (b : Bytes) (h : History) {h' : History}
    → write env (some conn) b h ≡ (ok tt, h')
    → h' ≡ wrote conn b ∷ h
unfolding write
write-eq-ok env conn b h e = ground arith

forward_encoded-Sends :
    (env : Env) (conn : ℕ) (cid : CircuitId) (c : Cell) (h : History) {h' : History}
    (r : Result Bytes)
    → IsRandom env
    → encode (env.rand h) c ≡ r
    → continue r (λ buf. write env (some conn) (bytes cid ++ buf)) (drew ∷ h) ≡ (ok tt, h')
    → Sends h conn cid c h'
forward_encoded-Sends env conn cid c h (ok buf) random e w =
    let (pad, drawn, fits, shape) = encode-eq-ok (env.rand h) c e in
    record {
      pad = pad;
      size = random h _ pad drawn;
      fits = fits;
      event =
          write-eq-ok env conn (bytes cid ++ buf) (drew ∷ h) w
          ∙ ap (λ (b : Bytes). wrote conn (bytes cid ++ b) ∷ drew ∷ h) shape;
    }
forward_encoded-Sends env conn cid c h (err x) random e w = absurd (cc (w))
forward_encoded-Sends env conn cid c h panic random e w = absurd (cc (w))

pub forward_cell-Sends :
    (env : Env) (conn : ℕ) (cid : CircuitId) (c : Cell) (h : History) {h' : History}
    → IsRandom env
    → forward_cell env (some conn) cid c h ≡ (ok tt, h')
    → Sends h conn cid c h'
unfolding forward_cell encode_now
forward_cell-Sends env conn cid c h random e =
    forward_encoded-Sends env conn cid c h _ random refl e

-- The bytes that were written to a connection, in order.
unfoldable pub sent : ℕ → History → Bytes
sent conn [] = []
sent conn (wrote c b ∷ h) = if c == conn then sent conn h ++ b else sent conn h
sent conn (_ ∷ h) = sent conn h

-- When the text form of identifiers round-trips and random bytes fill their slices, a cell of a
-- known command and version and a 16-byte identifier that was forwarded adds a packet to what its
-- connection carries, from which the other end reads the same circuit identifier and cell,
-- whatever follows.
pub read_cell-forward_cell :
    (env : Env) (conn : ℕ) (cid : CircuitId) (c : Cell) (h : History) {h' : History}
    → IsUuidText env
    → IsRandom env
    → IsUuid cid
    → IsProtocol c
    → forward_cell env (some conn) cid c h ≡ (ok tt, h')
    → (packet : Bytes) × (sent conn h' ≡ sent conn h ++ packet)
      × ((rest : Bytes) → read_cell env read_bytes (packet ++ rest) ≡ (ok (cid, c), rest))
unfolding sent
read_cell-forward_cell env conn cid c h texts random u p e =
    let s : Sends h conn cid c _ = forward_cell-Sends env conn cid c h random e in
    (
      bytes cid ++ frame c s.pad,
      ap (sent conn) s.event ∙ ground arith,
      λ rest.
          read_cell-packet env texts cid c (frame c s.pad) rest u
            (omega (arith, length-frame c s.pad, s.size)) (decode-frame c s.pad p s.fits s.size),
    )
