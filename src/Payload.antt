-- ===== src/Payload.antt =====
-- shared/service/payload_encoding_service.go: the payloads, and their encoding by encoding/gob,
-- which is not in the repository: for each payload type an encoder and a decoder that may fail.
use go_ptor.Common.{ℕ, ◌≡◌, refl, Option, none, some, String}
use go_ptor.Common.Result.{Result, ok, err, bad_payload}
use go_ptor.Cell.{Bytes}

-- ClientPub and RelayPub are arrays of 32 bytes.
pub record ExtendPayload : Type 0 where
  pub next_hop : String
  pub client_pub : Bytes

pub record CreatedPayload : Type 0 where
  pub relay_pub : Bytes

pub record BeginPayload : Type 0 where
  pub stream_id : ℕ
  pub target : String

pub record ConnectPayload : Type 0 where
  pub target : String

-- The field `Data` of the source is `content` here.
pub record DataPayload : Type 0 where
  pub stream_id : ℕ
  pub content : Bytes

pub record Codec (T : Type 0) : Type 0 where
  pub gob_encode : T → Option Bytes
  pub gob_decode : Bytes → Option T

pub record Gob : Type 0 where
  pub extend : Codec ExtendPayload
  pub created : Codec CreatedPayload
  pub begin : Codec BeginPayload
  pub connect : Codec ConnectPayload
  pub content : Codec DataPayload

-- Decoding undoes encoding.
abbrev pub RoundTrips : {T : Type 0} → Codec T → Type 0
RoundTrips {T} c = (p : T) (b : Bytes) → c.gob_encode p ≡ some b → c.gob_decode b ≡ some p

-- encodePayload and decodePayload; the five pairs of methods apply them at their payload types.
unfoldable pub encode_payload : {T : Type 0} → Codec T → T → Result Bytes
encode_payload c p = elim (c.gob_encode p) [ none ↦ err bad_payload | some b ↦ ok b ]

unfoldable pub decode_payload : {T : Type 0} → Codec T → Bytes → Result T
decode_payload c b = elim (c.gob_decode b) [ none ↦ err bad_payload | some p ↦ ok p ]

pub decode-encode :
    {T : Type 0} (c : Codec T) (p : T) (b : Bytes)
    → RoundTrips c
    → c.gob_encode p ≡ some b
    → decode_payload c b ≡ ok p
unfolding decode_payload
decode-encode c p b laws coded = rw (laws p b coded, decode_payload) refl

pub encode_payload-some :
    {T : Type 0} (c : Codec T) (p : T) (b : Bytes)
    → c.gob_encode p ≡ some b
    → encode_payload c p ≡ ok b
unfolding encode_payload
encode_payload-some c p b coded = rw (coded, encode_payload) refl
