-- ===== src/Tests/Wire.antt =====
-- Cells, nonces and the onion at concrete inputs; no code of the repository.
use go_ptor.Common.{ℕ, ◌≡◌, ◌≢◌, ◌+◌, ◌%◌, ◌≤◌, refl, arith, [], ◌∷◌, ◌++◌, replicate}
use go_ptor.Common.Result.{Error, ok, err}
use go_ptor.Value.Command.{cmd_data, protocol_v1, is_valid, is_supported}
use go_ptor.Value.Circuit.{CircuitId}
use go_ptor.Value.Stream.{nth_stream_id, nth_stream_id_unique}
use go_ptor.Cell.{Bytes, Cell, encode, decode}
use go_ptor.Cell.RoundTrip.{decode-encode}
use go_ptor.Nonce.{Nonce, IsNonce, zero_nonce}
use go_ptor.Nonce.Unique.{modify_nonce_with_sequence-injective}
use go_ptor.Crypto.{Key, aes_multi_seal, aes_multi_open}
use go_ptor.Crypto.Onion.{aes_multi_open-aes_multi_seal}
use go_ptor.Net.{wrote, drew, read_bytes, encode_now, write}
use go_ptor.Wire.{
  forward_cell, read_cell, wait_for_created_response, created_header, teardown_packet,
}
use go_ptor.Wire.Framing.{sent, read_cell-forward_cell}
use go_ptor.Wire.Created.{wait_for_created_response-send_created, read_cell-teardown_packet}
use go_ptor.Tests.Setting.{
  test_env, test_aead, test_env-IsUuidText, test_env-IsRandom, test_aead-IsAead,
}

abbrev cid : CircuitId
cid = record { val = replicate 16 9 }

abbrev cell : Cell
cell = record { cmd = cmd_data; version = protocol_v1; payload = 5 ∷ 6 ∷ [] }

abbrev key : Key
key = replicate 32 3

abbrev nonce : Nonce
nonce = replicate 12 4

zero-IsNonce : IsNonce zero_nonce
zero-IsNonce = record { size = refl; of_bytes = ground arith }

decode-encode_example : decode (cmd_data ∷ protocol_v1 ∷ 0 ∷ 2 ∷ 5 ∷ 6 ∷ replicate 506 0) ≡ ok cell
unfolding encode is_valid is_supported
decode-encode_example =
    decode-encode (test_env.rand []) cell (test_env-IsRandom [])
      (record { valid = refl; supported = refl }) refl

read_cell-forward_cell_example :
    (packet : Bytes) × (sent 7 (
        wrote 7 (replicate 16 9 ++ cmd_data ∷ protocol_v1 ∷ 0 ∷ 2 ∷ 5 ∷ 6 ∷ replicate 506 0)
        ∷ drew
        ∷ [])
      ≡ [] ++ packet)
    × ((rest : Bytes) → read_cell test_env read_bytes (packet ++ rest) ≡ (ok (cid, cell), rest))
unfolding encode is_valid is_supported forward_cell sent encode_now write
read_cell-forward_cell_example =
    read_cell-forward_cell test_env 7 cid cell [] test_env-IsUuidText test_env-IsRandom refl
      (record { valid = refl; supported = refl }) refl

wait_for_created_response-send_created_example :
    wait_for_created_response test_env read_bytes
      (created_header test_env cid 3 ++ ((1 ∷ 2 ∷ 3 ∷ []) ++ (9 ∷ [])))
    ≡ (ok (1 ∷ 2 ∷ 3 ∷ []), 9 ∷ [])
wait_for_created_response-send_created_example =
    wait_for_created_response-send_created test_env cid refl (1 ∷ 2 ∷ 3 ∷ []) (9 ∷ []) (omega arith)
      (omega arith)

read_cell-teardown_packet_example :
    (e : Error) × ((read_cell test_env read_bytes (teardown_packet test_env cid ++ [])).0 ≡ err e)
read_cell-teardown_packet_example =
    read_cell-teardown_packet test_env cid [] test_env-IsUuidText refl

modify_nonce_with_sequence-injective_example : Path ℕ 5 5
modify_nonce_with_sequence-injective_example =
    modify_nonce_with_sequence-injective zero_nonce 5 5 zero-IsNonce (omega arith) (omega arith)
      refl

aes_multi_open-aes_multi_seal_example :
    (c : Bytes) × (aes_multi_seal test_aead (key ∷ key ∷ []) (nonce ∷ zero_nonce ∷ []) (1 ∷ [])
      ≡ ok c)
    × (aes_multi_open test_aead (key ∷ key ∷ []) (nonce ∷ zero_nonce ∷ []) c ≡ ok (1 ∷ []))
aes_multi_open-aes_multi_seal_example =
    aes_multi_open-aes_multi_seal test_aead test_aead-IsAead (key ∷ key ∷ [])
      (nonce ∷ zero_nonce ∷ []) (1 ∷ []) refl (refl, (refl, tt))

-- The last identifier before the wrap and the one after it.
nth_stream_id_unique_example :
    (nth_stream_id 0 0xFFFE ≡ (0xFFFE + 0) % 65535 + 1)
    × (nth_stream_id 0 0xFFFE ≢ 0)
    × (nth_stream_id 0 0xFFFE ≤ 0xFFFF)
    × (nth_stream_id 0 0xFFFE ≢ nth_stream_id 1 0xFFFE)
nth_stream_id_unique_example =
    nth_stream_id_unique 0xFFFE 0 1 (omega arith) (omega arith) (omega arith)
