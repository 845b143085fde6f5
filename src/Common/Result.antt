-- ===== src/Common/Result.antt =====
-- Go's (value, error) pairs. `panic` is a run-time panic, such as a call on a nil connection: it is
-- no error value, so nothing that drops errors stops it.
-- One constructor for each error that the code tells apart or builds.
pub data Error : Type 0 where
  payload_too_big invalid_length invalid_command unsupported_version invalid_payload_length : Error
  rand_failed reserved_stream_id bad_uuid key_nonce_mismatch bad_key decrypt_failed : Error
  eof read_failed write_failed dial_failed not_found no_downstream malformed_created : Error
  invalid_created_header no_payload bad_payload keygen_failed derive_failed : Error
  length_mismatch no_private_key nil_connection stream_not_active unsupported_command : Error
  circuit_mismatch not_enough_relays exit_not_online exit_not_listed not_uuid_v4 bad_port : Error
  bad_host bad_length no_relays no_pem_data unsupported_key_type unsupported_pem_block : Error
  bad_der bad_endpoint fetch_failed hidden_service_not_found : Error

pub data Result {ℓ} (A : Type ℓ) : Type ℓ where
  ok : A → Result A
  err : Error → Result A
  panic : Result A

infixl 5 ◌>>=◌
abbrev pub ◌>>=◌ {ℓ κ} : {A : Type ℓ} {B : Type κ} → Result A → (A → Result B) → Result B
ok a >>= f = f a
err e >>= f = err e
panic >>= f = panic
