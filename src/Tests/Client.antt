-- ===== src/Tests/Client.antt =====
-- The client's use cases at concrete inputs; no code of the repository.
use go_ptor.Common.{
  if◌then◌else◌, ite, ◌⊎◌, ℕ, suc, ◌≡◌, ◌≤◌, refl, ap, arith, true, false, none, some, [], ◌∷◌,
  length, replicate, All, ℕ_discrete,
}
use go_ptor.Common.Map.{lookup}
use go_ptor.Common.Result.{Result, ok}
use go_ptor.Value.Command.{cmd_data}
use go_ptor.Value.Circuit.{CircuitId, CircuitId-discrete}
use go_ptor.Value.Relay.{RelayId, zero_relay_id}
use go_ptor.Cell.{Bytes, max_payload_size, uint16}
use go_ptor.Crypto.{Key, zero_key, aes_seal, aes_multi_seal, aes_multi_open}
use go_ptor.Nonce.{Nonce, modify_nonce_with_sequence}
use go_ptor.Net.{History, circuit_id_from}
use go_ptor.Wire.Framing.{Sends}
use go_ptor.Relay.Use.Begin.{cell_of}
use go_ptor.Client.Circuit.{
  Circuit, hop_key, hop_data_nonce, hop_data_nonce_peek, hop_upstream_data_nonce,
  hop_upstream_data_nonce_peek, active_streams, conn,
}
use go_ptor.Client.Circuit.Hops.{peeks}
use go_ptor.Client.World.{World, Services, put_circuit}
use go_ptor.Client.Repository.{find_address}
use go_ptor.Client.Directory.{Relay, RelayId-discrete, save, find_by_id, all_online}
use text.Mathlib.Text.{◌==◌ as str_eq}
use go_ptor.Client.Hidden
use go_ptor.Client.Hidden.{HiddenService, find_by_address_string, find_by_address_string-save}
use go_ptor.Client.Directory.Laws.{length-save, IsOnline}
use go_ptor.Client.Use.Send.{hop_keys, hop_nonces, contains, send_data}
use go_ptor.Client.Use.Send.Onion.{send_data-onion}
use go_ptor.Client.Use.Receive.{decrypt_onion_layers}
use go_ptor.Client.Use.Receive.Layers.{decrypt_onion_layers-aes_multi_seal}
use go_ptor.Client.Use.Stream.{handle_end}
use go_ptor.Client.Use.Stream.Life.{handle_end-circuit}
use go_ptor.Client.Use.Build.{choose}
use go_ptor.Client.Use.Build.Path.{choose-ok, EndsIn}
use go_ptor.Tests.Setting.{
  to_text, test_env, test_aead, test_gob, test_exchange, test_env-IsReliable, test_aead-IsAead,
}

abbrev cid : CircuitId
cid = record { val = replicate 16 9 }

abbrev pub services : Services
services = record {
  env = test_env;
  aead = test_aead;
  gob = test_gob;
  exchange = test_exchange;
  generate_rsa = λ h. none;
  new_uuid = λ h. cid;
}

abbrev key : Key
key = replicate 32 3

abbrev nonce : Nonce
nonce = replicate 12 4

abbrev relay_id : ℕ → RelayId
relay_id n = replicate 16 n

abbrev content : Bytes
content = 8 ∷ []

-- Two hops, stream 5 open, connection 1 to the first hop.
abbrev pub circuit : Circuit
circuit = record {
  id = cid;
  hops = relay_id 1 ∷ relay_id 2 ∷ [];
  keys = (0, key) ∷ (1, key) ∷ [];
  base_nonces = (0, nonce) ∷ (1, nonce) ∷ [];
  begin_counter = (0, 0) ∷ (1, 0) ∷ [];
  data_counter = (0, 0) ∷ (1, 0) ∷ [];
  upstream_data_counter = (0, 0) ∷ (1, 0) ∷ [];
  priv = some [];
  conns = some 1 ∷ none ∷ [];
  stream = (5, record { id = 5; closed = false }) ∷ [];
}

abbrev pub world : World
world = record {
  history = [];
  objects = λ p. circuit;
  next_address = 1;
  circuits = (cid, 0) ∷ [];
  streams = [];
  stream_counter = 5;
  tasks = [];
}

abbrev result_length : Result Bytes → ℕ
result_length (ok b) = length b
result_length _ = 0

onion_fits :
    (enc : Bytes)
    → aes_multi_seal test_aead
        (hop_keys 2 0 circuit)
        (peeks hop_data_nonce_peek 2 0 circuit)
        content
      ≡ ok enc
    → length (5 ∷ enc) ≤ max_payload_size
unfolding aes_multi_seal hop_keys hop_data_nonce_peek hop_key lookup ℕ_discrete aes_seal
    modify_nonce_with_sequence
onion_fits enc e = let size : 25 ≡ length enc = ap (λ r. result_length r) e in omega (arith, size)

send_data-onion_example :
    (enc : Bytes) × (aes_multi_seal test_aead
        (hop_keys 2 0 circuit)
        (peeks hop_data_nonce_peek 2 0 circuit)
        content
      ≡ ok enc)
    × (aes_multi_open test_aead (hop_keys 2 0 circuit) (peeks hop_data_nonce_peek 2 0 circuit) enc
        ≡ ok content)
    × (h : History) × Sends [] 1 cid (cell_of cmd_data (5 ∷ enc)) h
    × (send_data services (to_text (replicate 16 9)) 5 content 0 world ≡ (
      ok (length content),
      record (put_circuit 0 (hop_nonces hop_data_nonce 2 0 circuit).1 world) { history = h },
    ))
unfolding circuit_id_from lookup CircuitId-discrete ℕ_discrete hop_keys hop_key contains
    active_streams conn
send_data-onion_example =
    send_data-onion services test_aead-IsAead test_env-IsReliable (to_text (replicate 16 9)) cid 0 5
      1 content world (λ b. 5 ∷ b) refl (λ e. omega (arith, e)) refl refl refl (refl, (refl, tt))
      (λ b. refl) onion_fits

decrypt_onion_layers-aes_multi_seal_example :
    (enc : Bytes) × (aes_multi_seal test_aead
        (hop_keys 2 0 circuit)
        (peeks hop_upstream_data_nonce_peek 2 0 circuit)
        content
      ≡ ok enc)
    × (decrypt_onion_layers services enc circuit
        ≡ (ok content, (hop_nonces hop_upstream_data_nonce 2 0 circuit).1))
unfolding hop_keys hop_key ℕ_discrete lookup
decrypt_onion_layers-aes_multi_seal_example =
    decrypt_onion_layers-aes_multi_seal services test_aead-IsAead circuit content (refl, (refl, tt))

handle_end-circuit_example :
    (w' : World) × (handle_end services (to_text (replicate 16 9)) 0 world ≡ (ok true, w'))
    × (find_address cid w' ≡ none)
    × ((j : CircuitId)
        → find_address j w' ≡ ite (CircuitId-discrete j cid) none (find_address j world))
    × ((idx : ℕ) → hop_key idx (w'.objects 0) ≡ zero_key)
    × ((w'.objects 0).priv ≡ none)
unfolding circuit_id_from lookup CircuitId-discrete ℕ_discrete
handle_end-circuit_example =
    handle_end-circuit services (to_text (replicate 16 9)) cid 0 world refl refl

abbrev relay : ℕ → Relay
relay n = record { id = relay_id n; endpoint = "relay:5000"; online = true }

length-save_example :
    length (save (relay 2) (relay 1 ∷ relay 2 ∷ [])) ≡ suc (length (relay 1 ∷ relay 2 ∷ []))
length-save_example = length-save (relay 2) (relay 1 ∷ relay 2 ∷ [])

choose-ok_example :
    (length (relay 3 ∷ relay 1 ∷ []) ≡ 2)
    × All IsOnline (relay 3 ∷ relay 1 ∷ [])
    × ((relay_id 1 ≡ zero_relay_id) ⊎ EndsIn (relay_id 1) (relay 3 ∷ relay 1 ∷ []))
unfolding choose all_online RelayId-discrete ℕ_discrete find_by_id uint16
choose-ok_example =
    choose-ok services (relay 1 ∷ relay 2 ∷ relay 3 ∷ []) 2 (relay_id 1) [] (λ e. omega (arith, e))
      refl

abbrev service : HiddenService
service = record { address = "abc.ptor"; relay_id = relay_id 1 }

find_by_address_string-save_example :
    find_by_address_string (λ s. s) "abc.ptor" (Hidden.save (λ s. s) service []) ≡ (
      if str_eq "abc.ptor" "abc.ptor"
      then ok service
      else find_by_address_string (λ s. s) "abc.ptor" [])
find_by_address_string-save_example = find_by_address_string-save (λ s. s) service "abc.ptor" []
