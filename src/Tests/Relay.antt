-- ===== src/Tests/Relay.antt =====
-- A relay's handlers at concrete inputs; no code of the repository.
use go_ptor.Common.{◌≡◌, ◌↔◌, ◌+◌, refl, arith, none, some, [], ◌∷◌, inl, replicate, ℕ_discrete}
use go_ptor.Common.Result.{ok, err, not_found, decrypt_failed}
use go_ptor.Value.Command.{cmd_data, cmd_end, cmd_destroy}
use go_ptor.Common.Map.{lookup}
use go_ptor.Value.Circuit.{CircuitId, CircuitId-discrete}
use go_ptor.Cell.{Bytes}
use go_ptor.Crypto.{Key, aes_open}
use go_ptor.Nonce.{Nonce, increment, modify_nonce_with_sequence}
use go_ptor.Net.{drew, Conn}
use go_ptor.Wire.Framing.{Sends, sent}
use go_ptor.Relay.ConnState.{ConnState, begin, content, upstream_content, new_conn_state}
use go_ptor.Relay.ConnState.Nonces.{nonce_of, after, uses, nonces_shared}
use go_ptor.Relay.World.{put_state, World, Services}
use go_ptor.Relay.Repository.{get_stream, remove_circuit, gc_tick}
use go_ptor.Relay.Repository.Laws.{get_stream-gc_tick}
use go_ptor.Relay.Use.Begin.Chunk.{upstream_counted, send_upstream-too_big}
use go_ptor.Relay.Use.Begin.{send_upstream, cell_of}
use go_ptor.Relay.Use.Data.{data_cell}
use go_ptor.Relay.Use.Data.Hops.{next_data_nonce}
use go_ptor.Relay.Use.Data.Upstream.{
  next_upstream_nonce, twice_counted, data_cell-upstream, data_cell_after_upstream,
}
use go_ptor.Relay.Use.Data.Path.{Hop}
use go_ptor.Relay.Handler.{handle_cell}
use go_ptor.Relay.Handler.OneWay.{sent-handle_cell}
use go_ptor.Relay.Handler.Removal.{IsRemoved, handle_cell-destroy}
use go_ptor.Tests.Setting.{
  test_env, test_aead, test_gob, test_exchange, test_env-IsReliable, test_aead-IsAead,
  content_codec-RoundTrips,
}

abbrev pub services : Services
services = record { env = test_env; aead = test_aead; gob = test_gob; exchange = test_exchange }

abbrev pub cid : CircuitId
cid = record { val = replicate 16 9 }

abbrev pub key : Key
key = replicate 32 3

abbrev pub nonce : Nonce
nonce = replicate 12 4

-- A state whose next hop is `down`, with connection 1 towards the client.
abbrev pub state : Conn → ConnState
state down = new_conn_state key nonce (some 1) down 0

abbrev pub world : Conn → World
world down = record {
  history = [];
  states = λ p. state down;
  next_address = 1;
  circuits = (cid, 0) ∷ [];
  streams = (cid, (5, some 6) ∷ []) ∷ [];
  tasks = [];
}

abbrev pub x : Bytes
x = 8 ∷ []

abbrev sealed : Conn → Bytes
sealed down = test_aead.gcm_seal key (next_data_nonce (state down)) x

abbrev opaque : Bytes
opaque = 1 ∷ 2 ∷ []

abbrev relayed : Bytes
relayed = 5 ∷ test_aead.gcm_seal key (next_upstream_nonce (state (some 2))) opaque

data_cell-upstream_example :
    (w' : World) × (data_cell services 0 cid (cell_of cmd_data (5 ∷ opaque)) (world (some 2))
      ≡ (ok tt, w'))
    × Sends [] 1 cid (cell_of cmd_data relayed) w'.history
    × (w'.states 0 ≡ twice_counted (state (some 2)))
unfolding new_conn_state aes_open modify_nonce_with_sequence ℕ_discrete
data_cell-upstream_example =
    data_cell-upstream services test_aead-IsAead content_codec-RoundTrips test_env-IsReliable 0 cid
      5 2 1 opaque (5 ∷ opaque) relayed decrypt_failed (world (some 2)) (λ e. omega (arith, e)) refl
      refl refl refl refl refl (omega arith)

abbrev returned : Bytes
returned =
    5
    ∷ test_aead.gcm_seal key (next_upstream_nonce (twice_counted (state (some 2))))
        (sealed (some 2))

data_cell_after_upstream_example :
    (w' w'' : World) × (data_cell services 0 cid (cell_of cmd_data (5 ∷ opaque)) (world (some 2))
      ≡ (ok tt, w'))
    × (data_cell services 0 cid (cell_of cmd_data (5 ∷ sealed (some 2))) w' ≡ (ok tt, w''))
    × Sends w'.history 1 cid (cell_of cmd_data returned) w''.history
unfolding new_conn_state aes_open modify_nonce_with_sequence ℕ_discrete increment
data_cell_after_upstream_example =
    data_cell_after_upstream services test_aead-IsAead content_codec-RoundTrips test_env-IsReliable
      0 cid 5 2 1 opaque x (5 ∷ opaque) relayed (5 ∷ sealed (some 2)) returned decrypt_failed
      decrypt_failed (world (some 2)) (λ e. omega (arith, e)) refl refl refl refl refl refl
      (omega arith) (sealed (some 2)) refl refl refl refl (omega arith)

abbrev pub front : Hop
front = record { st = 0; world = world (some 2); next = 2 }

abbrev pub exit : Hop
exit = record { st = 0; world = world none; next = 0 }

abbrev pub as_content : Bytes → Bytes
as_content b = 5 ∷ b

-- The first DATA after BEGIN and the first data towards the client.
nonces_shared_example :
    (nonce_of content (after (begin ∷ []) (state none))
      ≡ nonce_of upstream_content (after (content ∷ []) (state none)))
    ↔ ((state none).data_counter + uses content (begin ∷ [])
        ≡ (state none).upstream_data_counter + uses upstream_content (content ∷ []))
unfolding new_conn_state
nonces_shared_example =
    nonces_shared content upstream_content (state none) (begin ∷ []) (content ∷ [])
      (record { size = refl; of_bytes = ground arith }) (omega arith) (omega arith)

get_stream-gc_tick_example :
    (get_stream cid 5 (gc_tick 10 20 (world none)) ≡ get_stream cid 5 (world none))
    × (get_stream cid 5 (remove_circuit cid (world none)) ≡ err not_found)
unfolding lookup CircuitId-discrete ℕ_discrete
get_stream-gc_tick_example = get_stream-gc_tick 10 20 cid 0 5 (world none) refl

handle_cell-destroy_example :
    (w' : World) × (handle_cell services (some 1) cid (cell_of cmd_destroy []) (world (some 2))
      ≡ (ok tt, w'))
    × IsRemoved cid (world (some 2)) w'
unfolding lookup CircuitId-discrete ℕ_discrete
handle_cell-destroy_example =
    handle_cell-destroy services (some 1) cid (cell_of cmd_destroy []) 0 (world (some 2)) refl refl

-- An END that comes from the next hop.
sent-handle_cell_example :
    sent 1 (handle_cell services (some 2) cid (cell_of cmd_end []) (world (some 2))).1.history
    ≡ sent 1 []
unfolding new_conn_state
sent-handle_cell_example =
    sent-handle_cell services (some 2) cid (cell_of cmd_end []) 1 (world (some 2)) (inl refl)
      (λ p known g. ground (arith, g))

abbrev long_chunk : Bytes
long_chunk = replicate 508 7

abbrev long_payload : Bytes
long_payload = 5 ∷ test_aead.gcm_seal key (modify_nonce_with_sequence nonce 0) long_chunk

send_upstream-too_big_example : send_upstream services 0 cid 5 long_chunk (world none) ≡ (
  ok tt,
  record (put_state 0 (upstream_counted (state none)) (world none)) { history = drew ∷ [] },
)
unfolding new_conn_state modify_nonce_with_sequence
send_upstream-too_big_example =
    send_upstream-too_big services test_aead-IsAead 0 cid 5 long_chunk long_payload (world none)
      refl refl (omega arith)
