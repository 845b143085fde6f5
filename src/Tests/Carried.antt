-- ===== src/Tests/Carried.antt =====
-- A client that opens a stream over two relays and sends data on it; no code of the repository.
use go_ptor.Common.{◌≡◌, refl, arith, List, [], ◌∷◌, replicate, ℕ_discrete}
use go_ptor.Common.Map.{lookup}
use go_ptor.Common.Result.{ok}
use go_ptor.Value.Circuit.{CircuitId-discrete}
use go_ptor.Value.Command.{cmd_begin, cmd_data}
use go_ptor.Net.{circuit_id_from}
use go_ptor.Nonce.{modify_nonce_with_sequence}
use go_ptor.Wire.Framing.{Sends}
use go_ptor.Relay.ConnState.{new_conn_state}
use go_ptor.Relay.World.{Services}
use go_ptor.Relay.Use.Begin.{cell_of}
use go_ptor.Relay.Use.Begin.Path.{begin_layered, Opened}
use go_ptor.Relay.Use.Data.Path.{Hop, layered, Delivered}
use go_ptor.Client.Circuit.{conn, active_streams, hop_key, hop_base_nonce}
use go_ptor.Client.World.{World}
use go_ptor.Client.Use.Send.{send_data, contains}
use go_ptor.Session.EndToEnd.{relays}
use go_ptor.Session.Carried.{send_data-Carried}
use go_ptor.Tests.Setting.{
  to_text, test_env, test_exchange, test_env-IsReliable, test_aead-IsAead, content_codec-RoundTrips,
}
use go_ptor.Tests.Relay.{cid, front, exit}
use go_ptor.Tests.Client.{world}
use go_ptor.Tests.Begin.{opening, begin_codec-RoundTrips}

abbrev on_the_way : Services
on_the_way = relays opening test_env test_exchange

send_data-Carried_example :
    (w₁ w₂ : World) × (hs' : List Hop) × (last' : Hop) × (send_data opening
        (to_text (replicate 16 9))
        5
        (5 ∷ [])
        cmd_begin
        world
      ≡ (ok 1, w₁))
    × Sends [] 1 cid
        (cell_of cmd_begin (begin_layered on_the_way test_aead-IsAead (front ∷ []) exit (5 ∷ [])))
        w₁.history
    × Opened on_the_way test_aead-IsAead cid 5 1 7 "t"
        (5 ∷ [])
        (front ∷ [])
        exit
        (begin_layered on_the_way test_aead-IsAead (front ∷ []) exit (5 ∷ []))
        hs'
        last'
    × (send_data opening (to_text (replicate 16 9)) 5 (8 ∷ []) 0 w₁ ≡ (ok 1, w₂))
    × Sends w₁.history 1 cid
        (cell_of cmd_data (
          5
          ∷ layered on_the_way test_aead-IsAead content_codec-RoundTrips
              (front ∷ [])
              exit
              (8 ∷ [])))
        w₂.history
    × Delivered on_the_way test_aead-IsAead content_codec-RoundTrips cid 5 7
        (λ b. 5 ∷ b)
        (8 ∷ [])
        hs'
        last'
        (layered on_the_way test_aead-IsAead content_codec-RoundTrips (front ∷ []) exit (8 ∷ []))
unfolding circuit_id_from lookup CircuitId-discrete ℕ_discrete contains active_streams conn hop_key
    hop_base_nonce new_conn_state modify_nonce_with_sequence
send_data-Carried_example =
    send_data-Carried opening test_env test_exchange test_aead-IsAead content_codec-RoundTrips
      begin_codec-RoundTrips test_env-IsReliable test_env-IsReliable (to_text (replicate 16 9)) cid
      0 5 1 7 1 "t" (5 ∷ []) (8 ∷ []) (λ b. 5 ∷ b) world (front ∷ []) exit refl
      (λ e. omega (arith, e)) refl refl refl refl (λ b. refl)
      (record { begins = refl; down = refl; up = refl })
      (refl, refl, refl, omega arith, (refl, refl, refl, refl, refl)) (omega arith, tt)
      (omega arith) (omega arith)
