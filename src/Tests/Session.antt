-- ===== src/Tests/Session.antt =====
-- A client and two relays at a concrete message; no code of the repository.
use go_ptor.Common.{◌≡◌, refl, arith, List, [], ◌∷◌, inr, some, replicate, length, ℕ_discrete}
use go_ptor.Common.Map.{lookup}
use go_ptor.Common.Result.{ok, decrypt_failed}
use go_ptor.Cell.{Bytes}
use go_ptor.Crypto.{aes_open}
use go_ptor.Client.Use.Receive.{handle_data_cell}
use go_ptor.Session.Answer.{Answered, InStepUp}
use go_ptor.Session.Heard.{heard}
use go_ptor.Session.OutOfStep.{out_of_step}
use go_ptor.Client.Circuit.{Circuit}
use go_ptor.Session.ToClient.{handle_data_cell-Answered}
use go_ptor.Relay.Use.Data.Path.{Hop}
use go_ptor.Tests.Relay.{state, world as relay_world}
use go_ptor.Value.Command.{cmd_data}
use go_ptor.Value.Circuit.{CircuitId-discrete}
use go_ptor.Net.{History, circuit_id_from}
use go_ptor.Wire.Framing.{Sends}
use go_ptor.Nonce.{modify_nonce_with_sequence}
use go_ptor.Relay.ConnState.{new_conn_state}
use go_ptor.Relay.Repository.{get_stream}
use go_ptor.Relay.Use.Begin.{cell_of}
use go_ptor.Relay.Use.Data.Path.{layered, Delivered}
use go_ptor.Client.Circuit.{hop_key, active_streams, conn, hop_base_nonce}
use go_ptor.Client.World.{put_circuit}
use go_ptor.Client.Use.Send.{contains, send_data}
use go_ptor.Session.{InStep}
use go_ptor.Session.Delivery.{moved, moved_last}
use go_ptor.Session.EndToEnd.{spent, relays, send_data-Delivered}
use go_ptor.Tests.Setting.{
  to_text, test_env, test_exchange, test_env-IsReliable, test_aead-IsAead, content_codec-RoundTrips,
}
use go_ptor.Tests.Relay.{cid, x, front, exit, as_content}
use go_ptor.Tests.Client.{services, world, circuit}

send_data-Delivered_example :
    (h : History) × (send_data services (to_text (replicate 16 9)) 5 x 0 world
      ≡ (ok (length x), record (put_circuit 0 (spent circuit) world) { history = h }))
    × Sends [] 1 cid
        (cell_of cmd_data (
          as_content (
            layered
              (relays services test_env test_exchange)
              test_aead-IsAead
              content_codec-RoundTrips
              (front ∷ [])
              exit
              x)))
        h
    × Delivered
        (relays services test_env test_exchange)
        test_aead-IsAead
        content_codec-RoundTrips
        cid
        5
        6
        as_content
        x
        (front ∷ [])
        exit
        (layered
          (relays services test_env test_exchange)
          test_aead-IsAead
          content_codec-RoundTrips
          (front ∷ [])
          exit
          x)
    × InStep
        (spent circuit)
        (moved
          (relays services test_env test_exchange)
          test_aead-IsAead
          content_codec-RoundTrips
          cid
          5
          6
          as_content
          x
          (front ∷ [])
          exit)
        (moved_last
          (relays services test_env test_exchange)
          test_aead-IsAead
          content_codec-RoundTrips
          cid
          5
          6
          as_content
          x
          exit)
unfolding circuit_id_from lookup CircuitId-discrete ℕ_discrete contains active_streams conn hop_key
    hop_base_nonce new_conn_state get_stream modify_nonce_with_sequence
send_data-Delivered_example =
    send_data-Delivered services test_env test_exchange test_aead-IsAead content_codec-RoundTrips
      test_env-IsReliable test_env-IsReliable (to_text (replicate 16 9)) cid 0 5 1 6 x world
      as_content (front ∷ []) exit refl (λ e. omega (arith, e)) refl refl refl (λ b. refl) refl
      (refl, refl, refl, omega arith, (refl, inr (refl, refl, refl))) (omega arith)

-- A relay whose DATA counter is ahead of its upstream counter.
abbrev ahead : Hop
ahead = record {
  st = 0;
  world = record (relay_world (some 2)) {
    states = λ p. record (state (some 2)) { data_counter = 1 };
  };
  next = 2;
}

handle_data_cell-Answered_example :
    (out : Bytes) × (hs' : List Hop) × (last' : Hop) × Answered
      (relays services test_env test_exchange)
      test_aead-IsAead
      content_codec-RoundTrips
      cid
      5
      as_content
      x
      (ahead ∷ [])
      exit
      out
      hs'
      last'
    × InStepUp (heard circuit) hs' last'
    × (handle_data_cell services (cell_of cmd_data (as_content out)) circuit
        ≡ (ok (record { stream_id = 5; content = x; command = cmd_data }), heard circuit))
unfolding lookup ℕ_discrete hop_key hop_base_nonce new_conn_state aes_open
    modify_nonce_with_sequence
handle_data_cell-Answered_example =
    handle_data_cell-Answered services test_env test_exchange test_aead-IsAead
      content_codec-RoundTrips cid 5 as_content x test_env-IsReliable (λ b. refl)
      (λ e. omega (arith, e)) circuit (ahead ∷ []) exit refl
      (refl, 1, 2, decrypt_failed, refl, refl, refl, omega arith, (refl, 1, refl, omega arith))

-- A client whose first hop has carried one DATA cell, as the relay `ahead` has.
abbrev further : Circuit
further = record circuit { data_counter = (0, 1) ∷ (1, 0) ∷ [] }

out_of_step_example :
    (out : Bytes) × (hs' : List Hop) × (last' : Hop) × Answered
      (relays services test_env test_exchange)
      test_aead-IsAead
      content_codec-RoundTrips
      cid
      5
      as_content
      x
      (ahead ∷ [])
      exit
      out
      hs'
      last'
    × ((handle_data_cell services (cell_of cmd_data (as_content out)) further).1 ≡ heard further)
    × (¬ InStep (heard further) hs' last')
unfolding lookup ℕ_discrete hop_key hop_base_nonce new_conn_state aes_open
    modify_nonce_with_sequence
out_of_step_example =
    out_of_step services test_env test_exchange test_aead-IsAead content_codec-RoundTrips cid 5
      as_content x test_env-IsReliable (λ b. refl) (λ e. omega (arith, e)) further ahead [] exit
      refl refl
      (refl, 1, 2, decrypt_failed, refl, refl, refl, omega arith, (refl, 1, refl, omega arith))
