-- ===== src/Tests/Connect.antt =====
-- A client that connects to a hidden service over two relays; no code of the repository.
use go_ptor.Common.{ℕ, ◌≡◌, refl, arith, some, List, [], ◌∷◌, replicate, ℕ_discrete}
use go_ptor.Common.Map.{lookup}
use go_ptor.Common.Result.{ok}
use go_ptor.Value.Circuit.{CircuitId-discrete}
use go_ptor.Value.Command.{cmd_connect}
use go_ptor.Net.{History, circuit_id_from}
use go_ptor.Nonce.{modify_nonce_with_sequence}
use go_ptor.Wire.Framing.{Sends}
use go_ptor.Relay.ConnState.{new_conn_state}
use go_ptor.Relay.Repository.{find_address}
use go_ptor.Relay.Use.Begin.{cell_of}
use go_ptor.Relay.Use.Begin.Path.{begin_layered}
use go_ptor.Relay.Use.Connect.{default_target}
use go_ptor.Relay.Use.Connect.Path.{Connected}
use go_ptor.Relay.Use.Data.Hops.{Delivers}
use go_ptor.Relay.Use.Data.Path.{Hop, state_of}
use go_ptor.Client.Circuit.{conn, active_streams, hop_key, hop_base_nonce}
use go_ptor.Client.World.{put_circuit}
use go_ptor.Client.Use.Send.{send_connect}
use go_ptor.Session.EndToEnd.{relays}
use go_ptor.Session.Kinds.{InStepAll, begun_circuit}
use go_ptor.Session.Connecting.{send_connect-Connected}
use go_ptor.Tests.Setting.{
  to_text, test_env, test_exchange, test_env-IsReliable, test_aead-IsAead, content_codec-RoundTrips,
}
use go_ptor.Tests.Relay.{cid, front, exit}
use go_ptor.Tests.Client.{services, world, circuit}

send_connect-Connected_example :
    (h : History) × (hs' : List Hop) × (last' : Hop) × (send_connect services
        (to_text (replicate 16 9))
        ""
        world
      ≡ (ok tt, record (put_circuit 0 (begun_circuit circuit) world) { history = h }))
    × Sends [] 1 cid
        (cell_of cmd_connect (
          begin_layered
            (relays services test_env test_exchange)
            test_aead-IsAead
            (front ∷ [])
            exit
            []))
        h
    × Connected
        (relays services test_env test_exchange)
        test_aead-IsAead
        cid
        1
        7
        (default_target test_env)
        []
        (front ∷ [])
        exit
        (begin_layered
          (relays services test_env test_exchange)
          test_aead-IsAead
          (front ∷ [])
          exit
          [])
        hs'
        last'
    × InStepAll (begun_circuit circuit) hs' last'
    × ((sid : ℕ)
        → Delivers
            (relays services test_env test_exchange)
            test_aead-IsAead
            content_codec-RoundTrips
            cid
            sid
            (state_of last')
            last'.world
            7)
    × (find_address cid last'.world ≡ some last'.st)
    × (conn 0 (begun_circuit circuit) ≡ some 1)
    × (active_streams (begun_circuit circuit) ≡ active_streams circuit)
unfolding circuit_id_from lookup CircuitId-discrete ℕ_discrete conn hop_key hop_base_nonce
    new_conn_state modify_nonce_with_sequence
send_connect-Connected_example =
    send_connect-Connected services test_env test_exchange test_aead-IsAead content_codec-RoundTrips
      test_env-IsReliable test_env-IsReliable (to_text (replicate 16 9)) cid 0 1 7 1 world
      (front ∷ []) exit refl refl refl (record { begins = refl; down = refl; up = refl }) refl
      (refl, refl, omega arith, (refl, refl, refl, refl)) (omega arith)
