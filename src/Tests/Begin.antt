-- ===== src/Tests/Begin.antt =====
-- A client that opens a stream over two relays, and EXTEND at a relay in front; no code of the
-- repository.
use text.Mathlib.Text.{◌==◌ as str_eq}
use text.Mathlib.TextEquality.{eq_iff}
use go_ptor.Common.{
  ◌≡◌, refl, arith, Option, none, some, List, [], ◌∷◌, ◌++◌, ◌==◌, if◌then◌else◌, replicate,
  ℕ_discrete,
}
use go_ptor.Common.Map.{lookup}
use go_ptor.Common.Result.{ok}
use go_ptor.Value.Circuit.{CircuitId-discrete}
use go_ptor.Value.Command.{cmd_begin, cmd_extend}
use go_ptor.Cell.{Bytes}
use go_ptor.Net.{Env, History, circuit_id_from}
use go_ptor.Nonce.{modify_nonce_with_sequence}
use go_ptor.Payload.{Codec, BeginPayload, RoundTrips}
use go_ptor.Wire.{created_header}
use go_ptor.Wire.Framing.{Sends}
use go_ptor.Wire.Reliable.{IsReliable}
use go_ptor.Wire.Answer.{answered, created}
use go_ptor.Relay.ConnState.{new_conn_state, touch}
use go_ptor.Relay.World.{World, Services}
use go_ptor.Relay.Handler.{handle_cell}
use go_ptor.Relay.Handler.Joining.{handle_cell-passes}
use go_ptor.Relay.Use.Begin.{cell_of}
use go_ptor.Relay.Use.Begin.Path.{begin_layered, Opened}
use go_ptor.Relay.Use.Data.Hops.{Delivers}
use go_ptor.Relay.Use.Data.Path.{Hop, state_of}
use go_ptor.Client.Circuit.{conn, active_streams, hop_key, hop_base_nonce}
use go_ptor.Client.World.{put_circuit, Services as ClientServices}
use go_ptor.Client.Use.Send.{send_data, contains}
use go_ptor.Session.EndToEnd.{relays}
use go_ptor.Session.Kinds.{InStepAll, begun_circuit}
use go_ptor.Session.Begun.{send_data-Opened}
use go_ptor.Tests.Setting.{
  to_text, test_env, test_gob, test_exchange, test_env-IsReliable, test_aead-IsAead,
  content_codec-RoundTrips,
}
use go_ptor.Tests.Relay.{cid, front, exit, world as relay_world, state, services as relay_services}
use go_ptor.Tests.Client.{services, world, circuit}

-- The only target is "t".
abbrev begin_of : Bytes → Option BeginPayload
begin_of (n ∷ []) = some (record { stream_id = n; target = "t" })
begin_of _ = none

abbrev begin_codec : Codec BeginPayload
begin_codec = record {
  gob_encode = λ p. if str_eq p.target "t" then some (p.stream_id ∷ []) else none;
  gob_decode = begin_of;
}

pub begin_codec-RoundTrips : RoundTrips begin_codec
begin_codec-RoundTrips p b e = ground (arith, eq_iff p.target "t")

abbrev pub opening : ClientServices
opening = record services { gob = record test_gob { begin = begin_codec } }

send_data-Opened_example :
    (h : History) × (hs' : List Hop) × (last' : Hop) × (send_data opening
        (to_text (replicate 16 9))
        5
        (5 ∷ [])
        cmd_begin
        world
      ≡ (ok 1, record (put_circuit 0 (begun_circuit circuit) world) { history = h }))
    × Sends [] 1 cid
        (cell_of cmd_begin (
          begin_layered
            (relays opening test_env test_exchange)
            test_aead-IsAead
            (front ∷ [])
            exit
            (5 ∷ [])))
        h
    × Opened
        (relays opening test_env test_exchange)
        test_aead-IsAead
        cid
        5
        1
        7
        "t"
        (5 ∷ [])
        (front ∷ [])
        exit
        (begin_layered
          (relays opening test_env test_exchange)
          test_aead-IsAead
          (front ∷ [])
          exit
          (5 ∷ []))
        hs'
        last'
    × InStepAll (begun_circuit circuit) hs' last'
    × Delivers
        (relays opening test_env test_exchange)
        test_aead-IsAead
        content_codec-RoundTrips
        cid
        5
        (state_of last')
        last'.world
        7
    × (conn 0 (begun_circuit circuit) ≡ some 1)
    × (active_streams (begun_circuit circuit) ≡ active_streams circuit)
unfolding circuit_id_from lookup CircuitId-discrete ℕ_discrete contains active_streams conn hop_key
    hop_base_nonce new_conn_state modify_nonce_with_sequence
send_data-Opened_example =
    send_data-Opened opening test_env test_exchange test_aead-IsAead content_codec-RoundTrips
      begin_codec-RoundTrips test_env-IsReliable test_env-IsReliable (to_text (replicate 16 9)) cid
      0 5 1 7 1 "t" (5 ∷ []) world (front ∷ []) exit refl (λ e. omega (arith, e)) refl refl refl
      refl (record { begins = refl; down = refl; up = refl })
      (refl, refl, refl, omega arith, (refl, refl, refl, refl, refl)) (omega arith)

-- The next relay answers with a payload of three bytes.
abbrev next_answers : Env
next_answers = record test_env {
  read_full = λ h c n.
      ok (if n == 20 then replicate 16 9 ++ (0x08 ∷ 0x01 ∷ 0 ∷ 3 ∷ []) else 1 ∷ 2 ∷ 3 ∷ []);
}

next_answers-IsReliable : IsReliable next_answers
next_answers-IsReliable = record {
  writes = test_env-IsReliable.writes;
  fills = test_env-IsReliable.fills;
}

abbrev passing : Services
passing = record relay_services { env = next_answers }

handle_cell-passes_example :
    (w' : World) × (h' : History) × (handle_cell passing
        (some 1)
        cid
        (cell_of cmd_extend (4 ∷ []))
        (relay_world (some 2))
      ≡ (ok tt, w'))
    × (w'.states 0 ≡ touch 0 (state (some 2)))
    × (w'.circuits ≡ (cid, 0) ∷ [])
    × Sends [] 2 cid (cell_of cmd_extend (4 ∷ [])) h'
    × (w'.history ≡ created next_answers 1 cid (1 ∷ 2 ∷ 3 ∷ []) (answered 2 (1 ∷ 2 ∷ 3 ∷ []) h'))
unfolding lookup CircuitId-discrete ℕ_discrete created_header new_conn_state
handle_cell-passes_example =
    handle_cell-passes passing cid next_answers-IsReliable 0 (some 1) 1 2 (4 ∷ []) (1 ∷ 2 ∷ 3 ∷ [])
      (relay_world (some 2)) refl refl refl refl (omega arith)
      (record {
        positive = omega arith;
        short = omega arith;
        header = λ h' sends. refl;
        body = λ h' sends. refl;
      })
