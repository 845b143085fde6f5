-- ===== src/Tests/Steps.antt =====
-- A relay's steps, its serving loop and its repository at concrete inputs; no code of the repository.
use go_ptor.Common.{
  ◌≡◌, ◌+◌, ◌⊎◌, ◌==◌, refl, ap, ◌≢◌, get_or, arith, true, List, none, some, [], ◌∷◌, replicate,
  if◌then◌else◌, ltb, ℕ_discrete,
}
use go_ptor.Common.Map.{lookup, insert}
use go_ptor.Common.Result.{ok, err, eof, panic}
use go_ptor.Value.Command.{cmd_extend, cmd_end, protocol_v1}
use go_ptor.Value.Circuit.{CircuitId, CircuitId-discrete}
use go_ptor.Net.{Env}
use go_ptor.Payload.{decode_payload, encode_payload}
use go_ptor.Relay.World.{World, Services}
use go_ptor.Relay.Repository.{find, add, find_address, streams_of, get_stream}
use go_ptor.Relay.Repository.Table.{
  Method, Table, Shows, add_circuit, delete_circuit, add_to, remove_from, perform_all, promised_all,
  perform_all-refines,
}
use go_ptor.Relay.Use.Begin.{cell_of}
use go_ptor.Relay.Use.Extend.{extend}
use go_ptor.Relay.Handler.{handle_cell}
use go_ptor.Relay.Serve.{serve}
use go_ptor.Relay.Serve.Ends.{serve-ends}
use go_ptor.Wire.Asked.{asked, EndsAfter}
use go_ptor.Relay.Leaves.Runs.{handled, here, next, Reach-isolates}
use go_ptor.Tests.Setting.{test_env, test_gob}
use go_ptor.Tests.Relay.{services, cid, state, key, nonce}

-- Decodes every EXTEND payload and agrees on one key.
abbrev extending : Services
extending = record services {
  gob = record test_gob {
    extend = record {
      gob_encode = λ p. none;
      gob_decode = λ b. some (record { next_hop = ""; client_pub = [] });
    };
    created = record { gob_encode = λ p. some (0 ∷ []); gob_decode = λ b. none };
  };
  exchange = record {
    generate_key = λ h. some ([], []);
    ecdh = λ a b. some [];
    hkdf = λ s. some (key, nonce);
  };
}

abbrev started : World
started = record {
  history = [];
  states = λ p. state none;
  next_address = 0;
  circuits = [];
  streams = [];
  tasks = [];
}

abbrev other : CircuitId
other = record { val = replicate 16 8 }

-- The relay has one circuit, `other`.
abbrev extended : World
extended = (handle_cell extending (some 1) other (cell_of cmd_extend []) started).1

apart : other ≢ cid
apart e = let heads : 8 ≡ 9 = ap (λ (i : CircuitId). get_or i.val 0 0) e in omega (arith, heads)

Reach-isolates_example :
    (find_address other (handle_cell extending (some 2) cid (cell_of cmd_extend []) extended).1
      ≡ some 0)
    × ((handle_cell extending (some 2) cid (cell_of cmd_extend []) extended).1.states 0
        ≡ extended.states 0)
    × (streams_of other (handle_cell extending (some 2) cid (cell_of cmd_extend []) extended).1
        ≡ streams_of other extended)
unfolding handle_cell lookup CircuitId-discrete ℕ_discrete find extend decode_payload encode_payload
    add insert
Reach-isolates_example =
    Reach-isolates extending started extended (some 2) cid other (cell_of cmd_extend []) 0 refl
      (next here (handled (some 1) other (cell_of cmd_extend []))) apart refl

-- Reads one END cell from every connection, and nothing more.
abbrev pub talking : Env
talking = record test_env {
  read_full = λ h c n.
      if ltb 528 (asked c h + n)
      then err eof
      else ok (if n == 16 then replicate 16 9 else cmd_end ∷ protocol_v1 ∷ replicate 510 0);
}

pub talking-EndsAfter : EndsAfter talking 1 528
talking-EndsAfter = record { dries_up = λ h n e. (eof, ground (arith, e)) }

abbrev served_by : Services
served_by = record services { env = talking }

serve-ends_example :
    ((serve served_by (λ w. w) 3 (some 1) started).0 ≡ ok true)
    ⊎ ((serve served_by (λ w. w) 3 (some 1) started).0 ≡ panic)
unfolding asked
serve-ends_example =
    serve-ends served_by (λ w. w) 1 528 talking-EndsAfter 2 started (λ w. ([], refl)) (omega arith)

abbrev methods : List Method
methods = add_circuit cid 0 ∷ add_to cid 5 (some 6) ∷ remove_from cid 5 ∷ delete_circuit cid ∷ []

abbrev empty : Table
empty = record { circuits = λ j. none; streams = λ j s. none }

started-Shows : Shows started empty
unfolding lookup get_stream
started-Shows = record { circuit = λ j. refl; stream = λ j s. refl }

perform_all-refines_example :
    Shows (perform_all test_env methods started) (promised_all methods empty)
perform_all-refines_example = perform_all-refines test_env methods started empty started-Shows
