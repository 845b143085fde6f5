-- ===== src/Tests/Build.antt =====
-- A client that builds a circuit of two relays; no code of the repository.
use text.Mathlib.Text.{◌==◌ as str_eq}
use text.Mathlib.TextEquality.{eq_iff}
use go_ptor.Common.{
  ℕ, ◌≡◌, refl, arith, true, Option, none, some, List, [], ◌∷◌, ◌++◌, ◌==◌, if◌then◌else◌, inl, inr,
  get_or, length, replicate, String, ℕ_discrete,
}
use go_ptor.Common.Map.{lookup}
use go_ptor.Common.Result.{ok}
use go_ptor.Value.Circuit.{CircuitId}
use go_ptor.Cell.{Bytes}
use go_ptor.Crypto.Exchange.{Exchange}
use go_ptor.Crypto.Agreement.{Agreement}
use go_ptor.Net.{Conn, Env, History, wrote, read, drew, dialed}
use go_ptor.Payload.{Codec, ExtendPayload, CreatedPayload, RoundTrips}
use go_ptor.Wire.Reliable.{IsReliable}
use go_ptor.Wire.{created_header}
use go_ptor.Relay.ConnState.{new_conn_state}
use go_ptor.Relay.World.{World}
use go_ptor.Client.Circuit.{conn}
use go_ptor.Client.Directory.{Relay, all_online, find_by_id, RelayId-discrete}
use go_ptor.Client.World.{World as ClientWorld, Address, Services}
use go_ptor.Client.Repository.{find_address}
use go_ptor.Client.Use.Build.{build, choose, or_three, endpoint_or_empty}
use go_ptor.Session.Handshake.{Party, Willing}
use go_ptor.Session.Built.{IsBuilt, build-IsBuilt}
use go_ptor.Tests.Client.{circuit}
use go_ptor.Tests.Setting.{test_env, test_gob, test_aead, test_env-IsReliable}

abbrev cid : CircuitId
cid = record { val = replicate 16 9 }

-- EXTEND for the second relay, "b", begins with 1, and for none with 0.
abbrev asks : String → Bytes → Bytes
asks next b = (if str_eq next "" then 0 else 1) ∷ b

abbrev extend_of : Bytes → Option ExtendPayload
extend_of [] = none
extend_of (n ∷ b) = some (record { next_hop = if n == 0 then "" else "b"; client_pub = b })

abbrev extend_codec : Codec ExtendPayload
extend_codec = record {
  gob_encode = λ p.
      if str_eq p.next_hop ""
      then some (asks "" p.client_pub)
      else if str_eq p.next_hop "b"
      then some (asks "b" p.client_pub)
      else none;
  gob_decode = extend_of;
}

extend_codec-RoundTrips : RoundTrips extend_codec
extend_codec-RoundTrips p b e = ground (arith, eq_iff p.next_hop "", eq_iff p.next_hop "b")

abbrev created_codec : Codec CreatedPayload
created_codec = record {
  gob_encode = λ p. some p.relay_pub;
  gob_decode = λ b. some (record { relay_pub = b });
}

created_codec-RoundTrips : RoundTrips created_codec
created_codec-RoundTrips p b e = cc e

-- A key pair is twice the same bytes, and the secret both keys of the pair, the client's first.
abbrev keyed : ℕ → Bytes × Bytes
keyed n = (n ∷ replicate 31 1, n ∷ replicate 31 1)

abbrev derived : Bytes → Bytes × Bytes
derived s = (replicate 32 (get_or s 32 0), replicate 12 4)

abbrev client_exchange : Exchange
client_exchange = record {
  generate_key = λ h. some (keyed 5);
  ecdh = λ priv pub_bytes. some (priv ++ pub_bytes);
  hkdf = λ s. some (derived s);
}

-- A relay's key depends on what has happened to it.
abbrev relay_exchange : Exchange
relay_exchange = record {
  generate_key = λ h. some (keyed (length h));
  ecdh = λ priv pub_bytes. some (pub_bytes ++ priv);
  hkdf = λ s. some (derived s);
}

abbrev agreement : Agreement client_exchange relay_exchange
agreement = record {
  pair = λ h. keyed 5;
  pair' = λ h. keyed (length h);
  secret = λ p q. p.0 ++ q.1;
  derived = derived;
  draws = λ h. refl;
  draws' = λ h. refl;
  size = λ h. refl;
  size' = λ h. refl;
  shares = λ h h'. refl;
  shares' = λ h h'. refl;
  derives = λ s. refl;
  derives' = λ s. refl;
  key_size = λ s. refl;
}

-- The first byte of the payload in the last cell that was written.
abbrev flag : History → ℕ
flag (wrote c b ∷ h) = get_or b 20 0
flag (read c n ∷ h) = flag h
flag h = 0

-- Answers the first request with the key of a relay that has done one thing, the second with that
-- of a relay that has done nothing.
abbrev answering : Env
answering = record test_env {
  read_full = λ h c n.
      ok (
        if n == 20 then replicate 16 9 ++ (0x08 ∷ 0x01 ∷ 0 ∷ 32 ∷ []) else flag h ∷ replicate 31 1);
}

answering-IsReliable : IsReliable answering
answering-IsReliable = record {
  writes = test_env-IsReliable.writes;
  fills = test_env-IsReliable.fills;
}

abbrev services : Services
services = record {
  env = answering;
  aead = test_aead;
  gob = record test_gob { extend = extend_codec; created = created_codec };
  exchange = client_exchange;
  generate_rsa = λ h. some [];
  new_uuid = λ h. cid;
}

abbrev first_relay : Relay
first_relay = record { id = replicate 16 1; endpoint = "a"; online = true }

abbrev second_relay : Relay
second_relay = record { id = replicate 16 2; endpoint = "b"; online = true }

abbrev idle : History → World
idle h = record {
  history = h;
  states = λ p. new_conn_state [] [] none none 0;
  next_address = 0;
  circuits = [];
  streams = [];
  tasks = [];
}

abbrev front : Party
front = record {
  relay = first_relay;
  world = idle (drew ∷ []);
  up = 1;
  next = 7;
  dialled = dialed "b" ∷ drew ∷ drew ∷ [];
}

abbrev end : Party
end = record { relay = second_relay; world = idle []; up = 1; next = 0; dialled = drew ∷ [] }

abbrev WillingHere : String → Conn → Party → Type 0
WillingHere = Willing services test_env relay_exchange agreement asks (λ b. b) 7 cid

front-Willing : WillingHere "b" (some 7) front
unfolding lookup created_header
front-Willing = record {
  fresh = refl;
  dials = inr (7, refl, refl, refl, refl);
  coded = λ b. refl;
  fits = λ b e. omega (arith, e);
  delivered = λ h. record {
    positive = omega arith;
    short = omega arith;
    header = λ h' sends. refl;
    body = λ h' sends. rw sends.event refl;
  };
}

end-Willing : WillingHere "" none end
unfolding lookup created_header
end-Willing = record {
  fresh = refl;
  dials = inl (refl, refl, refl);
  coded = λ b. refl;
  fits = λ b e. omega (arith, e);
  delivered = λ h. record {
    positive = omega arith;
    short = omega arith;
    header = λ h' sends. refl;
    body = λ h' sends. rw sends.event refl;
  };
}

abbrev known : List Relay
known = first_relay ∷ second_relay ∷ []

abbrev client : ClientWorld
client = record {
  history = [];
  objects = λ p. circuit;
  next_address = 1;
  circuits = [];
  streams = [];
  stream_counter = 0;
  tasks = [];
}

build-IsBuilt_example :
    (w' : ClientWorld) × (q : Address) × (build services known 2 second_relay.id client
      ≡ (ok q, w'))
    × (find_address cid w' ≡ some q)
    × (conn 0 (w'.objects q) ≡ some 7)
    × ((w'.objects q).hops ≡ first_relay.id ∷ second_relay.id ∷ [])
    × IsBuilt services test_env relay_exchange agreement asks
        (λ b. b)
        7
        cid
        (dialed "a" ∷ drew ∷ [])
        (front ∷ end ∷ [])
        (w'.objects q)
        w'.history
unfolding choose all_online RelayId-discrete ℕ_discrete find_by_id or_three endpoint_or_empty
build-IsBuilt_example =
    build-IsBuilt services test_env relay_exchange agreement asks (λ b. b) 7 cid refl
      answering-IsReliable test_env-IsReliable extend_codec-RoundTrips created_codec-RoundTrips
      (λ b. refl) known 2 second_relay.id front (end ∷ []) [] [] client refl refl refl refl
      (front-Willing, (end-Willing, tt))
