-- ===== src/Client/Use/Build.antt =====
-- build_circuit_usecase.go: which relays a circuit takes, and how it is built over the network.
pub mod Path
pub mod Shuffle
pub mod Runs
use text.Mathlib.Text.{◌==◌ as str_eq}
use go_ptor.Common.{
  ℕ, zero, suc, ◌+◌, ◌-◌, ◌%◌, Bool, not, Option, none, some, List, [], ◌∷◌, ◌++◌, ◌==◌, ltb,
  if◌then◌else◌, ite, length, get_or, get_elem?, set, take, map, String,
}
use go_ptor.Common.Map.{values}
use go_ptor.Common.Result.{
  Result, Error, ok, err, panic, rand_failed, not_enough_relays, exit_not_online, exit_not_listed,
  keygen_failed,
}
use go_ptor.Common.Exec.{Exec, pure, fail, lift, gets, modify, on_error, ignore, ◌>>=◌, ◌>>◌}
use go_ptor.Value.Command.{cmd_extend}
use go_ptor.Value.Circuit.{CircuitId}
use go_ptor.Value.Relay.{RelayId, zero_relay_id, new_relay_id}
use go_ptor.Cell.{Bytes, uint16}
use go_ptor.Cell.Aggregate.{new_relay_cell}
use go_ptor.Crypto.{Key}
use go_ptor.Crypto.Exchange.{or_fail, x25519_generate, x25519_shared, derive_key_nonce}
use go_ptor.Nonce.{Nonce}
use go_ptor.Net.{Conn, Env, History, dial, read_conn, close, drew}
use go_ptor.Payload.{encode_payload, decode_payload}
use go_ptor.Wire.{send_extend_cell, wait_for_created_response, teardown_circuit}
use go_ptor.Relay.Use.Extend.{to32}
use go_ptor.Client.Circuit.{Circuit, new_circuit, set_conn}
use go_ptor.Client.World.{World, Address, Act, Services, net, allocate}
use go_ptor.Client.Directory.{Relay, RelayId-discrete, find_by_id, all_online}
use go_ptor.Client.Repository.{save}

module _ {A : Type 0} where
  put_at : ℕ → Option A → List A → List A
  put_at i none xs = xs
  put_at i (some a) xs = set xs i a

  -- `xs[i], xs[j] = xs[j], xs[i]`
  unfoldable pub swap : ℕ → ℕ → List A → List A
  unfolding put_at
  swap i j xs = put_at j (get_elem? xs i) (put_at i (get_elem? xs j) xs)

  -- secureShuffle, the rounds for the indices from `i` down to 1
  unfoldable pub shuffle_loop : Env → ℕ → List A → Exec History (List A)
  unfolding swap or_fail
  shuffle_loop env zero xs = pure xs
  shuffle_loop env (suc i) xs = do
    b ← λ h. (or_fail rand_failed (env.rand h 2), drew ∷ h)
    shuffle_loop env i (swap (suc i) (uint16 (get_or b 0 0) (get_or b 1 0) % (suc i + 1)) xs)

  unfoldable pub secure_shuffle : Env → List A → Exec History (List A)
  unfolding shuffle_loop
  secure_shuffle env xs = shuffle_loop env (length xs - 1) xs

-- The loop that takes the exit relay out of the online ones.
unfoldable pub take_out : RelayId → List Relay → Option (Relay × List Relay)
take_out id [] = none
take_out id (r ∷ rs) =
    let rest = take_out id rs in
    ite (RelayId-discrete r.id id) (some (r, rs))
      (elim rest [ none ↦ none | some (e, others) ↦ some (e, r ∷ others) ])

with_exit : ℕ → Option (Relay × List Relay) → Result (Option Relay × List Relay)
with_exit hops none = err exit_not_listed
with_exit hops (some (e, others)) = ok (some e, if hops == 1 then [] else others)

online_exit : RelayId → ℕ → List Relay → Result Relay → Result (Option Relay × List Relay)
unfolding take_out with_exit
online_exit exit hops relays (err e) = err e
online_exit exit hops relays panic = panic
online_exit exit hops relays (ok r) =
    if not r.online then err exit_not_online else with_exit hops (take_out exit relays)

-- `if exit != (vo.RelayID{}) { … }`: the exit relay, and the relays to choose the others from.
unfoldable pub exit_and_pool :
    List Relay → ℕ → RelayId → List Relay → Result (Option Relay × List Relay)
unfolding online_exit
exit_and_pool known hops exit relays =
    ite (RelayId-discrete exit zero_relay_id) (ok (none, relays))
      (online_exit exit hops relays (find_by_id exit known))

-- The relays of the circuit, from the shuffled pool.
unfoldable pub select : ℕ → Option Relay → List Relay → Result (List Relay)
select hops none relays = ok (take hops relays)
select hops (some e) relays =
    if ltb (length relays) (hops - 1)
    then err not_enough_relays
    else ok (take (hops - 1) relays ++ (e ∷ []))

-- `if hops <= 0 { hops = 3 }`, where the number 0 stands for the negative ones too
unfoldable pub or_three : ℕ → ℕ
or_three hops = if hops == 0 then 3 else hops

module _ (v : Services) where
  open v use {env, gob, exchange}

  unfoldable pub chosen : ℕ → Option Relay × List Relay → Exec History (List Relay)
  unfolding secure_shuffle select
  chosen hops parts = do shuffled ← secure_shuffle env parts.1; lift (select hops parts.0 shuffled)

  -- Steps 1 and 2 of build. `relays[:hops]` is in range, since there are `hops` relays online.
  unfoldable pub choose : List Relay → ℕ → RelayId → Exec History (List Relay)
  unfolding exit_and_pool chosen
  choose known hops exit = do
    relays ← lift (all_online known)
    if ltb (length relays) hops
        then fail not_enough_relays
        else (do parts ← lift (exit_and_pool known hops exit relays); chosen hops parts)

  -- One round of the loop over the hops; `next` is the endpoint after it, or "". Deadlines are left
  -- out: a read or write that runs into one is one that fails.
  unfoldable pub extend_round : ℕ → CircuitId → String → Exec History (Key × Nonce)
  unfolding to32 x25519_generate x25519_shared derive_key_nonce
  extend_round c cid next = do
    pair ← x25519_generate exchange
    payload ←
        lift (encode_payload gob.extend (record { next_hop = next; client_pub = to32 pair.1 }))
    rc ← lift (new_relay_cell cmd_extend cid 0 payload)
    send_extend_cell env (some c) rc.circuit_id rc.cell
    resp ← wait_for_created_response env (read_conn env (some c))
    created ← lift (decode_payload gob.created resp)
    secret ← lift (x25519_shared exchange pair.0 created.relay_pub)
    lift (derive_key_nonce exchange secret)

  -- What each error return after the dial does first.
  unfoldable pub torn_down : {A : Type 0} → ℕ → CircuitId → Exec History A → Exec History A
  torn_down c cid m =
      on_error m pure (λ e. do ignore (teardown_circuit env (some c) cid); modify (close c); fail e)

  unfoldable pub endpoint_or_empty : List Relay → String
  endpoint_or_empty [] = ""
  endpoint_or_empty (r ∷ rs) = r.endpoint

  -- The loop over the hops: `selected[i+1]` is the head of the relays that follow.
  unfoldable pub extend_loop : ℕ → CircuitId → List Relay → Exec History (List Key × List Nonce)
  unfolding extend_round torn_down endpoint_or_empty
  extend_loop c cid [] = pure ([], [])
  extend_loop c cid (r ∷ rs) = do
    kn ← torn_down c cid (extend_round c cid (endpoint_or_empty rs))
    rest ← extend_loop c cid rs
    pure (kn.0 ∷ rest.0, kn.1 ∷ rest.1)

  -- The address of the circuit that was built.
  unfoldable pub build : List Relay → ℕ → RelayId → Act Address
  unfolding choose extend_loop or_three
  build known hops exit = do
    selected ← net (choose known (or_three hops) exit)
    priv ← net (λ h. (or_fail keygen_failed (v.generate_rsa h), drew ∷ h))
    cid ← gets (λ w. v.new_uuid w.history)
    c ← net (dial env (endpoint_or_empty selected))
    kns ← net (extend_loop c cid selected)
    cir ← net (
        torn_down c cid (lift (new_circuit cid (map (λ r. r.id) selected) kns.0 kns.1 (some priv))))
    p ← allocate (set_conn 0 (some c) cir)
    modify (save p)
    pure p

  unfoldable pub exit_id : String → Result RelayId
  exit_id text = if str_eq text "" then ok zero_relay_id else new_relay_id env text

  -- BuildCircuitUseCase.Handle; its output repeats the fields of the circuit.
  unfoldable pub build_circuit : List Relay → ℕ → String → Act Address
  unfolding build exit_id
  build_circuit known hops exit_relay_id = do
    exit ← lift (exit_id exit_relay_id)
    build known hops exit
