-- ===== src/Client/Use/Stream/Life.antt =====
-- What handle_end_usecase.go does to a circuit and open_stream_usecase.go to its streams.
use go_ptor.Common.{
  ite, ℕ, ◌≡◌, refl, arith, [], ◌∷◌, none, some, true, false, String, map, ℕ_discrete, ==-refl,
}
use go_ptor.Common.Map.{Map, lookup, insert, lookup-delete_self, lookup-delete}
use go_ptor.Common.Result.{ok}
use go_ptor.Value.Circuit.{CircuitId, CircuitId-discrete}
use go_ptor.Value.Stream.{StreamId, new_stream_id_auto}
use go_ptor.Crypto.{zero_key}
use go_ptor.Net.{circuit_id_from}
use go_ptor.Client.Circuit.{
  Circuit, StreamState, at_hop, hop_key, wipe_keys, open_stream, open_ids, active_streams,
}
use go_ptor.Client.World.{World, Address, Services}
use go_ptor.Client.Repository.{find_address, find, remove_circuit}
use go_ptor.Client.Use.Send.{contains}
use go_ptor.Client.Use.Stream.{handle_end, close_all_at}

at_hop-map : {A : Type 0} (z : A) (m : Map ℕ A) (idx : ℕ) → at_hop z (map (λ e. (e.0, z)) m) idx ≡ z
unfolding at_hop lookup
at_hop-map z [] idx = refl
at_hop-map z ((i, a) ∷ m) idx = elim (ℕ_discrete idx i) [
  | yes y ↦ ground (arith, y)
  | no n ↦ ground (arith, n, at_hop-map z m idx)
]

-- WipeKeys leaves a zero key at every hop and no private key.
pub hop_key-wipe_keys :
    (c : Circuit) → ((idx : ℕ) → hop_key idx (wipe_keys c) ≡ zero_key) × ((wipe_keys c).priv ≡ none)
unfolding hop_key wipe_keys
hop_key-wipe_keys c = (λ idx. at_hop-map zero_key c.keys idx, refl)

contains-open_ids :
    (sid : StreamId) (m : Map StreamId StreamState)
    → contains sid (open_ids (insert ℕ_discrete sid (record { id = sid; closed = false }) m)) ≡ true
unfolding contains open_ids insert
contains-open_ids sid [] = ground (arith, ==-refl sid)
contains-open_ids sid ((i, st) ∷ m) = ground (arith, ==-refl sid, contains-open_ids sid m)

-- A stream that OpenStream just opened is among the active streams of its circuit.
contains-open_stream :
    (counter : ℕ) (c : Circuit)
    → contains (open_stream counter c).0.1 (active_streams (open_stream counter c).1) ≡ true
unfolding open_stream active_streams
contains-open_stream counter c = contains-open_ids (new_stream_id_auto counter).1 c.stream

removed :
    (cid : CircuitId) (p : Address) (w : World)
    → find_address cid w ≡ some p
    → (find_address cid (remove_circuit cid w) ≡ none)
      × ((j : CircuitId)
          → find_address j (remove_circuit cid w)
            ≡ ite (CircuitId-discrete j cid) none (find_address j w))
      × ((remove_circuit cid w).objects p ≡ wipe_keys (w.objects p))
unfolding remove_circuit
removed cid p w known =
    rw (known, remove_circuit)
      (
        lookup-delete_self CircuitId-discrete cid w.circuits,
        λ j. lookup-delete CircuitId-discrete j cid w.circuits,
        rw (==-refl p) refl,
      )

-- An END for stream 0 of a known circuit removes it from the repository, leaves zero keys and no
-- private key in the object, and keeps every other circuit known.
pub handle_end-circuit :
    (v : Services) (text : String) (cid : CircuitId) (p : Address) (w : World)
    → circuit_id_from v.env text ≡ ok cid
    → find_address cid w ≡ some p
    → (w' : World) × (handle_end v text 0 w ≡ (ok true, w'))
      × (find_address cid w' ≡ none)
      × ((j : CircuitId)
          → find_address j w' ≡ ite (CircuitId-discrete j cid) none (find_address j w))
      × ((idx : ℕ) → hop_key idx (w'.objects p) ≡ zero_key)
      × ((w'.objects p).priv ≡ none)
unfolding handle_end find close_all_at
handle_end-circuit v text cid p w named known =
    let w₁ = close_all_at p w in
    let known₁ : find_address cid w₁ ≡ some p = known in
    let (gone, others, wiped) = removed cid p w₁ known₁ in
    let (keys, priv) = hop_key-wipe_keys (w₁.objects p) in
    (
      remove_circuit cid w₁,
      rw (named, handle_end, known) refl,
      gone,
      others,
      rw wiped keys,
      rw wiped priv,
    )
