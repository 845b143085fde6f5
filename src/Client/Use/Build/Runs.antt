-- ===== src/Client/Use/Build/Runs.antt =====
-- A run of build in cmd/client/usecase/build_circuit_usecase.go in which every step succeeds.
use go_ptor.Common.{ℕ, suc, ◌≡◌, refl, ==-refl, some, List, ◌∷◌, map}
use go_ptor.Common.Map.{insert, lookup-insert_self}
use go_ptor.Common.Result.{ok}
use go_ptor.Value.Circuit.{CircuitId, CircuitId-discrete}
use go_ptor.Value.Relay.{RelayId}
use go_ptor.Cell.{Bytes}
use go_ptor.Crypto.{Key}
use go_ptor.Crypto.Exchange.{or_fail}
use go_ptor.Nonce.{Nonce}
use go_ptor.Net.{History, drew, dialed, dial}
use go_ptor.Client.Circuit.{Circuit, new_circuit, set_conn}
use go_ptor.Client.World.{World, Services, put_circuit}
use go_ptor.Client.Directory.{Relay}
use go_ptor.Client.Repository.{find_address, save}
use go_ptor.Client.Use.Build.{build, choose, or_three, extend_loop, endpoint_or_empty, torn_down}

-- The world once the circuit is built and saved.
abbrev pub built_world : CircuitId → Circuit → History → World → World
built_world cid wired h w = record (put_circuit w.next_address wired w) {
  history = h;
  next_address = suc w.next_address;
  circuits = insert CircuitId-discrete cid w.next_address w.circuits;
}

module _ (v : Services) (known : List Relay) (hops : ℕ) (exit : RelayId) where
  pub build-runs :
      (selected : List Relay) (priv : Bytes) (c : ℕ) (cid : CircuitId) (ks : List Key)
      (ns : List Nonce) (made wired : Circuit) (h h' : History) (w : World)
      → choose v known (or_three hops) exit w.history ≡ (ok selected, h)
      → v.generate_rsa h ≡ some priv
      → v.new_uuid (drew ∷ h) ≡ cid
      → v.env.dial_tcp (drew ∷ h) (endpoint_or_empty v selected) ≡ some c
      → extend_loop v c cid selected (dialed (endpoint_or_empty v selected) ∷ drew ∷ h)
        ≡ (ok (ks, ns), h')
      → new_circuit cid (map (λ r. r.id) selected) ks ns (some priv) ≡ ok made
      → set_conn 0 (some c) made ≡ wired
      → wired.id ≡ cid
      → build v known hops exit w ≡ (ok w.next_address, built_world cid wired h' w)
  unfolding build save dial torn_down or_fail
  build-runs selected priv c cid ks ns made wired h h' w chosen drawn named dialled run new set id =
      rw (chosen, drawn, named, dialled, dial, run, new, set, ==-refl w.next_address, id) refl

pub built_world-known :
    (cid : CircuitId) (wired : Circuit) (h : History) (w : World)
    → find_address cid (built_world cid wired h w) ≡ some w.next_address
built_world-known cid wired h w =
    lookup-insert_self CircuitId-discrete cid w.next_address w.circuits

pub built_world-object :
    (cid : CircuitId) (wired : Circuit) (h : History) (w : World)
    → (built_world cid wired h w).objects w.next_address ≡ wired
built_world-object cid wired h w = rw (==-refl w.next_address) refl
