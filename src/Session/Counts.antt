-- ===== src/Session/Counts.antt =====
-- Taking a nonce of one kind from all hops of a circuit (the loop of
-- cmd/client/usecase/send_data_usecase.go over shared/domain/entity/circuit.go).
use go_ptor.Common.{ℕ, zero, suc, ◌≡◌, ◌≢◌, ◌<◌, refl, ap, ap₂, ◌∙◌, arith, ◌∷◌, map}
use go_ptor.Common.Map.{Map}
use go_ptor.Nonce.{Nonce, increment}
use go_ptor.Client.Circuit.{
  Circuit, hop_key, hop_base_nonce, at_hop, hop_data_nonce, hop_begin_nonce,
  hop_upstream_data_nonce,
}
use go_ptor.Client.Circuit.Hops.{at_hop-bump_ne, at_hop-bump_self}
use go_ptor.Client.Use.Send.{hop_keys, hop_nonces}
use go_ptor.Session.{Layer, counted_layer, client_layer, client_layers, layers_by}

pub client_layers-by :
    (n i : ℕ) (c : Circuit) → client_layers n i c ≡ layers_by (λ c. c.data_counter) n i c
client_layers-by zero i c = refl
client_layers-by (suc n) i c = ap (λ l. client_layer i c ∷ l) (client_layers-by n (suc i) c)

-- The way to take nonces leaves keys, base nonces and hops alone and moves one counter of one hop.
pub record Counts (next : ℕ → Circuit → Nonce × Circuit) (counter : Circuit → Map ℕ ℕ)
    : Type 0 where
  pub keys : (i j : ℕ) (c : Circuit) → hop_key j (next i c).1 ≡ hop_key j c
  pub bases : (i j : ℕ) (c : Circuit) → hop_base_nonce j (next i c).1 ≡ hop_base_nonce j c
  pub hops : (i : ℕ) (c : Circuit) → (next i c).1.hops ≡ c.hops
  pub self :
      (i : ℕ) (c : Circuit) → at_hop 0 (counter (next i c).1) i ≡ increment (at_hop 0 (counter c) i)
  pub others :
      (i j : ℕ) (c : Circuit) → j ≢ i → at_hop 0 (counter (next i c).1) j ≡ at_hop 0 (counter c) j

pub data-Counts : Counts hop_data_nonce (λ c. c.data_counter)
unfolding hop_data_nonce hop_key hop_base_nonce
data-Counts = record {
  keys = λ i j c. refl;
  bases = λ i j c. refl;
  hops = λ i c. refl;
  self = λ i c. at_hop-bump_self i c.data_counter;
  others = λ i j c ne. at_hop-bump_ne i j c.data_counter ne;
}

pub upstream-Counts : Counts hop_upstream_data_nonce (λ c. c.upstream_data_counter)
unfolding hop_upstream_data_nonce hop_key hop_base_nonce
upstream-Counts = record {
  keys = λ i j c. refl;
  bases = λ i j c. refl;
  hops = λ i c. refl;
  self = λ i c. at_hop-bump_self i c.upstream_data_counter;
  others = λ i j c ne. at_hop-bump_ne i j c.upstream_data_counter ne;
}

pub begin-Counts : Counts hop_begin_nonce (λ c. c.begin_counter)
unfolding hop_begin_nonce hop_key hop_base_nonce
begin-Counts = record {
  keys = λ i j c. refl;
  bases = λ i j c. refl;
  hops = λ i c. refl;
  self = λ i c. at_hop-bump_self i c.begin_counter;
  others = λ i j c ne. at_hop-bump_ne i j c.begin_counter ne;
}

module _ (next : ℕ → Circuit → Nonce × Circuit) (counter : Circuit → Map ℕ ℕ)
    (counts : Counts next counter) where
  abbrev layer : ℕ → Circuit → Layer
  layer i c = record {
    key = hop_key i c;
    base_nonce = hop_base_nonce i c;
    counter = at_hop 0 (counter c) i;
  }

  layer_ne : (i j : ℕ) (c : Circuit) → j ≢ i → layer j (next i c).1 ≡ layer j c
  layer_ne i j c ne = cc (counts.keys i j c, counts.bases i j c, counts.others i j c ne)

  layer_self : (i : ℕ) (c : Circuit) → layer i (next i c).1 ≡ counted_layer (layer i c)
  layer_self i c = cc (counts.keys i i c, counts.bases i i c, counts.self i c)

  -- The loop takes the nonces of the hops from `i` on and leaves those before alone.
  hop_nonces-before :
      (n i j : ℕ) (c : Circuit) → j < i → layer j (hop_nonces next n i c).1 ≡ layer j c
  unfolding hop_nonces
  hop_nonces-before zero i j c h = refl
  hop_nonces-before (suc n) i j c h =
      hop_nonces-before n (suc i) j (next i c).1 (omega arith)
      ∙ layer_ne i j c (λ e. omega (arith, e, h))

  layers_by-next :
      (n i j : ℕ) (c : Circuit)
      → i < j
      → layers_by counter n j (next i c).1 ≡ layers_by counter n j c
  layers_by-next zero i j c h = refl
  layers_by-next (suc n) i j c h =
      ap₂ (λ a b. a ∷ b) (layer_ne i j c (λ e. omega (arith, e, h)))
        (layers_by-next n i (suc j) c (omega arith))

  pub layers_by-hop_nonces :
      (n i : ℕ) (c : Circuit)
      → layers_by counter n i (hop_nonces next n i c).1
        ≡ map counted_layer (layers_by counter n i c)
  unfolding hop_nonces
  layers_by-hop_nonces zero i c = refl
  layers_by-hop_nonces (suc n) i c =
      ap₂ (λ a b. a ∷ b) (hop_nonces-before n (suc i) i (next i c).1 (omega arith) ∙ layer_self i c)
        (layers_by-hop_nonces n (suc i) (next i c).1
          ∙ ap (λ l. map counted_layer l) (layers_by-next n i (suc i) c (omega arith)))

  -- What taking one nonce keeps, taking all of them keeps.
  pub hop_nonces-keeps :
      {A : Type 0} (f : Circuit → A)
      → ((i : ℕ) (c : Circuit) → f (next i c).1 ≡ f c)
      → (n i : ℕ) (c : Circuit) → f (hop_nonces next n i c).1 ≡ f c
  unfolding hop_nonces
  hop_nonces-keeps f keeps zero i c = refl
  hop_nonces-keeps f keeps (suc n) i c = hop_nonces-keeps f keeps n (suc i) (next i c).1 ∙ keeps i c

  pub hops-hop_nonces : (n i : ℕ) (c : Circuit) → (hop_nonces next n i c).1.hops ≡ c.hops
  hops-hop_nonces n i c = hop_nonces-keeps (λ c. c.hops) counts.hops n i c

  -- The layers by another counter stay.
  layers_by-spared :
      (other : Circuit → Map ℕ ℕ)
      → ((i : ℕ) (c : Circuit) → other (next i c).1 ≡ other c)
      → (m j i : ℕ) (c : Circuit) → layers_by other m j (next i c).1 ≡ layers_by other m j c
  layers_by-spared other keeps zero j i c = refl
  layers_by-spared other keeps (suc m) j i c =
      ap₂ (λ a b. a ∷ b)
        (cc (counts.keys i j c, counts.bases i j c, ap (λ t. at_hop 0 t j) (keeps i c)))
        (layers_by-spared other keeps m (suc j) i c)

  pub layers_by-hop_nonces_other :
      (other : Circuit → Map ℕ ℕ)
      → ((i : ℕ) (c : Circuit) → other (next i c).1 ≡ other c)
      → (m n : ℕ) (c : Circuit)
      → layers_by other m 0 (hop_nonces next n 0 c).1 ≡ layers_by other m 0 c
  layers_by-hop_nonces_other other keeps m n c =
      hop_nonces-keeps (λ c. layers_by other m 0 c) (layers_by-spared other keeps m 0) n 0 c

  pub keys_by :
      (n i : ℕ) (c : Circuit) → hop_keys n i c ≡ map (λ l. l.key) (layers_by counter n i c)
  unfolding hop_keys
  keys_by zero i c = refl
  keys_by (suc n) i c = ap (λ l. hop_key i c ∷ l) (keys_by n (suc i) c)
