-- ===== src/Session/Fresh.antt =====
-- The layers of a circuit that NewCircuit of shared/domain/entity/circuit.go has just made.
use go_ptor.Common.{
  ℕ, zero, suc, ◌<◌, ◌≡◌, refl, ap, ap₂, ◌∙◌, arith, List, [], ◌∷◌, length, replicate, ℕ_discrete,
  none, some, sym,
}
use go_ptor.Common.Map.{Map, lookup-insert_ne, lookup-insert_self}
use go_ptor.Crypto.{Key, zero_key}
use go_ptor.Net.{Conn}
use go_ptor.Nonce.{Nonce, zero_nonce}
use go_ptor.Cell.{Bytes}
use go_ptor.Common.Result.{ok}
use go_ptor.Value.Circuit.{CircuitId}
use go_ptor.Value.Relay.{RelayId}
use go_ptor.Client.Circuit.{
  Circuit, at_hop, numbered, hop_key, hop_base_nonce, new_circuit, set_conn, conn,
}
use go_ptor.Session.{Layer, client_layers, layers_by}
use go_ptor.Session.Counts.{client_layers-by}
use go_ptor.Session.Answer.{client_up_layers}

module _ {A : Type 0} (z : A) where
  numbered-before :
      (i j : ℕ) (xs : List A) (m : Map ℕ A) → j < i → at_hop z (numbered i xs m) j ≡ at_hop z m j
  unfolding numbered at_hop
  numbered-before i j [] m h = refl
  numbered-before i j (x ∷ xs) m h =
      numbered-before (suc i) j xs _ (omega arith)
      ∙ rw (lookup-insert_ne ℕ_discrete j i x m (λ e. omega (arith, e, h))) refl

  numbered-head :
      (i : ℕ) (x : A) (xs : List A) (m : Map ℕ A) → at_hop z (numbered i (x ∷ xs) m) i ≡ x
  unfolding numbered at_hop
  numbered-head i x xs m =
      numbered-before (suc i) i xs _ (omega arith) ∙ rw (lookup-insert_self ℕ_discrete i x m) refl

-- Layers that have carried nothing yet.
abbrev pub fresh_layers : List Key → List Nonce → List Layer
fresh_layers (k ∷ ks) (n ∷ ns) =
    record { key = k; base_nonce = n; counter = 0 } ∷ fresh_layers ks ns
fresh_layers _ _ = []

layers_by-fresh :
    (counter : Circuit → Map ℕ ℕ) (c : Circuit) (i : ℕ) (ks : List Key) (ns : List Nonce)
    (mk : Map ℕ Key) (mn : Map ℕ Nonce) (mc : Map ℕ ℕ)
    → length ks ≡ length ns
    → c.keys ≡ numbered i ks mk
    → c.base_nonces ≡ numbered i ns mn
    → counter c ≡ numbered i (replicate (length ks) 0) mc
    → layers_by counter (length ks) i c ≡ fresh_layers ks ns
unfolding numbered hop_key hop_base_nonce
layers_by-fresh counter c i [] [] mk mn mc size keyed based counted = refl
layers_by-fresh counter c i [] (n ∷ ns) mk mn mc size keyed based counted = absurd (omega arith)
layers_by-fresh counter c i (k ∷ ks) [] mk mn mc size keyed based counted = absurd (omega arith)
layers_by-fresh counter c i (k ∷ ks) (n ∷ ns) mk mn mc size keyed based counted =
    let key : at_hop zero_key c.keys i ≡ k = rw keyed (numbered-head zero_key i k ks mk) in
    let base : at_hop zero_nonce c.base_nonces i ≡ n =
      rw based (numbered-head zero_nonce i n ns mn) in
    let count : at_hop 0 (counter c) i ≡ 0 =
      rw counted (numbered-head 0 i 0 (replicate (length ks) 0) mc) in
    ap₂ (λ a b. a ∷ b) (cc (key, base, count))
      (layers_by-fresh counter c (suc i) ks ns _ _ _ (omega arith) keyed based counted)

pub client_up_layers-by :
    (n i : ℕ) (c : Circuit)
    → client_up_layers n i c ≡ layers_by (λ c. c.upstream_data_counter) n i c
client_up_layers-by zero i c = refl
client_up_layers-by (suc n) i c =
    ap
      (λ l.
        record {
          key = hop_key i c;
          base_nonce = hop_base_nonce i c;
          counter = at_hop 0 c.upstream_data_counter i;
        }
        ∷ l)
      (client_up_layers-by n (suc i) c)

-- SetConn on a circuit with a connection slot for its first hop.
set_conn-first :
    (c : Circuit) (d : ℕ) (cs : List Conn)
    → c.conns ≡ none ∷ cs
    → set_conn 0 (some d) c ≡ record c { conns = some d ∷ cs }
unfolding set_conn
set_conn-first c d cs e = ground arith

-- A circuit made of these keys and nonces, with connection `d` to the first relay.
pub new_circuit-fresh :
    (id : CircuitId) (r : RelayId) (rs : List RelayId) (ks : List Key) (ns : List Nonce)
    (priv : Bytes) (d : ℕ)
    → length ks ≡ length (r ∷ rs)
    → length ns ≡ length (r ∷ rs)
    → (c wired : Circuit) × (new_circuit id (r ∷ rs) ks ns (some priv) ≡ ok c)
      × (set_conn 0 (some d) c ≡ wired)
      × (layers_by (λ c. c.begin_counter) (length (r ∷ rs)) 0 wired ≡ fresh_layers ks ns)
      × (client_layers (length (r ∷ rs)) 0 wired ≡ fresh_layers ks ns)
      × (client_up_layers (length (r ∷ rs)) 0 wired ≡ fresh_layers ks ns)
      × (wired.id ≡ id)
      × (wired.hops ≡ r ∷ rs)
      × (conn 0 wired ≡ some d)
unfolding new_circuit conn
new_circuit-fresh id r rs ks ns priv d size size' =
    let zeros = replicate (length ks) 0 in
    let c : Circuit = record {
      id = id;
      hops = r ∷ rs;
      keys = numbered 0 ks [];
      base_nonces = numbered 0 ns [];
      begin_counter = numbered 0 zeros [];
      data_counter = numbered 0 zeros [];
      upstream_data_counter = numbered 0 zeros [];
      priv = some priv;
      conns = replicate (length (r ∷ rs)) none;
      stream = [];
    } in
    let wired : Circuit = record c { conns = some d ∷ replicate (length rs) none } in
    (
      c,
      wired,
      ground (arith, size, size'),
      set_conn-first c d (replicate (length rs) none) refl,
      ap (λ m. layers_by (λ c. c.begin_counter) m 0 wired) (sym size)
          ∙ layers_by-fresh (λ c. c.begin_counter) wired 0 ks ns [] [] [] (size ∙ sym size') refl
              refl refl,
      ap (λ m. client_layers m 0 wired) (sym size)
          ∙ client_layers-by (length ks) 0 wired
          ∙ layers_by-fresh (λ c. c.data_counter) wired 0 ks ns [] [] [] (size ∙ sym size') refl
              refl refl,
      ap (λ m. client_up_layers m 0 wired) (sym size)
          ∙ client_up_layers-by (length ks) 0 wired
          ∙ layers_by-fresh (λ c. c.upstream_data_counter) wired 0 ks ns [] [] [] (size ∙ sym size')
              refl refl refl,
      refl,
      refl,
      refl,
    )
