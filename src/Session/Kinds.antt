-- ===== src/Session/Kinds.antt =====
-- Client and relays in step for BEGIN, for DATA and for data towards the client: the counters of
-- shared/domain/entity/circuit.go beside those of shared/domain/entity/conn_state.go.
use go_ptor.Common.{ℕ, zero, suc, ◌≡◌, refl, sym, ap, ◌∙◌, List, ◌∷◌, map, length, String}
use go_ptor.Value.Circuit.{CircuitId}
use go_ptor.Cell.{Bytes}
use go_ptor.Crypto.{IsAead}
use go_ptor.Relay.Use.Begin.Path.{begin_nonces_of, Opened}
use go_ptor.Relay.Use.Data.Path.{Hop, keys_of}
use go_ptor.Client.Circuit.{Circuit, hop_begin_nonce, hop_begin_nonce_peek}
use go_ptor.Client.Circuit.Hops.{peeks}
use go_ptor.Client.Use.Send.{hop_keys, hop_nonces}
use go_ptor.Session.{Layer, counted_layer, layers_by, client_layers, relay_layers, InStep}
use go_ptor.Session.Answer.{InStepUp, client_up_layers, relay_up_layers}
use go_ptor.Session.Counters.{nonce_of}
use go_ptor.Session.Counts.{
  begin-Counts, layers_by-hop_nonces, layers_by-hop_nonces_other, hop_nonces-keeps, hops-hop_nonces,
  keys_by, client_layers-by,
}
use go_ptor.Session.Fresh.{client_up_layers-by}
use go_ptor.Relay.World.{Services as Relays}
use go_ptor.Session.Opening.{
  begin_layer, layers_with, relay_begin_keys, relay_begin_nonces, Opened-begin, Opened-data,
  Opened-up,
}

-- The client's layers for BEGIN and CONNECT.
abbrev begin_layers : ℕ → ℕ → Circuit → List Layer
begin_layers n i c = layers_by (λ c. c.begin_counter) n i c

-- Client and relays agree on every layer for BEGIN.
abbrev pub InStepBegin : Circuit → List Hop → Hop → Type 0
InStepBegin c hs last =
    layers_by (λ c. c.begin_counter) (length c.hops) 0 c ≡ layers_with (λ s. begin_layer s) hs last

begin_nonces_by :
    (n i : ℕ) (c : Circuit) → peeks hop_begin_nonce_peek n i c ≡ map nonce_of (begin_layers n i c)
unfolding hop_begin_nonce_peek
begin_nonces_by zero i c = refl
begin_nonces_by (suc n) i c = ap (λ l. hop_begin_nonce_peek i c ∷ l) (begin_nonces_by n (suc i) c)

pub same_keys :
    (c : Circuit) (hs : List Hop) (last : Hop)
    → InStepBegin c hs last
    → hop_keys (length c.hops) 0 c ≡ keys_of hs last
same_keys c hs last step =
    keys_by hop_begin_nonce (λ c. c.begin_counter) begin-Counts (length c.hops) 0 c
    ∙ ap (λ l. map (λ a. a.key) l) step
    ∙ sym (relay_begin_keys hs last)

pub same_nonces :
    (c : Circuit) (hs : List Hop) (last : Hop)
    → InStepBegin c hs last
    → peeks hop_begin_nonce_peek (length c.hops) 0 c ≡ begin_nonces_of hs last
same_nonces c hs last step =
    begin_nonces_by (length c.hops) 0 c
    ∙ ap (λ l. map nonce_of l) step
    ∙ sym (relay_begin_nonces hs last)

-- The circuit once the client has taken a BEGIN nonce from every hop.
abbrev pub begun_circuit : Circuit → Circuit
begun_circuit c = (hop_nonces hop_begin_nonce (length c.hops) 0 c).1

begun_hops : (c : Circuit) → (begun_circuit c).hops ≡ c.hops
begun_hops c =
    hops-hop_nonces hop_begin_nonce (λ c. c.begin_counter) begin-Counts (length c.hops) 0 c

begun_step :
    (c : Circuit) (hs hs' : List Hop) (last last' : Hop)
    → InStepBegin c hs last
    → layers_with (λ s. begin_layer s) hs' last'
      ≡ map counted_layer (layers_with (λ s. begin_layer s) hs last)
    → InStepBegin (begun_circuit c) hs' last'
begun_step c hs hs' last last' step moved =
    ap (λ l. begin_layers (length l) 0 (begun_circuit c)) (begun_hops c)
    ∙ layers_by-hop_nonces hop_begin_nonce (λ c. c.begin_counter) begin-Counts (length c.hops) 0 c
    ∙ ap (λ l. map counted_layer l) step
    ∙ sym moved

begun_data : (m : ℕ) (c : Circuit) → client_layers m 0 (begun_circuit c) ≡ client_layers m 0 c
unfolding hop_begin_nonce
begun_data m c =
    client_layers-by m 0 (begun_circuit c)
    ∙ layers_by-hop_nonces_other hop_begin_nonce (λ c. c.begin_counter) begin-Counts
        (λ c. c.data_counter) (λ i c. refl) m (length c.hops) c
    ∙ sym (client_layers-by m 0 c)

begun_up : (m : ℕ) (c : Circuit) → client_up_layers m 0 (begun_circuit c) ≡ client_up_layers m 0 c
unfolding hop_begin_nonce
begun_up m c =
    client_up_layers-by m 0 (begun_circuit c)
    ∙ layers_by-hop_nonces_other hop_begin_nonce (λ c. c.begin_counter) begin-Counts
        (λ c. c.upstream_data_counter) (λ i c. refl) m (length c.hops) c
    ∙ sym (client_up_layers-by m 0 c)

pub begun_kept :
    {A : Type 0} (f : Circuit → A)
    → ((i : ℕ) (c : Circuit) → f (hop_begin_nonce i c).1 ≡ f c)
    → (c : Circuit) → f (begun_circuit c) ≡ f c
begun_kept f keeps c =
    hop_nonces-keeps hop_begin_nonce (λ c. c.begin_counter) begin-Counts f keeps (length c.hops) 0 c

-- Client and relays agree for messages of every kind.
pub record InStepAll (c : Circuit) (hs : List Hop) (last : Hop) : Type 0 where
  pub begins : InStepBegin c hs last
  pub down : InStep c hs last
  pub up : InStepUp c hs last

-- What has moved the BEGIN counter of every relay, and no other, is in step with a client that has
-- taken a BEGIN nonce from every hop.
pub InStepAll-moved :
    (c : Circuit) (hs : List Hop) (last : Hop) (hs' : List Hop) (last' : Hop)
    → InStepAll c hs last
    → layers_with (λ s. begin_layer s) hs' last'
      ≡ map counted_layer (layers_with (λ s. begin_layer s) hs last)
    → relay_layers hs' last' ≡ relay_layers hs last
    → relay_up_layers hs' last' ≡ relay_up_layers hs last
    → InStepAll (begun_circuit c) hs' last'
InStepAll-moved c hs last hs' last' step begins down up = record {
  begins = begun_step c hs hs' last last' step.begins begins;
  down =
      ap (λ l. client_layers (length l) 0 (begun_circuit c)) (begun_hops c)
      ∙ begun_data (length c.hops) c
      ∙ step.down
      ∙ sym down;
  up =
      ap (λ l. client_up_layers (length l) 0 (begun_circuit c)) (begun_hops c)
      ∙ begun_up (length c.hops) c
      ∙ step.up
      ∙ sym up;
}

pub InStepAll-begun :
    (v : Relays) (laws : IsAead v.aead) (cid : CircuitId) (sid up d : ℕ) (target : String)
    (x : Bytes) (c : Circuit) (hs : List Hop) (last : Hop) (enc : Bytes) (hs' : List Hop)
    (last' : Hop)
    → InStepAll c hs last
    → Opened v laws cid sid up d target x hs last enc hs' last'
    → InStepAll (begun_circuit c) hs' last'
InStepAll-begun v laws cid sid up d target x c hs last enc hs' last' step o =
    InStepAll-moved c hs last hs' last' step
      (Opened-begin v laws cid sid up d target x hs last enc hs' last' o)
      (Opened-data v laws cid sid up d target x hs last enc hs' last' o)
      (Opened-up v laws cid sid up d target x hs last enc hs' last' o)
