-- ===== src/Session.antt =====
-- The client and the relays of a circuit together: the per-hop keys, base nonces and DATA counters of
-- shared/domain/entity/circuit.go beside those of shared/domain/entity/conn_state.go.
pub mod Counts
pub mod Counters
pub mod Delivery
pub mod EndToEnd
pub mod Answer
pub mod ToClient
pub mod Handshake
pub mod Building
pub mod Fresh
pub mod Built
pub mod Opening
pub mod Kinds
pub mod Begun
pub mod Carrying
pub mod Carried
pub mod Hiding
pub mod Connecting
pub mod Heard
pub mod OutOfStep
use go_ptor.Common.{ℕ, zero, suc, ◌≡◌, List, [], ◌∷◌, length}
use go_ptor.Common.Map.{Map}
use go_ptor.Nonce.{Nonce, increment}
use go_ptor.Crypto.{Key}
use go_ptor.Client.Circuit.{Circuit, hop_key, hop_base_nonce, at_hop}
use go_ptor.Relay.ConnState.{ConnState}
use go_ptor.Relay.Use.Data.Path.{Hop, state_of}

-- What both ends of a layer must agree on.
pub record Layer : Type 0 where
  pub key : Key
  pub base_nonce : Nonce
  pub counter : ℕ

abbrev pub counted_layer : Layer → Layer
counted_layer l = record l { counter = increment l.counter }

abbrev pub client_layer : ℕ → Circuit → Layer
client_layer i c = record {
  key = hop_key i c;
  base_nonce = hop_base_nonce i c;
  counter = at_hop 0 c.data_counter i;
}

-- The `n` hops from `i` on, by any of the counters.
abbrev pub layers_by : (Circuit → Map ℕ ℕ) → ℕ → ℕ → Circuit → List Layer
layers_by counter zero i c = []
layers_by counter (suc n) i c =
    record { key = hop_key i c; base_nonce = hop_base_nonce i c; counter = at_hop 0 (counter c) i }
    ∷ layers_by counter n (suc i) c

abbrev pub relay_layer : ConnState → Layer
relay_layer s = record { key = s.key; base_nonce = s.base_nonce; counter = s.data_counter }

-- The `n` hops from `i` on.
abbrev pub client_layers : ℕ → ℕ → Circuit → List Layer
client_layers zero i c = []
client_layers (suc n) i c = client_layer i c ∷ client_layers n (suc i) c

abbrev pub relay_layers : List Hop → Hop → List Layer
relay_layers [] last = relay_layer (state_of last) ∷ []
relay_layers (h ∷ hs) last = relay_layer (state_of h) ∷ relay_layers hs last

-- The client's circuit and the relays on its way agree on every layer.
abbrev pub InStep : Circuit → List Hop → Hop → Type 0
InStep c hs last = client_layers (length c.hops) 0 c ≡ relay_layers hs last
