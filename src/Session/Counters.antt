-- ===== src/Session/Counters.antt =====
-- Taking the DATA nonces of all hops of a circuit (the loop of
-- cmd/client/usecase/send_data_usecase.go over shared/domain/entity/circuit.go).
use go_ptor.Common.{ℕ, zero, suc, ◌≡◌, refl, sym, ap, ◌∙◌, List, [], ◌∷◌, map}
use go_ptor.Nonce.{Nonce, modify_nonce_with_sequence}
use go_ptor.Client.Circuit.{Circuit, hop_key, hop_data_nonce, hop_data_nonce_peek}
use go_ptor.Client.Circuit.Hops.{peeks}
use go_ptor.Client.Use.Send.{hop_keys, hop_nonces}
use go_ptor.Relay.Use.Data.Hops.{next_data_nonce}
use go_ptor.Relay.Use.Data.Path.{Hop, state_of, keys_of, nonces_of}
use go_ptor.Session.Counts.{client_layers-by, data-Counts, layers_by-hop_nonces}
use go_ptor.Session.{Layer, counted_layer, client_layers, relay_layers}

abbrev pub nonce_of : Layer → Nonce
nonce_of l = modify_nonce_with_sequence l.base_nonce l.counter

pub client_layers-hop_nonces :
    (n i : ℕ) (c : Circuit)
    → client_layers n i (hop_nonces hop_data_nonce n i c).1
      ≡ map counted_layer (client_layers n i c)
client_layers-hop_nonces n i c =
    client_layers-by n i (hop_nonces hop_data_nonce n i c).1
    ∙ layers_by-hop_nonces hop_data_nonce (λ c. c.data_counter) data-Counts n i c
    ∙ ap (λ l. map counted_layer l) (sym (client_layers-by n i c))

pub client_keys : (n i : ℕ) (c : Circuit) → hop_keys n i c ≡ map (λ l. l.key) (client_layers n i c)
unfolding hop_keys
client_keys zero i c = refl
client_keys (suc n) i c = ap (λ l. hop_key i c ∷ l) (client_keys n (suc i) c)

pub client_nonces :
    (n i : ℕ) (c : Circuit) → peeks hop_data_nonce_peek n i c ≡ map nonce_of (client_layers n i c)
unfolding hop_data_nonce_peek
client_nonces zero i c = refl
client_nonces (suc n) i c = ap (λ l. hop_data_nonce_peek i c ∷ l) (client_nonces n (suc i) c)

pub relay_keys :
    (hs : List Hop) (last : Hop) → keys_of hs last ≡ map (λ l. l.key) (relay_layers hs last)
relay_keys [] last = refl
relay_keys (h ∷ hs) last = ap (λ l. (state_of h).key ∷ l) (relay_keys hs last)

pub relay_nonces :
    (hs : List Hop) (last : Hop) → nonces_of hs last ≡ map nonce_of (relay_layers hs last)
relay_nonces [] last = refl
relay_nonces (h ∷ hs) last = ap (λ l. next_data_nonce (state_of h) ∷ l) (relay_nonces hs last)
