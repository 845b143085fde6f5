-- ===== src/Session/Hiding.antt =====
-- What CONNECT leaves at the relays of a circuit (cmd/relay/usecase/handle_connect_usecase.go), layer
-- by layer.
use go_ptor.Common.{ℕ, ◌≡◌, refl, ap, ap₂, ◌∙◌, sym, subst, some, List, [], ◌∷◌, map, inl, String}
use go_ptor.Value.Circuit.{CircuitId}
use go_ptor.Cell.{Bytes}
use go_ptor.Crypto.{IsAead}
use go_ptor.Net.{dialed}
use go_ptor.Payload.{RoundTrips}
use go_ptor.Relay.ConnState.{ConnState, mark_served}
use go_ptor.Relay.World.{Services}
use go_ptor.Relay.Repository.{find_address}
use go_ptor.Relay.Use.{ensure_serve_down, ensure_serve_down-keeps}
use go_ptor.Relay.Use.Begin.Hops.{begun}
use go_ptor.Relay.Use.Connect.{hidden_state}
use go_ptor.Relay.Use.Connect.Hops.{connected-state, connected-known}
use go_ptor.Relay.Use.Connect.Path.{Connected}
use go_ptor.Relay.Use.Data.Hops.{Delivers}
use go_ptor.Relay.Use.Data.Path.{Hop, state_of}
use go_ptor.Session.{Layer, counted_layer, relay_layer, relay_layers}
use go_ptor.Session.Answer.{up_layer, relay_up_layers}
use go_ptor.Session.Opening.{
  begin_layer, begun-state, layers_with, layers_with-counted, relay_layers-with,
  relay_up_layers-with,
}

module _ (v : Services) (laws : IsAead v.aead) (cid : CircuitId) (up d : ℕ) (target : String)
    (x : Bytes) where
  open v use {env}

  -- The new state of the last relay.
  Connected-last :
      (hs : List Hop) (last : Hop) (enc : Bytes) (hs' : List Hop) (last' : Hop)
      → Connected v laws cid up d target x hs last enc hs' last'
      → state_of last'
        ≡ hidden_state v (begun (state_of last)) d (env.now (dialed target ∷ last.world.history))
  Connected-last [] last enc hs' last' (sent, run, sends, none_front, there) =
      ap state_of there
      ∙ connected-state v last.st cid d (dialed target ∷ last.world.history) sent last.world
  Connected-last (h ∷ hs) last enc hs' last' (sent, out, rest, run, sends, front, opened) =
      Connected-last hs last out rest last' opened

  -- At every relay CONNECT moves the BEGIN counter on, whatever mark a relay in front has set
  -- besides, and the last one goes on with a new state.
  Connected-layers :
      (f : ConnState → Layer)
      → ((s : ConnState) → f (begun (mark_served s)) ≡ f (begun s))
      → (hs : List Hop) (last : Hop) (enc : Bytes) (hs' : List Hop) (last' : Hop)
      → ((now : ℕ) → f (hidden_state v (begun (state_of last)) d now) ≡ f (begun (state_of last)))
      → Connected v laws cid up d target x hs last enc hs' last'
      → layers_with f hs' last' ≡ layers_with (λ s. f (begun s)) hs last
  Connected-layers f keeps [] last enc hs' last' same (sent, run, sends, none_front, there) =
      ap₂ (λ l s. layers_with f l s) none_front there
      ∙ ap (λ s. f s ∷ [])
          (connected-state v last.st cid d (dialed target ∷ last.world.history) sent last.world)
      ∙ ap (λ a. a ∷ []) (same (env.now (dialed target ∷ last.world.history)))
  Connected-layers f keeps (h ∷ hs) last enc hs' last' same
        (sent, out, rest, run, sends, front, opened) =
      ap (λ l. layers_with f l last') front
      ∙ ap₂ (λ a l. a ∷ l)
          (begun-state f h.st (ensure_serve_down h.st h.world).1
            ∙ ensure_serve_down-keeps (λ s. f (begun s)) keeps h.st h.world)
          (Connected-layers f keeps hs last out rest last' same opened)

  pub Connected-begin :
      (hs : List Hop) (last : Hop) (enc : Bytes) (hs' : List Hop) (last' : Hop)
      → Connected v laws cid up d target x hs last enc hs' last'
      → layers_with (λ s. begin_layer s) hs' last'
        ≡ map counted_layer (layers_with (λ s. begin_layer s) hs last)
  unfolding mark_served hidden_state
  Connected-begin hs last enc hs' last' o =
      Connected-layers (λ s. begin_layer s) (λ s. refl) hs last enc hs' last' (λ now. refl) o
      ∙ layers_with-counted hs last

  pub Connected-data :
      (hs : List Hop) (last : Hop) (enc : Bytes) (hs' : List Hop) (last' : Hop)
      → Connected v laws cid up d target x hs last enc hs' last'
      → relay_layers hs' last' ≡ relay_layers hs last
  unfolding mark_served hidden_state
  Connected-data hs last enc hs' last' o =
      relay_layers-with hs' last'
      ∙ Connected-layers (λ s. relay_layer s) (λ s. refl) hs last enc hs' last' (λ now. refl) o
      ∙ sym (relay_layers-with hs last)

  -- The new state counts data towards the client from 0 again.
  pub Connected-up :
      (hs : List Hop) (last : Hop) (enc : Bytes) (hs' : List Hop) (last' : Hop)
      → (state_of last).upstream_data_counter ≡ 0
      → Connected v laws cid up d target x hs last enc hs' last'
      → relay_up_layers hs' last' ≡ relay_up_layers hs last
  unfolding mark_served hidden_state
  Connected-up hs last enc hs' last' unused o =
      relay_up_layers-with hs' last'
      ∙ Connected-layers (λ s. up_layer s) (λ s. refl) hs last enc hs' last'
          (λ now.
            ap
              (λ n. record {
                key = (state_of last).key;
                base_nonce = (state_of last).base_nonce;
                counter = n;
              })
              (sym unused))
          o
      ∙ sym (relay_up_layers-with hs last)

  -- DATA for any stream goes to the connection that was dialled.
  pub Connected-Delivers :
      (codec : RoundTrips v.gob.content)
      → (hs : List Hop) (last : Hop) (enc : Bytes) (hs' : List Hop) (last' : Hop) (sid : ℕ)
      → Connected v laws cid up d target x hs last enc hs' last'
      → Delivers v laws codec cid sid (state_of last') last'.world d
  unfolding hidden_state
  Connected-Delivers codec hs last enc hs' last' sid o =
      let new = Connected-last hs last enc hs' last' o in
      inl (ap (λ s. s.hidden) new, ap (λ s. s.down) new)

  -- The circuit is found at the new state.
  pub Connected-known :
      (hs : List Hop) (last : Hop) (enc : Bytes) (hs' : List Hop) (last' : Hop)
      → Connected v laws cid up d target x hs last enc hs' last'
      → find_address cid last'.world ≡ some last'.st
  Connected-known [] last enc hs' last' (sent, run, sends, none_front, there) =
      subst (λ l. find_address cid l.world ≡ some l.st) (sym there)
        (connected-known v last.st cid d (dialed target ∷ last.world.history) sent last.world)
  Connected-known (h ∷ hs) last enc hs' last' (sent, out, rest, run, sends, front, opened) =
      Connected-known hs last out rest last' opened
