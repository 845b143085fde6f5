-- ===== src/Session/Opening.antt =====
-- What BEGIN leaves at the relays of a circuit (cmd/relay/usecase/handle_begin_usecase.go), layer by
-- layer.
use go_ptor.Common.{
  ℕ, ◌≡◌, refl, ap, ap₂, ◌∙◌, sym, List, [], ◌∷◌, map, inr, ==-refl, String, subst,
}
use go_ptor.Value.Circuit.{CircuitId}
use go_ptor.Cell.{Bytes}
use go_ptor.Crypto.{IsAead}
use go_ptor.Payload.{RoundTrips}
use go_ptor.Relay.ConnState.{ConnState, mark_served}
use go_ptor.Relay.World.{World, Address, Services}
use go_ptor.Relay.Repository.{add_stream}
use go_ptor.Relay.Use.{ensure_serve_down-keeps}
use go_ptor.Relay.Use.Begin.Hops.{next_begin_nonce, begun, begun_world, exited-stream}
use go_ptor.Relay.Use.Begin.Path.{begin_nonces_of, CanBegin, Opened}
use go_ptor.Relay.Use.Data.Hops.{Delivers}
use go_ptor.Relay.Use.Data.Path.{Hop, state_of, keys_of}
use go_ptor.Session.{Layer, counted_layer, relay_layer, relay_layers}
use go_ptor.Session.Answer.{up_layer, relay_up_layers}
use go_ptor.Session.Counters.{nonce_of}

abbrev pub begin_layer : ConnState → Layer
begin_layer s = record { key = s.key; base_nonce = s.base_nonce; counter = s.begin_counter }

-- Layers of one kind, of the relays in front and of the last one.
abbrev pub layers_with : (ConnState → Layer) → List Hop → Hop → List Layer
layers_with f [] last = f (state_of last) ∷ []
layers_with f (h ∷ hs) last = f (state_of h) ∷ layers_with f hs last

pub relay_layers-with :
    (hs : List Hop) (last : Hop) → relay_layers hs last ≡ layers_with (λ s. relay_layer s) hs last
relay_layers-with [] last = refl
relay_layers-with (h ∷ hs) last = ap (λ l. relay_layer (state_of h) ∷ l) (relay_layers-with hs last)

pub relay_up_layers-with :
    (hs : List Hop) (last : Hop) → relay_up_layers hs last ≡ layers_with (λ s. up_layer s) hs last
relay_up_layers-with [] last = refl
relay_up_layers-with (h ∷ hs) last =
    ap (λ l. up_layer (state_of h) ∷ l) (relay_up_layers-with hs last)

pub layers_with-counted :
    (hs : List Hop) (last : Hop)
    → layers_with (λ s. counted_layer (begin_layer s)) hs last
      ≡ map counted_layer (layers_with (λ s. begin_layer s) hs last)
layers_with-counted [] last = refl
layers_with-counted (h ∷ hs) last =
    ap (λ l. counted_layer (begin_layer (state_of h)) ∷ l) (layers_with-counted hs last)

pub relay_begin_keys :
    (hs : List Hop) (last : Hop)
    → keys_of hs last ≡ map (λ l. l.key) (layers_with (λ s. begin_layer s) hs last)
relay_begin_keys [] last = refl
relay_begin_keys (h ∷ hs) last = ap (λ l. (state_of h).key ∷ l) (relay_begin_keys hs last)

pub relay_begin_nonces :
    (hs : List Hop) (last : Hop)
    → begin_nonces_of hs last ≡ map nonce_of (layers_with (λ s. begin_layer s) hs last)
relay_begin_nonces [] last = refl
relay_begin_nonces (h ∷ hs) last =
    ap (λ l. next_begin_nonce (state_of h) ∷ l) (relay_begin_nonces hs last)

pub begun-state :
    {A : Type 0} (f : ConnState → A) (st : Address) (w : World)
    → f ((begun_world st w).states st) ≡ f (begun (w.states st))
begun-state f st w = rw (==-refl st) refl

module _ (v : Services) (laws : IsAead v.aead) (cid : CircuitId) (sid up d : ℕ) (target : String)
    (x : Bytes) where
  -- At every relay BEGIN moves the BEGIN counter on, whatever mark the relay has set besides.
  Opened-layers :
      (f : ConnState → Layer)
      → ((s : ConnState) → f (mark_served s) ≡ f s)
      → (hs : List Hop) (last : Hop) (enc : Bytes) (hs' : List Hop) (last' : Hop)
      → Opened v laws cid sid up d target x hs last enc hs' last'
      → layers_with f hs' last' ≡ layers_with (λ s. f (begun s)) hs last
  unfolding add_stream
  Opened-layers f keeps [] last enc hs' last' (sent, run, sends, none_front, there) =
      ap₂ (λ l e. layers_with f l e) none_front there
      ∙ ap (λ a. a ∷ []) (begun-state f last.st last.world)
  Opened-layers f keeps (h ∷ hs) last enc hs' last' (sent, out, rest, run, sends, front, opened) =
      ap (λ l. layers_with f l last') front
      ∙ ap₂ (λ a l. a ∷ l)
          (ensure_serve_down-keeps f keeps h.st (begun_world h.st h.world)
            ∙ begun-state f h.st h.world)
          (Opened-layers f keeps hs last out rest last' opened)

  pub Opened-begin :
      (hs : List Hop) (last : Hop) (enc : Bytes) (hs' : List Hop) (last' : Hop)
      → Opened v laws cid sid up d target x hs last enc hs' last'
      → layers_with (λ s. begin_layer s) hs' last'
        ≡ map counted_layer (layers_with (λ s. begin_layer s) hs last)
  unfolding mark_served
  Opened-begin hs last enc hs' last' o =
      Opened-layers (λ s. begin_layer s) (λ s. refl) hs last enc hs' last' o
      ∙ layers_with-counted hs last

  -- The counters of the other kinds stay.
  pub Opened-data :
      (hs : List Hop) (last : Hop) (enc : Bytes) (hs' : List Hop) (last' : Hop)
      → Opened v laws cid sid up d target x hs last enc hs' last'
      → relay_layers hs' last' ≡ relay_layers hs last
  unfolding mark_served
  Opened-data hs last enc hs' last' o =
      relay_layers-with hs' last'
      ∙ Opened-layers (λ s. relay_layer s) (λ s. refl) hs last enc hs' last' o
      ∙ sym (relay_layers-with hs last)

  pub Opened-up :
      (hs : List Hop) (last : Hop) (enc : Bytes) (hs' : List Hop) (last' : Hop)
      → Opened v laws cid sid up d target x hs last enc hs' last'
      → relay_up_layers hs' last' ≡ relay_up_layers hs last
  unfolding mark_served
  Opened-up hs last enc hs' last' o =
      relay_up_layers-with hs' last'
      ∙ Opened-layers (λ s. up_layer s) (λ s. refl) hs last enc hs' last' o
      ∙ sym (relay_up_layers-with hs last)

  -- DATA for the stream goes to the connection that the exit has dialled.
  pub Opened-Delivers :
      (codec : RoundTrips v.gob.content)
      → (hs : List Hop) (last : Hop) (enc : Bytes) (hs' : List Hop) (last' : Hop)
      → CanBegin v laws cid sid up d target x hs last
      → Opened v laws cid sid up d target x hs last enc hs' last'
      → Delivers v laws codec cid sid (state_of last') last'.world d
  unfolding add_stream
  Opened-Delivers codec [] last enc hs' last' (key, visible, end, wired, there)
        (sent, run, sends, front, same) =
      subst (λ l. Delivers v laws codec cid sid (state_of l) l.world d) (sym same)
        (inr (
          begun-state (λ s. s.hidden) last.st last.world ∙ visible,
          begun-state (λ s. s.down) last.st last.world ∙ end,
          exited-stream last.st cid sid d sent last.world,
        ))
  Opened-Delivers codec (h ∷ hs) last enc hs' last' (key, visible, down, fits, ready)
        (sent, out, rest, run, sends, front, opened) =
      Opened-Delivers codec hs last out rest last' ready opened
