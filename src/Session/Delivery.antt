-- ===== src/Session/Delivery.antt =====
-- A message from the client to the end of its circuit: cmd/client/usecase/send_data_usecase.go, and
-- cmd/relay/usecase/handle_data_usecase.go at every relay.
use go_ptor.Common.{ℕ, ◌≡◌, ◌≢◌, refl, ap, ap₂, ◌∙◌, List, [], ◌∷◌, map, All, some, false, ==-refl}
use go_ptor.Value.Circuit.{CircuitId}
use go_ptor.Value.Command.{cmd_data}
use go_ptor.Cell.{Bytes}
use go_ptor.Crypto.{IsAead}
use go_ptor.Crypto.Onion.{IsKey}
use go_ptor.Payload.{RoundTrips}
use go_ptor.Wire.Reliable.{IsReliable}
use go_ptor.Relay.ConnState.{ConnState, mark_served}
use go_ptor.Relay.World.{World, Address, Services}
use go_ptor.Relay.Use.{ensure_serve_down, ensure_serve_down-keeps}
use go_ptor.Relay.Use.Begin.{cell_of}
use go_ptor.Relay.Use.Data.{data_cell, data_opened}
use go_ptor.Relay.Use.Data.Hops.{
  next_data_nonce, data_payload, counted, counted_world, data_cell_opened, data_forward-eq,
  data_cell-last,
}
use go_ptor.Relay.Use.Data.Path.{Hop, keys_of, layered, Ready}
use go_ptor.Session.{counted_layer, relay_layer, relay_layers}

counted_world-layer :
    (st : Address) (w : World)
    → relay_layer ((counted_world st w).states st) ≡ counted_layer (relay_layer (w.states st))
counted_world-layer st w = rw (==-refl st) refl

module _ (v : Services) (laws : IsAead v.aead) (codec : RoundTrips v.gob.content) where
  open v use {env, aead, gob}

  -- What a middle relay's states are after a DATA cell is what serving the next hop leaves.
  data_cell-states :
      (st : Address) (cid : CircuitId) (sid d : ℕ) (x payload out : Bytes) (w : World)
      → sid ≢ 0
      → IsKey (w.states st).key
      → (w.states st).hidden ≡ false
      → (w.states st).down ≡ some d
      → gob.content.gob_encode
          (data_payload sid (aead.gcm_seal (w.states st).key (next_data_nonce (w.states st)) x))
        ≡ some payload
      → gob.content.gob_encode (data_payload sid x) ≡ some out
      → (data_cell v st cid (cell_of cmd_data payload) w).1.states
        ≡ (ensure_serve_down st (counted_world st w)).1.states
  unfolding data_opened
  data_cell-states st cid sid d x payload out w ne key visible there coded recoded =
      ap (λ r. r.1.states)
        (data_cell_opened v laws codec st cid sid x payload w ne key coded
          ∙ ap₂ (λ b c. data_opened v st cid sid x (counted (w.states st)) b c (counted_world st w))
              visible there
          ∙ data_forward-eq v laws codec st cid sid x out (some d) (counted_world st w) recoded)

  module _ (cid : CircuitId) (sid c : ℕ) (wire : Bytes → Bytes) (x : Bytes) where
    -- The relays once each has handled what the one before it sent.
    abbrev pub handled_by : Hop → Bytes → Hop
    handled_by h enc = record h {
      world = (data_cell v h.st cid (cell_of cmd_data (wire enc)) h.world).1;
    }

    abbrev pub moved : List Hop → Hop → List Hop
    moved [] last = []
    moved (h ∷ hs) last = handled_by h (layered v laws codec (h ∷ hs) last x) ∷ moved hs last

    abbrev pub moved_last : Hop → Hop
    moved_last last = handled_by last (layered v laws codec [] last x)

    pub relay_layers-moved :
        IsReliable env
        → ((b : Bytes) → gob.content.gob_encode (data_payload sid b) ≡ some (wire b))
        → sid ≢ 0
        → (hs : List Hop) (last : Hop) → Ready v laws codec cid sid c wire x hs last
        → relay_layers (moved hs last) (moved_last last) ≡ map counted_layer (relay_layers hs last)
    unfolding mark_served
    relay_layers-moved net coded ne [] last (key, goes) =
        ap (λ (r : World). relay_layer (r.states last.st) ∷ [])
          (ap (λ r. r.1)
            (data_cell-last v laws codec net last.st cid sid c x
              (wire (layered v laws codec [] last x)) last.world ne key goes
              (coded (layered v laws codec [] last x))))
        ∙ ap (λ l. l ∷ []) (counted_world-layer last.st last.world)
    relay_layers-moved net coded ne (h ∷ hs) last (key, visible, down, fits, ready) =
        let inner = layered v laws codec hs last x in
        ap₂ (λ a b. a ∷ b)
          (ap (λ (f : Address → ConnState). relay_layer (f h.st))
              (data_cell-states h.st cid sid h.next inner
                (wire (layered v laws codec (h ∷ hs) last x)) (wire inner) h.world ne key visible
                down (coded (layered v laws codec (h ∷ hs) last x)) (coded inner))
            ∙ ensure_serve_down-keeps (λ s. relay_layer s) (λ s. refl) h.st
                (counted_world h.st h.world)
            ∙ counted_world-layer h.st h.world)
          (relay_layers-moved net coded ne hs last ready)

    pub keys_good :
        (hs : List Hop) (last : Hop)
        → Ready v laws codec cid sid c wire x hs last
        → All IsKey (keys_of hs last)
    keys_good [] last (key, goes) = (key, tt)
    keys_good (h ∷ hs) last (key, visible, down, fits, ready) = (key, keys_good hs last ready)
