-- ===== src/Session/Carrying.antt =====
-- What BEGIN leaves at the relays of a circuit for the data that follows
-- (cmd/relay/usecase/handle_begin_usecase.go and handle_data_usecase.go).
use go_ptor.Common.{ℕ, ◌≡◌, ◌≤◌, refl, ap, ap₂, ◌∙◌, sym, subst, List, [], ◌∷◌, length, String}
use go_ptor.Value.Circuit.{CircuitId}
use go_ptor.Cell.{Bytes, max_payload_size}
use go_ptor.Crypto.{IsAead}
use go_ptor.Payload.{RoundTrips}
use go_ptor.Relay.ConnState.{ConnState, mark_served}
use go_ptor.Relay.World.{Services}
use go_ptor.Relay.Repository.{add_stream}
use go_ptor.Relay.Use.{ensure_serve_down-keeps}
use go_ptor.Relay.Use.Begin.Hops.{begun_world}
use go_ptor.Relay.Use.Begin.Path.{CanBegin, Opened}
use go_ptor.Relay.Use.Data.Hops.{next_data_nonce}
use go_ptor.Relay.Use.Data.Path.{Hop, state_of, layered, Ready}
use go_ptor.Session.Opening.{begun-state, Opened-Delivers}

module _ (v : Services) (laws : IsAead v.aead) (codec : RoundTrips v.gob.content) where
  -- Every layer that a relay in front forwards fits in a cell.
  abbrev pub LayersFit : (Bytes → Bytes) → Bytes → List Hop → Hop → Type 0
  LayersFit wire y [] last = Unit {0}
  LayersFit wire y (h ∷ hs) last =
      (length (wire (layered v laws codec hs last y)) ≤ max_payload_size) × LayersFit wire y hs last

  module _ (cid : CircuitId) (sid up d : ℕ) (target : String) (x : Bytes) where
    -- BEGIN leaves the onion of what comes next as it is.
    pub Opened-layered :
        (y : Bytes) (hs : List Hop) (last : Hop) (enc : Bytes) (hs' : List Hop) (last' : Hop)
        → Opened v laws cid sid up d target x hs last enc hs' last'
        → layered v laws codec hs' last' y ≡ layered v laws codec hs last y
    unfolding add_stream mark_served
    Opened-layered y [] last enc hs' last' (sent, run, sends, front, there) =
        ap₂ (λ l e. layered v laws codec l e y) front there
        ∙ begun-state (λ s. v.aead.gcm_seal s.key (next_data_nonce s) y) last.st last.world
    Opened-layered y (h ∷ hs) last enc hs' last' (sent, out, rest, run, sends, front, opened) =
        let seal : ConnState → Bytes → Bytes = λ s b. v.aead.gcm_seal s.key (next_data_nonce s) b in
        ap (λ l. layered v laws codec l last' y) front
        ∙ ensure_serve_down-keeps (λ s. seal s (layered v laws codec rest last' y)) (λ s. refl) h.st
            (begun_world h.st h.world)
        ∙ begun-state (λ s. seal s (layered v laws codec rest last' y)) h.st h.world
        ∙ ap (λ b. seal (state_of h) b) (Opened-layered y hs last out rest last' opened)

    -- After BEGIN the relays are ready for data that fits.
    pub Opened-Ready :
        (wire : Bytes → Bytes) (y : Bytes) (hs : List Hop) (last : Hop) (enc : Bytes)
        (hs' : List Hop) (last' : Hop)
        → CanBegin v laws cid sid up d target x hs last
        → LayersFit wire y hs last
        → Opened v laws cid sid up d target x hs last enc hs' last'
        → Ready v laws codec cid sid d wire y hs' last'
    unfolding add_stream mark_served
    Opened-Ready wire y [] last enc hs' last' ready fits o =
        let (key, visible, end, wired, there) = ready in
        let (sent, run, sends, front, same) = o in
        subst (λ l. Ready v laws codec cid sid d wire y l last') (sym front)
          (
            ap (λ l. length (state_of l).key) same
                ∙ begun-state (λ s. length s.key) last.st last.world
                ∙ key,
            Opened-Delivers v laws cid sid up d target x codec [] last enc hs' last' ready o,
          )
    Opened-Ready wire y (h ∷ hs) last enc hs' last' (key, visible, down, small, ready) (fit, fits)
          (sent, out, rest, run, sends, front, opened) =
        subst (λ l. Ready v laws codec cid sid d wire y l last') (sym front)
          (
            ensure_serve_down-keeps (λ s. length s.key) (λ s. refl) h.st (begun_world h.st h.world)
                ∙ begun-state (λ s. length s.key) h.st h.world
                ∙ key,
            ensure_serve_down-keeps (λ s. s.hidden) (λ s. refl) h.st (begun_world h.st h.world)
                ∙ begun-state (λ s. s.hidden) h.st h.world
                ∙ visible,
            ensure_serve_down-keeps (λ s. s.down) (λ s. refl) h.st (begun_world h.st h.world)
                ∙ begun-state (λ s. s.down) h.st h.world
                ∙ down,
            subst (λ b. length (wire b) ≤ max_payload_size)
                (sym (Opened-layered y hs last out rest last' opened)) fit,
            Opened-Ready wire y hs last out rest last' ready fits opened,
          )
