-- ===== src/Session/Heard.antt =====
-- The layers once an answer has come back to the client: the counters that
-- cmd/relay/usecase/handle_data_usecase.go, handle_begin_usecase.go and
-- cmd/client/usecase/decrypt_cell_data_usecase.go have moved on by then.
use go_ptor.Common.{ℕ, ◌≡◌, ◌≢◌, refl, sym, ap, ap₂, ◌∙◌, arith, List, [], ◌∷◌, map, length}
use go_ptor.Value.Circuit.{CircuitId}
use go_ptor.Cell.{Bytes}
use go_ptor.Crypto.{IsAead}
use go_ptor.Nonce.{increment}
use go_ptor.Payload.{RoundTrips}
use go_ptor.Relay.ConnState.{ConnState}
use go_ptor.Relay.World.{Services}
use go_ptor.Relay.Use.Data.Path.{Hop, state_of}
use go_ptor.Client.Circuit.{Circuit, hop_upstream_data_nonce}
use go_ptor.Client.Use.Send.{hop_nonces}
use go_ptor.Session.{Layer, counted_layer, client_layers, relay_layers, InStep}
use go_ptor.Session.Answer.{up_layer, relay_up_layers, client_up_layers, InStepUp, Answered}
use go_ptor.Session.Counts.{
  upstream-Counts, layers_by-hop_nonces, layers_by-hop_nonces_other, hops-hop_nonces,
  client_layers-by,
}
use go_ptor.Session.Fresh.{client_up_layers-by}

-- The circuit once the client has taken an upstream nonce from every hop.
abbrev pub heard : Circuit → Circuit
heard c = (hop_nonces hop_upstream_data_nonce (length c.hops) 0 c).1

heard_hops : (c : Circuit) → (heard c).hops ≡ c.hops
heard_hops c =
    hops-hop_nonces hop_upstream_data_nonce (λ c. c.upstream_data_counter) upstream-Counts
      (length c.hops) 0 c

heard_up :
    (c : Circuit)
    → client_up_layers (length (heard c).hops) 0 (heard c)
      ≡ map counted_layer (client_up_layers (length c.hops) 0 c)
heard_up c =
    ap (λ l. client_up_layers (length l) 0 (heard c)) (heard_hops c)
    ∙ client_up_layers-by (length c.hops) 0 (heard c)
    ∙ layers_by-hop_nonces hop_upstream_data_nonce (λ c. c.upstream_data_counter) upstream-Counts
        (length c.hops) 0 c
    ∙ ap (λ l. map counted_layer l) (sym (client_up_layers-by (length c.hops) 0 c))

heard_down :
    (c : Circuit)
    → client_layers (length (heard c).hops) 0 (heard c) ≡ client_layers (length c.hops) 0 c
unfolding hop_upstream_data_nonce
heard_down c =
    ap (λ l. client_layers (length l) 0 (heard c)) (heard_hops c)
    ∙ client_layers-by (length c.hops) 0 (heard c)
    ∙ layers_by-hop_nonces_other hop_upstream_data_nonce (λ c. c.upstream_data_counter)
        upstream-Counts (λ c. c.data_counter) (λ i c. refl) (length c.hops) (length c.hops) c
    ∙ sym (client_layers-by (length c.hops) 0 c)

module _ (v : Services) (laws : IsAead v.aead) (codec : RoundTrips v.gob.content) (cid : CircuitId)
    (sid : ℕ) (wire : Bytes → Bytes) (x : Bytes) where
  Answered-up :
      (hs : List Hop) (last : Hop) (out : Bytes) (hs' : List Hop) (last' : Hop)
      → Answered v laws codec cid sid wire x hs last out hs' last'
      → relay_up_layers hs' last' ≡ map counted_layer (relay_up_layers hs last)
  Answered-up [] last out hs' last' (w', u, run, up, sends, now, front, same) =
      ap₂ (λ l e. relay_up_layers l e) front same ∙ ap (λ (s : ConnState). up_layer s ∷ []) now
  Answered-up (h ∷ hs) last out hs' last' (w', u, inner, rest, run, up, sends, now, front, o) =
      ap (λ l. relay_up_layers l last') front
      ∙ ap₂ (λ a l. a ∷ l) (ap (λ (s : ConnState). up_layer s) now)
          (Answered-up hs last inner rest last' o)

  pub InStepUp-heard :
      (c : Circuit) (hs : List Hop) (last : Hop) (out : Bytes) (hs' : List Hop) (last' : Hop)
      → InStepUp c hs last
      → Answered v laws codec cid sid wire x hs last out hs' last'
      → InStepUp (heard c) hs' last'
  InStepUp-heard c hs last out hs' last' step o =
      heard_up c ∙ ap (λ l. map counted_layer l) step ∙ sym (Answered-up hs last out hs' last' o)

-- A counter of 64 bits never stays.
increment-ne : (n : ℕ) → increment n ≢ n
unfolding increment
increment-ne n e = omega (arith, e)

first_counter : List Layer → ℕ
first_counter [] = 0
first_counter (l ∷ ls) = l.counter

module _ (v : Services) (laws : IsAead v.aead) (codec : RoundTrips v.gob.content) (cid : CircuitId)
    (sid : ℕ) (wire : Bytes → Bytes) (x : Bytes) where
  Answered-first :
      (h : Hop) (hs : List Hop) (last : Hop) (out : Bytes) (hs' : List Hop) (last' : Hop)
      → Answered v laws codec cid sid wire x (h ∷ hs) last out hs' last'
      → first_counter (relay_layers hs' last') ≡ increment (state_of h).data_counter
  unfolding first_counter
  Answered-first h hs last out hs' last' (w', u, inner, rest, run, up, sends, now, front, o) =
      ap (λ l. first_counter (relay_layers l last')) front
      ∙ ap (λ (s : ConnState). s.data_counter) now

  -- The first relay has moved its DATA counter on for the answer, the client has not.
  pub Answered-ne-InStep :
      (c : Circuit) (h : Hop) (hs : List Hop) (last : Hop) (out : Bytes) (hs' : List Hop)
      (last' : Hop)
      → InStep c (h ∷ hs) last
      → Answered v laws codec cid sid wire x (h ∷ hs) last out hs' last'
      → ¬ InStep (heard c) hs' last'
  unfolding first_counter
  Answered-ne-InStep c h hs last out hs' last' step o again =
      increment-ne (state_of h).data_counter (
        sym (Answered-first h hs last out hs' last' o)
        ∙ ap first_counter (sym again ∙ heard_down c ∙ step))
