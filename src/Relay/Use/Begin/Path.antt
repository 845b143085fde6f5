-- ===== src/Relay/Use/Begin/Path.antt =====
-- BEGIN along a whole circuit (cmd/relay/usecase/handle_begin_usecase.go at each relay): relay after
-- relay handles what the one before it sent, until the exit dials the target.
use go_ptor.Common.{
  All, ℕ, ◌≡◌, ◌≢◌, ◌≤◌, refl, ap, ◌∙◌, none, some, false, List, [], ◌∷◌, length, suc, arith,
  String,
}
use go_ptor.Common.Result.{Result, ok, ◌>>=◌}
use go_ptor.Value.Command.{cmd_begin, cmd_begin_ack}
use go_ptor.Value.Circuit.{CircuitId}
use go_ptor.Cell.{Bytes, max_payload_size}
use go_ptor.Crypto.{IsAead, aes_seal, seal_loop, aes_multi_seal}
use go_ptor.Crypto.Onion.{IsKey, aes_seal_lem}
use go_ptor.Nonce.{Nonce}
use go_ptor.Net.{History, dialed}
use go_ptor.Payload.{RoundTrips}
use go_ptor.Wire.Framing.{Sends}
use go_ptor.Wire.Reliable.{IsReliable}
use go_ptor.Relay.World.{Services}
use go_ptor.Relay.Use.{ensure_serve_down}
use go_ptor.Relay.Use.Begin.{cell_of, begin}
use go_ptor.Relay.Use.Begin.Hops.{
  next_begin_nonce, begun_world, exited_world, begin-middle, begin-exit,
}
use go_ptor.Relay.Use.Data.Path.{Hop, state_of, keys_of}

-- The next BEGIN nonces of the relays in front and of the last one.
abbrev pub begin_nonces_of : List Hop → Hop → List Nonce
begin_nonces_of [] last = next_begin_nonce (state_of last) ∷ []
begin_nonces_of (h ∷ hs) last = next_begin_nonce (state_of h) ∷ begin_nonces_of hs last

module _ (v : Services) (laws : IsAead v.aead) where
  open v use {env, aead, gob}

  -- The onion over the relays from some one on.
  abbrev pub begin_layered : List Hop → Hop → Bytes → Bytes
  begin_layered [] last x = aead.gcm_seal (state_of last).key (next_begin_nonce (state_of last)) x
  begin_layered (h ∷ hs) last x =
      aead.gcm_seal (state_of h).key (next_begin_nonce (state_of h)) (begin_layered hs last x)

  module _ (cid : CircuitId) (sid up d : ℕ) (target : String) (x : Bytes) where
    -- The relays in front are not hidden, have a next hop and forward what fits in a cell; the exit
    -- is not hidden either, has none, and can dial the target. All keys have 32 bytes.
    abbrev pub CanBegin : List Hop → Hop → Type 0
    CanBegin [] last =
        IsKey (state_of last).key
        × ((state_of last).hidden ≡ false)
        × ((state_of last).down ≡ none)
        × ((state_of last).up ≡ some up)
        × (env.dial_tcp last.world.history target ≡ some d)
    CanBegin (h ∷ hs) last =
        IsKey (state_of h).key
        × ((state_of h).hidden ≡ false)
        × ((state_of h).down ≡ some h.next)
        × (length (begin_layered hs last x) ≤ max_payload_size)
        × CanBegin hs last

    -- The relays once each has handled what the one before it sent.
    abbrev pub passed_on : Hop → History → Hop
    passed_on h sent = record h {
      world = record (ensure_serve_down h.st (begun_world h.st h.world)).1 { history = sent };
    }

    abbrev pub exited : Hop → History → Hop
    exited last sent = record last { world = exited_world last.st cid sid d sent last.world }

    -- The first relay handles a BEGIN cell with this payload and sends the next one a BEGIN cell
    -- that is handled in the same way, until the exit has dialled the target, registered the
    -- stream and sent BEGIN_ACK back; what the relays are then.
    abbrev pub Opened : List Hop → Hop → Bytes → List Hop → Hop → Type 0
    Opened [] last enc hs' last' =
        (sent : History) × (begin v last.st cid (cell_of cmd_begin enc) last.world
          ≡ (ok tt, last'.world))
        × Sends (dialed target ∷ last.world.history) up cid (cell_of cmd_begin_ack []) sent
        × (hs' ≡ [])
        × (last' ≡ exited last sent)
    Opened (h ∷ hs) last enc hs' last' =
        (sent : History) × (out : Bytes) × (rest : List Hop) × (begin v h.st cid
            (cell_of cmd_begin enc) h.world
          ≡ (ok tt, (passed_on h sent).world))
        × Sends h.world.history h.next cid (cell_of cmd_begin out) sent
        × (hs' ≡ passed_on h sent ∷ rest)
        × Opened hs last out rest last'

    pub path_opens :
        IsReliable env
        → RoundTrips gob.begin
        → sid ≢ 0
        → gob.begin.gob_encode (record { stream_id = sid; target = target }) ≡ some x
        → (hs : List Hop) (last : Hop) → CanBegin hs last
        → (hs' : List Hop) × (last' : Hop) × Opened hs last (begin_layered hs last x) hs' last'
    path_opens net codec ne coded [] last (key, visible, end, wired, there) =
        let (sent, run, sends) =
          begin-exit v laws net codec last.st cid sid up d target x last.world ne key visible end
            wired coded there in
        ([], exited last sent, (sent, run, sends, refl, refl))
    path_opens net codec ne coded (h ∷ hs) last (key, visible, down, fits, ready) =
        let inner = begin_layered hs last x in
        let (sent, run, sends) =
          begin-middle v laws net h.st cid h.next inner h.world key visible down fits in
        let (rest, last', opened) = path_opens net codec ne coded hs last ready in
        (passed_on h sent ∷ rest, last', (sent, inner, rest, run, sends, refl, opened))

  sealed :
      (x : Bytes) (hs : List Hop) (last : Hop)
      → All IsKey (keys_of hs last)
      → seal_loop aead (keys_of hs last) (begin_nonces_of hs last) x ≡ ok (begin_layered hs last x)
  unfolding seal_loop
  sealed x [] last (key, rest) = aes_seal_lem aead laws _ _ x key
  sealed x (h ∷ hs) last (key, rest) =
      ap
        (λ (r : Result Bytes).
          r >>= λ out. aes_seal aead (state_of h).key (next_begin_nonce (state_of h)) out)
        (sealed x hs last rest)
      ∙ aes_seal_lem aead laws _ _ (begin_layered hs last x) key

  same_length :
      (hs : List Hop) (last : Hop) → length (keys_of hs last) ≡ length (begin_nonces_of hs last)
  same_length [] last = refl
  same_length (h ∷ hs) last = ap suc (same_length hs last)

  -- Sealing under the keys and next BEGIN nonces of the relays, all keys of 32 bytes.
  pub begin_sealed :
      (x : Bytes) (hs : List Hop) (last : Hop)
      → All IsKey (keys_of hs last)
      → aes_multi_seal aead (keys_of hs last) (begin_nonces_of hs last) x
        ≡ ok (begin_layered hs last x)
  unfolding aes_multi_seal
  begin_sealed x hs last keys = ground (arith, same_length hs last, sealed x hs last keys)
