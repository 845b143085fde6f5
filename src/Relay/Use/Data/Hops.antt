-- ===== src/Relay/Use/Data/Hops.antt =====
-- What one relay does with a DATA cell (cmd/relay/usecase/handle_data_usecase.go).
use go_ptor.Common.{
  ℕ, ◌≡◌, ◌≢◌, ◌≤◌, length, subst, ap₂, ◌⊎◌, inl, inr, if◌then◌else◌, refl, ap, ◌∙◌, Bool, true,
  false, none, some, ◌∷◌, ==-refl,
}
use go_ptor.Common.Result.{ok}
use go_ptor.Value.Command.{cmd_data}
use go_ptor.Value.Circuit.{CircuitId}
use go_ptor.Value.Stream.{stream_id_from-ok}
use go_ptor.Cell.{Bytes, max_payload_size}
use go_ptor.Crypto.{IsAead}
use go_ptor.Crypto.Onion.{IsKey, aes_open-seal}
use go_ptor.Nonce.{Nonce, modify_nonce_with_sequence, increment}
use go_ptor.Net.{Conn, write, wrote}
use go_ptor.Payload.{DataPayload, RoundTrips, decode-encode, encode_payload-some}
use go_ptor.Wire.{forward_cell}
use go_ptor.Relay.ConnState.{ConnState, data_nonce}
use go_ptor.Relay.World.{World, Address, Services, net, net-ok, put_state}
use go_ptor.Relay.Repository.{get_stream}
use go_ptor.Relay.Use.{ensure_serve_down, ensure_serve_down_lem, ensure_serve_down-counter}
use go_ptor.Wire.Reliable.{IsReliable, forward_cell-reliable, write-reliable}
use go_ptor.Wire.Framing.{Sends}
use go_ptor.Relay.Use.Begin.{cell_of}
use go_ptor.Relay.Use.Data.{data_cell, data_forward, data_opened, data_exit}

-- The nonce that a state uses next for DATA.
abbrev pub next_data_nonce : ConnState → Nonce
next_data_nonce s = modify_nonce_with_sequence s.base_nonce s.data_counter

abbrev pub data_payload : ℕ → Bytes → DataPayload
data_payload sid content = record { stream_id = sid; content = content }

-- The state and the world once the DATA counter has moved on.
abbrev pub counted : ConnState → ConnState
counted s = record s { data_counter = increment s.data_counter }

abbrev pub counted_world : Address → World → World
counted_world st w = put_state st (counted (w.states st)) w

module _ (v : Services) (laws : IsAead v.aead) (codec : RoundTrips v.gob.content) where
  open v use {env, aead, gob}

  -- A DATA cell that holds, for a stream, what the circuit's key and next DATA nonce sealed is
  -- opened with them.
  pub data_cell_opened :
      (st : Address) (cid : CircuitId) (sid : ℕ) (x payload : Bytes) (w : World)
      → sid ≢ 0
      → IsKey (w.states st).key
      → gob.content.gob_encode
          (data_payload sid (aead.gcm_seal (w.states st).key (next_data_nonce (w.states st)) x))
        ≡ some payload
      → data_cell v st cid (cell_of cmd_data payload) w
        ≡ data_opened v st cid sid x
            (counted (w.states st))
            (w.states st).hidden
            (w.states st).down
            (counted_world st w)
  unfolding data_cell data_nonce
  data_cell_opened st cid sid x payload w ne key coded =
      rw
        (
          decode-encode gob.content _ payload codec coded,
          data_cell,
          stream_id_from-ok sid ne,
          ==-refl st,
          aes_open-seal aead laws _ _ x key,
        )
        refl

  pub data_forward-eq :
      (st : Address) (cid : CircuitId) (sid : ℕ) (x out : Bytes) (down : Conn) (w : World)
      → gob.content.gob_encode (data_payload sid x) ≡ some out
      → data_forward v st cid sid x down w
        ≡ net (forward_cell env down cid (cell_of cmd_data out)) (ensure_serve_down st w).1
  unfolding data_forward
  data_forward-eq st cid sid x out down w recoded =
      rw
        (
          (ensure_serve_down_lem st w).0,
          data_forward,
          encode_payload-some gob.content (data_payload sid x) out recoded,
        )
        refl

  -- With reliable writes, a codec that round-trips and a key of 32 bytes, a middle relay that is
  -- not hidden opens a DATA cell sealed with its key and next DATA nonce, sends the cell with one
  -- layer less to its next hop when it fits, and moves its DATA counter on by one.
  pub data_cell-middle :
      IsReliable env
      → (st : Address) (cid : CircuitId) (sid d : ℕ) (x payload out : Bytes) (w : World) → sid ≢ 0
      → IsKey (w.states st).key
      → (w.states st).hidden ≡ false
      → (w.states st).down ≡ some d
      → gob.content.gob_encode
          (data_payload sid (aead.gcm_seal (w.states st).key (next_data_nonce (w.states st)) x))
        ≡ some payload
      → gob.content.gob_encode (data_payload sid x) ≡ some out
      → length out ≤ max_payload_size
      → (w' : World) × (data_cell v st cid (cell_of cmd_data payload) w ≡ (ok tt, w'))
        × Sends w.history d cid (cell_of cmd_data out) w'.history
        × ((w'.states st).data_counter ≡ increment (w.states st).data_counter)
  unfolding data_opened
  data_cell-middle reliable st cid sid d x payload out w ne key visible there coded recoded fits =
      let start : World = counted_world st w in
      let before : World = (ensure_serve_down st start).1 in
      let (h', forwarded, sends) =
        forward_cell-reliable env reliable d cid (cell_of cmd_data out) before.history fits in
      (
        record before { history = h' },
        data_cell_opened st cid sid x payload w ne key coded
            ∙ ap₂ (λ b c. data_opened v st cid sid x (counted (w.states st)) b c start) visible
                there
            ∙ data_forward-eq st cid sid x out (some d) start recoded
            ∙ net-ok (forward_cell env (some d) cid (cell_of cmd_data out)) before forwarded,
        subst (λ h. Sends h d cid (cell_of cmd_data out) h') (ensure_serve_down_lem st start).1
            sends,
        ensure_serve_down-counter st start
            ∙ ap (λ (b : Bool). (if b then counted (w.states st) else w.states st).data_counter)
                (==-refl st),
      )

  -- Where the plaintext of stream `sid` goes at the last relay: the hidden service's connection, or
  -- that of the stream.
  abbrev pub Delivers : CircuitId → ℕ → ConnState → World → ℕ → Type 0
  Delivers cid sid s w c =
      ((s.hidden ≡ true) × (s.down ≡ some c))
      ⊎ ((s.hidden ≡ false) × (s.down ≡ none) × (get_stream cid sid w ≡ ok (some c)))

  data_exit-write :
      IsReliable env
      → (cid : CircuitId) (sid c : ℕ) (x : Bytes) (s : ConnState) (w : World)
      → get_stream cid sid w ≡ ok (some c)
      → data_exit v cid sid x s w ≡ (ok tt, record w { history = wrote c x ∷ w.history })
  unfolding data_exit
  data_exit-write reliable cid sid c x s w here =
      rw (here, data_exit, write-reliable env reliable c x w.history) refl

  get_stream-counted :
      (cid : CircuitId) (sid : ℕ) (st : Address) (w : World)
      → get_stream cid sid (counted_world st w) ≡ get_stream cid sid w
  unfolding get_stream
  get_stream-counted cid sid st w = refl

  -- With reliable writes, a codec that round-trips and a key of 32 bytes, the last relay writes
  -- exactly the plaintext of a DATA cell sealed with its key and next DATA nonce to the connection
  -- of the stream or of the hidden service, and moves its DATA counter on.
  pub data_cell-last :
      IsReliable env
      → (st : Address) (cid : CircuitId) (sid c : ℕ) (x payload : Bytes) (w : World) → sid ≢ 0
      → IsKey (w.states st).key
      → Delivers cid sid (w.states st) w c
      → gob.content.gob_encode
          (data_payload sid (aead.gcm_seal (w.states st).key (next_data_nonce (w.states st)) x))
        ≡ some payload
      → data_cell v st cid (cell_of cmd_data payload) w
        ≡ (ok tt, record (counted_world st w) { history = wrote c x ∷ w.history })
  unfolding data_opened
  data_cell-last reliable st cid sid c x payload w ne key goes coded =
      let start : World = counted_world st w in
      let s : ConnState = w.states st in
      data_cell_opened st cid sid x payload w ne key coded ∙ elim goes [
        | inl (hidden, down) ↦
            ap₂ (λ b d. data_opened v st cid sid x (counted s) b d start) hidden down
            ∙ net-ok (write env (some c) x) start (write-reliable env reliable c x w.history)
        | inr (visible, down, here) ↦
            ap₂ (λ b d. data_opened v st cid sid x (counted s) b d start) visible down
            ∙ data_exit-write reliable cid sid c x (counted s) start
                (get_stream-counted cid sid st w ∙ here)
      ]
