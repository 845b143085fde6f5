-- ===== src/Relay/Use/Data/Upstream.antt =====
-- DATA cells that a middle relay cannot open (cmd/relay/usecase/handle_data_usecase.go): it takes
-- them for upstream data, but it has moved its DATA counter on before it knows.
use go_ptor.Common.{
  ℕ, ◌≡◌, ◌≢◌, ◌≤◌, refl, sym, ap, subst, ◌∙◌, some, length, ==-refl, if◌then◌else◌,
}
use go_ptor.Common.Result.{Error, ok, err}
use go_ptor.Value.Circuit.{CircuitId}
use go_ptor.Value.Command.{cmd_data}
use go_ptor.Value.Stream.{stream_id_from-ok}
use go_ptor.Cell.{Bytes, max_payload_size}
use go_ptor.Crypto.{IsAead, aes_open}
use go_ptor.Crypto.Onion.{IsKey, aes_seal_lem}
use go_ptor.Nonce.{Nonce, modify_nonce_with_sequence, increment}
use go_ptor.Payload.{RoundTrips, decode-encode, encode_payload-some}
use go_ptor.Wire.{forward_cell}
use go_ptor.Wire.Framing.{Sends}
use go_ptor.Wire.Reliable.{IsReliable, forward_cell-reliable}
use go_ptor.Relay.ConnState.{ConnState, data_nonce, upstream_data_nonce}
use go_ptor.Relay.World.{World, Address, Services, net, net-ok, put_state}
use go_ptor.Relay.Use.Begin.{cell_of}
use go_ptor.Relay.Use.Data.{data_cell, data_upstream, data_not_opened}
use go_ptor.Relay.Use.Data.Hops.{next_data_nonce, data_payload, counted, counted_world}

-- The nonce that a state uses next for upstream DATA, and both counters moved on.
abbrev pub next_upstream_nonce : ConnState → Nonce
next_upstream_nonce s = modify_nonce_with_sequence s.base_nonce s.upstream_data_counter

abbrev pub twice_counted : ConnState → ConnState
twice_counted s = record s {
  data_counter = increment s.data_counter;
  upstream_data_counter = increment s.upstream_data_counter;
}

module _ (v : Services) (laws : IsAead v.aead) (codec : RoundTrips v.gob.content) where
  open v use {env, aead, gob}

  data_cell_refused :
      (st : Address) (cid : CircuitId) (sid : ℕ) (y payload : Bytes) (e : Error) (w : World)
      → sid ≢ 0
      → gob.content.gob_encode (data_payload sid y) ≡ some payload
      → aes_open aead (w.states st).key (next_data_nonce (w.states st)) y ≡ err e
      → data_cell v st cid (cell_of cmd_data payload) w
        ≡ data_not_opened v st cid sid y e (w.states st).down (counted_world st w)
  unfolding data_cell data_nonce
  data_cell_refused st cid sid y payload e w ne coded refused =
      rw
        (
          decode-encode gob.content _ payload codec coded,
          data_cell,
          stream_id_from-ok sid ne,
          ==-refl st,
          refused,
        )
        refl

  data_not_opened-some :
      (st : Address) (cid : CircuitId) (sid d : ℕ) (y : Bytes) (e : Error) (w : World)
      → data_not_opened v st cid sid y e (some d) w ≡ data_upstream v st cid sid y w
  unfolding data_not_opened
  data_not_opened-some st cid sid d y e w = refl

  data_upstream-eq :
      (st : Address) (cid : CircuitId) (sid : ℕ) (y out : Bytes) (w : World)
      → IsKey (w.states st).key
      → gob.content.gob_encode
          (data_payload sid (aead.gcm_seal (w.states st).key (next_upstream_nonce (w.states st)) y))
        ≡ some out
      → data_upstream v st cid sid y w
        ≡ net
            (forward_cell env (w.states st).up cid (cell_of cmd_data out))
            (put_state st (upstream_data_nonce (w.states st)).1 w)
  unfolding data_upstream upstream_data_nonce
  data_upstream-eq st cid sid y out w key recoded =
      rw
        (
          ==-refl st,
          data_upstream,
          aes_seal_lem aead laws _ (next_upstream_nonce (w.states st)) y key,
          encode_payload-some gob.content _ out recoded,
        )
        refl

  -- With reliable writes, a codec that round-trips and a key of 32 bytes, a middle relay that
  -- cannot open a DATA cell adds one layer with its next upstream nonce and sends the cell towards
  -- the client when it fits; both its DATA and its upstream counter move on.
  pub data_cell-upstream :
      IsReliable env
      → (st : Address) (cid : CircuitId) (sid d u : ℕ) (y payload out : Bytes) (e : Error)
        (w : World)
      → sid ≢ 0
      → IsKey (w.states st).key
      → (w.states st).down ≡ some d
      → (w.states st).up ≡ some u
      → gob.content.gob_encode (data_payload sid y) ≡ some payload
      → aes_open aead (w.states st).key (next_data_nonce (w.states st)) y ≡ err e
      → gob.content.gob_encode
          (data_payload sid (aead.gcm_seal (w.states st).key (next_upstream_nonce (w.states st)) y))
        ≡ some out
      → length out ≤ max_payload_size
      → (w' : World) × (data_cell v st cid (cell_of cmd_data payload) w ≡ (ok tt, w'))
        × Sends w.history u cid (cell_of cmd_data out) w'.history
        × (w'.states st ≡ twice_counted (w.states st))
  unfolding upstream_data_nonce
  data_cell-upstream reliable st cid sid d u y payload out e w ne key there up coded refused recoded
        fits =
      let start : World = counted_world st w in
      let here : start.states st ≡ counted (w.states st) =
        ap (λ b. if b then counted (w.states st) else w.states st) (==-refl st) in
      let last : World = put_state st (twice_counted (w.states st)) start in
      let (h', forwarded, sends) =
        forward_cell-reliable env reliable u cid (cell_of cmd_data out) w.history fits in
      (
        record last { history = h' },
        data_cell_refused st cid sid y payload e w ne coded refused
            ∙ ap (λ c. data_not_opened v st cid sid y e c start) there
            ∙ data_not_opened-some st cid sid d y e start
            ∙ data_upstream-eq st cid sid y out start (subst (λ t. IsKey t.key) (sym here) key) (
                subst
                  (λ t.
                    gob.content.gob_encode
                      (data_payload sid (aead.gcm_seal t.key (next_upstream_nonce t) y))
                    ≡ some out)
                  (sym here) recoded)
            ∙ ap
                (λ (t : ConnState).
                  net (forward_cell env t.up cid (cell_of cmd_data out))
                    (put_state st (upstream_data_nonce t).1 start))
                here
            ∙ ap (λ c. net (forward_cell env c cid (cell_of cmd_data out)) last) up
            ∙ net-ok (forward_cell env (some u) cid (cell_of cmd_data out)) last forwarded,
        sends,
        ap (λ b. if b then twice_counted (w.states st) else start.states st) (==-refl st),
      )

  -- With reliable writes, a codec that round-trips and a key of 32 bytes, after one upstream cell
  -- a middle relay no longer opens the next DATA cell of the client, sealed with the nonce it used
  -- up, when the cipher refuses its following nonce: it seals that cell and sends it back towards
  -- the client, when the cells fit.
  pub data_cell_after_upstream :
      IsReliable env
      → (st : Address) (cid : CircuitId) (sid d u : ℕ) (y x up_payload up_out payload out : Bytes)
        (e e' : Error) (w : World)
      → sid ≢ 0
      → IsKey (w.states st).key
      → (w.states st).down ≡ some d
      → (w.states st).up ≡ some u
      → gob.content.gob_encode (data_payload sid y) ≡ some up_payload
      → aes_open aead (w.states st).key (next_data_nonce (w.states st)) y ≡ err e
      → gob.content.gob_encode
          (data_payload sid (aead.gcm_seal (w.states st).key (next_upstream_nonce (w.states st)) y))
        ≡ some up_out
      → length up_out ≤ max_payload_size
      → (sealed : Bytes)
      → sealed ≡ aead.gcm_seal (w.states st).key (next_data_nonce (w.states st)) x
      → gob.content.gob_encode (data_payload sid sealed) ≡ some payload
      → aes_open aead (w.states st).key (next_data_nonce (counted (w.states st))) sealed ≡ err e'
      → gob.content.gob_encode (
          data_payload sid (
            aead.gcm_seal
              (w.states st).key
              (next_upstream_nonce (twice_counted (w.states st)))
              sealed))
        ≡ some out
      → length out ≤ max_payload_size
      → (w' w'' : World) × (data_cell v st cid (cell_of cmd_data up_payload) w ≡ (ok tt, w'))
        × (data_cell v st cid (cell_of cmd_data payload) w' ≡ (ok tt, w''))
        × Sends w'.history u cid (cell_of cmd_data out) w''.history
  data_cell_after_upstream reliable st cid sid d u y x up_payload up_out payload out e e' w ne key
        there up coded refused recoded fits sealed eq coded' refused' recoded' fits' =
      let (w', ran, sent, now) =
        data_cell-upstream reliable st cid sid d u y up_payload up_out e w ne key there up coded
          refused recoded fits in
      let (w'', ran', sent', now') =
        data_cell-upstream reliable st cid sid d u sealed payload out e' w' ne
          (subst (λ t. IsKey t.key) (sym now) key)
          (subst (λ (t : ConnState). t.down ≡ some d) (sym now) there)
          (subst (λ (t : ConnState). t.up ≡ some u) (sym now) up) coded'
          (subst (λ t. aes_open aead t.key (next_data_nonce t) sealed ≡ err e') (sym now) refused')
          (subst
            (λ t.
              gob.content.gob_encode
                (data_payload sid (aead.gcm_seal t.key (next_upstream_nonce t) sealed))
              ≡ some out)
            (sym now) recoded')
          fits' in
      (w', w'', ran, ran', sent')
