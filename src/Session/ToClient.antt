-- ===== src/Session/ToClient.antt =====
-- Data from the end of a circuit reaches the client (see `Session.Answer`).
use go_ptor.Common.{
  ℕ, ◌≡◌, ◌≢◌, refl, sym, ap, ap₂, subst, ◌∙◌, arith, List, [], ◌∷◌, map, length, All, some,
}
use go_ptor.Common.Result.{Result, ok, ◌>>=◌}
use go_ptor.Value.Circuit.{CircuitId}
use go_ptor.Value.Command.{cmd_data}
use go_ptor.Cell.{Bytes}
use go_ptor.Crypto.{IsAead, aes_seal, aes_multi_seal, seal_loop}
use go_ptor.Crypto.Onion.{IsKey, aes_seal_lem}
use go_ptor.Crypto.Exchange.{Exchange}
use go_ptor.Payload.{RoundTrips, decode-encode}
use go_ptor.Net.{Env}
use go_ptor.Wire.Reliable.{IsReliable}
use go_ptor.Relay.Use.Begin.{cell_of}
use go_ptor.Relay.Use.Data.Hops.{data_payload}
use go_ptor.Relay.Use.Data.Upstream.{next_upstream_nonce}
use go_ptor.Relay.Use.Data.Path.{Hop, state_of}
use go_ptor.Client.Circuit.{Circuit, hop_upstream_data_nonce, hop_upstream_data_nonce_peek}
use go_ptor.Client.Circuit.Hops.{peeks}
use go_ptor.Client.World.{Services as ClientServices}
use go_ptor.Client.Use.Send.{hop_keys, hop_nonces}
use go_ptor.Client.Use.Receive.{handle_data_cell, decrypt_onion_layers}
use go_ptor.Client.Use.Receive.Layers.{decrypt_onion_layers-aes_multi_seal}
use go_ptor.Session.Counters.{nonce_of}
use go_ptor.Session.EndToEnd.{relays}
use go_ptor.Session.Heard.{heard, InStepUp-heard}
use go_ptor.Session.Answer.{
  relay_up_layers, InStepUp, client_up_keys, client_up_nonces, length-relay_up_layers, wrapped,
  AnswerReady, Answered, answers,
}

module _ (v : ClientServices) (env : Env) (exchange : Exchange) (laws : IsAead v.aead)
    (codec : RoundTrips v.gob.content) (cid : CircuitId) (sid : ℕ) (wire : Bytes → Bytes)
    (x : Bytes) where
  sealed_up :
      (hs : List Hop) (last : Hop)
      → AnswerReady (relays v env exchange) laws codec cid sid wire x hs last
      → seal_loop v.aead
          (map (λ l. l.key) (relay_up_layers hs last))
          (map nonce_of (relay_up_layers hs last))
          x
        ≡ ok (wrapped (relays v env exchange) laws codec cid sid wire x hs last)
  unfolding seal_loop
  sealed_up [] last (key, u, up, fits) = aes_seal_lem v.aead laws _ _ x key
  sealed_up (h ∷ hs) last (key, u, d, e, up, down, refused, fits, ready) =
      ap
        (λ (r : Result Bytes).
          r >>= λ out. aes_seal v.aead (state_of h).key (next_upstream_nonce (state_of h)) out)
        (sealed_up hs last ready)
      ∙ aes_seal_lem v.aead laws _ _
          (wrapped (relays v env exchange) laws codec cid sid wire x hs last) key

  good_keys :
      (hs : List Hop) (last : Hop)
      → AnswerReady (relays v env exchange) laws codec cid sid wire x hs last
      → All IsKey (map (λ l. l.key) (relay_up_layers hs last))
  good_keys [] last (key, u, up, fits) = (key, tt)
  good_keys (h ∷ hs) last (key, u, d, e, up, down, refused, fits, ready) =
      (key, good_keys hs last ready)

  multi_sealed_up :
      (hs : List Hop) (last : Hop)
      → AnswerReady (relays v env exchange) laws codec cid sid wire x hs last
      → aes_multi_seal v.aead
          (map (λ l. l.key) (relay_up_layers hs last))
          (map nonce_of (relay_up_layers hs last))
          x
        ≡ ok (wrapped (relays v env exchange) laws codec cid sid wire x hs last)
  unfolding aes_multi_seal
  multi_sealed_up hs last ready =
      ground (arith, length-relay_up_layers hs last, sealed_up hs last ready)

  -- When the client and the relays of a circuit agree on the key, base nonce and upstream counter
  -- of every layer, data that the last relay reads from the target and sends upstream is passed on
  -- by every relay in front with one layer more, each over its connection towards the client, and
  -- the client opens the content of the cell that the first relay sends to exactly that data, with
  -- its stream, and takes every hop's upstream nonce once; afterwards they agree on the upstream
  -- counters again. The network takes every write, the encoder does not fail and decoding undoes
  -- it, every relay has a connection towards the client, every cell fits, the keys have 32 bytes,
  -- the stream is not 0, and the relays in front have a next hop and their cipher refuses what
  -- they are sent.
  pub handle_data_cell-Answered :
      IsReliable env
      → ((b : Bytes) → v.gob.content.gob_encode (data_payload sid b) ≡ some (wire b))
      → sid ≢ 0
      → (c : Circuit) (hs : List Hop) (last : Hop) → InStepUp c hs last
      → AnswerReady (relays v env exchange) laws codec cid sid wire x hs last
      → (out : Bytes) × (hs' : List Hop) × (last' : Hop) × Answered
          (relays v env exchange)
          laws
          codec
          cid
          sid
          wire
          x
          hs
          last
          out
          hs'
          last'
        × InStepUp (heard c) hs' last'
        × (handle_data_cell v (cell_of cmd_data (wire out)) c
            ≡ (ok (record { stream_id = sid; content = x; command = cmd_data }), heard c))
  unfolding handle_data_cell
  handle_data_cell-Answered net coded ne c hs last step ready =
      let n = length c.hops in
      let out = wrapped (relays v env exchange) laws codec cid sid wire x hs last in
      let keys = client_up_keys n 0 c ∙ ap (λ l. map (λ a. a.key) l) step in
      let nonces = client_up_nonces n 0 c ∙ ap (λ l. map nonce_of l) step in
      let (enc, sealed, opened) =
        decrypt_onion_layers-aes_multi_seal v laws c x
          (subst (λ ks. All IsKey ks) (sym keys) (good_keys hs last ready)) in
      let again : aes_multi_seal v.aead (hop_keys n 0 c) (peeks hop_upstream_data_nonce_peek n 0 c)
            x
          ≡ ok out =
        ap₂ (λ ks ns. aes_multi_seal v.aead ks ns x) keys nonces ∙ multi_sealed_up hs last ready in
      let same : enc ≡ out = cc (sealed, again) in
      let unsealed : decrypt_onion_layers v out c
          ≡ (ok x, (hop_nonces hop_upstream_data_nonce n 0 c).1) =
        ap (λ b. decrypt_onion_layers v b c) (sym same) ∙ opened in
      let (hs', last', o) =
        answers (relays v env exchange) laws codec cid sid wire x net coded hs last ne ready in
      (
        out,
        hs',
        last',
        o,
        InStepUp-heard (relays v env exchange) laws codec cid sid wire x c hs last out hs' last'
            step o,
        rw
            (
              decode-encode v.gob.content (data_payload sid out) (wire out) codec (coded out),
              handle_data_cell,
              unsealed,
            )
            refl,
      )
