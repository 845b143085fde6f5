-- ===== src/Session/Answer.antt =====
-- Data from the end of a circuit to the client: forwardUpstream of
-- cmd/relay/usecase/handle_begin_usecase.go at the last relay, handle_data_usecase.go at the others,
-- and cmd/client/usecase/decrypt_cell_data_usecase.go.
use go_ptor.Common.{
  ℕ, zero, suc, ◌≡◌, ◌≢◌, ◌≤◌, refl, ap, List, [], ◌∷◌, map, length, some, ==-refl,
}
use go_ptor.Common.Result.{Error, ok, err}
use go_ptor.Value.Circuit.{CircuitId}
use go_ptor.Value.Command.{cmd_data}
use go_ptor.Cell.{Bytes, max_payload_size}
use go_ptor.Crypto.{IsAead, aes_open}
use go_ptor.Crypto.Onion.{IsKey, aes_seal_lem}
use go_ptor.Payload.{RoundTrips, encode_payload-some}
use go_ptor.Wire.Framing.{Sends}
use go_ptor.Wire.Reliable.{IsReliable, forward_cell-reliable}
use go_ptor.Relay.ConnState.{ConnState, upstream_data_nonce}
use go_ptor.Relay.World.{World, Services, put_state}
use go_ptor.Relay.Use.Begin.{cell_of, send_upstream}
use go_ptor.Relay.Use.Begin.Chunk.{upstream_counted}
use go_ptor.Relay.Use.Data.{data_cell}
use go_ptor.Relay.Use.Data.Hops.{next_data_nonce, data_payload}
use go_ptor.Relay.Use.Data.Upstream.{twice_counted, next_upstream_nonce, data_cell-upstream}
use go_ptor.Relay.Use.Data.Path.{Hop, state_of}
use go_ptor.Client.Circuit.{Circuit, hop_key, hop_base_nonce, at_hop, hop_upstream_data_nonce_peek}
use go_ptor.Client.Circuit.Hops.{peeks}
use go_ptor.Client.Use.Send.{hop_keys}
use go_ptor.Session.{Layer}
use go_ptor.Session.Counters.{nonce_of}

-- What both ends of a layer must agree on for data towards the client.
abbrev pub client_up_layers : ℕ → ℕ → Circuit → List Layer
client_up_layers zero i c = []
client_up_layers (suc n) i c =
    record {
      key = hop_key i c;
      base_nonce = hop_base_nonce i c;
      counter = at_hop 0 c.upstream_data_counter i;
    }
    ∷ client_up_layers n (suc i) c

abbrev pub up_layer : ConnState → Layer
up_layer s = record { key = s.key; base_nonce = s.base_nonce; counter = s.upstream_data_counter }

abbrev pub relay_up_layers : List Hop → Hop → List Layer
relay_up_layers [] last = up_layer (state_of last) ∷ []
relay_up_layers (h ∷ hs) last = up_layer (state_of h) ∷ relay_up_layers hs last

abbrev pub InStepUp : Circuit → List Hop → Hop → Type 0
InStepUp c hs last = client_up_layers (length c.hops) 0 c ≡ relay_up_layers hs last

pub client_up_keys :
    (n i : ℕ) (c : Circuit) → hop_keys n i c ≡ map (λ l. l.key) (client_up_layers n i c)
unfolding hop_keys
client_up_keys zero i c = refl
client_up_keys (suc n) i c = ap (λ l. hop_key i c ∷ l) (client_up_keys n (suc i) c)

pub client_up_nonces :
    (n i : ℕ) (c : Circuit)
    → peeks hop_upstream_data_nonce_peek n i c ≡ map nonce_of (client_up_layers n i c)
unfolding hop_upstream_data_nonce_peek
client_up_nonces zero i c = refl
client_up_nonces (suc n) i c =
    ap (λ l. hop_upstream_data_nonce_peek i c ∷ l) (client_up_nonces n (suc i) c)

pub length-relay_up_layers :
    (hs : List Hop) (last : Hop)
    → length (map (λ l. l.key) (relay_up_layers hs last))
      ≡ length (map nonce_of (relay_up_layers hs last))
length-relay_up_layers [] last = refl
length-relay_up_layers (h ∷ hs) last = ap suc (length-relay_up_layers hs last)

module _ (v : Services) (laws : IsAead v.aead) (codec : RoundTrips v.gob.content) (cid : CircuitId)
    (sid : ℕ) (wire : Bytes → Bytes) (x : Bytes) where
  open v use {env, aead, gob}

  -- The layers that the relays from some one on have put around the data.
  abbrev pub wrapped : List Hop → Hop → Bytes
  wrapped [] last = aead.gcm_seal (state_of last).key (next_upstream_nonce (state_of last)) x
  wrapped (h ∷ hs) last =
      aead.gcm_seal (state_of h).key (next_upstream_nonce (state_of h)) (wrapped hs last)

  -- All keys have 32 bytes, every relay has a connection towards the client, and what it sends fits
  -- in a cell. The relays in front have a next hop, and their cipher refuses what they are sent.
  abbrev pub AnswerReady : List Hop → Hop → Type 0
  AnswerReady [] last =
      IsKey (state_of last).key
      × (u : ℕ) × ((state_of last).up ≡ some u)
      × (length (wire (wrapped [] last)) ≤ max_payload_size)
  AnswerReady (h ∷ hs) last =
      IsKey (state_of h).key
      × (u d : ℕ) × (e : Error) × ((state_of h).up ≡ some u)
      × ((state_of h).down ≡ some d)
      × (aes_open aead (state_of h).key (next_data_nonce (state_of h)) (wrapped hs last) ≡ err e)
      × (length (wire (wrapped (h ∷ hs) last)) ≤ max_payload_size)
      × AnswerReady hs last

  -- The last relay sends what it read, and each relay before it sends on what it is sent, with a
  -- layer more, to the connection towards the client; the first one sends a cell with this content.
  -- What the relays are then: each relay in front has moved its DATA counter on too.
  abbrev pub Answered : List Hop → Hop → Bytes → List Hop → Hop → Type 0
  Answered [] last out hs' last' =
      (w' : World) × (u : ℕ) × (send_upstream v last.st cid sid x last.world ≡ (ok tt, w'))
      × ((state_of last).up ≡ some u)
      × Sends last.world.history u cid (cell_of cmd_data (wire out)) w'.history
      × (w'.states last.st ≡ upstream_counted (state_of last))
      × (hs' ≡ [])
      × (last' ≡ record last { world = w' })
  Answered (h ∷ hs) last out hs' last' =
      (w' : World) × (u : ℕ) × (inner : Bytes) × (rest : List Hop) × (data_cell v h.st cid
          (cell_of cmd_data (wire inner)) h.world
        ≡ (ok tt, w'))
      × ((state_of h).up ≡ some u)
      × Sends h.world.history u cid (cell_of cmd_data (wire out)) w'.history
      × (w'.states h.st ≡ twice_counted (state_of h))
      × (hs' ≡ record h { world = w' } ∷ rest)
      × Answered hs last inner rest last'

  module _ (net : IsReliable env)
      (coded : (b : Bytes) → gob.content.gob_encode (data_payload sid b) ≡ some (wire b)) where
    sent_up :
        (last : Hop) (u : ℕ)
        → IsKey (state_of last).key
        → (state_of last).up ≡ some u
        → length (wire (wrapped [] last)) ≤ max_payload_size
        → (hs' : List Hop) × (last' : Hop) × Answered [] last (wrapped [] last) hs' last'
    unfolding send_upstream upstream_data_nonce
    sent_up last u key up fits =
        let s : ConnState = state_of last in
        let (h', forwarded, sends) =
          forward_cell-reliable env net u cid (cell_of cmd_data (wire (wrapped [] last)))
            last.world.history fits in
        let w' : World = record (put_state last.st (upstream_counted s) last.world) {
          history = h';
        } in
        (
          [],
          record last { world = w' },
          (
            w',
            u,
            rw
                (
                  ==-refl last.st,
                  send_upstream,
                  aes_seal_lem aead laws s.key (next_upstream_nonce s) x key,
                  encode_payload-some gob.content _ _ (coded (wrapped [] last)),
                  up,
                  forwarded,
                )
                refl,
            up,
            sends,
            rw (==-refl last.st) refl,
            refl,
            refl,
          ),
        )

    pub answers :
        (hs : List Hop) (last : Hop)
        → sid ≢ 0
        → AnswerReady hs last
        → (hs' : List Hop) × (last' : Hop) × Answered hs last (wrapped hs last) hs' last'
    answers [] last ne (key, u, up, fits) = sent_up last u key up fits
    answers (h ∷ hs) last ne (key, u, d, e, up, down, refused, fits, ready) =
        let (w', run, sends, now) =
          data_cell-upstream v laws codec net h.st cid sid d u (wrapped hs last)
            (wire (wrapped hs last)) (wire (wrapped (h ∷ hs) last)) e h.world ne key down up
            (coded (wrapped hs last)) refused (coded (wrapped (h ∷ hs) last)) fits in
        let (rest, last', o) = answers hs last ne ready in
        (
          record h { world = w' } ∷ rest,
          last',
          (w', u, wrapped hs last, rest, run, up, sends, now, refl, o),
        )
