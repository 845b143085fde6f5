-- ===== src/Relay/Use/Data/Path.antt =====
-- DATA along a whole circuit (cmd/relay/usecase/handle_data_usecase.go at each relay, and the onion
-- of shared/service/crypto_service.go): relay after relay handles what the one before it sent.
use go_ptor.Common.{ℕ, ◌≡◌, ◌≢◌, ◌≤◌, refl, ap, ◌∙◌, arith, some, false, List, [], ◌∷◌, length, suc}
use go_ptor.Common.Result.{Result, ok, ◌>>=◌}
use go_ptor.Value.Command.{cmd_data}
use go_ptor.Value.Circuit.{CircuitId}
use go_ptor.Cell.{Bytes, max_payload_size}
use go_ptor.Crypto.{Key, IsAead, aes_seal, seal_loop, aes_multi_seal}
use go_ptor.Crypto.Onion.{IsKey, aes_seal_lem}
use go_ptor.Nonce.{Nonce}
use go_ptor.Net.{wrote}
use go_ptor.Payload.{RoundTrips}
use go_ptor.Wire.Framing.{Sends}
use go_ptor.Wire.Reliable.{IsReliable}
use go_ptor.Relay.ConnState.{ConnState}
use go_ptor.Relay.World.{World, Address, Services}
use go_ptor.Relay.Use.Begin.{cell_of}
use go_ptor.Relay.Use.Data.{data_cell}
use go_ptor.Relay.Use.Data.Hops.{
  next_data_nonce, data_payload, counted_world, Delivers, data_cell-middle, data_cell-last,
}

-- A relay of the circuit: its process, the circuit's state there, and its connection to the next.
pub record Hop : Type 0 where
  pub st : Address
  pub world : World
  pub next : ℕ

abbrev pub state_of : Hop → ConnState
state_of h = h.world.states h.st

-- The keys and the next DATA nonces of the relays in front and of the last one.
abbrev pub keys_of : List Hop → Hop → List Key
keys_of [] last = (state_of last).key ∷ []
keys_of (h ∷ hs) last = (state_of h).key ∷ keys_of hs last

abbrev pub nonces_of : List Hop → Hop → List Nonce
nonces_of [] last = next_data_nonce (state_of last) ∷ []
nonces_of (h ∷ hs) last = next_data_nonce (state_of h) ∷ nonces_of hs last

module _ (v : Services) (laws : IsAead v.aead) (codec : RoundTrips v.gob.content) where
  open v use {env, aead, gob}

  -- The onion over the relays from some one on.
  abbrev pub layered : List Hop → Hop → Bytes → Bytes
  layered [] last x = aead.gcm_seal (state_of last).key (next_data_nonce (state_of last)) x
  layered (h ∷ hs) last x =
      aead.gcm_seal (state_of h).key (next_data_nonce (state_of h)) (layered hs last x)

  module _ (cid : CircuitId) (sid c : ℕ) (wire : Bytes → Bytes) (x : Bytes) where
    -- The relays in front are not hidden, have a next hop and forward what fits in a cell; the last
    -- one holds connection `c` for the stream. All keys have 32 bytes.
    abbrev pub Ready : List Hop → Hop → Type 0
    Ready [] last =
        IsKey (state_of last).key × Delivers v laws codec cid sid (state_of last) last.world c
    Ready (h ∷ hs) last =
        IsKey (state_of h).key
        × ((state_of h).hidden ≡ false)
        × ((state_of h).down ≡ some h.next)
        × (length (wire (layered hs last x)) ≤ max_payload_size)
        × Ready hs last

    -- The first relay handles a DATA cell with this content and sends the next one a cell whose
    -- content is handled in the same way, until the last relay writes the plaintext to `c`.
    abbrev pub Delivered : List Hop → Hop → Bytes → Type 0
    Delivered [] last enc = data_cell v last.st cid (cell_of cmd_data (wire enc)) last.world ≡ (
      ok tt,
      record (counted_world last.st last.world) { history = wrote c x ∷ last.world.history },
    )
    Delivered (h ∷ hs) last enc =
        (w' : World) × (out : Bytes) × (data_cell v h.st cid (cell_of cmd_data (wire enc)) h.world
          ≡ (ok tt, w'))
        × Sends h.world.history h.next cid (cell_of cmd_data (wire out)) w'.history
        × Delivered hs last out

    pub path_delivers :
        IsReliable env
        → ((b : Bytes) → gob.content.gob_encode (data_payload sid b) ≡ some (wire b))
        → sid ≢ 0
        → (hs : List Hop) (last : Hop) → Ready hs last
        → Delivered hs last (layered hs last x)
    path_delivers net coded ne [] last (key, goes) =
        data_cell-last v laws codec net last.st cid sid c x (wire (layered [] last x)) last.world ne
          key goes (coded (layered [] last x))
    path_delivers net coded ne (h ∷ hs) last (key, visible, down, fits, ready) =
        let inner = layered hs last x in
        let (w', run, sends, _) =
          data_cell-middle v laws codec net h.st cid sid h.next inner
            (wire (layered (h ∷ hs) last x)) (wire inner) h.world ne key visible down
            (coded (layered (h ∷ hs) last x)) (coded inner) fits in
        (w', inner, run, sends, path_delivers net coded ne hs last ready)

    sealed :
        (hs : List Hop) (last : Hop)
        → Ready hs last
        → seal_loop aead (keys_of hs last) (nonces_of hs last) x ≡ ok (layered hs last x)
    unfolding seal_loop
    sealed [] last (key, goes) = aes_seal_lem aead laws _ _ x key
    sealed (h ∷ hs) last (key, visible, down, fits, ready) =
        ap
          (λ (r : Result Bytes).
            r >>= λ out. aes_seal aead (state_of h).key (next_data_nonce (state_of h)) out)
          (sealed hs last ready)
        ∙ aes_seal_lem aead laws _ _ (layered hs last x) key

    same_length :
        (hs : List Hop) (last : Hop) → length (keys_of hs last) ≡ length (nonces_of hs last)
    same_length [] last = refl
    same_length (h ∷ hs) last = ap suc (same_length hs last)

    pub multi_sealed :
        (hs : List Hop) (last : Hop)
        → Ready hs last
        → aes_multi_seal aead (keys_of hs last) (nonces_of hs last) x ≡ ok (layered hs last x)
    unfolding aes_multi_seal
    multi_sealed hs last ready = ground (arith, same_length hs last, sealed hs last ready)

    -- Sealing under the keys and next DATA nonces of the relays of a circuit, first to last,
    -- succeeds, and a DATA cell with the result goes from relay to relay, each handling what the
    -- one before it sent, until the last one writes exactly the plaintext to the connection of the
    -- stream. The network takes every write, the encoder does not fail and decoding undoes it,
    -- every forwarded layer fits in a cell, the keys have 32 bytes, and the relays in front are
    -- not hidden and have a next hop.
    pub data_cell-path :
        IsReliable env
        → ((b : Bytes) → gob.content.gob_encode (data_payload sid b) ≡ some (wire b))
        → sid ≢ 0
        → (hs : List Hop) (last : Hop) → Ready hs last
        → (enc : Bytes) × (aes_multi_seal aead (keys_of hs last) (nonces_of hs last) x ≡ ok enc)
          × Delivered hs last enc
    data_cell-path net coded ne hs last ready =
        (layered hs last x, multi_sealed hs last ready, path_delivers net coded ne hs last ready)
