-- ===== src/Client/Use/Send/Onion.antt =====
-- What send_data_usecase.go puts on the first connection of a circuit.
use go_ptor.Common.{
  ℕ, zero, suc, ◌≡◌, ◌≢◌, ◌≤◌, refl, ap, ap₂, sym, ◌∙◌, arith, ◌∷◌, length, All, some, true, String,
}
use go_ptor.Common.Result.{ok}
use go_ptor.Value.Command.{cmd_data}
use go_ptor.Value.Circuit.{CircuitId}
use go_ptor.Value.Stream.{stream_id_from-ok}
use go_ptor.Cell.{Bytes, max_payload_size, new_cell}
use go_ptor.Crypto.{IsAead, aes_multi_seal, aes_multi_open}
use go_ptor.Crypto.Onion.{IsKey, aes_multi_open-aes_multi_seal}
use go_ptor.Nonce.{Nonce}
use go_ptor.Net.{History, circuit_id_from}
use go_ptor.Payload.{encode_payload-some}
use go_ptor.Wire.{send_to_connection, forward_cell}
use go_ptor.Wire.Framing.{Sends}
use go_ptor.Wire.Reliable.{IsReliable, forward_cell-reliable}
use go_ptor.Relay.Use.Begin.{cell_of}
use go_ptor.Client.World.{World, Address, Services, put_circuit}
use go_ptor.Client.Repository.{find_address, find}
use go_ptor.Client.Circuit.{Circuit, hop_data_nonce, hop_data_nonce_peek, active_streams, conn}
use go_ptor.Client.Circuit.Hops.{peeks, IsPerHop, peeks-next, data-IsPerHop}
use go_ptor.Client.Use.Send.{hop_keys, hop_nonces, contains, send_data}

module _ (next : ℕ → Circuit → Nonce × Circuit) (peek : ℕ → Circuit → Nonce)
    (fair : IsPerHop next peek) where
  -- The loop that takes a nonce from each of `n` hops gets those that the hops had next.
  pub hop_nonces_lem : (n i : ℕ) (c : Circuit) → (hop_nonces next n i c).0 ≡ peeks peek n i c
  unfolding hop_nonces
  hop_nonces_lem zero i c = refl
  hop_nonces_lem (suc n) i c =
      ap₂ (λ a b. a ∷ b) (fair.takes i c)
        (hop_nonces_lem n (suc i) (next i c).1
          ∙ peeks-next next peek fair n i (suc i) c (omega arith))

pub length-hop_keys : (n i : ℕ) (c : Circuit) → length (hop_keys n i c) ≡ n
unfolding hop_keys
length-hop_keys zero i c = refl
length-hop_keys (suc n) i c = ground (arith, length-hop_keys n (suc i) c)

pub length-peeks :
    (peek : ℕ → Circuit → Nonce) (n i : ℕ) (c : Circuit) → length (peeks peek n i c) ≡ n
length-peeks peek zero i c = refl
length-peeks peek (suc n) i c = ground (arith, length-peeks peek n (suc i) c)

pub new_cell-ok :
    (cmd : ℕ) (payload : Bytes)
    → length payload ≤ max_payload_size
    → new_cell cmd payload ≡ ok (cell_of cmd payload)
unfolding new_cell
new_cell-ok cmd payload fits = ground arith

module _ (v : Services) (laws : IsAead v.aead) where
  open v use {env, aead, gob}

  pub onion_of :
      (next : ℕ → Circuit → Nonce × Circuit) (peek : ℕ → Circuit → Nonce)
      → IsPerHop next peek
      → (c : Circuit) (plain : Bytes) → All IsKey (hop_keys (length c.hops) 0 c)
      → (enc : Bytes) × (aes_multi_seal aead
            (hop_keys (length c.hops) 0 c)
            (peeks peek (length c.hops) 0 c)
            plain
          ≡ ok enc)
        × (aes_multi_seal aead
              (hop_keys (length c.hops) 0 c)
              (hop_nonces next (length c.hops) 0 c).0
              plain
            ≡ ok enc)
        × (aes_multi_open aead (hop_keys (length c.hops) 0 c) (peeks peek (length c.hops) 0 c) enc
            ≡ ok plain)
  onion_of next peek fair c plain keys =
      let n = length c.hops in
      let (enc, sealed, unsealed) =
        aes_multi_open-aes_multi_seal aead laws (hop_keys n 0 c) (peeks peek n 0 c) plain
          (length-hop_keys n 0 c ∙ sym (length-peeks peek n 0 c)) keys in
      (
        enc,
        sealed,
        ap (λ ns. aes_multi_seal aead (hop_keys n 0 c) ns plain)
              (hop_nonces_lem next peek fair n 0 c)
            ∙ sealed,
        unsealed,
      )

  -- On an active stream of a known circuit with 32-byte keys, when the network takes every write,
  -- the encoder does not fail and the encoded onion fits in a cell, the client sends one DATA cell
  -- on the first connection. It holds the onion of the data under the hops' keys and next DATA
  -- nonces, which they open to the data, and every hop's DATA nonce is taken once.
  pub send_data-onion :
      IsReliable env
      → (text : String) (cid : CircuitId) (p : Address) (sid d : ℕ) (plain : Bytes) (w : World)
        (wire : Bytes → Bytes)
      → circuit_id_from env text ≡ ok cid
      → sid ≢ 0
      → find_address cid w ≡ some p
      → contains sid (active_streams (w.objects p)) ≡ true
      → conn 0 (w.objects p) ≡ some d
      → All IsKey (hop_keys (length (w.objects p).hops) 0 (w.objects p))
      → ((b : Bytes)
          → gob.content.gob_encode (record { stream_id = sid; content = b }) ≡ some (wire b))
      → ((enc : Bytes)
          → aes_multi_seal aead
              (hop_keys (length (w.objects p).hops) 0 (w.objects p))
              (peeks hop_data_nonce_peek (length (w.objects p).hops) 0 (w.objects p))
              plain
            ≡ ok enc
          → length (wire enc) ≤ max_payload_size)
      → (enc : Bytes) × (aes_multi_seal aead
            (hop_keys (length (w.objects p).hops) 0 (w.objects p))
            (peeks hop_data_nonce_peek (length (w.objects p).hops) 0 (w.objects p))
            plain
          ≡ ok enc)
        × (aes_multi_open aead
              (hop_keys (length (w.objects p).hops) 0 (w.objects p))
              (peeks hop_data_nonce_peek (length (w.objects p).hops) 0 (w.objects p))
              enc
            ≡ ok plain)
        × (h : History) × Sends w.history d cid (cell_of cmd_data (wire enc)) h
        × (send_data v text sid plain 0 w ≡ (
          ok (length plain),
          record (put_circuit p
              (hop_nonces hop_data_nonce (length (w.objects p).hops) 0 (w.objects p)).1
              w) { history = h },
        ))
  unfolding send_data find send_to_connection forward_cell
  send_data-onion net text cid p sid d plain w wire named ne known active wired keys coded fits =
      let c = w.objects p in
      let (enc, sealed, taken, unsealed) =
        onion_of hop_data_nonce hop_data_nonce_peek data-IsPerHop c plain keys in
      let small = fits enc sealed in
      let (h, sends, shape) =
        forward_cell-reliable env net d cid (cell_of cmd_data (wire enc)) w.history small in
      (
        enc,
        sealed,
        unsealed,
        h,
        shape,
        rw
            (
              named,
              send_data,
              stream_id_from-ok sid ne,
              known,
              active,
              taken,
              encode_payload-some gob.content _ (wire enc) (coded enc),
              new_cell-ok cmd_data (wire enc) small,
              wired,
              sends,
            )
            refl,
      )
