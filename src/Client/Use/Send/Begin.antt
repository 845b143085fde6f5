-- ===== src/Client/Use/Send/Begin.antt =====
-- What send_data_usecase.go puts on the first connection of a circuit for BEGIN.
use go_ptor.Common.{ℕ, ◌≡◌, ◌≢◌, ◌≤◌, refl, length, All, some, true, String}
use go_ptor.Common.Result.{ok}
use go_ptor.Value.Command.{cmd_begin}
use go_ptor.Value.Circuit.{CircuitId}
use go_ptor.Value.Stream.{stream_id_from-ok}
use go_ptor.Cell.{Bytes, max_payload_size}
use go_ptor.Crypto.{IsAead, aes_multi_seal}
use go_ptor.Crypto.Onion.{IsKey}
use go_ptor.Net.{History, circuit_id_from}
use go_ptor.Wire.{send_to_connection, forward_cell}
use go_ptor.Wire.Framing.{Sends}
use go_ptor.Wire.Reliable.{IsReliable, forward_cell-reliable}
use go_ptor.Relay.Use.Begin.{cell_of}
use go_ptor.Client.World.{World, Address, Services, put_circuit}
use go_ptor.Client.Repository.{find_address, find}
use go_ptor.Client.Circuit.{hop_begin_nonce, hop_begin_nonce_peek, active_streams, conn}
use go_ptor.Client.Circuit.Hops.{peeks, begin-IsPerHop}
use go_ptor.Client.Use.Send.{hop_keys, hop_nonces, next_nonce, contains, send_data}
use go_ptor.Client.Use.Send.Onion.{onion_of, new_cell-ok}

module _ (v : Services) (laws : IsAead v.aead) where
  open v use {env, aead}

  -- The BEGIN cell holds the onion of the payload under the hops' keys and next BEGIN nonces, and
  -- every hop's BEGIN nonce is taken once.
  pub send_data-begin :
      IsReliable env
      → (text : String) (cid : CircuitId) (p : Address) (sid d : ℕ) (plain enc : Bytes) (w : World)
      → circuit_id_from env text ≡ ok cid
      → sid ≢ 0
      → find_address cid w ≡ some p
      → contains sid (active_streams (w.objects p)) ≡ true
      → conn 0 (w.objects p) ≡ some d
      → All IsKey (hop_keys (length (w.objects p).hops) 0 (w.objects p))
      → aes_multi_seal aead
          (hop_keys (length (w.objects p).hops) 0 (w.objects p))
          (peeks hop_begin_nonce_peek (length (w.objects p).hops) 0 (w.objects p))
          plain
        ≡ ok enc
      → length enc ≤ max_payload_size
      → (h : History) × Sends w.history d cid (cell_of cmd_begin enc) h
        × (send_data v text sid plain cmd_begin w ≡ (
          ok (length plain),
          record (put_circuit p
              (hop_nonces hop_begin_nonce (length (w.objects p).hops) 0 (w.objects p)).1
              w) { history = h },
        ))
  unfolding send_data find send_to_connection forward_cell next_nonce
  send_data-begin net text cid p sid d plain enc w named ne known active wired keys sealed small =
      let c = w.objects p in
      let (enc', again, taken, unsealed) =
        onion_of v laws hop_begin_nonce hop_begin_nonce_peek begin-IsPerHop c plain keys in
      let same : enc' ≡ enc = cc (again, sealed) in
      let (h, sends, shape) =
        forward_cell-reliable env net d cid (cell_of cmd_begin enc) w.history small in
      (
        h,
        shape,
        rw
            (
              named,
              send_data,
              stream_id_from-ok sid ne,
              known,
              active,
              taken,
              same,
              new_cell-ok cmd_begin enc small,
              wired,
              sends,
            )
            refl,
      )
