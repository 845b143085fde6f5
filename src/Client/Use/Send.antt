-- ===== src/Client/Use/Send.antt =====
-- send_data_usecase.go and send_connect_usecase.go: an onion over the nonces of all hops.
pub mod Onion
pub mod Begin
pub mod Connect
use text.Mathlib.Text.{◌==◌ as str_eq}
use go_ptor.Common.{
  ℕ, zero, suc, Bool, false, not, ◌||◌, List, [], ◌∷◌, ◌==◌, if◌then◌else◌, length, String,
}
use go_ptor.Common.Result.{Result, ok, err, stream_not_active, unsupported_command}
use go_ptor.Common.Exec.{pure, fail, lift, ◌>>=◌, ◌>>◌}
use go_ptor.Value.Command.{CellCommand, cmd_data, cmd_begin, cmd_connect}
use go_ptor.Value.Stream.{StreamId, stream_id_from}
use go_ptor.Cell.{Bytes, new_cell}
use go_ptor.Crypto.{Key, aes_multi_seal}
use go_ptor.Nonce.{Nonce}
use go_ptor.Net.{circuit_id_from}
use go_ptor.Payload.{encode_payload}
use go_ptor.Wire.{send_to_connection}
use go_ptor.Client.Circuit.{Circuit, hop_key, hop_begin_nonce, hop_data_nonce, active_streams, conn}
use go_ptor.Client.World.{Act, Services, net, get_circuit, on_circuit}
use go_ptor.Client.Repository.{find}

-- `keys = append(keys, cir.HopKey(i))` for the `n` hops from `i` on
unfoldable pub hop_keys : ℕ → ℕ → Circuit → List Key
hop_keys zero i c = []
hop_keys (suc n) i c = hop_key i c ∷ hop_keys n (suc i) c

-- `nonces = append(nonces, nonce)` for the `n` hops from `i` on
unfoldable pub hop_nonces : (ℕ → Circuit → Nonce × Circuit) → ℕ → ℕ → Circuit → List Nonce × Circuit
hop_nonces next zero i c = ([], c)
hop_nonces next (suc n) i c =
    let r = next i c in let rest = hop_nonces next n (suc i) r.1 in (r.0 ∷ rest.0, rest.1)

-- `if cmd == vo.CmdBegin { … } else { … }`
unfoldable pub next_nonce : CellCommand → ℕ → Circuit → Nonce × Circuit
unfolding hop_begin_nonce hop_data_nonce
next_nonce cmd i c = if cmd == cmd_begin then hop_begin_nonce i c else hop_data_nonce i c

-- The loop over ActiveStreams that sets `active`.
unfoldable pub contains : StreamId → List StreamId → Bool
contains sid [] = false
contains sid (s ∷ ss) = s == sid || contains sid ss

module _ (v : Services) where
  open v use {env, aead, gob}

  -- `switch cmd`
  unfoldable pub payload_of : CellCommand → StreamId → Bytes → Result Bytes
  payload_of cmd sid enc =
      if cmd == cmd_data
      then encode_payload gob.content (record { stream_id = sid; content = enc })
      else if cmd == cmd_begin
      then ok enc
      else err unsupported_command

  -- `cmd := in.Cmd; if cmd == 0 { cmd = vo.CmdData }`
  unfoldable pub or_data : CellCommand → CellCommand
  or_data cmd = if cmd == 0 then cmd_data else cmd

  -- BytesSent
  unfoldable pub send_data : String → ℕ → Bytes → CellCommand → Act ℕ
  unfolding hop_keys hop_nonces next_nonce contains payload_of or_data
  send_data circuit_id stream_id plain cmd_in = do
    cid ← lift (circuit_id_from env circuit_id)
    sid ← lift (stream_id_from stream_id)
    p ← find cid
    c ← get_circuit p
    if not (contains sid (active_streams c)) then fail stream_not_active else (do
      let cmd = or_data cmd_in
      nonces ← on_circuit (hop_nonces (next_nonce cmd) (length c.hops) 0) p
      enc ← lift (aes_multi_seal aead (hop_keys (length c.hops) 0 c) nonces plain)
      payload ← lift (payload_of cmd sid enc)
      cell ← lift (new_cell cmd payload)
      net (send_to_connection env cell (conn 0 c) cid)
      pure (length plain))

  -- `if in.Target != "" { … }`
  unfoldable pub connect_payload : String → Result Bytes
  connect_payload target =
      if str_eq target "" then ok [] else encode_payload gob.connect (record { target = target })

  unfoldable pub send_connect : String → String → Act (Unit {0})
  unfolding hop_keys hop_nonces connect_payload
  send_connect circuit_id target = do
    cid ← lift (circuit_id_from env circuit_id)
    p ← find cid
    payload ← lift (connect_payload target)
    c ← get_circuit p
    nonces ← on_circuit (hop_nonces hop_begin_nonce (length c.hops) 0) p
    enc ← lift (aes_multi_seal aead (hop_keys (length c.hops) 0 c) nonces payload)
    cell ← lift (new_cell cmd_connect enc)
    net (send_to_connection env cell (conn 0 c) cid)
