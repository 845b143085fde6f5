-- ===== src/Client/Use/Receive.antt =====
-- receive_cell_usecase.go, decrypt_cell_data_usecase.go, and the loop over them, recvLoop of
-- cmd/client/handler/socks5_controller.go.
pub mod Layers
pub mod Kept
pub mod Ends
use go_ptor.Common.{
  ℕ, zero, suc, Bool, true, false, Option, none, some, List, [], ◌∷◌, ◌==◌, if◌then◌else◌, length,
  String,
}
use go_ptor.Common.Result.{Result, Error, ok, err, panic, eof, nil_connection}
use go_ptor.Common.Exec.{Exec, pure, fail, lift, gets, modify, on_error, ignore, ◌>>=◌, ◌>>◌}
use go_ptor.Value.Command.{CellCommand, cmd_data, cmd_end, cmd_destroy}
use go_ptor.Value.Circuit.{CircuitId}
use go_ptor.Value.Stream.{StreamId}
use go_ptor.Cell.{Bytes, Cell}
use go_ptor.Crypto.{aes_open}
use go_ptor.Net.{Conn, circuit_id_from, read_conn, write}
use go_ptor.Payload.{DataPayload, decode_payload}
use go_ptor.Wire.{read_cell}
use go_ptor.Client.Circuit.{Circuit, hop_key, hop_upstream_data_nonce, conn}
use go_ptor.Client.World.{World, Address, Act, Services, net, get_circuit, put_circuit}
use go_ptor.Client.Repository.{find}
use go_ptor.Client.Streams.{get, remove, close_all}

-- ReceiveCellOutput: a cell with its circuit, or IsEOF.
pub data Received : Type 0 where
  received : Cell → Address → Received
  is_eof : Received

pub record CellData : Type 0 where
  pub stream_id : StreamId
  pub content : Bytes
  pub command : CellCommand

pub record Decrypted : Type 0 where
  pub cell_data : Option CellData
  pub should_close : Bool

unfoldable pub is_end : Error → Bool
is_end eof = true
is_end _ = false

-- Runs a method with pointer receiver on the object at an address.
abbrev pub in_circuit : {A : Type 0} → Exec Circuit A → Address → Act A
in_circuit m p w = ((m (w.objects p)).0, put_circuit p (m (w.objects p)).1 w)

module _ (v : Services) where
  open v use {env, aead, gob}

  unfoldable pub from_conn : Address → Conn → Act Received
  unfolding is_end
  from_conn p none = fail nil_connection
  from_conn p (some c) =
      on_error (net (read_cell env (read_conn env (some c)))) (λ r. pure (received r.1 p))
        (λ e. if is_end e then pure is_eof else fail e)

  unfoldable pub receive_cell : String → Act Received
  unfolding from_conn
  receive_cell circuit_id = do
    cid ← lift (circuit_id_from env circuit_id)
    p ← find cid
    c ← get_circuit p
    from_conn p (conn 0 c)

  -- decryptOnionLayers: the `n` hops from `hop` on. What an opened layer advanced stays advanced
  -- when a later one fails.
  unfoldable pub decrypt_layers : ℕ → ℕ → Bytes → Exec Circuit Bytes
  decrypt_layers zero hop enc = pure enc
  decrypt_layers (suc n) hop enc = do
    key ← gets (hop_key hop)
    nonce ← λ c. (ok (hop_upstream_data_nonce hop c).0, (hop_upstream_data_nonce hop c).1)
    decrypted ← lift (aes_open aead key nonce enc)
    decrypt_layers n (suc hop) decrypted

  unfoldable pub decrypt_onion_layers : Bytes → Exec Circuit Bytes
  unfolding decrypt_layers
  decrypt_onion_layers enc = do n ← gets (λ c. length c.hops); decrypt_layers n 0 enc

  unfoldable pub handle_data_cell : Cell → Exec Circuit CellData
  unfolding decrypt_onion_layers
  handle_data_cell cell = do
    dp ← lift (decode_payload gob.content cell.payload)
    opened ← decrypt_onion_layers dp.content
    pure (record { stream_id = dp.stream_id; content = opened; command = cell.cmd })

  stream_or_zero : Option DataPayload → StreamId
  stream_or_zero none = 0
  stream_or_zero (some p) = p.stream_id

  -- An empty payload is not decoded, and one that does not decode stands for stream 0.
  unfoldable pub end_stream_id : Bytes → StreamId
  unfolding stream_or_zero
  end_stream_id [] = 0
  end_stream_id (b ∷ bs) = stream_or_zero (gob.content.gob_decode (b ∷ bs))

  unfoldable pub handle_end_cell : Cell → CellData
  unfolding end_stream_id
  handle_end_cell cell = record {
    stream_id = end_stream_id cell.payload;
    content = [];
    command = cell.cmd;
  }

  unfoldable pub decrypt_cell_data : Cell → Address → Act Decrypted
  unfolding handle_data_cell handle_end_cell
  decrypt_cell_data cell p =
      if cell.cmd == cmd_data
      then (do
        d ← in_circuit (handle_data_cell cell) p
        pure (record { cell_data = some d; should_close = false }))
      else if cell.cmd == cmd_end
      then (let d = handle_end_cell cell in
          pure (record { cell_data = some d; should_close = d.stream_id == 0 }))
      else if cell.cmd == cmd_destroy
      then pure (record { cell_data = none; should_close = true })
      else pure (record { cell_data = none; should_close = false })

  -- What the loop does next.
  abbrev stop : Act Bool
  stop = modify close_all >> pure false

  unfoldable pub to_stream : Option ℕ → Bytes → Act Bool
  to_stream none b = pure true
  to_stream (some c) b = do ignore (net (write env (some c) b)); pure true

  unfoldable pub deliver : Option CellData → Act Bool
  unfolding to_stream
  deliver none = pure true
  deliver (some d) =
      if d.command == cmd_data
      then (do c ← gets (get d.stream_id); to_stream c d.content)
      else if d.command == cmd_end
      then (if d.stream_id == 0 then stop else modify (remove d.stream_id) >> pure true)
      else pure true

  unfoldable pub process : Received → Act Bool
  unfolding deliver
  process is_eof = stop
  process (received cell p) =
      on_error (decrypt_cell_data cell p)
        (λ d. if d.should_close then stop else deliver d.cell_data) (λ e. stop)

  -- One round of recvLoop: whether there is another one.
  unfoldable pub recv_round : String → Act Bool
  unfolding process
  recv_round circuit_id = on_error (receive_cell circuit_id) process (λ e. stop)

  -- recvLoop, by at most `fuel` rounds; `false` when they did not suffice. `other` is what the
  -- other goroutines of the client do to its state between two rounds.
  unfoldable pub recv_rounds : (World → World) → ℕ → String → Act Bool
  unfolding recv_round
  recv_rounds other zero circuit_id = pure false
  recv_rounds other (suc fuel) circuit_id = do
    more ← recv_round circuit_id
    if more then (do modify other; recv_rounds other fuel circuit_id) else pure true
