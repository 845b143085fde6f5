-- ===== src/Relay/Use/Extend.antt =====
-- cmd/relay/usecase/handle_extend_usecase.go
pub mod Joins
use text.Mathlib.Text.{◌==◌ as str_eq}
use go_ptor.Common.{none, some, ◌++◌, ◌==◌, if◌then◌else◌, take, replicate, get_or, String}
use go_ptor.Common.Result.{no_downstream, malformed_created}
use go_ptor.Common.Exec.{pure, lift, modify, gets, fail, ◌>>=◌, ◌>>◌}
use go_ptor.Value.Circuit.{CircuitId}
use go_ptor.Cell.{Bytes, Cell, uint16}
use go_ptor.Crypto.Exchange.{x25519_generate, x25519_shared, derive_key_nonce}
use go_ptor.Net.{Conn, dial, read_conn}
use go_ptor.Payload.{encode_payload, decode_payload}
use go_ptor.Wire.{forward_cell, send_created}
use go_ptor.Relay.ConnState.{ConnState, new_conn_state}
use go_ptor.Relay.World.{Address, Act, Services, net, get_state, allocate}
use go_ptor.Relay.Repository.{add}

-- copy into a [32]byte
unfoldable pub to32 : Bytes → Bytes
to32 b = take 32 (b ++ replicate 32 0)

module _ (v : Services) where
  open v use {env, aead, gob, exchange}

  -- `if p.NextHop != "" { … }`
  unfoldable pub dial_next : String → Act Conn
  dial_next hop =
      if str_eq hop "" then pure none else (do down ← net (dial env hop); pure (some down))

  unfoldable pub extend : Conn → CircuitId → Cell → Act (Unit {0})
  unfolding x25519_generate x25519_shared derive_key_nonce dial_next new_conn_state to32
  extend up cid cell = do
    p ← lift (decode_payload gob.extend cell.payload)
    pair ← net (x25519_generate exchange)
    secret ← lift (x25519_shared exchange pair.0 p.client_pub)
    derived ← lift (derive_key_nonce exchange secret)
    down ← dial_next p.next_hop
    now ← gets (λ w. env.now w.history)
    st ← allocate (new_conn_state derived.0 derived.1 up down now)
    modify (add env cid st)
    payload ← lift (encode_payload gob.created (record { relay_pub = to32 pair.1 }))
    net (send_created env up cid payload)

  -- The answer of the next hop is read from the connection and passed on; the first 18 bytes of its
  -- header are not looked at.
  unfoldable pub forward_created : CircuitId → ConnState → Act (Unit {0})
  unfolding uint16
  forward_created cid s = do
    hdr ← net (read_conn env s.down 20)
    let l = uint16 (get_or hdr 18 0) (get_or hdr 19 0)
    if l == 0
        then fail malformed_created
        else (do payload ← net (read_conn env s.down l); net (send_created env s.up cid payload))

  unfoldable pub by_down : CircuitId → Cell → ConnState → Conn → Act (Unit {0})
  unfolding forward_created
  by_down cid cell s none = fail no_downstream
  by_down cid cell s (some d) = do net (forward_cell env (some d) cid cell); forward_created cid s

  unfoldable pub forward_extend : Address → CircuitId → Cell → Act (Unit {0})
  unfolding by_down
  forward_extend st cid cell = do s ← get_state st; by_down cid cell s s.down
