-- ===== src/Relay/Use/Extend/Joins.antt =====
-- cmd/relay/usecase/handle_extend_usecase.go on a network that takes every write: what a relay does
-- that joins a circuit, and one in front of it.
use text.Mathlib.Text.{◌==◌ as str_eq}
use go_ptor.Common.{
  ℕ, suc, ◌≤◌, ◌<◌, ◌==◌, ◌≡◌, ◌⊎◌, inl, inr, refl, ==-refl, none, some, false, ◌∷◌, length, arith,
  String,
}
use go_ptor.Common.Map.{lookup-insert_self}
use go_ptor.Common.Result.{ok}
use go_ptor.Value.Circuit.{CircuitId, CircuitId-discrete, IsUuid}
use go_ptor.Value.Command.{cmd_extend}
use go_ptor.Cell.{Bytes, Cell, max_payload_size}
use go_ptor.Crypto.{Key}
use go_ptor.Crypto.Exchange.{x25519_generate, x25519_shared, derive_key_nonce}
use go_ptor.Nonce.{Nonce}
use go_ptor.Net.{Conn, Env, History, drew, dialed, dial, read_conn}
use go_ptor.Payload.{RoundTrips, decode-encode, encode_payload-some}
use go_ptor.Wire.Framing.{Sends}
use go_ptor.Wire.Reliable.{IsReliable, forward_cell-reliable}
use go_ptor.Wire.Answer.{Answers, answered, created, send_created-reliable}
use go_ptor.Wire.Created.{created_header-reads}
use go_ptor.Relay.ConnState.{ConnState, new_conn_state}
use go_ptor.Relay.World.{World, Address, Services, put_state}
use go_ptor.Relay.Repository.{add, find_address}
use go_ptor.Relay.Use.Begin.{cell_of}
use go_ptor.Relay.Use.Extend.{extend, dial_next, to32, forward_extend, forward_created, by_down}

==-positive : (n : ℕ) → 0 < n → (n == 0) ≡ false
==-positive n h = ground arith

-- No next hop is asked for, or the one that is can be dialled.
abbrev pub Dials : Env → String → History → Conn → History → Type 0
Dials env next h down h' =
    ((next ≡ "") × (down ≡ none) × (h' ≡ h))
    ⊎ ((d : ℕ) × (str_eq next "" ≡ false)
        × (env.dial_tcp h next ≡ some d)
        × (down ≡ some d)
        × (h' ≡ dialed next ∷ h))

module _ (v : Services) (net : IsReliable v.env) (cid : CircuitId) where
  open v use {env, gob, exchange}

  dial_next-Dials :
      (next : String) (w : World) (down : Conn) (h' : History)
      → Dials env next w.history down h'
      → dial_next v next w ≡ (ok down, record w { history = h' })
  unfolding dial_next dial
  dial_next-Dials next w down h' (inl (e, none_e, same)) = rw (e, none_e, same) refl
  dial_next-Dials next w down h' (inr (d, e, there, some_e, same)) =
      rw (e, there, some_e, same) refl

  -- The world once the relay has registered a new state for the circuit and answered.
  abbrev pub joined : ℕ → Key → Nonce → Conn → Bytes → History → World → World
  joined up key nonce down payload h' w =
      let s = new_conn_state key nonce (some up) down (env.now h') in
      record (add env cid w.next_address (record (put_state w.next_address s w) {
        history = h';
        next_address = suc w.next_address;
      })) { history = created env up cid payload h' }

  pub extend-joined :
      (up : ℕ) (next : String) (client_pub p secret payload : Bytes) (pair : Bytes × Bytes)
      (key : Key) (nonce : Nonce) (down : Conn) (h' : History) (w : World)
      → RoundTrips gob.extend
      → gob.extend.gob_encode (record { next_hop = next; client_pub = client_pub }) ≡ some p
      → exchange.generate_key w.history ≡ some pair
      → exchange.ecdh pair.0 client_pub ≡ some secret
      → exchange.hkdf secret ≡ some (key, nonce)
      → Dials env next (drew ∷ w.history) down h'
      → gob.created.gob_encode (record { relay_pub = to32 pair.1 }) ≡ some payload
      → extend v (some up) cid (cell_of cmd_extend p) w
        ≡ (ok tt, joined up key nonce down payload h' w)
  unfolding extend x25519_generate x25519_shared derive_key_nonce add
  extend-joined up next client_pub p secret payload pair key nonce down h' w laws coded drawn shared
        derived dials coded' =
      rw
        (
          decode-encode gob.extend _ p laws coded,
          drawn,
          shared,
          derived,
          dial_next-Dials next (record w { history = drew ∷ w.history }) down h' dials,
          encode_payload-some gob.created _ payload coded',
          send_created-reliable env cid net up payload h',
        )
        refl

  pub joined-state :
      (up : ℕ) (key : Key) (nonce : Nonce) (down : Conn) (payload : Bytes) (h' : History)
      (w : World)
      → (joined up key nonce down payload h' w).states w.next_address
        ≡ new_conn_state key nonce (some up) down (env.now h')
  unfolding add new_conn_state
  joined-state up key nonce down payload h' w = rw (==-refl w.next_address) refl

  pub joined-known :
      (up : ℕ) (key : Key) (nonce : Nonce) (down : Conn) (payload : Bytes) (h' : History)
      (w : World)
      → find_address cid (joined up key nonce down payload h' w) ≡ some w.next_address
  unfolding add
  joined-known up key nonce down payload h' w =
      lookup-insert_self CircuitId-discrete cid w.next_address w.circuits

  -- The answer of the next hop is passed on unchanged.
  forward_created-passes :
      (s : ConnState) (cell : Cell) (up d : ℕ) (payload : Bytes) (h h' : History) (w : World)
      → IsUuid cid
      → s.up ≡ some up
      → s.down ≡ some d
      → Answers env d cid cell payload h
      → Sends h d cid cell h'
      → forward_created v cid s (record w { history = h' })
        ≡ (ok tt, record w { history = created env up cid payload (answered d payload h') })
  unfolding forward_created read_conn
  forward_created-passes s cell up d payload h h' w u wired there a sends =
      let (cmd, version, size) = created_header-reads env cid u (length payload) a.short in
      rw
        (
          there,
          read_conn,
          a.header h' sends,
          size,
          ==-positive (length payload) a.positive,
          a.body h' sends,
          wired,
          send_created-reliable env cid net up payload (answered d payload h'),
        )
        refl

  -- A relay in front passes EXTEND on and the answer back, and keeps its state.
  pub forward_extend-passes :
      (st : Address) (cell : Cell) (up d : ℕ) (payload : Bytes) (w : World)
      → IsUuid cid
      → (w.states st).up ≡ some up
      → (w.states st).down ≡ some d
      → length cell.payload ≤ max_payload_size
      → Answers env d cid cell payload w.history
      → (h' : History) × (forward_extend v st cid cell w
          ≡ (ok tt, record w { history = created env up cid payload (answered d payload h') }))
        × Sends w.history d cid cell h'
  unfolding forward_extend by_down
  forward_extend-passes st cell up d payload w u wired there fits a =
      let (h', forwarded, sends) = forward_cell-reliable env net d cid cell w.history fits in
      (
        h',
        rw (there, by_down, forwarded)
            (forward_created-passes (w.states st) cell up d payload w.history h' w u wired there a
              sends),
        sends,
      )
