-- ===== src/Session/Handshake.antt =====
-- One round of the loop over the hops in cmd/client/usecase/build_circuit_usecase.go, and the relay
-- that joins the circuit by it (cmd/relay/usecase/handle_extend_usecase.go).
use go_ptor.Common.{
  ℕ, ◌≤◌, ◌≡◌, refl, false, none, some, ◌∷◌, ◌++◌, length, take, replicate, take-append, arith,
  String, subst,
}
use go_ptor.Common.Result.{ok}
use go_ptor.Value.Circuit.{CircuitId, IsUuid}
use go_ptor.Value.Command.{cmd_extend}
use go_ptor.Cell.{Bytes, Cell, max_payload_size}
use go_ptor.Cell.Aggregate.{RelayCell, new_relay_cell}
use go_ptor.Crypto.{Key}
use go_ptor.Crypto.Exchange.{Exchange, x25519_generate, x25519_shared, derive_key_nonce}
use go_ptor.Crypto.Agreement.{Agreement}
use go_ptor.Nonce.{Nonce}
use go_ptor.Net.{Conn, Env, History, drew}
use go_ptor.Payload.{RoundTrips, decode-encode, encode_payload-some}
use go_ptor.Wire.Framing.{Sends}
use go_ptor.Wire.Reliable.{IsReliable}
use go_ptor.Wire.Answer.{
  Answers, answered, created, send_extend_cell-reliable, wait_for_created_response-answered,
}
use go_ptor.Relay.ConnState.{new_conn_state}
use go_ptor.Relay.World.{World}
use go_ptor.Relay.Repository.{find_address}
use go_ptor.Relay.Use.Begin.{cell_of}
use go_ptor.Relay.Use.Extend.{to32}
use go_ptor.Relay.Use.Extend.Joins.{Dials}
use go_ptor.Relay.Handler.{handle_cell}
use go_ptor.Relay.Handler.Joining.{handle_cell-joins}
use go_ptor.Client.World.{Services}
use go_ptor.Client.Directory.{Relay}
use go_ptor.Client.Use.Build.{extend_round}
use go_ptor.Session.EndToEnd.{relays}

-- A relay that is asked to join: what the directory says of it, its process before, the connection
-- that EXTEND comes in on, the one it makes to the next relay, and what it has done by then.
pub record Party : Type 0 where
  pub relay : Relay
  pub world : World
  pub up : ℕ
  pub next : ℕ
  pub dialled : History

to32-eq : (b : Bytes) → length b ≡ 32 → to32 b ≡ b
unfolding to32
to32-eq b e = subst (λ n. take n (b ++ replicate 32 0) ≡ b) e (take-append b (replicate 32 0))

extend_cell-new :
    (cid : CircuitId) (p : Bytes)
    → length p ≤ max_payload_size
    → (rc : RelayCell) × (new_relay_cell cmd_extend cid 0 p ≡ ok rc)
      × (rc.cell ≡ cell_of cmd_extend p)
      × (rc.circuit_id ≡ cid)
unfolding new_relay_cell
extend_cell-new cid p fits = (
  record { cell = cell_of cmd_extend p; circuit_id = cid; stream_id = 0; end = false },
  ground arith,
  refl,
  refl,
)

module _ (v : Services) (env : Env) (exchange : Exchange) (a : Agreement v.exchange exchange)
    (asks : String → Bytes → Bytes) (tells : Bytes → Bytes) (c : ℕ) (cid : CircuitId) where
  -- What the client asks a relay at some point, what the relay tells it, and what both derive.
  abbrev pub asked : String → History → Cell
  asked next h = cell_of cmd_extend (asks next (a.pair h).1)

  abbrev pub told : Party → Bytes
  told p = tells (a.pair' p.world.history).1

  abbrev pub agreed : History → Party → Key × Nonce
  agreed h p = a.derived (a.secret (a.pair h) (a.pair' p.world.history))

  -- The relay does not know the circuit yet and can dial the next one, the request is encoded and
  -- fits in a cell, and the client, once it has sent it, reads what the relay tells it.
  pub record Willing (next : String) (down : Conn) (p : Party) : Type 0 where
    pub fresh : find_address cid p.world ≡ none
    pub dials : Dials env next (drew ∷ p.world.history) down p.dialled
    pub coded :
        (b : Bytes)
        → v.gob.extend.gob_encode (record { next_hop = next; client_pub = b }) ≡ some (asks next b)
    pub fits : (b : Bytes) → length b ≡ 32 → length (asks next b) ≤ max_payload_size
    pub delivered : (h : History) → Answers v.env c cid (asked next h) (told p) (drew ∷ h)

  -- The client, at `h`, asks the relay to join and has the answer at `h'`; the relay knows the
  -- circuit then, with the key and base nonce that the client derived and all counters at 0.
  pub record Joined (h : History) (next : String) (down : Conn) (p : Party) (h' : History)
      : Type 0 where
    pub sent : History
    pub after : World
    pub sends : Sends (drew ∷ h) c cid (asked next h) sent
    pub reads : h' ≡ answered c (told p) sent
    pub handled :
        handle_cell (relays v env exchange) (some p.up) cid (asked next h) p.world ≡ (ok tt, after)
    pub state :
        after.states p.world.next_address
        ≡ new_conn_state (agreed h p).0 (agreed h p).1 (some p.up) down (env.now p.dialled)
    pub known : find_address cid after ≡ some p.world.next_address
    pub answers : after.history ≡ created env p.up cid (told p) p.dialled

  module _ (u : IsUuid cid) (net : IsReliable v.env) (net' : IsReliable env)
      (codec : RoundTrips v.gob.extend) (codec' : RoundTrips v.gob.created)
      (coded' : (b : Bytes)
        → v.gob.created.gob_encode (record { relay_pub = b }) ≡ some (tells b)) where
    -- The client's round succeeds.
    round_sent :
        (h : History) (next : String) (down : Conn) (p : Party)
        → Willing next down p
        → (sent : History) × Sends (drew ∷ h) c cid (asked next h) sent
          × (extend_round v c cid next h ≡ (ok (agreed h p), answered c (told p) sent))
    unfolding extend_round x25519_generate x25519_shared derive_key_nonce
    round_sent h next down p w =
        let fits = w.fits (a.pair h).1 (a.size h) in
        let (rc, made, cell, circuit) = extend_cell-new cid (asks next (a.pair h).1) fits in
        let (sent, run, sends) =
          send_extend_cell-reliable v.env cid net c (asked next h) (drew ∷ h) fits in
        (
          sent,
          sends,
          rw
              (
                a.draws h,
                to32-eq (a.pair h).1 (a.size h),
                encode_payload-some v.gob.extend _ _ (w.coded (a.pair h).1),
                made,
                cell,
                circuit,
                run,
                wait_for_created_response-answered v.env cid u c (asked next h) (told p) (drew ∷ h)
                    sent (w.delivered h) sends,
                decode-encode v.gob.created (record { relay_pub = (a.pair' p.world.history).1 }) _
                    codec' (coded' _),
                a.shares h p.world.history,
                a.derives (a.secret (a.pair h) (a.pair' p.world.history)),
              )
              refl,
        )

    -- One round, seen from both sides.
    pub round-Joined :
        (h : History) (next : String) (down : Conn) (p : Party)
        → Willing next down p
        → (h' : History) × (extend_round v c cid next h ≡ (ok (agreed h p), h'))
          × Joined h next down p h'
    round-Joined h next down p w =
        let (sent, sends, run) = round_sent h next down p w in
        let same = to32-eq (a.pair' p.world.history).1 (a.size' p.world.history) in
        let (after, handled, state, known, answers) =
          handle_cell-joins (relays v env exchange) cid net' p.up next (a.pair h).1
            (asks next (a.pair h).1) (a.secret (a.pair h) (a.pair' p.world.history)) (told p)
            (a.pair' p.world.history) (agreed h p).0 (agreed h p).1 down p.dialled p.world codec
            w.fresh (w.coded (a.pair h).1) (a.draws' p.world.history) (a.shares' h p.world.history)
            (a.derives' (a.secret (a.pair h) (a.pair' p.world.history))) w.dials
            (rw same (coded' (a.pair' p.world.history).1)) in
        (
          answered c (told p) sent,
          run,
          record {
            sent = sent;
            after = after;
            sends = sends;
            reads = refl;
            handled = handled;
            state = state;
            known = known;
            answers = answers;
          },
        )
