-- ===== src/Relay/Use/Begin/Hops.antt =====
-- What one relay does with a BEGIN cell (cmd/relay/usecase/handle_begin_usecase.go).
use go_ptor.Common.{
  ℕ, ◌≡◌, ◌≢◌, ◌≤◌, length, subst, ap₂, ◌∙◌, refl, false, none, some, [], ◌∷◌, ==-refl, arith,
  String,
}
use go_ptor.Common.Result.{ok}
use go_ptor.Value.Command.{cmd_begin, cmd_begin_ack}
use go_ptor.Value.Circuit.{CircuitId}
use go_ptor.Value.Stream.{stream_id_from-ok}
use go_ptor.Cell.{Bytes, max_payload_size}
use go_ptor.Crypto.{IsAead}
use go_ptor.Crypto.Onion.{IsKey, aes_open-seal}
use go_ptor.Nonce.{Nonce, modify_nonce_with_sequence, increment}
use go_ptor.Net.{Conn, History, dialed, dial}
use go_ptor.Payload.{RoundTrips, decode-encode}
use go_ptor.Wire.{forward_cell}
use go_ptor.Wire.Framing.{Sends}
use go_ptor.Wire.Reliable.{IsReliable, forward_cell-reliable}
use go_ptor.Relay.ConnState.{ConnState, begin_nonce}
use go_ptor.Relay.World.{World, Address, Services, net, net-ok, put_state, forward_upstream}
use go_ptor.Relay.Repository.{get_stream, add_stream}
use go_ptor.Relay.Repository.Laws.{get_stream-add_stream}
use go_ptor.Relay.Use.{ensure_serve_down, ensure_serve_down_lem}
use go_ptor.Relay.Use.Begin.{cell_of, begin, begin_opened, begin_forward, begin_exit, begin_dialed}

-- The nonce that a state uses next for BEGIN and CONNECT.
abbrev pub next_begin_nonce : ConnState → Nonce
next_begin_nonce s = modify_nonce_with_sequence s.base_nonce s.begin_counter

-- The state and the world once the BEGIN counter has moved on.
abbrev pub begun : ConnState → ConnState
begun s = record s { begin_counter = increment s.begin_counter }

abbrev pub begun_world : Address → World → World
begun_world st w = put_state st (begun (w.states st)) w

-- The world of the exit relay once it has answered: the stream has connection `d`, whose reads
-- are forwarded upstream.
abbrev pub exited_world : Address → CircuitId → ℕ → ℕ → History → World → World
exited_world st cid sid d h w = record (add_stream cid sid (some d) (begun_world st w)) {
  history = h;
  tasks = forward_upstream st cid sid (some d) ∷ w.tasks;
}

module _ (v : Services) (laws : IsAead v.aead) where
  open v use {env, aead, gob}

  -- A BEGIN cell with what the circuit's key and next BEGIN nonce sealed is opened with them.
  begin_opened-seal :
      (st : Address) (cid : CircuitId) (x : Bytes) (w : World)
      → IsKey (w.states st).key
      → begin v st cid
          (cell_of cmd_begin (aead.gcm_seal (w.states st).key (next_begin_nonce (w.states st)) x))
          w
        ≡ begin_opened v st cid x
            (begun (w.states st))
            (w.states st).hidden
            (w.states st).down
            (begun_world st w)
  unfolding begin begin_nonce
  begin_opened-seal st cid x w key = rw (==-refl st, aes_open-seal aead laws _ _ x key) refl

  begin_forward-eq :
      (st : Address) (cid : CircuitId) (x : Bytes) (down : Conn) (w : World)
      → begin_forward v st cid x down w
        ≡ net (forward_cell env down cid (cell_of cmd_begin x)) (ensure_serve_down st w).1
  unfolding begin_forward
  begin_forward-eq st cid x down w = rw ((ensure_serve_down_lem st w).0, begin_forward) refl

  -- A middle relay that is not hidden passes BEGIN on with one layer less.
  pub begin-middle :
      IsReliable env
      → (st : Address) (cid : CircuitId) (d : ℕ) (x : Bytes) (w : World) → IsKey (w.states st).key
      → (w.states st).hidden ≡ false
      → (w.states st).down ≡ some d
      → length x ≤ max_payload_size
      → (h : History) × (begin v st cid
            (cell_of cmd_begin (aead.gcm_seal (w.states st).key (next_begin_nonce (w.states st)) x))
            w
          ≡ (ok tt, record (ensure_serve_down st (begun_world st w)).1 { history = h }))
        × Sends w.history d cid (cell_of cmd_begin x) h
  unfolding begin_opened
  begin-middle reliable st cid d x w key visible there fits =
      let start : World = begun_world st w in
      let before : World = (ensure_serve_down st start).1 in
      let (h', forwarded, sends) =
        forward_cell-reliable env reliable d cid (cell_of cmd_begin x) before.history fits in
      (
        h',
        begin_opened-seal st cid x w key
            ∙ ap₂ (λ b c. begin_opened v st cid x (begun (w.states st)) b c start) visible there
            ∙ begin_forward-eq st cid x (some d) start
            ∙ net-ok (forward_cell env (some d) cid (cell_of cmd_begin x)) before forwarded,
        subst (λ h. Sends h d cid (cell_of cmd_begin x) h') (ensure_serve_down_lem st start).1
            sends,
      )

  -- The exit relay dials the target, registers the stream and answers.
  pub begin-exit :
      IsReliable env
      → RoundTrips gob.begin
      → (st : Address) (cid : CircuitId) (sid up d : ℕ) (target : String) (x : Bytes) (w : World)
      → sid ≢ 0
      → IsKey (w.states st).key
      → (w.states st).hidden ≡ false
      → (w.states st).down ≡ none
      → (w.states st).up ≡ some up
      → gob.begin.gob_encode (record { stream_id = sid; target = target }) ≡ some x
      → env.dial_tcp w.history target ≡ some d
      → (h : History) × (begin v st cid
            (cell_of cmd_begin (aead.gcm_seal (w.states st).key (next_begin_nonce (w.states st)) x))
            w
          ≡ (ok tt, exited_world st cid sid d h w))
        × Sends (dialed target ∷ w.history) up cid (cell_of cmd_begin_ack []) h
  unfolding begin_opened begin_exit begin_dialed dial add_stream
  begin-exit reliable codec st cid sid up d target x w ne key visible none_down wired coded there =
      let (h, sent, sends) =
        forward_cell-reliable env reliable up cid (cell_of cmd_begin_ack [])
          (dialed target ∷ w.history) (omega arith) in
      (
        h,
        begin_opened-seal st cid x w key
            ∙ ap₂ (λ b c. begin_opened v st cid x (begun (w.states st)) b c (begun_world st w))
                visible none_down
            ∙ rw
                (
                  decode-encode gob.begin _ x codec coded,
                  stream_id_from-ok sid ne,
                  there,
                  dial,
                  wired,
                  sent,
                )
                refl,
        sends,
      )

pub exited-stream :
    (st : Address) (cid : CircuitId) (sid d : ℕ) (h : History) (w : World)
    → get_stream cid sid (exited_world st cid sid d h w) ≡ ok (some d)
unfolding get_stream add_stream
exited-stream st cid sid d h w = (get_stream-add_stream cid sid (some d) w).0 sid ∙ ground arith
