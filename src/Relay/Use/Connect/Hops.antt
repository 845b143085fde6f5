-- ===== src/Relay/Use/Connect/Hops.antt =====
-- What one relay does with a CONNECT cell (cmd/relay/usecase/handle_connect_usecase.go).
use go_ptor.Common.{
  ℕ, suc, ◌≡◌, ◌≤◌, length, refl, ap, ◌∙◌, sym, subst, none, some, [], ◌∷◌, ==-refl, arith, String,
}
use go_ptor.Common.Map.{lookup-insert_self}
use go_ptor.Common.Result.{ok}
use go_ptor.Value.Command.{cmd_connect, cmd_begin_ack}
use go_ptor.Value.Circuit.{CircuitId, CircuitId-discrete}
use go_ptor.Cell.{Bytes, max_payload_size}
use go_ptor.Crypto.{IsAead}
use go_ptor.Crypto.Onion.{IsKey, aes_open-seal}
use go_ptor.Net.{Conn, History, dialed, dial}
use go_ptor.Wire.{send_ack}
use go_ptor.Wire.Framing.{Sends}
use go_ptor.Wire.Reliable.{IsReliable, forward_cell-reliable}
use go_ptor.Relay.ConnState.{begin_nonce, close_conn, mark_served}
use go_ptor.Relay.World.{net, net-ok, World, Address, Services, put_state}
use go_ptor.Relay.Repository.{add, find_address}
use go_ptor.Relay.Use.{ensure_serve_down, ensure_serve_down_lem, ensure_serve_down-keeps}
use go_ptor.Relay.Use.Begin.{cell_of}
use go_ptor.Relay.Use.Begin.Hops.{next_begin_nonce, begun, begun_world}
use go_ptor.Relay.Use.Connect.{
  connect, by_down, connect_dialed, connect_forward, connect_exit, hidden_state, target_of,
}

-- The world of the last relay once it has connected to the hidden service: a new state for the
-- circuit stands at a fresh address.
abbrev pub connected_world : Services → Address → CircuitId → ℕ → History → History → World → World
connected_world v st cid d dialled h w =
    let s = hidden_state v (begun (w.states st)) d (v.env.now dialled) in
    record (add v.env cid w.next_address (record (put_state w.next_address s (begun_world st w)) {
      history = dialled;
      next_address = suc w.next_address;
    })) { history = h }

pub connected-state :
    (v : Services) (st : Address) (cid : CircuitId) (d : ℕ) (dialled h : History) (w : World)
    → (connected_world v st cid d dialled h w).states w.next_address
      ≡ hidden_state v (begun (w.states st)) d (v.env.now dialled)
unfolding add hidden_state
connected-state v st cid d dialled h w = rw (==-refl w.next_address) refl

pub connected-known :
    (v : Services) (st : Address) (cid : CircuitId) (d : ℕ) (dialled h : History) (w : World)
    → find_address cid (connected_world v st cid d dialled h w) ≡ some w.next_address
unfolding add
connected-known v st cid d dialled h w =
    lookup-insert_self CircuitId-discrete cid w.next_address w.circuits

module _ (v : Services) (laws : IsAead v.aead) where
  open v use {env, aead}

  -- What the relay sealed before it serves the next hop is what it opens afterwards.
  sealed_still :
      (st : Address) (x : Bytes) (w : World)
      → aead.gcm_seal
          ((ensure_serve_down st w).1.states st).key
          (next_begin_nonce ((ensure_serve_down st w).1.states st))
          x
        ≡ aead.gcm_seal (w.states st).key (next_begin_nonce (w.states st)) x
  unfolding mark_served
  sealed_still st x w =
      ensure_serve_down-keeps (λ s. aead.gcm_seal s.key (next_begin_nonce s) x) (λ s. refl) st w

  forward_at :
      IsReliable env
      → (st : Address) (cid : CircuitId) (d : ℕ) (x enc : Bytes) (down : Conn) (w : World)
      → IsKey ((ensure_serve_down st w).1.states st).key
      → ((ensure_serve_down st w).1.states st).down ≡ some d
      → enc
        ≡ aead.gcm_seal
            ((ensure_serve_down st w).1.states st).key
            (next_begin_nonce ((ensure_serve_down st w).1.states st))
            x
      → length x ≤ max_payload_size
      → (h : History) × (connect_forward v st cid (cell_of cmd_connect enc) down w
          ≡ (ok tt, record (begun_world st (ensure_serve_down st w).1) { history = h }))
        × Sends (ensure_serve_down st w).1.history d cid (cell_of cmd_connect x) h
  unfolding connect_forward begin_nonce
  forward_at reliable st cid d x enc down w key there same fits =
      let (h, forwarded, sends) =
        forward_cell-reliable env reliable d cid (cell_of cmd_connect x)
          (ensure_serve_down st w).1.history fits in
      (
        h,
        rw
            (
              (ensure_serve_down_lem st w).0,
              connect_forward,
              ==-refl st,
              same,
              aes_open-seal aead laws ((ensure_serve_down st w).1.states st).key _ x key,
              there,
              forwarded,
            )
            refl,
        sends,
      )

  -- A relay with a next hop passes CONNECT on with one layer less.
  pub connect-middle :
      IsReliable env
      → (st : Address) (cid : CircuitId) (d : ℕ) (x : Bytes) (w : World) → IsKey (w.states st).key
      → (w.states st).down ≡ some d
      → length x ≤ max_payload_size
      → (h : History) × (connect v st cid
            (cell_of cmd_connect
              (aead.gcm_seal (w.states st).key (next_begin_nonce (w.states st)) x))
            w
          ≡ (ok tt, record (begun_world st (ensure_serve_down st w).1) { history = h }))
        × Sends w.history d cid (cell_of cmd_connect x) h
  unfolding connect by_down mark_served
  connect-middle reliable st cid d x w key there fits =
      let enc = aead.gcm_seal (w.states st).key (next_begin_nonce (w.states st)) x in
      let (h, run, sends) =
        forward_at reliable st cid d x enc (some d) w
          (ensure_serve_down-keeps (λ s. length s.key) (λ s. refl) st w ∙ key)
          (ensure_serve_down-keeps (λ s. s.down) (λ s. refl) st w ∙ there)
          (sym (sealed_still st x w)) fits in
      (
        h,
        ap (λ c. by_down v st cid (cell_of cmd_connect enc) c w) there ∙ run,
        subst (λ b. Sends b d cid (cell_of cmd_connect x) h) (ensure_serve_down_lem st w).1 sends,
      )

  connect_dialed-eq :
      (st : Address) (cid : CircuitId) (d : ℕ) (dialled : History) (w : World)
      → (w.states st).down ≡ none
      → connect_dialed v cid
          (begun (w.states st))
          d
          (record (begun_world st w) { history = dialled })
        ≡ net (send_ack env (w.states st).up cid) (connected_world v st cid d dialled dialled w)
  unfolding connect_dialed add close_conn hidden_state
  connect_dialed-eq st cid d dialled w end = rw (end, close_conn) refl

  answers :
      IsReliable env
      → (up : ℕ) (cid : CircuitId) (h : History)
      → (h' : History) × (send_ack env (some up) cid h ≡ (ok tt, h'))
        × Sends h up cid (cell_of cmd_begin_ack []) h'
  unfolding send_ack
  answers reliable up cid h =
      forward_cell-reliable env reliable up cid (cell_of cmd_begin_ack []) h (omega arith)

  -- The last relay dials the target that the payload asks for, keeps the circuit as one to a hidden
  -- service, and answers.
  pub connect-exit :
      IsReliable env
      → (st : Address) (cid : CircuitId) (up d : ℕ) (target : String) (x : Bytes) (w : World)
      → IsKey (w.states st).key
      → (w.states st).down ≡ none
      → (w.states st).up ≡ some up
      → target_of v x ≡ ok target
      → env.dial_tcp w.history target ≡ some d
      → (h : History) × (connect v st cid
            (cell_of cmd_connect
              (aead.gcm_seal (w.states st).key (next_begin_nonce (w.states st)) x))
            w
          ≡ (ok tt, connected_world v st cid d (dialed target ∷ w.history) h w))
        × Sends (dialed target ∷ w.history) up cid (cell_of cmd_begin_ack []) h
  unfolding connect by_down connect_exit begin_nonce dial
  connect-exit reliable st cid up d target x w key end wired asked there =
      let (h, sent, sends) = answers reliable up cid (dialed target ∷ w.history) in
      let enc = aead.gcm_seal (w.states st).key (next_begin_nonce (w.states st)) x in
      let after : World =
        connected_world v st cid d (dialed target ∷ w.history) (dialed target ∷ w.history) w in
      (
        h,
        ap (λ c. by_down v st cid (cell_of cmd_connect enc) c w) end
            ∙ rw (==-refl st, aes_open-seal aead laws (w.states st).key _ x key, asked, there, dial)
                refl
            ∙ connect_dialed-eq st cid d (dialed target ∷ w.history) w end
            ∙ ap (λ c. net (send_ack env c cid) after) wired
            ∙ net-ok (send_ack env (some up) cid) after sent,
        sends,
      )
