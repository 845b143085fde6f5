-- ===== src/Relay/Handler/OneWay.antt =====
-- END and DESTROY go to the next hop and nowhere else (cmd/relay/usecase/handle_endstream_usecase.go and
-- handle_destroy_usecase.go).
use go_ptor.Common.{
  sym, ℕ_discrete, ℕ, ◌≡◌, ◌≢◌, refl, ap, ◌∙◌, none, some, [], ◌∷◌, arith, ◌⊎◌, inl, inr, Bool,
  true, false, Option-cases, if◌then◌else◌, ◌==◌, ==-refl,
}
use go_ptor.Common.Map.{Map, lookup, delete}
use go_ptor.Common.Result.{Result, ok}
use go_ptor.Common.Exec.{modify, ignore, ◌>>=◌, ◌>>◌}
use go_ptor.Common.Respects.{IsPreorder, Respects, Respects-bind}
use go_ptor.Value.Command.{cmd_end, cmd_destroy}
use go_ptor.Value.Circuit.{CircuitId, CircuitId-discrete}
use go_ptor.Value.Stream.{StreamId, stream_id_from}
use go_ptor.Cell.{Bytes, Cell}
use go_ptor.Net.{Conn, Env, History, write, encode_now, close}
use go_ptor.Wire.{forward_cell}
use go_ptor.Wire.Framing.{sent}
use go_ptor.Relay.ConnState.{close_conn, close_both, mark_served, touch}
use go_ptor.Relay.World.{World, Address, Act, Services, net, put_state}
use go_ptor.Relay.Repository.{
  find, find_address, streams_of, close_streams, destroy_all_streams, remove_circuit, remove_stream,
  put_back,
}
use go_ptor.Relay.Use.{ensure_serve_down, ensure_serve_down_lem, ensure_serve_down-keeps}
use go_ptor.Relay.Use.Begin.{cell_of}
use go_ptor.Relay.Use.End.{
  end_target, pass_down, end_circuit, end_one, end_stream, destroy_down, destroy,
}
use go_ptor.Relay.Handler.{handle_cell, dispatch, unknown_circuit}

sent-close_conn : (c : ℕ) (d : Conn) (h : History) → sent c (close_conn d h) ≡ sent c h
unfolding sent close_conn close
sent-close_conn c none h = refl
sent-close_conn c (some d) h = refl

sent-close_streams :
    (c : ℕ) (m : Map StreamId Conn) (h : History) → sent c (close_streams m h) ≡ sent c h
unfolding close_streams
sent-close_streams c [] h = refl
sent-close_streams c ((sid, d) ∷ m) h =
    sent-close_streams c m (close_conn d h) ∙ sent-close_conn c d h

module _ (c : ℕ) where
  -- Nothing has been written to the connection.
  abbrev Unsent : History → History → Type 0
  Unsent h h' = sent c h' ≡ sent c h

  Unsent-IsPreorder : IsPreorder Unsent
  Unsent-IsPreorder = record { reflexive = λ h. refl; transitive = λ a b. b ∙ a }

  write-Unsent :
      (env : Env) (d : ℕ) (b : Bytes)
      → d ≢ c
      → Respects Unsent Unsent-IsPreorder (write env (some d) b)
  unfolding write sent
  write-Unsent env d b ne = record { step = λ h. ground (arith, ne) }

  encode-Unsent :
      (env : Env) (cell : Cell) → Respects Unsent Unsent-IsPreorder (encode_now env cell)
  unfolding encode_now sent
  encode-Unsent env cell = record { step = λ h. refl }

  forward-Unsent :
      (env : Env) (d : ℕ) (cid : CircuitId) (cell : Cell)
      → d ≢ c
      → Respects Unsent Unsent-IsPreorder (forward_cell env (some d) cid cell)
  unfolding forward_cell
  forward-Unsent env d cid cell ne =
      Respects-bind Unsent Unsent-IsPreorder (encode_now env cell) _ (encode-Unsent env cell)
        (λ b. write-Unsent env d _ ne)

  module _ (v : Services) (st : Address) where
    open v use {env}

    -- While the connection is not the one to the next hop, nothing is written to it.
    abbrev Away : World → World → Type 0
    Away w w' =
        (w.states st).down ≢ some c
        → ((w'.states st).down ≡ (w.states st).down) × Unsent w.history w'.history

    Away-IsPreorder : IsPreorder Away
    Away-IsPreorder = record {
      reflexive = λ w ne. (refl, refl);
      transitive =
          λ a b ne. let (e, f) = a ne in let (e', f') = b (λ g. ne (sym e ∙ g)) in (e' ∙ e, f' ∙ f);
    }

    abbrev Turned : {A : Type 0} → Act A → Type 0
    Turned m = Respects Away Away-IsPreorder m

    bind :
        {A B : Type 0} (m : Act A) (f : A → Act B)
        → Turned m
        → ((a : A) → Turned (f a))
        → Turned (m >>= f)
    bind = Respects-bind Away Away-IsPreorder

    still : {A : Type 0} (r : World → Result A) → Turned (λ w. (r w, w))
    still r = record { step = λ w. Away-IsPreorder.reflexive w }

    changed : (f : World → World) → ((w : World) → Away w (f w)) → Turned (modify f)
    changed f h = record { step = h }

    destroyed : (cid : CircuitId) (w : World) → Away w (destroy_all_streams cid w)
    unfolding destroy_all_streams
    destroyed cid w ne = elim (Option-cases (streams_of cid w)) [
      | inl e ↦ rw (e, destroy_all_streams) (refl, refl)
      | inr (m, e) ↦ rw (e, destroy_all_streams) (refl, sent-close_streams c m w.history)
    ]

    removed : (cid : CircuitId) (w : World) → Away w (remove_circuit cid w)
    unfolding remove_circuit close_both
    removed cid w ne = elim (Option-cases (find_address cid w)) [
      | inl e ↦ rw (e, remove_circuit) (refl, refl)
      | inr (p, e) ↦
          let closed_history = close_both (w.states p) w.history in
          let (same, quiet) =
            destroyed cid
              (record w {
                history = closed_history;
                circuits = delete CircuitId-discrete cid w.circuits;
              })
              ne in
          let unsent : sent c closed_history ≡ sent c w.history =
            sent-close_conn c (w.states p).down (close_conn (w.states p).up w.history)
            ∙ sent-close_conn c (w.states p).up w.history in
          rw (e, remove_circuit) (same, quiet ∙ unsent)
    ]

    put_back-Away :
        (cid : CircuitId) (m : Map StreamId Conn) (w : World) → Away w (put_back cid m w)
    unfolding put_back
    put_back-Away cid [] w ne = (refl, refl)
    put_back-Away cid (e ∷ m) w ne = (refl, refl)

    stream_removed :
        (cid : CircuitId) (sid : StreamId) (w : World) → Away w (remove_stream cid sid w)
    unfolding remove_stream
    stream_removed cid sid w ne = elim (Option-cases (streams_of cid w)) [
      | inl e ↦ rw (e, remove_stream) (refl, refl)
      | inr (m, e) ↦ elim (Option-cases (lookup ℕ_discrete sid m)) [
        | inl e' ↦ rw (e, e', remove_stream) (put_back-Away cid m w ne)
        | inr (d, e') ↦
            let (same, quiet) =
              put_back-Away cid (delete ℕ_discrete sid m)
                (record w { history = close_conn d w.history }) ne in
            rw (e, e', remove_stream) (same, quiet ∙ sent-close_conn c d w.history)
      ]
    ]

    served : (w : World) → Away w (ensure_serve_down st w).1
    unfolding mark_served
    served w ne = (
      ensure_serve_down-keeps (λ s. s.down) (λ s. refl) st w,
      ap (λ h. sent c h) (ensure_serve_down_lem st w).1,
    )

    forwarded :
        (d : ℕ) (cid : CircuitId) (cell : Cell)
        → d ≢ c
        → Turned (net (forward_cell env (some d) cid cell))
    forwarded d cid cell ne = record {
      step = λ w _. (refl, (forward-Unsent env d cid cell ne).step w.history);
    }

    dropped : {A : Type 0} (m : Act A) → Turned m → Turned (ignore m)
    dropped m h = record { step = h.step }

    passed :
        (cid : CircuitId) (cell : Cell) (d : Conn) → d ≢ some c → Turned (pass_down v st cid cell d)
    unfolding pass_down
    passed cid cell none ne = still (λ w. ok tt)
    passed cid cell (some d) ne =
        bind (ensure_serve_down st) _ (record { step = λ w. served w })
          (λ _. forwarded d cid cell (λ e. ne (ap (λ n. some n) e)))

    -- What is done with the next hop as it is.
    with_down :
        {A : Type 0} (f : Conn → Act A)
        → ((d : Conn) → d ≢ some c → Turned (f d))
        → Turned (λ w. f (w.states st).down w)
    with_down f h = record { step = λ w ne. (h (w.states st).down ne).step w ne }

    end_circuit-Turned : (cid : CircuitId) (cell : Cell) → Turned (end_circuit v st cid cell)
    unfolding end_circuit
    end_circuit-Turned cid cell =
        bind _ _ (changed (λ w. destroy_all_streams cid w) (λ w. destroyed cid w)) (λ _.
          with_down (λ d. (ignore (pass_down v st cid cell d) >> modify (remove_circuit cid)))
            (λ d ne.
              bind _ _ (dropped (pass_down v st cid cell d) (passed cid cell d ne))
                (λ _. changed (λ w. remove_circuit cid w) (λ w. removed cid w))))

    end_one-Turned : (cid : CircuitId) (cell : Cell) (id : ℕ) → Turned (end_one v st cid cell id)
    unfolding end_one
    end_one-Turned cid cell id = bind _ _ (still (λ w. stream_id_from id)) (λ sid.
        bind _ _ (changed (λ w. remove_stream cid sid w) (λ w. stream_removed cid sid w))
          (λ _. with_down (λ d. pass_down v st cid cell d) (λ d ne. passed cid cell d ne)))

    chosen :
        {A : Type 0} (b : Bool) {m n : Act A} → Turned m → Turned n → Turned (if b then m else n)
    chosen true h k = h
    chosen false h k = k

    end_stream-Turned : (cid : CircuitId) (cell : Cell) → Turned (end_stream v st cid cell)
    unfolding end_stream
    end_stream-Turned cid cell = bind _ _ (still (λ w. end_target v cell.payload)) (λ p.
        chosen (p.stream_id == 0) (end_circuit-Turned cid cell)
          (end_one-Turned cid cell p.stream_id))

    destroy_down-Turned : (cid : CircuitId) (d : Conn) → d ≢ some c → Turned (destroy_down v cid d)
    unfolding destroy_down
    destroy_down-Turned cid none ne = still (λ w. ok tt)
    destroy_down-Turned cid (some d) ne =
        dropped (net (forward_cell env (some d) cid (cell_of cmd_destroy [])))
          (forwarded d cid (cell_of cmd_destroy []) (λ e. ne (ap (λ n. some n) e)))

    destroy-Turned : (cid : CircuitId) → Turned (destroy v st cid)
    unfolding destroy
    destroy-Turned cid =
        with_down (λ d. (destroy_down v cid d >> modify (remove_circuit cid)))
          (λ d ne.
            bind _ _ (destroy_down-Turned cid d ne)
              (λ _. changed (λ w. remove_circuit cid w) (λ w. removed cid w)))

    dispatched :
        (cid : CircuitId) (cell : Cell)
        → (cell.cmd ≡ cmd_end) ⊎ (cell.cmd ≡ cmd_destroy)
        → Turned (dispatch v st cid cell)
    unfolding dispatch
    dispatched cid cell (inl e) = rw e (end_stream-Turned cid (record cell { cmd = cmd_end }))
    dispatched cid cell (inr e) = rw e (destroy-Turned cid)

-- Whatever connection an END or DESTROY cell comes from, and whatever the network does, handling
-- it writes nothing to any connection but the one to the next hop of its circuit: what has been
-- sent on another connection, the one towards the client among them, is as before.
pub sent-handle_cell :
    (v : Services) (from : Conn) (cid : CircuitId) (cell : Cell) (c : ℕ) (w : World)
    → (cell.cmd ≡ cmd_end) ⊎ (cell.cmd ≡ cmd_destroy)
    → ((p : Address) → find_address cid w ≡ some p → (w.states p).down ≢ some c)
    → sent c (handle_cell v from cid cell w).1.history ≡ sent c w.history
unfolding handle_cell find unknown_circuit touch
sent-handle_cell v from cid cell c w leaves away = elim (Option-cases (find_address cid w)) [
  | inl e ↦ elim leaves [ inl e' ↦ rw (e, e', find) refl | inr e' ↦ rw (e, e', find) refl ]
  | inr (p, e) ↦
      let start : World = put_state p (touch (v.env.now w.history) (w.states p)) w in
      let same : (start.states p).down ≡ (w.states p).down = rw (==-refl p) refl in
      let (kept, quiet) =
        (dispatched c v p cid cell leaves).step start (λ g. away p e (sym same ∙ g)) in
      rw (e, find) quiet
]
