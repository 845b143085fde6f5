-- ===== src/Relay/Leaves.antt =====
-- What an action for one circuit leaves alone in a relay's state (`Relay.World`): the entries, the
-- streams and the states of the other circuits.
pub mod Steps
pub mod Traffic
pub mod Control
pub mod Isolation
pub mod Runs
use go_ptor.Common.{
  ℕ, suc, ◌+◌, ◌≡◌, ◌≢◌, ◌≤◌, ◌<◌, ◌⊎◌, inl, inr, refl, sym, ap, subst, ◌∙◌, Option, none, some,
  List, [], ◌∷◌, ◌++◌, arith, Option-cases, ==-refl, if◌then◌else◌, ◌==◌, ite, ℕ_discrete,
}
use go_ptor.Common.Map.{
  Map, lookup, insert, delete, lookup-insert, lookup-insert_ne, lookup-insert_self,
  lookup-delete_ne, lookup-delete_self,
}
use go_ptor.Common.Result.{Result, ok}
use go_ptor.Common.Exec.{Exec, modify, ◌>>=◌, ◌>>◌}
use go_ptor.Common.Respects.{IsPreorder, Respects}
use go_ptor.Value.Circuit.{CircuitId, CircuitId-discrete}
use go_ptor.Value.Stream.{StreamId}
use go_ptor.Net.{Conn, Env, History}
use go_ptor.Wire.Grows.{Grows, Grows-IsPreorder, Growing, close_conn-Grows}
use go_ptor.Relay.ConnState.{ConnState, close_conn, close_both, touch}
use go_ptor.Relay.World.{World, Address, Act, net, put_state, on_state, Task, go, allocate}
use go_ptor.Relay.Repository.{
  streams_of, find_address, close_streams, destroy_all_streams, add, remove_circuit, add_stream,
  put_back, remove_stream,
}

close_streams-Grows : (m : Map StreamId Conn) (h : History) → Grows h (close_streams m h)
unfolding close_streams
close_streams-Grows [] h = Grows-IsPreorder.reflexive h
close_streams-Grows ((sid, c) ∷ m) h =
    Grows-IsPreorder.transitive (close_conn-Grows c h) (close_streams-Grows m _)

close_both-Grows : (s : ConnState) (h : History) → Grows h (close_both s h)
unfolding close_both
close_both-Grows s h =
    Grows-IsPreorder.transitive (close_conn-Grows s.up h) (close_conn-Grows s.down _)

-- `st` is the state that the action may change, besides those that it creates.
pub record Leaves (cid : CircuitId) (st : Address) (w w' : World) : Type 0 where
  pub history : Grows w.history w'.history
  pub next : w.next_address ≤ w'.next_address
  pub states : (q : Address) → q < w.next_address → q ≢ st → w'.states q ≡ w.states q
  pub circuits : (j : CircuitId) → j ≢ cid → find_address j w' ≡ find_address j w
  pub streams : (j : CircuitId) → j ≢ cid → streams_of j w' ≡ streams_of j w
  pub own :
      (p : Address)
      → find_address cid w' ≡ some p
      → (find_address cid w ≡ some p) ⊎ ((w.next_address ≤ p) × (p < w'.next_address))

module _ (cid : CircuitId) (st : Address) where
  own_trans :
      (u v w : World) (p : Address)
      → Leaves cid st u v
      → Leaves cid st v w
      → (find_address cid v ≡ some p) ⊎ ((v.next_address ≤ p) × (p < w.next_address))
      → (find_address cid u ≡ some p) ⊎ ((u.next_address ≤ p) × (p < w.next_address))
  own_trans u v w p a b (inr (low, high)) = inr (omega (arith, a.next), high)
  own_trans u v w p a b (inl e) = elim (a.own p e) [
    | inl e' ↦ inl e'
    | inr (low, high) ↦ inr (low, omega (arith, b.next))
  ]

  both : {u v w : World} → Leaves cid st u v → Leaves cid st v w → Leaves cid st u w
  both {u} {v} {w} a b = record {
    history = Grows-IsPreorder.transitive a.history b.history;
    next = omega (arith, a.next, b.next);
    states = λ q h ne. b.states q (omega (arith, a.next)) ne ∙ a.states q h ne;
    circuits = λ j ne. b.circuits j ne ∙ a.circuits j ne;
    streams = λ j ne. b.streams j ne ∙ a.streams j ne;
    own = λ p e. own_trans u v w p a b (b.own p e);
  }

  pub Leaves-IsPreorder : IsPreorder (Leaves cid st)
  Leaves-IsPreorder = record {
    reflexive = λ w. record {
      history = Grows-IsPreorder.reflexive w.history;
      next = omega arith;
      states = λ q h ne. refl;
      circuits = λ j ne. refl;
      streams = λ j ne. refl;
      own = λ p e. inl e;
    };
    transitive = λ a b. both a b;
  }

  abbrev pub Leaving : {A : Type 0} → Act A → Type 0
  Leaving m = Respects (Leaves cid st) Leaves-IsPreorder m

  -- The history alone grows.
  pub grown :
      (w : World) (h : History) → Grows w.history h → Leaves cid st w (record w { history = h })
  grown w h g = record {
    history = g;
    next = omega arith;
    states = λ q h ne. refl;
    circuits = λ j ne. refl;
    streams = λ j ne. refl;
    own = λ p e. inl e;
  }

  pub net-Leaves : {A : Type 0} (m : Exec History A) → Growing m → Leaving (net m)
  net-Leaves m g = record { step = λ w. grown w (m w.history).1 (g.step w.history) }

  -- A change of the state at `st`.
  pub put_state-Leaves : (s : ConnState) (w : World) → Leaves cid st w (put_state st s w)
  put_state-Leaves s w = record {
    history = Grows-IsPreorder.reflexive w.history;
    next = omega arith;
    states = λ q h ne. ground (arith, ne);
    circuits = λ j ne. refl;
    streams = λ j ne. refl;
    own = λ p e. inl e;
  }

  pub on_state-Leaves : {A : Type 0} (f : ConnState → A × ConnState) → Leaving (on_state f st)
  on_state-Leaves f = record { step = λ w. put_state-Leaves (f (w.states st)).1 w }

  tasked : (w : World) (ts : List Task) → Leaves cid st w (record w { tasks = ts })
  tasked w ts = record {
    history = Grows-IsPreorder.reflexive w.history;
    next = omega arith;
    states = λ q h ne. refl;
    circuits = λ j ne. refl;
    streams = λ j ne. refl;
    own = λ p e. inl e;
  }

  pub go-Leaves : (t : Task) → Leaving (go t)
  go-Leaves t = record { step = λ w. tasked w (t ∷ w.tasks) }

  -- The history grows and the streams of the circuit change.
  restreamed :
      (w : World) (h : History) (m : Map CircuitId (Map StreamId Conn))
      → Grows w.history h
      → ((j : CircuitId) → j ≢ cid → lookup CircuitId-discrete j m ≡ streams_of j w)
      → Leaves cid st w (record w { history = h; streams = m })
  restreamed w h m g e = record {
    history = g;
    next = omega arith;
    states = λ q b ne. refl;
    circuits = λ j ne. refl;
    streams = e;
    own = λ p e. inl e;
  }

  pub add_stream-Leaves :
      (sid : StreamId) (c : Conn) (w : World) → Leaves cid st w (add_stream cid sid c w)
  unfolding add_stream
  add_stream-Leaves sid c w =
      restreamed w w.history _ (Grows-IsPreorder.reflexive w.history)
        (λ j ne. lookup-insert_ne CircuitId-discrete j cid _ w.streams ne)

  put_back-Leaves :
      (m : Map StreamId Conn) (w : World) (h : History)
      → Grows w.history h
      → Leaves cid st w (put_back cid m (record w { history = h }))
  unfolding put_back
  put_back-Leaves [] w h g =
      restreamed w h _ g (λ j ne. lookup-delete_ne CircuitId-discrete j cid w.streams ne)
  put_back-Leaves (e ∷ m) w h g =
      restreamed w h _ g (λ j ne. lookup-insert_ne CircuitId-discrete j cid _ w.streams ne)

  pub remove_stream-Leaves :
      (sid : StreamId) (w : World) → Leaves cid st w (remove_stream cid sid w)
  unfolding remove_stream
  remove_stream-Leaves sid w = elim (Option-cases (streams_of cid w)) [
    | inl e ↦ rw (e, remove_stream) (Leaves-IsPreorder.reflexive w)
    | inr (m, e) ↦ elim (Option-cases (lookup ℕ_discrete sid m)) [
      | inl f ↦
          rw (e, remove_stream, f)
            (put_back-Leaves m w w.history (Grows-IsPreorder.reflexive w.history))
      | inr (c, f) ↦ rw (e, remove_stream, f) (put_back-Leaves _ w _ (close_conn-Grows c w.history))
    ]
  ]

  pub destroy_all_streams-Leaves : (w : World) → Leaves cid st w (destroy_all_streams cid w)
  unfolding destroy_all_streams
  destroy_all_streams-Leaves w = elim (Option-cases (streams_of cid w)) [
    | inl e ↦ rw (e, destroy_all_streams) (Leaves-IsPreorder.reflexive w)
    | inr (m, e) ↦
        rw (e, destroy_all_streams)
          (restreamed w _ _ (close_streams-Grows m w.history)
            (λ j ne. lookup-delete_ne CircuitId-discrete j cid w.streams ne))
  ]

  delisted :
      (w : World) (h : History)
      → Grows w.history h
      → Leaves cid st w
          (record w { history = h; circuits = delete CircuitId-discrete cid w.circuits })
  delisted w h g = record {
    history = g;
    next = omega arith;
    states = λ q b ne. refl;
    circuits = λ j ne. lookup-delete_ne CircuitId-discrete j cid w.circuits ne;
    streams = λ j ne. refl;
    own = λ p e.
        let gone = lookup-delete_self CircuitId-discrete cid w.circuits in absurd (cc (gone, e));
  }

  pub remove_circuit-Leaves : (w : World) → Leaves cid st w (remove_circuit cid w)
  unfolding remove_circuit
  remove_circuit-Leaves w = elim (Option-cases (find_address cid w)) [
    | inl e ↦ rw (e, remove_circuit) (Leaves-IsPreorder.reflexive w)
    | inr (p, e) ↦
        rw (e, remove_circuit)
          (both (delisted w _ (close_both-Grows (w.states p) w.history))
            (destroy_all_streams-Leaves _))
  ]

  module _ (env : Env) where
    -- A fresh state that is entered for the circuit.
    enlisted :
        (s : ConnState) (w : World) → Leaves cid st w (add env cid w.next_address (allocate s w).1)
    unfolding add touch
    enlisted s w = record {
      history = Grows-IsPreorder.reflexive w.history;
      next = omega arith;
      states = λ q h ne. ground (arith, h);
      circuits = λ j ne. lookup-insert_ne CircuitId-discrete j cid w.next_address w.circuits ne;
      streams = λ j ne. refl;
      own = λ p e.
          let here = lookup-insert_self CircuitId-discrete cid w.next_address w.circuits in
          let same : w.next_address ≡ p = cc (here, e) in
          inr (omega (arith, same), omega (arith, same));
    }

    pub enlist-Leaves :
        {A : Type 0} (s : ConnState) (rest : Address → Act A)
        → ((p : Address) → Leaving (rest p))
        → Leaving (allocate s >>= λ p. (modify (add env cid p) >> rest p))
    enlist-Leaves s rest k = record { step = λ w. both (enlisted s w) ((k w.next_address).step _) }
