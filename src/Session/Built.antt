-- ===== src/Session/Built.antt =====
-- BuildCircuitUseCase of cmd/client/usecase/build_circuit_usecase.go and the relays that it asks.
use go_ptor.Common.{
  ℕ, suc, ◌≡◌, refl, sym, ap, ◌∙◌, subst, some, List, ◌∷◌, map, length, length-map, All, String,
}
use go_ptor.Common.Result.{ok}
use go_ptor.Value.Circuit.{CircuitId, IsUuid}
use go_ptor.Value.Relay.{RelayId}
use go_ptor.Cell.{Bytes}
use go_ptor.Crypto.{Key}
use go_ptor.Crypto.Onion.{IsKey}
use go_ptor.Crypto.Agreement.{Agreement}
use go_ptor.Crypto.Exchange.{Exchange}
use go_ptor.Nonce.{Nonce}
use go_ptor.Net.{Env, History, drew, dialed}
use go_ptor.Payload.{RoundTrips}
use go_ptor.Wire.Reliable.{IsReliable}
use go_ptor.Relay.Use.Data.Path.{Hop, state_of}
use go_ptor.Client.Circuit.{Circuit, conn, new_circuit, set_conn}
use go_ptor.Client.World.{World, Address, Services}
use go_ptor.Client.Directory.{Relay}
use go_ptor.Client.Repository.{find_address}
use go_ptor.Client.Use.Build.{build, choose, or_three, endpoint_or_empty}
use go_ptor.Client.Use.Build.Runs.{build-runs, built_world, built_world-known, built_world-object}
use go_ptor.Session.{client_layers, layers_by, relay_layer}
use go_ptor.Session.Answer.{client_up_layers, up_layer}
use go_ptor.Session.Fresh.{new_circuit-fresh}
use go_ptor.Session.Opening.{begin_layer}
use go_ptor.Session.Kinds.{InStepAll}
use go_ptor.Session.Handshake.{Party}
use go_ptor.Session.Building.{
  relays_of, AllWilling, Joins, join, extend_loop-Joins, length-keys, length-nonces, keys-Joins,
  layers-Joins, up_layers-Joins, begin_layers-Joins, begin_layers-map, front_of, last_of,
  relay_layers-map, relay_up_layers-map,
}

module _ (v : Services) (env : Env) (exchange : Exchange) (a : Agreement v.exchange exchange)
    (asks : String → Bytes → Bytes) (tells : Bytes → Bytes) (c : ℕ) (cid : CircuitId) where
  some_hop :
      {h h' : History} {p : Party} {ps : List Party} {ks : List Key} {ns : List Nonce}
      {hs : List Hop}
      → Joins v env exchange a asks tells c cid h (p ∷ ps) ks ns hs h'
      → (g : Hop) × (gs : List Hop) × (hs ≡ g ∷ gs)
  some_hop (join j js) = (_, _, refl)

  -- The relays that have joined are in step with this circuit, for messages of every kind.
  pub record IsBuilt (h : History) (ps : List Party) (built : Circuit) (h' : History) : Type 0 where
    pub keys : List Key
    pub nonces : List Nonce
    pub first : Hop
    pub others : List Hop
    pub sized : All IsKey keys
    pub joins : Joins v env exchange a asks tells c cid h ps keys nonces (first ∷ others) h'
    pub step : InStepAll built (front_of first others) (last_of first others)

  -- Registering the circuit that was made of the keys and nonces.
  Joins-IsBuilt :
      (h h' : History) (p : Party) (ps : List Party) (ks : List Key) (ns : List Nonce)
      (hs : List Hop) (priv : Bytes)
      → Joins v env exchange a asks tells c cid h (p ∷ ps) ks ns hs h'
      → (made wired : Circuit) × (new_circuit cid
            (map (λ r. r.id) (relays_of (p ∷ ps)))
            ks
            ns
            (some priv)
          ≡ ok made)
        × (set_conn 0 (some c) made ≡ wired)
        × IsBuilt h (p ∷ ps) wired h'
        × (wired.id ≡ cid)
        × (wired.hops ≡ map (λ r. r.id) (relays_of (p ∷ ps)))
        × (conn 0 wired ≡ some c)
  Joins-IsBuilt h h' p ps ks ns hs priv js =
      let ids = map (λ r. r.id) (relays_of ps) in
      let size : length ids ≡ length ps = length-map _ _ ∙ length-map _ _ in
      let (made, wired, run, set, begins, down, up, id, hops, there) =
        new_circuit-fresh cid p.relay.id ids ks ns priv c
          (length-keys v env exchange a asks tells c cid js ∙ ap suc (sym size))
          (length-nonces v env exchange a asks tells c cid js ∙ ap suc (sym size)) in
      let (g, gs, shape) = some_hop js in
      (
        made,
        wired,
        run,
        set,
        record {
          keys = ks;
          nonces = ns;
          first = g;
          others = gs;
          sized = keys-Joins v env exchange a asks tells c cid js;
          joins =
              subst (λ l. Joins v env exchange a asks tells c cid h (p ∷ ps) ks ns l h') shape js;
          step = record {
            begins =
                ap (λ l. layers_by (λ c. c.begin_counter) (length l) 0 wired) hops
                ∙ begins
                ∙ sym (begin_layers-Joins v env exchange a asks tells c cid js)
                ∙ ap (λ l. map (λ x. begin_layer (state_of x)) l) shape
                ∙ sym (begin_layers-map g gs);
            down =
                ap (λ l. client_layers (length l) 0 wired) hops
                ∙ down
                ∙ sym (layers-Joins v env exchange a asks tells c cid js)
                ∙ ap (λ l. map (λ x. relay_layer (state_of x)) l) shape
                ∙ sym (relay_layers-map g gs);
            up =
                ap (λ l. client_up_layers (length l) 0 wired) hops
                ∙ up
                ∙ sym (up_layers-Joins v env exchange a asks tells c cid js)
                ∙ ap (λ l. map (λ x. up_layer (state_of x)) l) shape
                ∙ sym (relay_up_layers-map g gs);
          };
        },
        id,
        hops,
        there,
      )

  module _ (u : IsUuid cid) (net : IsReliable v.env) (net' : IsReliable env)
      (codec : RoundTrips v.gob.extend) (codec' : RoundTrips v.gob.created)
      (coded' : (b : Bytes)
        → v.gob.created.gob_encode (record { relay_pub = b }) ≡ some (tells b)) where
    -- When the choice of relays, the client's RSA key and the connection to the first relay are
    -- had, and the chosen relays do not know the circuit, can dial the next one and give an answer
    -- that reaches the client, building a circuit succeeds: the repository has it, with the
    -- connection to the first relay and the chosen relays as hops. Each relay handles the EXTEND
    -- cell that the client sends for it by registering a state with the key and base nonce that
    -- the client derived, the key has 32 bytes, and client and relays agree on the counters of
    -- every layer for BEGIN, DATA and data towards the client. Both networks take every write,
    -- encoding does not fail and decoding undoes it, EXTEND cells fit, the identifier has 16
    -- bytes, and the two sides of a key exchange get the same secret and derive the same from it.
    pub build-IsBuilt :
        (known : List Relay) (hops : ℕ) (exit : RelayId) (p : Party) (ps : List Party)
        (priv : Bytes) (h : History) (w : World)
        → choose v known (or_three hops) exit w.history ≡ (ok (relays_of (p ∷ ps)), h)
        → v.generate_rsa h ≡ some priv
        → v.new_uuid (drew ∷ h) ≡ cid
        → v.env.dial_tcp (drew ∷ h) p.relay.endpoint ≡ some c
        → AllWilling v env exchange a asks tells c cid (p ∷ ps)
        → (w' : World) × (q : Address) × (build v known hops exit w ≡ (ok q, w'))
          × (find_address cid w' ≡ some q)
          × (conn 0 (w'.objects q) ≡ some c)
          × ((w'.objects q).hops ≡ map (λ r. r.id) (relays_of (p ∷ ps)))
          × IsBuilt (dialed p.relay.endpoint ∷ drew ∷ h) (p ∷ ps) (w'.objects q) w'.history
    unfolding endpoint_or_empty
    build-IsBuilt known hops exit p ps priv h w chosen drawn named dialled willing =
        let (ks, ns, hs, h', run, js) =
          extend_loop-Joins v env exchange a asks tells c cid u net net' codec codec' coded'
            (dialed p.relay.endpoint ∷ drew ∷ h) (p ∷ ps) willing in
        let (made, wired, new, set, b, id, ids, there) = Joins-IsBuilt _ h' p ps ks ns hs priv js in
        let same = sym (built_world-object cid wired h' w) in
        (
          built_world cid wired h' w,
          w.next_address,
          build-runs v known hops exit (relays_of (p ∷ ps)) priv c cid ks ns made wired h h' w
              chosen drawn named dialled run new set id,
          built_world-known cid wired h' w,
          subst (λ r. conn 0 r ≡ some c) same there,
          subst (λ (r : Circuit). r.hops ≡ map (λ x. x.id) (relays_of (p ∷ ps))) same ids,
          subst (λ r. IsBuilt (dialed p.relay.endpoint ∷ drew ∷ h) (p ∷ ps) r h') same b,
        )
