-- ===== src/Session/Building.antt =====
-- The loop over the hops in cmd/client/usecase/build_circuit_usecase.go, and the relays that join.
use go_ptor.Common.{ℕ, suc, ◌≡◌, refl, ap, ap₂, none, some, List, [], ◌∷◌, map, length, String, All}
use go_ptor.Common.Result.{ok}
use go_ptor.Value.Circuit.{CircuitId, IsUuid}
use go_ptor.Cell.{Bytes}
use go_ptor.Crypto.{Key}
use go_ptor.Crypto.Onion.{IsKey}
use go_ptor.Crypto.Agreement.{Agreement}
use go_ptor.Crypto.Exchange.{Exchange}
use go_ptor.Nonce.{Nonce}
use go_ptor.Net.{Conn, Env, History}
use go_ptor.Payload.{RoundTrips}
use go_ptor.Wire.Reliable.{IsReliable}
use go_ptor.Relay.ConnState.{ConnState, new_conn_state}
use go_ptor.Relay.Use.Data.Path.{Hop, state_of}
use go_ptor.Client.World.{Services}
use go_ptor.Client.Directory.{Relay}
use go_ptor.Client.Use.Build.{extend_loop, torn_down, endpoint_or_empty}
use go_ptor.Session.{relay_layer, relay_layers}
use go_ptor.Session.Answer.{up_layer, relay_up_layers}
use go_ptor.Session.Opening.{begin_layer, layers_with}
use go_ptor.Session.Fresh.{fresh_layers}
use go_ptor.Session.Handshake.{Party, Willing, Joined, agreed, round-Joined}

abbrev pub relays_of : List Party → List Relay
relays_of ps = map (λ p. p.relay) ps

-- A relay of the circuit connects to the next one, the last one to none.
abbrev pub down_of : List Party → Party → Conn
down_of [] p = none
down_of (_ ∷ _) p = some p.next

module _ (v : Services) (env : Env) (exchange : Exchange) (a : Agreement v.exchange exchange)
    (asks : String → Bytes → Bytes) (tells : Bytes → Bytes) (c : ℕ) (cid : CircuitId) where
  abbrev pub AllWilling : List Party → Type 0
  AllWilling [] = Unit
  AllWilling (p ∷ ps) =
      Willing v env exchange a asks tells c cid (endpoint_or_empty v (relays_of ps)) (down_of ps p)
        p
      × AllWilling ps

  abbrev pub joined_hop :
      {h h' : History} {next : String} {down : Conn} {p : Party}
      → Joined v env exchange a asks tells c cid h next down p h'
      → Hop
  joined_hop {p} j = record { st = p.world.next_address; world = j.after; next = p.next }

  -- One relay after the other joins, each as the client asks it to; what the client then has of
  -- keys and base nonces, and the relays as they are then.
  pub data Joins : History → List Party → List Key → List Nonce → List Hop → History → Type 0 where
    done : (h : History) → Joins h [] [] [] [] h
    join :
        {h h₁ h' : History} {p : Party} {ps : List Party} {ks : List Key} {ns : List Nonce}
        {hs : List Hop}
        (j : Joined v env exchange a asks tells c cid h
          (endpoint_or_empty v (relays_of ps))
          (down_of ps p)
          p
          h₁)
        → Joins h₁ ps ks ns hs h'
        → Joins h
            (p ∷ ps)
            ((agreed v env exchange a asks tells c cid h p).0 ∷ ks)
            ((agreed v env exchange a asks tells c cid h p).1 ∷ ns)
            (joined_hop j ∷ hs)
            h'

  module _ (u : IsUuid cid) (net : IsReliable v.env) (net' : IsReliable env)
      (codec : RoundTrips v.gob.extend) (codec' : RoundTrips v.gob.created)
      (coded' : (b : Bytes)
        → v.gob.created.gob_encode (record { relay_pub = b }) ≡ some (tells b)) where
    -- When every relay of the choice is willing, the loop succeeds, and each of them has joined.
    pub extend_loop-Joins :
        (h : History) (ps : List Party)
        → AllWilling ps
        → (ks : List Key) × (ns : List Nonce) × (hs : List Hop) × (h' : History) × (extend_loop v c
              cid
              (relays_of ps)
              h
            ≡ (ok (ks, ns), h'))
          × Joins h ps ks ns hs h'
    unfolding extend_loop torn_down
    extend_loop-Joins h [] willing = ([], [], [], h, refl, done h)
    extend_loop-Joins h (p ∷ ps) (w, ws) =
        let (h₁, run, j) =
          round-Joined v env exchange a asks tells c cid u net net' codec codec' coded' h
            (endpoint_or_empty v (relays_of ps)) (down_of ps p) p w in
        let (ks, ns, hs, h', runs, js) = extend_loop-Joins h₁ ps ws in
        (
          (agreed v env exchange a asks tells c cid h p).0 ∷ ks,
          (agreed v env exchange a asks tells c cid h p).1 ∷ ns,
          joined_hop j ∷ hs,
          h',
          rw (run, torn_down, runs) refl,
          join j js,
        )

  pub length-keys :
      {h h' : History} {ps : List Party} {ks : List Key} {ns : List Nonce} {hs : List Hop}
      → Joins h ps ks ns hs h'
      → length ks ≡ length ps
  length-keys (done h) = refl
  length-keys (join j js) = ap suc (length-keys js)

  pub length-nonces :
      {h h' : History} {ps : List Party} {ks : List Key} {ns : List Nonce} {hs : List Hop}
      → Joins h ps ks ns hs h'
      → length ns ≡ length ps
  length-nonces (done h) = refl
  length-nonces (join j js) = ap suc (length-nonces js)

  pub keys-Joins :
      {h h' : History} {ps : List Party} {ks : List Key} {ns : List Nonce} {hs : List Hop}
      → Joins h ps ks ns hs h'
      → All IsKey ks
  keys-Joins (done h) = tt
  keys-Joins (join j js) = (a.key_size _, keys-Joins js)

  pub layers-Joins :
      {h h' : History} {ps : List Party} {ks : List Key} {ns : List Nonce} {hs : List Hop}
      → Joins h ps ks ns hs h'
      → map (λ g. relay_layer (state_of g)) hs ≡ fresh_layers ks ns
  unfolding new_conn_state
  layers-Joins (done h) = refl
  layers-Joins (join j js) =
      ap₂ (λ l ls. l ∷ ls) (ap (λ (s : ConnState). relay_layer s) j.state) (layers-Joins js)

  pub begin_layers-Joins :
      {h h' : History} {ps : List Party} {ks : List Key} {ns : List Nonce} {hs : List Hop}
      → Joins h ps ks ns hs h'
      → map (λ g. begin_layer (state_of g)) hs ≡ fresh_layers ks ns
  unfolding new_conn_state
  begin_layers-Joins (done h) = refl
  begin_layers-Joins (join j js) =
      ap₂ (λ l ls. l ∷ ls) (ap (λ (s : ConnState). begin_layer s) j.state) (begin_layers-Joins js)

  pub up_layers-Joins :
      {h h' : History} {ps : List Party} {ks : List Key} {ns : List Nonce} {hs : List Hop}
      → Joins h ps ks ns hs h'
      → map (λ g. up_layer (state_of g)) hs ≡ fresh_layers ks ns
  unfolding new_conn_state
  up_layers-Joins (done h) = refl
  up_layers-Joins (join j js) =
      ap₂ (λ l ls. l ∷ ls) (ap (λ (s : ConnState). up_layer s) j.state) (up_layers-Joins js)

-- The relays in front and the last one.
abbrev pub front_of : Hop → List Hop → List Hop
front_of g [] = []
front_of g (g' ∷ gs) = g ∷ front_of g' gs

abbrev pub last_of : Hop → List Hop → Hop
last_of g [] = g
last_of g (g' ∷ gs) = last_of g' gs

pub relay_layers-map :
    (g : Hop) (gs : List Hop)
    → relay_layers (front_of g gs) (last_of g gs) ≡ map (λ h. relay_layer (state_of h)) (g ∷ gs)
relay_layers-map g [] = refl
relay_layers-map g (g' ∷ gs) = ap (λ l. relay_layer (state_of g) ∷ l) (relay_layers-map g' gs)

pub relay_up_layers-map :
    (g : Hop) (gs : List Hop)
    → relay_up_layers (front_of g gs) (last_of g gs) ≡ map (λ h. up_layer (state_of h)) (g ∷ gs)
relay_up_layers-map g [] = refl
relay_up_layers-map g (g' ∷ gs) = ap (λ l. up_layer (state_of g) ∷ l) (relay_up_layers-map g' gs)

pub begin_layers-map :
    (g : Hop) (gs : List Hop)
    → layers_with (λ s. begin_layer s) (front_of g gs) (last_of g gs)
      ≡ map (λ h. begin_layer (state_of h)) (g ∷ gs)
begin_layers-map g [] = refl
begin_layers-map g (g' ∷ gs) = ap (λ l. begin_layer (state_of g) ∷ l) (begin_layers-map g' gs)
