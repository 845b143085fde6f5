-- ===== src/Relay/Use/Connect/Path.antt =====
-- CONNECT along a whole circuit (cmd/relay/usecase/handle_connect_usecase.go at each relay): relay
-- after relay handles what the one before it sent, until the last one dials the hidden service.
use go_ptor.Common.{ℕ, ◌≡◌, ◌≤◌, refl, some, none, List, [], ◌∷◌, length, All, String}
use go_ptor.Common.Result.{ok}
use go_ptor.Value.Command.{cmd_connect, cmd_begin_ack}
use go_ptor.Value.Circuit.{CircuitId}
use go_ptor.Cell.{Bytes, max_payload_size}
use go_ptor.Crypto.{IsAead}
use go_ptor.Crypto.Onion.{IsKey}
use go_ptor.Net.{History, dialed}
use go_ptor.Wire.Framing.{Sends}
use go_ptor.Wire.Reliable.{IsReliable}
use go_ptor.Relay.World.{Services}
use go_ptor.Relay.Use.{ensure_serve_down}
use go_ptor.Relay.Use.Begin.{cell_of}
use go_ptor.Relay.Use.Begin.Hops.{begun_world}
use go_ptor.Relay.Use.Begin.Path.{begin_layered}
use go_ptor.Relay.Use.Connect.{connect, target_of}
use go_ptor.Relay.Use.Connect.Hops.{connected_world, connect-middle, connect-exit}
use go_ptor.Relay.Use.Data.Path.{Hop, state_of, keys_of}

module _ (v : Services) (laws : IsAead v.aead) (cid : CircuitId) (up d : ℕ) (target : String)
    (x : Bytes) where
  open v use {env}

  -- The relays in front have a next hop and forward what fits in a cell; the last one has none and
  -- can dial the target. All keys have 32 bytes.
  abbrev pub CanConnect : List Hop → Hop → Type 0
  CanConnect [] last =
      IsKey (state_of last).key
      × ((state_of last).down ≡ none)
      × ((state_of last).up ≡ some up)
      × (env.dial_tcp last.world.history target ≡ some d)
  CanConnect (h ∷ hs) last =
      IsKey (state_of h).key
      × ((state_of h).down ≡ some h.next)
      × (length (begin_layered v laws hs last x) ≤ max_payload_size)
      × CanConnect hs last

  pub connecting_keys :
      (hs : List Hop) (last : Hop) → CanConnect hs last → All IsKey (keys_of hs last)
  connecting_keys [] last (key, end, wired, there) = (key, tt)
  connecting_keys (h ∷ hs) last (key, down, fits, ready) = (key, connecting_keys hs last ready)

  -- The relays once each has handled what the one before it sent; the last one has a new state.
  abbrev pub passed_connect : Hop → History → Hop
  passed_connect h sent = record h {
    world = record (begun_world h.st (ensure_serve_down h.st h.world).1) { history = sent };
  }

  abbrev pub connected : Hop → History → Hop
  connected last sent = record last {
    st = last.world.next_address;
    world = connected_world v last.st cid d (dialed target ∷ last.world.history) sent last.world;
  }

  -- The first relay handles a CONNECT cell with this payload and sends the next one a CONNECT cell
  -- that is handled in the same way, until the last one has dialled the target, kept the
  -- connection and sent BEGIN_ACK back; what the relays are then.
  abbrev pub Connected : List Hop → Hop → Bytes → List Hop → Hop → Type 0
  Connected [] last enc hs' last' =
      (sent : History) × (connect v last.st cid (cell_of cmd_connect enc) last.world
        ≡ (ok tt, last'.world))
      × Sends (dialed target ∷ last.world.history) up cid (cell_of cmd_begin_ack []) sent
      × (hs' ≡ [])
      × (last' ≡ connected last sent)
  Connected (h ∷ hs) last enc hs' last' =
      (sent : History) × (out : Bytes) × (rest : List Hop) × (connect v h.st cid
          (cell_of cmd_connect enc) h.world
        ≡ (ok tt, (passed_connect h sent).world))
      × Sends h.world.history h.next cid (cell_of cmd_connect out) sent
      × (hs' ≡ passed_connect h sent ∷ rest)
      × Connected hs last out rest last'

  pub path_connects :
      IsReliable env
      → target_of v x ≡ ok target
      → (hs : List Hop) (last : Hop) → CanConnect hs last
      → (hs' : List Hop) × (last' : Hop) × Connected hs last
          (begin_layered v laws hs last x)
          hs'
          last'
  path_connects net asked [] last (key, end, wired, there) =
      let (sent, run, sends) =
        connect-exit v laws net last.st cid up d target x last.world key end wired asked there in
      ([], connected last sent, (sent, run, sends, refl, refl))
  path_connects net asked (h ∷ hs) last (key, down, fits, ready) =
      let inner = begin_layered v laws hs last x in
      let (sent, run, sends) =
        connect-middle v laws net h.st cid h.next inner h.world key down fits in
      let (rest, last', opened) = path_connects net asked hs last ready in
      (passed_connect h sent ∷ rest, last', (sent, inner, rest, run, sends, refl, opened))
