-- ===== src/Relay/Leaves/Steps.antt =====
-- The steps that the handlers of cmd/relay are made of leave the other circuits alone.
use go_ptor.Common.{ℕ, Bool, true, false, none, some, if◌then◌else◌, String}
use go_ptor.Common.Result.{Result, Error, ok, err}
use go_ptor.Common.Exec.{pure, fail, lift, modify, ignore, on_error, ◌>>=◌}
use go_ptor.Common.Respects.{Respects-bind, Respects-on_error}
use go_ptor.Value.Circuit.{CircuitId}
use go_ptor.Cell.{Bytes, Cell}
use go_ptor.Crypto.Exchange.{x25519_generate}
use go_ptor.Net.{Conn, drew, read_conn, dial, write}
use go_ptor.Wire.{forward_cell, send_created, send_ack}
use go_ptor.Wire.Grows.{
  Grows-one, forward_cell-Grows, send_ack-Grows, send_created-Grows, dial-Grows, read_conn-Grows,
  write-Grows, close_conn-Grows,
}
use go_ptor.Relay.ConnState.{ConnState, mark_served, close_conn}
use go_ptor.Relay.World.{World, Address, Act, Services, net, put_state, get_state, serve_conn}
use go_ptor.Relay.Use.{served_down, ensure_serve_down}
use go_ptor.Relay.Leaves.{
  Leaves, Leaves-IsPreorder, Leaving, grown, net-Leaves, put_state-Leaves, go-Leaves,
}

module _ (v : Services) (cid : CircuitId) (st : Address) where
  open v use {env, aead, gob, exchange}

  pub bind :
      {A B : Type 0} (m : Act A) (f : A → Act B)
      → Leaving cid st m
      → ((a : A) → Leaving cid st (f a))
      → Leaving cid st (m >>= f)
  bind = Respects-bind (Leaves cid st) (Leaves-IsPreorder cid st)

  pub caught :
      {A B : Type 0} (m : Act A) (f : A → Act B) (g : Error → Act B)
      → Leaving cid st m
      → ((a : A) → Leaving cid st (f a))
      → ((e : Error) → Leaving cid st (g e))
      → Leaving cid st (on_error m f g)
  caught = Respects-on_error (Leaves cid st) (Leaves-IsPreorder cid st)

  -- An action that changes nothing.
  pub still : {A : Type 0} (r : World → Result A) → Leaving cid st (λ w. (r w, w))
  still r = record { step = λ w. (Leaves-IsPreorder cid st).reflexive w }

  pub lifted : {A : Type 0} (r : Result A) → Leaving cid st (lift r)
  lifted r = still (λ _. r)

  pub looked_up : Leaving cid st (get_state st)
  looked_up = still (λ w. ok (w.states st))

  pub done : {A : Type 0} (a : A) → Leaving cid st (pure a)
  done a = still (λ _. ok a)

  pub failed : {A : Type 0} (e : Error) → Leaving cid st (fail {A = A} e)
  failed e = still (λ _. err e)

  pub chosen :
      {A : Type 0} (b : Bool) {m n : Act A}
      → Leaving cid st m
      → Leaving cid st n
      → Leaving cid st (if b then m else n)
  chosen true h k = h
  chosen false h k = k

  -- An action that succeeds and changes the world along the relation.
  pub changed :
      (f : World → World) → ((w : World) → Leaves cid st w (f w)) → Leaving cid st (modify f)
  changed f h = record { step = h }

  pub dropped : {A : Type 0} (m : Act A) → Leaving cid st m → Leaving cid st (ignore m)
  dropped m h = record { step = h.step }

  pub forward : (c : Conn) (cell : Cell) → Leaving cid st (net (forward_cell env c cid cell))
  forward c cell =
      net-Leaves cid st (forward_cell env c cid cell) (forward_cell-Grows env c cid cell)

  pub acked : (c : Conn) → Leaving cid st (net (send_ack env c cid))
  acked c = net-Leaves cid st (send_ack env c cid) (send_ack-Grows env c cid)

  pub dialled : (addr : String) → Leaving cid st (net (dial env addr))
  dialled addr = net-Leaves cid st (dial env addr) (dial-Grows env addr)

  pub closing :
      (c : Conn) → Leaving cid st (modify (λ w. record w { history = close_conn c w.history }))
  closing c =
      changed _ (λ w. grown cid st w (close_conn c w.history) (close_conn-Grows c w.history))

  served_down-Leaves : (s : ConnState) (c : Conn) (b : Bool) → Leaving cid st (served_down st s c b)
  unfolding served_down
  served_down-Leaves s none b = still _
  served_down-Leaves s (some d) true = still _
  served_down-Leaves s (some d) false =
      bind (modify (put_state st (mark_served s))) _
        (changed (put_state st (mark_served s)) (put_state-Leaves cid st (mark_served s)))
        (λ _. go-Leaves cid st (serve_conn (some d)))

  pub ensure_serve_down-Leaves : Leaving cid st (ensure_serve_down st)
  unfolding ensure_serve_down
  ensure_serve_down-Leaves =
      bind (get_state st) _ (still _) (λ s. served_down-Leaves s s.down s.served)

  pub written : (c : Conn) (b : Bytes) → Leaving cid st (net (write env c b))
  written c b = net-Leaves cid st (write env c b) (write-Grows env c b)

  pub reading : (c : Conn) (n : ℕ) → Leaving cid st (net (read_conn env c n))
  reading c n = net-Leaves cid st (read_conn env c n) (read_conn-Grows env c n)

  pub created : (c : Conn) (b : Bytes) → Leaving cid st (net (send_created env c cid b))
  created c b = net-Leaves cid st (send_created env c cid b) (send_created-Grows env c cid b)

  pub keyed : Leaving cid st (net (x25519_generate exchange))
  unfolding x25519_generate
  keyed = net-Leaves cid st (x25519_generate exchange) (record { step = λ h. Grows-one drew h })
