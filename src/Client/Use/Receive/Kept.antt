-- ===== src/Client/Use/Receive/Kept.antt =====
-- What the receiving loop of cmd/client/handler/socks5_controller.go leaves in place: the map of
-- circuits and the connections of every circuit.
use go_ptor.Common.{
  arith, length, ℕ_discrete, ◌==◌, ℕ, zero, suc, ◌≡◌, refl, ◌∙◌, Bool, true, false, Option, none,
  some, [], ◌∷◌, if◌then◌else◌, String,
}
use go_ptor.Common.Map.{Map, lookup}
use go_ptor.Common.Result.{Result, ok, err, nil_connection}
use go_ptor.Common.Exec.{Exec, modify, ignore, ◌>>=◌}
use go_ptor.Common.Respects.{IsPreorder, Respects, Respects-bind, Respects-on_error}
use go_ptor.Value.Stream.{StreamId}
use go_ptor.Cell.{Bytes, Cell}
use go_ptor.Net.{Conn, History, closed, close, write, read_conn, circuit_id_from}
use go_ptor.Wire.{read_cell}
use go_ptor.Payload.{decode_payload}
use go_ptor.Crypto.{aes_open}
use go_ptor.Value.Circuit.{CircuitId}
use go_ptor.Value.Command.{cmd_data, cmd_end, cmd_destroy}
use go_ptor.Wire.Grows.{Grows, Growing, Grows-IsPreorder, Grows-one, write-Grows}
use go_ptor.Wire.Asked.{read_cell-Grows}
use go_ptor.Client.Circuit.{Circuit, conn, hop_key, hop_upstream_data_nonce}
use go_ptor.Client.World.{World, Address, Act, Services, net, put_circuit}
use go_ptor.Client.Repository.{find}
use go_ptor.Client.Streams.{get, remove, close_found, close_loop, close_all}
use go_ptor.Client.Use.Receive.{
  Received, received, is_eof, CellData, in_circuit, from_conn, receive_cell, decrypt_layers,
  decrypt_onion_layers, handle_data_cell, handle_end_cell, is_end, decrypt_cell_data, to_stream,
  deliver, process, recv_round,
}

-- A circuit with the connections that it had.
abbrev Wired : Circuit → Circuit → Type 0
Wired c c' = c'.conns ≡ c.conns

Wired-IsPreorder : IsPreorder Wired
Wired-IsPreorder = record { reflexive = λ c. refl; transitive = λ a b. b ∙ a }

-- The history has grown, and circuits and connections are as before.
pub record Kept (w w' : World) : Type 0 where
  pub grown : Grows w.history w'.history
  pub found : w'.circuits ≡ w.circuits
  pub wired : (p : Address) → Wired (w.objects p) (w'.objects p)

pub Kept-IsPreorder : IsPreorder Kept
Kept-IsPreorder = record {
  reflexive =
      λ w. record { grown = Grows-IsPreorder.reflexive w.history; found = refl; wired = λ p. refl };
  transitive = λ a b. record {
    grown = Grows-IsPreorder.transitive a.grown b.grown;
    found = b.found ∙ a.found;
    wired = λ p. b.wired p ∙ a.wired p;
  };
}

abbrev Keeping : {A : Type 0} → Act A → Type 0
Keeping m = Respects Kept Kept-IsPreorder m

abbrev Wiring : {A : Type 0} → Exec Circuit A → Type 0
Wiring m = Respects Wired Wired-IsPreorder m

bind :
    {A B : Type 0} (m : Act A) (f : A → Act B)
    → Keeping m
    → ((a : A) → Keeping (f a))
    → Keeping (m >>= f)
bind = Respects-bind Kept Kept-IsPreorder

wire_bind :
    {A B : Type 0} (m : Exec Circuit A) (f : A → Exec Circuit B)
    → Wiring m
    → ((a : A) → Wiring (f a))
    → Wiring (m >>= f)
wire_bind = Respects-bind Wired Wired-IsPreorder

still : {A : Type 0} (r : World → Result A) → Keeping (λ w. (r w, w))
still r = record { step = λ w. Kept-IsPreorder.reflexive w }

unmoved : {A : Type 0} (r : Circuit → Result A) → Wiring (λ c. (r c, c))
unmoved r = record { step = λ c. refl }

net-Keeping : {A : Type 0} (m : Exec History A) → Growing m → Keeping (net m)
net-Keeping m h = record {
  step = λ w. record { grown = h.step w.history; found = refl; wired = λ p. refl };
}

stored :
    (w : World) (p : Address) (c : Circuit) (q : Address)
    → Wired (w.objects p) c
    → Wired (w.objects q) ((put_circuit p c w).objects q)
stored w p c q e = ground (arith, e)

in_circuit-Keeping :
    {A : Type 0} (m : Exec Circuit A) (p : Address) → Wiring m → Keeping (in_circuit m p)
in_circuit-Keeping m p h = record {
  step = λ w. record {
    grown = Grows-IsPreorder.reflexive w.history;
    found = refl;
    wired = λ q. stored w p (m (w.objects p)).1 q (h.step (w.objects p));
  };
}

grown_close : (m : Map StreamId ℕ) (h : History) → Grows h (close_loop m h)
unfolding close_loop close
grown_close [] h = Grows-IsPreorder.reflexive h
grown_close ((sid, c) ∷ m) h =
    Grows-IsPreorder.transitive (Grows-one (closed c) h) (grown_close m (close c h))

stopped : Keeping {A = Bool} (λ w. (ok false, close_all w))
unfolding close_all
stopped = record {
  step = λ w. record { grown = grown_close w.streams w.history; found = refl; wired = λ p. refl };
}

removed : (sid : StreamId) (c : Option ℕ) (w : World) → Kept w (close_found sid c w)
unfolding close_found close
removed sid none w = Kept-IsPreorder.reflexive w
removed sid (some c) w = record {
  grown = Grows-one (closed c) w.history;
  found = refl;
  wired = λ p. refl;
}

chosen :
    {A : Type 0} (b : Bool) {m n : Act A} → Keeping m → Keeping n → Keeping (if b then m else n)
chosen true h k = h
chosen false h k = k

nonce_taken :
    (hop : ℕ)
    → Wiring (λ c. (ok (hop_upstream_data_nonce hop c).0, (hop_upstream_data_nonce hop c).1))
unfolding hop_upstream_data_nonce
nonce_taken hop = record { step = λ c. refl }

dropped : {A : Type 0} (m : Act A) → Keeping m → Keeping (ignore m)
dropped m h = record { step = h.step }

stream_removed : (sid : StreamId) → Keeping (modify (λ w. remove sid w))
unfolding remove
stream_removed sid = record { step = λ w. removed sid (lookup ℕ_discrete sid w.streams) w }

found-Keeping : (cid : CircuitId) → Keeping (find cid)
unfolding find
found-Keeping cid = record { step = λ w. Kept-IsPreorder.reflexive w }

module _ (v : Services) where
  open v use {env, aead, gob}

  layers-Wiring : (n hop : ℕ) (enc : Bytes) → Wiring (decrypt_layers v n hop enc)
  unfolding decrypt_layers hop_upstream_data_nonce
  layers-Wiring zero hop enc = unmoved (λ c. ok enc)
  layers-Wiring (suc n) hop enc = wire_bind _ _ (unmoved (λ c. ok (hop_key hop c))) (λ key.
      wire_bind _ _ (nonce_taken hop) (λ nonce.
        wire_bind _ _ (unmoved (λ c. aes_open aead key nonce enc))
          (λ decrypted. layers-Wiring n (suc hop) decrypted)))

  data-Wiring : (cell : Cell) → Wiring (handle_data_cell v cell)
  unfolding handle_data_cell decrypt_onion_layers
  data-Wiring cell = wire_bind _ _ (unmoved (λ c. decode_payload gob.content cell.payload)) (λ dp.
      wire_bind _ _
        (wire_bind _ _ (unmoved (λ c. ok (length c.hops))) (λ n. layers-Wiring n 0 dp.content))
        (λ opened.
          unmoved
            (λ c. ok (record { stream_id = dp.stream_id; content = opened; command = cell.cmd }))))

  decrypt-Keeping : (cell : Cell) (p : Address) → Keeping (decrypt_cell_data v cell p)
  unfolding decrypt_cell_data
  decrypt-Keeping cell p =
      chosen (cell.cmd == cmd_data)
        (bind _ _ (in_circuit-Keeping (handle_data_cell v cell) p (data-Wiring cell))
          (λ d. still (λ w. ok (record { cell_data = some d; should_close = false }))))
        (chosen (cell.cmd == cmd_end)
          (still (λ w. ok (record {
            cell_data = some (handle_end_cell v cell);
            should_close = (handle_end_cell v cell).stream_id == 0;
          })))
          (chosen (cell.cmd == cmd_destroy)
            (still (λ w. ok (record { cell_data = none; should_close = true })))
            (still (λ w. ok (record { cell_data = none; should_close = false })))))

  to_stream-Keeping : (c : Option ℕ) (b : Bytes) → Keeping (to_stream v c b)
  unfolding to_stream
  to_stream-Keeping none b = still (λ w. ok true)
  to_stream-Keeping (some c) b =
      bind _ _ (dropped (net (write env (some c) b)) (net-Keeping _ (write-Grows env (some c) b)))
        (λ _. still (λ w. ok true))

  deliver-Keeping : (d : Option CellData) → Keeping (deliver v d)
  unfolding deliver remove
  deliver-Keeping none = still (λ w. ok true)
  deliver-Keeping (some d) =
      chosen (d.command == cmd_data)
        (bind _ _ (still (λ w. ok (get d.stream_id w))) (λ c. to_stream-Keeping c d.content))
        (chosen (d.command == cmd_end)
          (chosen (d.stream_id == 0) stopped
            (bind _ _ (stream_removed d.stream_id) (λ _. still (λ w. ok true))))
          (still (λ w. ok true)))

  pub process-Keeping : (r : Received) → Keeping (process v r)
  unfolding process
  process-Keeping is_eof = stopped
  process-Keeping (received cell p) =
      Respects-on_error Kept Kept-IsPreorder (decrypt_cell_data v cell p) _ _
        (decrypt-Keeping cell p) (λ d. chosen d.should_close stopped (deliver-Keeping d.cell_data))
        (λ e. stopped)

  from-Keeping : (p : Address) (c : Conn) → Keeping (from_conn v p c)
  unfolding from_conn
  from-Keeping p none = still (λ w. err nil_connection)
  from-Keeping p (some c) =
      Respects-on_error Kept Kept-IsPreorder (net (read_cell env (read_conn env (some c)))) _ _
        (net-Keeping (read_cell env (read_conn env (some c))) (read_cell-Grows env (some c)))
        (λ r. still (λ w. ok (received r.1 p)))
        (λ e. chosen (is_end e) (still (λ w. ok is_eof)) (still (λ w. err e)))

  receive-Keeping : (text : String) → Keeping (receive_cell v text)
  unfolding receive_cell
  receive-Keeping text = bind _ _ (still (λ w. circuit_id_from env text)) (λ cid.
      bind _ _ (found-Keeping cid)
        (λ p. bind _ _ (still (λ w. ok (w.objects p))) (λ c. from-Keeping p (conn 0 c))))

  pub recv_round-Keeping : (text : String) → Keeping (recv_round v text)
  unfolding recv_round
  recv_round-Keeping text =
      Respects-on_error Kept Kept-IsPreorder (receive_cell v text) _ _ (receive-Keeping text)
        (λ r. process-Keeping r) (λ e. stopped)
