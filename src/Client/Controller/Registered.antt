-- ===== src/Client/Controller/Registered.antt =====
-- A SOCKS5 connection leaves no entry behind in the stream manager
-- (cmd/client/handler/socks5_controller.go, shared/service/stream_manager_service.go).
use go_ptor.Common.{
  ℕ, ◌≡◌, refl, sym, ap, ◌∙◌, Bool, true, false, some, List, [], ◌∷◌, ℕ_discrete, String, arith,
}
use text.Mathlib.Text.{◌==◌ as str_eq}
use go_ptor.Common.Map.{
  lookup, delete, lookup-insert_self, lookup-insert_ne, lookup-delete_self, lookup-delete_ne,
}
use go_ptor.Common.Result.{Error}
use go_ptor.Common.Exec.{on_error, ◌>>=◌}
use go_ptor.Common.Respects.{IsPreorder, Respects, Respects-bind, Respects-on_error}
use go_ptor.Value.Stream.{StreamId}
use go_ptor.Value.Command.{cmd_begin}
use go_ptor.Cell.{Bytes}
use go_ptor.Payload.{encode_payload}
use go_ptor.Net.{write, circuit_id_string}
use go_ptor.Client.Circuit.{Circuit, conn}
use go_ptor.Client.World.{World, Act, Services, go, recv_loop}
use go_ptor.Client.Directory.{Relay}
use go_ptor.Client.Hidden.{HiddenService}
use go_ptor.Client.Resolve.{Names, Resolved, resolve}
use go_ptor.Client.Socks.{Texts, negotiate, socks5_resp}
use go_ptor.Client.Streams
use go_ptor.Client.Streams.{get}
use go_ptor.Client.Controller.{
  Reads, send_chunk, at_end, relay_loop, begin_and_relay, connect_hidden, registered,
  setup_stream_and_relay, answer, connected, handle_connection,
}
use go_ptor.Client.Controller.Quiet.{
  Same, Quiet, net-Quiet, lifted, looked_up, dropped, done, chosen, bind, caught,
}
use go_ptor.Client.Controller.UseCases.{
  send_data-Quiet, send_connect-Quiet, close_stream_use-Quiet, handle_end-Quiet,
  open_stream_use-Quiet, build_circuit-Quiet,
}

-- What is in the stream manager afterwards was there before.
abbrev pub Kept : World → World → Type 0
Kept w w' = (j : StreamId) (c : ℕ) → get j w' ≡ some c → get j w ≡ some c

Kept-IsPreorder : IsPreorder Kept
Kept-IsPreorder = record { reflexive = λ w j c e. e; transitive = λ a b j c e. a j c (b j c e) }

abbrev Keeping : {A : Type 0} → Act A → Type 0
Keeping m = Respects Kept Kept-IsPreorder m

quiet : {A : Type 0} (m : Act A) → Quiet m → Keeping m
unfolding get
quiet m q = record { step = λ w j c e. ap (λ s. lookup ℕ_discrete j s) (sym (q.step w)) ∙ e }

followed :
    {A B : Type 0} (m : Act A) (f : A → Act B)
    → Keeping m
    → ((a : A) → Keeping (f a))
    → Keeping (m >>= f)
followed = Respects-bind Kept Kept-IsPreorder

caught_too :
    {A B : Type 0} (m : Act A) (f : A → Act B) (g : Error → Act B)
    → Keeping m
    → ((a : A) → Keeping (f a))
    → ((e : Error) → Keeping (g e))
    → Keeping (on_error m f g)
caught_too = Respects-on_error Kept Kept-IsPreorder

streams-remove :
    (sid : StreamId) (conn : ℕ) (w : World)
    → lookup ℕ_discrete sid w.streams ≡ some conn
    → (Streams.remove sid w).streams ≡ delete ℕ_discrete sid w.streams
unfolding Streams.remove
streams-remove sid conn w e = ground (arith, e)

-- Removing what was added, with nothing happening to the manager in between.
removed-added :
    (sid : StreamId) (conn : ℕ) (w w' : World)
    → Same (Streams.add sid conn w) w'
    → Kept w (Streams.remove sid w')
unfolding get Streams.add
removed-added sid conn w w' same j c e =
    let there : lookup ℕ_discrete sid w'.streams ≡ some conn =
      ap (λ s. lookup ℕ_discrete sid s) same ∙ lookup-insert_self ℕ_discrete sid conn w.streams in
    let gone : lookup ℕ_discrete j (delete ℕ_discrete sid w'.streams) ≡ some c =
      sym (ap (λ s. lookup ℕ_discrete j s) (streams-remove sid conn w' there)) ∙ e in
    elim (ℕ_discrete j sid) [
      | yes y ↦
          let missing = lookup-delete_self ℕ_discrete sid w'.streams in
          absurd (cc (missing, gone, y))
      | no n ↦
          sym (lookup-insert_ne ℕ_discrete j sid conn w.streams n)
          ∙ sym (ap (λ s. lookup ℕ_discrete j s) same)
          ∙ sym (lookup-delete_ne ℕ_discrete j sid w'.streams n)
          ∙ gone
    ]

module _ (v : Services) where
  open v use {env, gob}

  send_chunk-Quiet :
      (text : String) (sid : StreamId) (chunk : Bytes) → Quiet (send_chunk v text sid chunk)
  unfolding send_chunk
  send_chunk-Quiet text sid [] = done true
  send_chunk-Quiet text sid (b ∷ bs) =
      caught _ _ _ (send_data-Quiet v text sid (b ∷ bs) 0) (λ n. done true) (λ e. done false)

  at_end-Quiet : (text : String) (sid : StreamId) (b : Bool) → Quiet (at_end v text sid b)
  unfolding at_end
  at_end-Quiet text sid true = dropped _ (handle_end-Quiet v text sid)
  at_end-Quiet text sid false = done tt

  relay_loop-Quiet :
      (text : String) (sid : StreamId) (chunks : List Bytes) (last : Bytes) (b : Bool)
      → Quiet (relay_loop v text sid chunks last b)
  unfolding relay_loop
  relay_loop-Quiet text sid [] last b =
      bind _ _ (send_chunk-Quiet text sid last)
        (λ sent. chosen sent (at_end-Quiet text sid b) (done tt))
  relay_loop-Quiet text sid (chunk ∷ chunks) last b =
      bind _ _ (send_chunk-Quiet text sid chunk)
        (λ sent. chosen sent (relay_loop-Quiet text sid chunks last b) (done tt))

  begin_and_relay-Quiet :
      (c : ℕ) (text : String) (sid : StreamId) (addr : String) (reads : Reads)
      → Quiet (begin_and_relay v c text sid addr reads)
  unfolding begin_and_relay
  begin_and_relay-Quiet c text sid addr reads =
      bind _ _ (lifted (encode_payload gob.begin (record { stream_id = sid; target = addr })))
        (λ payload. bind _ _ (send_data-Quiet v text sid payload cmd_begin) (λ _.
          bind _ _ (dropped _ (net-Quiet (write env (some c) (socks5_resp 0)))) (λ _.
            bind _ _ (relay_loop-Quiet text sid reads.chunks reads.last reads.at_eof)
              (λ _. dropped _ (close_stream_use-Quiet v text sid)))))

  registered-Keeping :
      (c : ℕ) (text : String) (sid : StreamId) (addr : String) (reads : Reads)
      → Keeping (registered v c text sid addr reads)
  unfolding registered
  registered-Keeping c text sid addr reads = record {
    step = λ w.
        removed-added sid c w _
          ((begin_and_relay-Quiet c text sid addr reads).step (Streams.add sid c w));
  }

  connect_hidden-Quiet : (text exit : String) → Quiet (connect_hidden v text exit)
  unfolding connect_hidden
  connect_hidden-Quiet text exit = chosen (str_eq exit "") (done tt) (send_connect-Quiet v text "")

  setup_stream_and_relay-Keeping :
      (c : ℕ) (text exit addr : String) (reads : Reads)
      → Keeping (setup_stream_and_relay v c text exit addr reads)
  unfolding setup_stream_and_relay
  setup_stream_and_relay-Keeping c text exit addr reads =
      followed _ _ (quiet (go (recv_loop text)) (record { step = λ w. refl })) (λ _.
        followed _ _ (quiet _ (connect_hidden-Quiet text exit)) (λ _.
          followed _ _ (quiet _ (open_stream_use-Quiet v text))
            (λ (st : String × StreamId). registered-Keeping c text st.1 addr reads)))

  answer-Quiet : (c code : ℕ) → Quiet (answer v c code)
  unfolding answer
  answer-Quiet c code = dropped _ (net-Quiet (write env (some c) (socks5_resp code)))

  module _ (texts : Texts) (names : Names) (known : List Relay) (services : List HiddenService)
      (hops : ℕ) where
    connected-Keeping :
        (c : ℕ) (reads : Reads) (out : Resolved)
        → Keeping (connected v texts names known services hops c reads out)
    unfolding connected
    connected-Keeping c reads out =
        caught_too _ _ _ (quiet _ (build_circuit-Quiet v known hops out.exit_relay_id))
          (λ p. followed _ _ (quiet _ (looked_up p)) (λ (cir : Circuit).
            caught_too _ _ _
              (setup_stream_and_relay-Keeping c (circuit_id_string env cir.id) out.exit_relay_id
                out.dial_address reads)
              (λ a. quiet _ (done a)) (λ e. quiet _ (done tt))))
          (λ e. quiet _ (answer-Quiet c 1))

    -- Whatever a SOCKS5 connection asks for, and wherever its handling fails or ends, every entry
    -- of the stream manager afterwards was there before: the stream that was opened for it does
    -- not stay registered.
    pub handle_connection-Kept :
        (c : ℕ) (reads : Reads) (w : World)
        → Kept w (handle_connection v texts names known services hops c reads w).1
    unfolding handle_connection get
    handle_connection-Kept c reads w =
        (caught_too _ _ _ (quiet _ (net-Quiet (negotiate env texts (some c))))
            (λ (target : String × ℕ).
              caught_too _ _ _ (quiet _ (lifted (resolve names env services target.0 target.1)))
                (connected-Keeping c reads) (λ e. quiet _ (answer-Quiet c 4)))
            (λ e. quiet _ (done tt))).step
          w
