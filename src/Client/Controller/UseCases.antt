-- ===== src/Client/Controller/UseCases.antt =====
-- The use cases of cmd/client/usecase leave the stream manager
-- (shared/service/stream_manager_service.go) as it is.
use go_ptor.Common.{ℕ, ◌≡◌, refl, true, some, List, [], ◌∷◌, String, arith, not, ◌==◌, length, map}
use go_ptor.Common.Result.{ok, stream_not_active, keygen_failed}
use go_ptor.Common.Exec.{lift}
use go_ptor.Value.Stream.{StreamId, stream_id_from}
use go_ptor.Value.Circuit.{CircuitId}
use go_ptor.Value.Command.{CellCommand, cmd_connect, cmd_end}
use go_ptor.Value.Relay.{RelayId}
use go_ptor.Cell.{Bytes, Cell, new_cell}
use go_ptor.Nonce.{Nonce}
use go_ptor.Crypto.{Key, aes_multi_seal}
use go_ptor.Crypto.Exchange.{or_fail}
use go_ptor.Payload.{encode_payload}
use go_ptor.Net.{circuit_id_from, circuit_id_string, drew, dial}
use go_ptor.Wire.{send_to_connection}
use go_ptor.Client.Circuit.{
  Circuit, open_stream, conn, hop_begin_nonce, active_streams, set_conn, new_circuit,
}
use go_ptor.Client.World.{World, Address, Services, net, allocate}
use go_ptor.Client.Repository.{find, find_address, remove_circuit, wipe_and_delete}
use go_ptor.Client.Repository
use go_ptor.Client.Directory.{Relay}
use go_ptor.Client.Use.Send.{
  send_data, send_connect, hop_keys, hop_nonces, next_nonce, contains, payload_of, or_data,
  connect_payload,
}
use go_ptor.Client.Use.Stream.{
  open_stream_use, close_stream_use, handle_end, open_at, close_at, close_all_at, send_end,
}
use go_ptor.Client.Use.Build.{
  build_circuit, build, exit_id, choose, extend_loop, torn_down, or_three, endpoint_or_empty,
}
use go_ptor.Client.Controller.Quiet.{
  Quiet, net-Quiet, still, lifted, looked_up, on_circuit-Quiet, changed, failed, done, chosen, bind,
}

module _ (v : Services) where
  open v use {env, aead, gob}

  found : (cid : CircuitId) → Quiet (find cid)
  unfolding find
  found cid = record { step = λ w. refl }

  named : (text : String) → Quiet (lift {S = World} (circuit_id_from env text))
  named text = lifted (circuit_id_from env text)

  sent :
      (cell : Cell) (c : Circuit) (cid : CircuitId)
      → Quiet (net (send_to_connection env cell (conn 0 c) cid))
  sent cell c cid = net-Quiet (send_to_connection env cell (conn 0 c) cid)

  pub send_data-Quiet :
      (text : String) (n : ℕ) (plain : Bytes) (cmd : CellCommand)
      → Quiet (send_data v text n plain cmd)
  unfolding send_data
  send_data-Quiet text n plain cmd = bind _ _ (named text) (λ cid.
      bind _ _ (lifted (stream_id_from n)) (λ sid. bind _ _ (found cid) (λ p.
        bind _ _ (looked_up p) (λ (c : Circuit).
          chosen (not (contains sid (active_streams c))) (failed stream_not_active) (
            bind _ _
              (on_circuit-Quiet (hop_nonces (next_nonce (or_data v cmd)) (length c.hops) 0) p)
              (λ nonces.
                bind _ _ (lifted (aes_multi_seal aead (hop_keys (length c.hops) 0 c) nonces plain))
                  (λ enc. bind _ _ (lifted (payload_of v (or_data v cmd) sid enc)) (λ payload.
                    bind _ _ (lifted (new_cell (or_data v cmd) payload))
                      (λ cell. bind _ _ (sent cell c cid) (λ _. done (length plain)))))))))))

  pub send_connect-Quiet : (text target : String) → Quiet (send_connect v text target)
  unfolding send_connect
  send_connect-Quiet text target = bind _ _ (named text) (λ cid. bind _ _ (found cid) (λ p.
      bind _ _ (lifted (connect_payload v target)) (λ payload.
        bind _ _ (looked_up p) (λ (c : Circuit).
          bind _ _ (on_circuit-Quiet (hop_nonces hop_begin_nonce (length c.hops) 0) p) (λ nonces.
            bind _ _ (lifted (aes_multi_seal aead (hop_keys (length c.hops) 0 c) nonces payload))
              (λ enc. bind _ _ (lifted (new_cell cmd_connect enc)) (λ cell. sent cell c cid)))))))

  send_end-Quiet : (p : Address) (cid : CircuitId) (sid : StreamId) → Quiet (send_end v p cid sid)
  unfolding send_end
  send_end-Quiet p cid sid =
      bind _ _ (lifted (encode_payload gob.content (record { stream_id = sid; content = [] })))
        (λ payload.
          bind _ _ (lifted (new_cell cmd_end payload))
            (λ cell. bind _ _ (looked_up p) (λ c. sent cell c cid)))

  pub close_stream_use-Quiet : (text : String) (n : ℕ) → Quiet (close_stream_use v text n)
  unfolding close_stream_use close_at
  close_stream_use-Quiet text n = bind _ _ (named text) (λ cid.
      bind _ _ (lifted (stream_id_from n)) (λ sid. bind _ _ (found cid) (λ p.
        bind _ _ (changed (close_at sid p) (λ w. refl)) (λ _.
          bind _ _ (send_end-Quiet p cid sid) (λ _. bind _ _ (looked_up p) (λ (c : Circuit).
            chosen (length (active_streams c) == 0)
              (bind _ _ (send_end-Quiet p cid 0) (λ _. done true)) (done true)))))))

  same-remove_circuit : (cid : CircuitId) (w : World) → (remove_circuit cid w).streams ≡ w.streams
  unfolding remove_circuit wipe_and_delete
  same-remove_circuit cid w = ground arith

  pub handle_end-Quiet : (text : String) (n : ℕ) → Quiet (handle_end v text n)
  unfolding handle_end close_at close_all_at
  handle_end-Quiet text n = bind _ _ (named text) (λ cid. bind _ _ (found cid) (λ p.
      chosen (n == 0)
        (bind _ _ (changed (close_all_at p) (λ w. refl))
          (λ _. bind _ _ (changed (remove_circuit cid) (same-remove_circuit cid)) (λ _. done true)))
        (bind _ _ (lifted (stream_id_from n))
          (λ sid. bind _ _ (changed (close_at sid p) (λ w. refl)) (λ _. done true)))))

  pub open_stream_use-Quiet : (text : String) → Quiet (open_stream_use v text)
  unfolding open_stream_use open_at
  open_stream_use-Quiet text = bind _ _ (named text) (λ cid. bind _ _ (found cid) (λ p.
      bind _ _ (still (λ w. ok (open_stream w.stream_counter (w.objects p)).0.1)) (λ sid.
        bind _ _ (changed (open_at p) (λ w. refl))
          (λ _. bind _ _ (looked_up p) (λ (c : Circuit). done (circuit_id_string env c.id, sid))))))

  fresh : (c : Circuit) → Quiet (allocate c)
  fresh c = record { step = λ w. refl }

  build-Quiet : (known : List Relay) (hops : ℕ) (exit : RelayId) → Quiet (build v known hops exit)
  unfolding build
  build-Quiet known hops exit =
      bind _ _ (net-Quiet (choose v known (or_three hops) exit)) (λ selected.
        bind _ _ (net-Quiet (λ h. (or_fail keygen_failed (v.generate_rsa h), drew ∷ h))) (λ priv.
          bind _ _ (still (λ w. ok (v.new_uuid w.history))) (λ cid.
            bind _ _ (net-Quiet (dial env (endpoint_or_empty v selected))) (λ c.
              bind _ _ (net-Quiet (extend_loop v c cid selected)) (λ (kns : List Key × List Nonce).
                bind _ _
                  (net-Quiet (
                    torn_down v c cid
                      (lift (new_circuit cid (map (λ r. r.id) selected) kns.0 kns.1 (some priv)))))
                  (λ cir. bind _ _ (fresh (set_conn 0 (some c) cir)) (λ p.
                    bind _ _ (changed (Repository.save p) (λ w. unfold Repository.save in refl))
                      (λ _. done p))))))))

  pub build_circuit-Quiet :
      (known : List Relay) (hops : ℕ) (exit : String) → Quiet (build_circuit v known hops exit)
  unfolding build_circuit
  build_circuit-Quiet known hops exit =
      bind _ _ (lifted (exit_id v exit)) (λ id. build-Quiet known hops id)
