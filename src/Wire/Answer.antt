-- ===== src/Wire/Answer.antt =====
-- A peer that answers EXTEND with CREATED: SendExtendCell and WaitForCreatedResponse of
-- shared/service/tcp_circuit_build_service.go, SendCreated of shared/service/cell_sender_service.go.
use go_ptor.Common.{ℕ, ◌<◌, ◌≤◌, ◌^◌, ◌≡◌, refl, some, ◌∷◌, arith, length}
use go_ptor.Common.Result.{ok}
use go_ptor.Value.Circuit.{CircuitId, IsUuid}
use go_ptor.Cell.{Bytes, Cell, max_payload_size}
use go_ptor.Net.{Env, History, wrote, read, read_conn}
use go_ptor.Wire.{
  forward_cell, send_extend_cell, created_header, send_created, wait_for_created_response,
}
use go_ptor.Wire.Created.{created_header-reads}
use go_ptor.Wire.Framing.{Sends}
use go_ptor.Wire.Reliable.{IsReliable, write-reliable, forward_cell-reliable}

-- Once the cell is sent on connection `c`, the next reads from it give the header and the payload
-- of a CREATED answer.
pub record Answers (env : Env) (c : ℕ) (cid : CircuitId) (cell : Cell) (payload : Bytes)
    (h : History) : Type 0 where
  pub positive : 0 < length payload
  pub short : length payload < 2 ^ 16
  pub header :
      (h' : History)
      → Sends h c cid cell h'
      → env.read_full h' c 20 ≡ ok (created_header env cid (length payload))
  pub body :
      (h' : History)
      → Sends h c cid cell h'
      → env.read_full (read c 20 ∷ h') c (length payload) ≡ ok payload

-- What the two reads leave in the history.
abbrev pub answered : ℕ → Bytes → History → History
answered c payload h = read c (length payload) ∷ read c 20 ∷ h

-- What writing an answer leaves there.
abbrev pub created : Env → ℕ → CircuitId → Bytes → History → History
created env c cid payload h =
    wrote c payload ∷ wrote c (created_header env cid (length payload)) ∷ h

module _ (env : Env) (cid : CircuitId) where
  pub send_created-reliable :
      IsReliable env
      → (c : ℕ) (payload : Bytes) (h : History)
      → send_created env (some c) cid payload h ≡ (ok tt, created env c cid payload h)
  unfolding send_created
  send_created-reliable net c payload h =
      rw
        (
          write-reliable env net c (created_header env cid (length payload)) h,
          write-reliable env net c payload (wrote c (created_header env cid (length payload)) ∷ h),
        )
        refl

  -- SendExtendCell writes what ForwardCell writes.
  pub send_extend_cell-reliable :
      IsReliable env
      → (c : ℕ) (cell : Cell) (h : History) → length cell.payload ≤ max_payload_size
      → (h' : History) × (send_extend_cell env (some c) cid cell h ≡ (ok tt, h'))
        × Sends h c cid cell h'
  unfolding send_extend_cell forward_cell
  send_extend_cell-reliable net c cell h fits = forward_cell-reliable env net c cid cell h fits

  pub wait_for_created_response-answered :
      IsUuid cid
      → (c : ℕ) (cell : Cell) (payload : Bytes) (h h' : History) → Answers env c cid cell payload h
      → Sends h c cid cell h'
      → wait_for_created_response env (read_conn env (some c)) h'
        ≡ (ok payload, answered c payload h')
  unfolding wait_for_created_response read_conn
  wait_for_created_response-answered u c cell payload h h' a sends =
      let (cmd, version, size) = created_header-reads env cid u (length payload) a.short in
      rw (a.header h' sends, cmd, version, size) (ground (arith, a.positive, a.body h' sends))
