-- ===== src/Wire/Reliable.antt =====
-- A network that takes every write and a random source that never runs dry
-- (the successful branches of shared/service/cell_sender_service.go).
use go_ptor.Common.{ℕ, ◌+◌, ◌-◌, ◌≤◌, ◌≡◌, refl, true, some, ◌∷◌, ◌++◌, arith, length}
use go_ptor.Common.Result.{ok}
use go_ptor.Value.Circuit.{CircuitId, bytes}
use go_ptor.Cell.{Bytes, Cell, max_cell_size, max_payload_size, encode}
use go_ptor.Cell.RoundTrip.{frame}
use go_ptor.Net.{Env, History, wrote, drew, write, encode_now}
use go_ptor.Wire.{forward_cell}
use go_ptor.Wire.Framing.{Sends}

pub record IsReliable (env : Env) : Type 0 where
  pub writes : (h : History) (c : ℕ) (b : Bytes) → env.writable h c b ≡ true
  pub fills : (h : History) (n : ℕ) → (pad : Bytes) × (env.rand h n ≡ some pad) × (length pad ≡ n)

module _ (env : Env) (net : IsReliable env) where
  pub write-reliable :
      (c : ℕ) (b : Bytes) (h : History) → write env (some c) b h ≡ (ok tt, wrote c b ∷ h)
  unfolding write
  write-reliable c b h = rw (net.writes h c b, write) refl

  encode-reliable :
      (c : Cell) (pad : Bytes) (h : History)
      → length c.payload ≤ max_payload_size
      → env.rand h (max_cell_size - (4 + length c.payload)) ≡ some pad
      → encode (env.rand h) c ≡ ok (frame c pad)
  unfolding encode
  encode-reliable c pad h fits drawn = ground arith

  -- A cell whose payload fits is sent.
  pub forward_cell-reliable :
      (conn : ℕ) (cid : CircuitId) (c : Cell) (h : History)
      → length c.payload ≤ max_payload_size
      → (h' : History) × (forward_cell env (some conn) cid c h ≡ (ok tt, h'))
        × Sends h conn cid c h'
  unfolding forward_cell encode_now
  forward_cell-reliable conn cid c h fits =
      let (pad, drawn, size) = net.fills h (max_cell_size - (4 + length c.payload)) in
      let h' : History = wrote conn (bytes cid ++ frame c pad) ∷ drew ∷ h in
      (
        h',
        rw (encode-reliable c pad h fits drawn, forward_cell) (write-reliable conn _ (drew ∷ h)),
        record { pad = pad; size = size; fits = fits; event = refl },
      )
