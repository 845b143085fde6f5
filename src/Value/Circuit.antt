-- ===== src/Value/Circuit.antt =====
-- circuit_id.go. A UUID is an array of 16 bytes; its text form belongs to github.com/google/uuid.
use mathlib.Core.List.{List}
use go_ptor.Common.{ℕ, ℕ_discrete, ◌≡◌, length}

pub record CircuitId : Type 0 where
  pub val : List ℕ

unfoldable pub CircuitId-discrete : Discrete CircuitId
CircuitId-discrete = hlevel ℕ_discrete

-- A uuid.UUID has 16 bytes.
abbrev pub IsUuid : CircuitId → Type 0
IsUuid cid = length cid.val ≡ 16

-- CircuitID.Bytes
abbrev pub bytes : CircuitId → List ℕ
bytes cid = cid.val
