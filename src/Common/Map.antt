-- ===== src/Common/Map.antt =====
-- Go's maps: association lists with at most one entry for a key. A write replaces the entry or
-- adds one at the end; Go leaves the order of iteration open, and here it is that of the list.
use mathlib.Core.List
use go_ptor.Common.{◌≡◌, refl, Option, none, some, List, [], ◌∷◌, arith, ite, ◌≢◌}

abbrev pub Map {ℓ} : Type ℓ → Type ℓ → Type ℓ
Map K V = List (K × V)

abbrev pub values {ℓ} : {K V : Type ℓ} → Map K V → List V
values m = List.map (λ e. e.1) m

module _ {ℓ} {K V : Type ℓ} (dec : Discrete K) where
  -- v, ok := m[k]
  unfoldable pub lookup : K → Map K V → Option V
  lookup k [] = none
  lookup k ((j, v) ∷ m) = ite (dec k j) (some v) (lookup k m)

  -- m[k] = v
  unfoldable pub insert : K → V → Map K V → Map K V
  insert k v [] = (k, v) ∷ []
  insert k v ((j, w) ∷ m) = let rest = insert k v m in ite (dec k j) ((k, v) ∷ m) ((j, w) ∷ rest)

  -- delete(m, k)
  unfoldable pub delete : K → Map K V → Map K V
  delete k [] = []
  delete k ((j, v) ∷ m) = let rest = delete k m in ite (dec k j) rest ((j, v) ∷ rest)

  pub lookup-insert :
      (j k : K) (v : V) (m : Map K V)
      → lookup j (insert k v m) ≡ ite (dec j k) (some v) (lookup j m)
  unfolding lookup insert
  lookup-insert j k v [] = refl
  lookup-insert j k v ((i, w) ∷ m) = ground (arith, lookup-insert j k v m)

  pub lookup-delete :
      (j k : K) (m : Map K V) → lookup j (delete k m) ≡ ite (dec j k) none (lookup j m)
  unfolding lookup delete
  lookup-delete j k [] = ground arith
  lookup-delete j k ((i, w) ∷ m) = ground (arith, lookup-delete j k m)

  pub lookup-insert_self : (k : K) (v : V) (m : Map K V) → lookup k (insert k v m) ≡ some v
  lookup-insert_self k v m = rw lookup-insert (ground arith)

  pub lookup-insert_ne :
      (j k : K) (v : V) (m : Map K V) → j ≢ k → lookup j (insert k v m) ≡ lookup j m
  lookup-insert_ne j k v m h = rw lookup-insert (ground arith)

  pub lookup-delete_self : (k : K) (m : Map K V) → lookup k (delete k m) ≡ none
  lookup-delete_self k m = rw lookup-delete (ground arith)

  pub lookup-delete_ne : (j k : K) (m : Map K V) → j ≢ k → lookup j (delete k m) ≡ lookup j m
  lookup-delete_ne j k m h = rw lookup-delete (ground arith)
