-- ===== src/Prelude/Maps.antt =====
-- Go's maps: an association list with at most one entry for a key. The order of the list is one
-- order in which `range` may visit the entries; what a loop does is stated for every order.
use mathlib.Core.Path.{◌≡◌, refl}
use mathlib.Core.Bool.{Bool, true, false}
use mathlib.Core.Option.{Option, none, some}
use mathlib.Core.List.{List, [], ◌∷◌}
use native.Mathlib.Omega.{arith}
use file_share_p2p.Prelude.Tests.{if◌then◌else◌}
use file_share_p2p.Prelude.Equality.{Eq, ◌==◌}
use file_share_p2p.Prelude.Sets.{contains}

abbrev pub Map {ℓ κ} : Type ℓ → Type κ → Type (ℓ ⊔ κ)
Map K V = List (K × V)

unfoldable pub keys {ℓ κ} : {K : Type ℓ} {V : Type κ} → Map K V → List K
keys [] = []
keys ((k, _) ∷ m) = k ∷ keys m

abbrev pub is_some {ℓ} : {A : Type ℓ} → Option A → Bool
is_some none = false
is_some (some _) = true

module _ {ℓ κ} {K : Type ℓ} {V : Type κ} ⦃e : Eq K⦄ where
  -- `v, ok := m[k]`
  unfoldable pub get : K → Map K V → Option V
  get k [] = none
  get k ((j, v) ∷ m) = if k == j then some v else get k m

  -- `m[k] = v`
  unfoldable pub put : K → V → Map K V → Map K V
  put k v [] = (k, v) ∷ []
  put k v ((j, w) ∷ m) = if k == j then (k, v) ∷ m else (j, w) ∷ put k v m

  -- `delete(m, k)`
  unfoldable pub delete : K → Map K V → Map K V
  delete k [] = []
  delete k ((j, w) ∷ m) = let rest = delete k m in if k == j then rest else (j, w) ∷ rest

  pub get-put :
      (k : K) (v : V) (m : Map K V) (j : K)
      → get j (put k v m) ≡ (if j == k then some v else get j m)
  unfolding get put
  get-put k v [] j = refl
  get-put k v ((i, w) ∷ m) j = ground (arith, get-put k v m j)

  pub get-delete :
      (k : K) (m : Map K V) (j : K) → get j (delete k m) ≡ (if j == k then none else get j m)
  unfolding get delete
  get-delete k [] j = ground arith
  get-delete k ((i, w) ∷ m) j = ground (arith, get-delete k m j)

  pub contains-keys : (k : K) (m : Map K V) → contains k (keys m) ≡ is_some (get k m)
  unfolding contains keys get
  contains-keys k [] = refl
  contains-keys k ((j, v) ∷ m) = ground (arith, contains-keys k m)

pub ruleset map_laws = (get-put, get-delete)
