-- ===== src/Prelude/Sets.antt =====
-- Go's `map[string]bool` where only `true` is stored: a list of keys without repetition.
use Prim.Native.Nat.{suc, ◌<◌}
use mathlib.Core.Path.{◌≡◌, refl}
use mathlib.Core.Bool.{Bool, true, false, not, ◌&&◌, ◌||◌}
use mathlib.Core.List.{List, [], ◌∷◌, ◌++◌}
use native.Mathlib.Omega.{arith}
use file_share_p2p.Prelude.Tests.{if◌then◌else◌}
use file_share_p2p.Prelude.Equality.{Eq, ◌==◌}
use file_share_p2p.Prelude.Lists.{length}

module _ {ℓ} {A : Type ℓ} ⦃e : Eq A⦄ where
  unfoldable pub contains : A → List A → Bool
  contains a [] = false
  contains a (x ∷ xs) = a == x || contains a xs

  -- `set[a] = true`
  unfoldable pub insert : A → List A → List A
  insert a [] = a ∷ []
  insert a (x ∷ xs) = if a == x then x ∷ xs else x ∷ insert a xs

  -- `delete(set, a)`
  unfoldable pub remove : A → List A → List A
  remove a [] = []
  remove a (x ∷ xs) = let rest = remove a xs in if a == x then rest else x ∷ rest

  abbrev pub IsNodup : List A → Type 0
  IsNodup [] = Unit
  IsNodup (x ∷ xs) = (contains x xs ≡ false) × IsNodup xs

  pub contains-insert :
      (a b : A) (xs : List A) → contains b (insert a xs) ≡ (b == a || contains b xs)
  unfolding contains insert
  contains-insert a b [] = refl
  contains-insert a b (x ∷ xs) = ground (arith, contains-insert a b xs)

  pub contains-remove :
      (a b : A) (xs : List A) → contains b (remove a xs) ≡ (not (b == a) && contains b xs)
  unfolding contains remove
  contains-remove a b [] = ground arith
  contains-remove a b (x ∷ xs) = ground (arith, contains-remove a b xs)

  pub contains-append :
      (a : A) (xs ys : List A) → contains a (xs ++ ys) ≡ (contains a xs || contains a ys)
  unfolding contains
  contains-append a [] ys = refl
  contains-append a (x ∷ xs) ys = ground (arith, contains-append a xs ys)

  pub insert-IsNodup : (a : A) (xs : List A) → IsNodup xs → IsNodup (insert a xs)
  unfolding insert contains
  insert-IsNodup a [] u = (refl, tt)
  insert-IsNodup a (x ∷ xs) (fresh, u) =
      ground (arith, insert-IsNodup a xs u, contains-insert a x xs)

  pub remove-IsNodup : (a : A) (xs : List A) → IsNodup xs → IsNodup (remove a xs)
  unfolding remove contains
  remove-IsNodup a [] u = tt
  remove-IsNodup a (x ∷ xs) (fresh, u) =
      ground (arith, remove-IsNodup a xs u, contains-remove a x xs)

  pub length-insert :
      (a : A) (xs : List A)
      → length (insert a xs) ≡ (if contains a xs then length xs else suc (length xs))
  unfolding insert contains
  length-insert a [] = refl
  length-insert a (x ∷ xs) = ground (arith, length-insert a xs)

  pub remove_absent : (a : A) (xs : List A) → contains a xs ≡ false → remove a xs ≡ xs
  unfolding remove contains
  remove_absent a [] h = refl
  remove_absent a (x ∷ xs) h = ground (arith, remove_absent a xs)

  pub remove_idem : (a : A) (xs : List A) → remove a (remove a xs) ≡ remove a xs
  remove_idem a xs = remove_absent a (remove a xs) (ground (arith, contains-remove a a xs))

  pub pos_of_contains : (a : A) (xs : List A) → contains a xs ≡ true → 0 < length xs
  unfolding contains
  pos_of_contains a [] h = cc
  pos_of_contains a (x ∷ xs) h = omega arith

  pub contains_of_empty : (a : A) (xs : List A) → length xs ≡ 0 → contains a xs ≡ false
  unfolding contains
  contains_of_empty a [] h = refl
  contains_of_empty a (x ∷ xs) h = absurd (omega arith)

  pub insert_present : (a : A) (xs : List A) → contains a xs ≡ true → insert a xs ≡ xs
  unfolding insert contains
  insert_present a [] h = cc
  insert_present a (x ∷ xs) h = ground (arith, insert_present a xs)

  pub insert_idem : (a : A) (xs : List A) → insert a (insert a xs) ≡ insert a xs
  insert_idem a xs = insert_present a (insert a xs) (ground (arith, contains-insert a a xs))

  pub insert_pos : (a : A) (xs : List A) → 0 < length (insert a xs)
  unfolding insert
  insert_pos a [] = omega arith
  insert_pos a (x ∷ xs) = ground arith
