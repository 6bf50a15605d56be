-- ===== src/Prelude/Perms.antt =====
-- Rearrangements, as the library's `Permᴰ`: what holds of every element, and the length, stay.
use mathlib.Core.Path.{◌≡◌, refl, ◌∙◌, subst}
use mathlib.Core.List.{List, Permᴰ}
use native.Mathlib.Omega.{arith}
use file_share_p2p.Prelude.Lists.{length, All}

module _ {ℓ} {A : Type ℓ} where
  pub perm-All {κ} : (P : A → Type κ) {xs ys : List A} → Permᴰ xs ys → All P xs → All P ys
  perm-All P Permᴰ.nil h = tt
  perm-All P (Permᴰ.cons e p) h = (subst P e h.0, perm-All P p h.1)
  perm-All P (Permᴰ.swap e f) h = (subst P f h.1.0, (subst P e h.0, h.1.1))
  perm-All P (Permᴰ.trans p q) h = perm-All P q (perm-All P p h)

  pub length-perm : {xs ys : List A} → Permᴰ xs ys → length xs ≡ length ys
  length-perm Permᴰ.nil = refl
  length-perm (Permᴰ.cons e p) = omega (arith, length-perm p)
  length-perm (Permᴰ.swap e f) = refl
  length-perm (Permᴰ.trans p q) = length-perm p ∙ length-perm q
