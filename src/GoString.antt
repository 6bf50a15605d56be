-- ===== src/GoString.antt =====
-- Go strings and byte slices: lists of bytes. A text literal `bytes "..."` is ASCII.
use Prim.Native.Char.{code}
use Prim.Native.String.{String}
use mathlib.Core.Path.{ap₂}
use file_share_p2p.Prelude.{
  ℕ, ◌≡◌, refl, dite, List, [], ◌∷◌, Eq, ℕ_discrete, Bool, true, false, ◌&&◌, ◌||◌, eqb, Option,
  none, some, suc, ◌<◌, ◌++◌, length, All, if◌then◌else◌, Bool-cases, inl, inr, arith,
}

abbrev pub GoString : Type 0
GoString = List ℕ

pub head_path : {a b : ℕ} {s t : List ℕ} → a ∷ s ≡ b ∷ t → a ≡ b
head_path e = cc

pub tail_path : {a b : ℕ} {s t : List ℕ} → a ∷ s ≡ b ∷ t → s ≡ t
tail_path e = cc

unfoldable pub bytes_dec : (s t : List ℕ) → Dec (s ≡ t)
unfolding ℕ_discrete
bytes_dec [] [] = yes refl
bytes_dec [] (b ∷ t) = no (λ e. cc)
bytes_dec (a ∷ s) [] = no (λ e. cc)
bytes_dec (a ∷ s) (b ∷ t) =
    let rest = bytes_dec s t in
    dite (ℕ_discrete a b) (λ p. dite rest (λ q. yes (ap₂ ◌∷◌ p q)) (λ n. no (λ e. n (tail_path e))))
      (λ n. no (λ e. n (head_path e)))

instance unfoldable pub string_eq : Eq GoString
string_eq = record { dec = bytes_dec }

abbrev pub bytes : String → GoString
bytes String.[] = []
bytes (String.◌∷◌ c s) = code c ∷ bytes s

-- `strings.HasPrefix`
unfoldable pub has_prefix : GoString → GoString → Bool
has_prefix s [] = true
has_prefix [] (p ∷ prefix) = false
has_prefix (c ∷ s) (p ∷ prefix) = eqb c p && has_prefix s prefix

-- `strings.Contains`
unfoldable pub has_substring : GoString → GoString → Bool
unfolding has_prefix
has_substring [] sub = has_prefix [] sub
has_substring (c ∷ s) sub = has_prefix (c ∷ s) sub || has_substring s sub

-- `strings.Split` at a separator of one byte
abbrev pub push_front : ℕ → List GoString → List GoString
push_front c [] = (c ∷ []) ∷ []
push_front c (w ∷ ws) = (c ∷ w) ∷ ws

unfoldable pub split : ℕ → GoString → List GoString
split sep [] = [] ∷ []
split sep (c ∷ s) = let rest = split sep s in if eqb c sep then [] ∷ rest else push_front c rest

-- `strings.LastIndex` of one byte
unfoldable pub last_index : ℕ → GoString → Option ℕ
last_index sep [] = none
last_index sep (c ∷ s) = elim (last_index sep s) [
  | some i ↦ some (suc i)
  | none ↦ if eqb c sep then some 0 else none
]

-- The byte occurs in the string.
unfoldable pub has_byte : ℕ → GoString → Bool
has_byte sep [] = false
has_byte sep (c ∷ s) = eqb c sep || has_byte sep s

push_front-All :
    (sep c : ℕ) (ws : List GoString)
    → eqb c sep ≡ false
    → All (λ w. has_byte sep w ≡ false) ws
    → All (λ w. has_byte sep w ≡ false) (push_front c ws)
unfolding has_byte
push_front-All sep c [] e h = ground arith
push_front-All sep c (w ∷ ws) e h = (ground arith, h.1)

-- No part of a split holds the separator.
pub split-All : (sep : ℕ) (s : GoString) → All (λ w. has_byte sep w ≡ false) (split sep s)
unfolding split
split-All sep [] = (unfold has_byte in refl, tt)
split-All sep (c ∷ s) = elim (Bool-cases (eqb c sep)) [
  | inl e ↦ rw e ((unfold has_byte in refl), split-All sep s)
  | inr e ↦ rw e (push_front-All sep c (split sep s) e (split-All sep s))
]

length-push_front :
    (c : ℕ) (ws : List GoString) → 0 < length ws → length (push_front c ws) ≡ length ws
length-push_front c [] h = absurd (omega arith)
length-push_front c (w ∷ ws) h = refl

pub length-split_pos : (sep : ℕ) (s : GoString) → 0 < length (split sep s)
unfolding split
length-split_pos sep [] = omega arith
length-split_pos sep (c ∷ s) =
    ground (arith, length-push_front c (split sep s), length-split_pos sep s)

-- A split has one part more than the string has separators, so at least two where it has one.
pub length-split_two : (sep : ℕ) (s : GoString) → has_byte sep s ≡ true → 1 < length (split sep s)
unfolding split has_byte
length-split_two sep [] h = cc
length-split_two sep (c ∷ s) h =
    ground
      (arith, length-push_front c (split sep s), length-split_pos sep s, length-split_two sep s)

-- A prefix that ends in the separator and holds no other makes the first part.
pub split-append :
    (sep : ℕ) (p s : GoString)
    → has_byte sep p ≡ false
    → split sep (p ++ (sep ∷ s)) ≡ p ∷ split sep s
unfolding split has_byte
split-append sep [] s h = ground arith
split-append sep (c ∷ p) s h = ground (arith, split-append sep p s)

pub split_none : (sep : ℕ) (s : GoString) → has_byte sep s ≡ false → split sep s ≡ s ∷ []
unfolding split has_byte
split_none sep [] h = refl
split_none sep (c ∷ s) h = ground (arith, split_none sep s)
