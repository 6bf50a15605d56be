-- ===== src/Pieces/Selection.antt =====
-- What GetNextPieces returns and what it changes.
use mathlib.Core.List.{Permᴰ}
use file_share_p2p.Prelude.{
  ℕ, Bool, true, some, List, ◌≡◌, refl, arith, if◌then◌else◌, nat_eq, length, ltb, min, take,
  contains, All, All-map, take-All, length-take, Bool-cases, inl, inr,
}
use file_share_p2p.Prelude.Perms.{perm-All, length-perm}
use file_share_p2p.Prelude.Maps.{Map, get, is_some}
use file_share_p2p.Pieces.Defs.{PieceStatus, PieceInfo, PieceManager, eligible, get_next_pieces}
use file_share_p2p.Pieces.Invariant.{IsPieces}
use file_share_p2p.Pieces.Candidates.{
  IsCandidate, wanted, eligible-IsCandidate, indices, request, mark_requested_lem,
}

-- `if len(candidates) > n { candidates = candidates[:n] }`
abbrev pub first_of_sorted : ℕ → List PieceInfo → List PieceInfo
first_of_sorted n sorted = if ltb n (length sorted) then take n sorted else sorted

first_of_sorted-All :
    (P : PieceInfo → Type 0) (n : ℕ) (sorted : List PieceInfo)
    → All P sorted
    → All P (first_of_sorted n sorted)
first_of_sorted-All P n sorted h = elim (Bool-cases (ltb n (length sorted))) [
  | inl e ↦ rw e (take-All P n sorted h)
  | inr e ↦ rw e h
]

length-first_of_sorted :
    (n : ℕ) (sorted : List PieceInfo) → length (first_of_sorted n sorted) ≡ min n (length sorted)
length-first_of_sorted n sorted = elim (Bool-cases (ltb n (length sorted))) [
  | inl e ↦ rw e (length-take n sorted)
  | inr e ↦ rw e (ground arith)
]

found_of_IsCandidate :
    (test : PieceStatus → Bool) (pieces : Map ℕ PieceInfo) (piece : PieceInfo)
    → IsCandidate test pieces piece
    → is_some (get piece.index pieces) ≡ true
found_of_IsCandidate test pieces piece c = ground arith

-- However the candidates are ordered, on a table that meets the invariant GetNextPieces does not
-- panic. It returns as many pieces as
-- there are candidates and n allows. Each is in the table, has a peer, and is missing (or requested,
-- where no missing piece has a peer). Exactly the returned pieces become requested; nothing else
-- changes, and the invariant is kept.
pub get_next_pieces_lem :
    (arrange : List PieceInfo → List PieceInfo) (n : ℕ) (pm : PieceManager)
    → Permᴰ (eligible pm.pieces) (arrange (eligible pm.pieces))
    → IsPieces pm.pieces
    → (after : PieceManager) × (chosen : List PieceInfo) × (get_next_pieces arrange n pm
        ≡ some (after, chosen))
      × (length chosen ≡ min n (length (eligible pm.pieces)))
      × All (IsCandidate (wanted pm.pieces) pm.pieces) chosen
      × ((j : ℕ)
          → get j after.pieces
            ≡ (if contains j (indices chosen) then request (get j pm.pieces) else get j pm.pieces))
      × IsPieces after.pieces
unfolding get_next_pieces
get_next_pieces_lem arrange n pm perm valid =
    let sorted = arrange (eligible pm.pieces) in
    let chosen = first_of_sorted n sorted in
    let good : All (IsCandidate (wanted pm.pieces) pm.pieces) chosen =
      first_of_sorted-All (IsCandidate (wanted pm.pieces) pm.pieces) n sorted (
        perm-All (IsCandidate (wanted pm.pieces) pm.pieces) perm
          (eligible-IsCandidate pm.pieces valid)) in
    let (pieces, runs, effect, kept) =
      mark_requested_lem chosen pm.pieces
        (All-map (found_of_IsCandidate (wanted pm.pieces) pm.pieces) chosen good) valid in
    (
      record pm { pieces = pieces },
      chosen,
      rw (runs, get_next_pieces) refl,
      rw (length-perm perm) (length-first_of_sorted n sorted),
      good,
      effect,
      kept,
    )
