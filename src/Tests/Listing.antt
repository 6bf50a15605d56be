-- ===== src/Tests/Listing.antt =====
-- p2p/tracker.go: a page of the listing, with an insertion sort for sort.Slice.
use file_share_p2p.Prelude.{
  ℕ, ◌-◌, ◌*◌, ◌≤◌, true, some, List, [], ◌∷◌, ◌≡◌, All, take, drop, length, leb, if◌then◌else◌,
  arith, Bool-cases, inl, inr, none,
}
use file_share_p2p.Prelude.Int.{pos}
use file_share_p2p.GoString.{GoString, bytes}
use file_share_p2p.Tracker.State.{FileInfo, new_tracker}
use file_share_p2p.Tracker.Listing.{
  Page, IsWanted, IsRanked, Sorts, matches, matching, clamp_page, handle_list_files,
  handle_list_files_lem, paginate, paginate_overflow,
}

place : FileInfo → List FileInfo → List FileInfo
place f [] = f ∷ []
place f (g ∷ gs) = if leb g.num_peers f.num_peers then f ∷ g ∷ gs else g ∷ place f gs

rank : List FileInfo → List FileInfo
rank [] = []
rank (f ∷ fs) = place f (rank fs)

place-All :
    (P : FileInfo → Type 0) (f : FileInfo) (gs : List FileInfo)
    → P f
    → All P gs
    → All P (place f gs)
unfolding place
place-All P f [] p h = (p, tt)
place-All P f (g ∷ gs) p (q, h) = elim (Bool-cases (leb g.num_peers f.num_peers)) [
  | inl e ↦ rw e (p, (q, h))
  | inr e ↦ rw e (q, place-All P f gs p h)
]

below_mono :
    (a b : ℕ) (gs : List FileInfo)
    → a ≤ b
    → All (λ y. y.num_peers ≤ a) gs
    → All (λ y. y.num_peers ≤ b) gs
below_mono a b [] l h = tt
below_mono a b (g ∷ gs) l (p, h) = (omega arith, below_mono a b gs l h)

place-IsRanked : (f : FileInfo) (gs : List FileInfo) → IsRanked gs → IsRanked (place f gs)
unfolding place
place-IsRanked f [] h = (tt, tt)
place-IsRanked f (g ∷ gs) (p, h) = elim (Bool-cases (leb g.num_peers f.num_peers)) [
  | inl e ↦ rw e ((ground arith, below_mono g.num_peers f.num_peers gs (ground arith) p), (p, h))
  | inr e ↦ rw e (place-All _ f gs (ground arith) p, place-IsRanked f gs h)
]

rank-All : (P : FileInfo → Type 0) (fs : List FileInfo) → All P fs → All P (rank fs)
unfolding rank
rank-All P [] h = tt
rank-All P (f ∷ fs) (p, h) = place-All P f (rank fs) p (rank-All P fs h)

rank-IsRanked : (fs : List FileInfo) → IsRanked (rank fs)
unfolding rank
rank-IsRanked [] = tt
rank-IsRanked (f ∷ fs) = place-IsRanked f (rank fs) (rank-IsRanked fs)

rank-Sorts : Sorts rank
rank-Sorts = record { ranked = rank-IsRanked; kept = rank-All }

abbrev same : GoString → GoString
same s = s

handle_list_files_lem_example :
    let found = rank (matching same rank (bytes "misc") (bytes "") new_tracker.file_index) in
    (p : Page) × (handle_list_files same rank (bytes "misc") (bytes "") (pos 2) new_tracker
      ≡ some p)
    × (p.files ≡ take 50 (drop ((clamp_page (pos 2) - 1) * 50) found))
    × (p.total ≡ length p.files)
    × (length p.files ≤ 50)
    × IsRanked p.files
    × All (λ info. matches same rank (bytes "misc") (bytes "") info ≡ true) p.files
    × All (IsWanted same rank (bytes "misc") (bytes "")) p.files
handle_list_files_lem_example =
    handle_list_files_lem same rank (bytes "misc") (bytes "") (pos 2) new_tracker rank-Sorts
      (unfold clamp_page in omega arith)

paginate_overflow_example : paginate 200000000000000000 [] ≡ none
paginate_overflow_example = paginate_overflow 200000000000000000 [] (omega arith)
