-- ===== src/Tracker/Listing.antt =====
-- p2p/tracker.go: HandleListFiles, its filters and its pages.
-- `to_lower` stands for strings.ToLower and `sort` for the unstable sort.Slice.
use file_share_p2p.Prelude.{
  ℕ, ◌≢◌, ==_iff, Bool-cases, inl, inr, zero, suc, ◌+◌, ◌-◌, ◌*◌, ◌%◌, ◌^◌, ◌≤◌, ◌<◌, Bool, true,
  not, ◌&&◌, ◌||◌, Option, none, some, List, [], ◌∷◌, ◌≡◌, refl, arith, if◌then◌else◌, ◌==◌, leb,
  length, take, drop, contains, All, take_all, drop_all, take-All, drop-All, length-take,
  length-drop, ◌∙◌, ap, dec_lt,
}
use file_share_p2p.Prelude.Int.{ℤ, pos, negsuc, ltb_ℤ, signed}
use file_share_p2p.Prelude.Maps.{Map}
use file_share_p2p.GoString.{GoString, string_eq, bytes, has_substring}
use file_share_p2p.Tracker.State.{FileInfo, Tracker}

unfoldable pub per_page : ℕ
per_page = 50

-- `if page < 1 { page = 1 }`
unfoldable pub clamp_page : ℤ → ℕ
clamp_page (pos zero) = 1
clamp_page (pos (suc n)) = suc n
clamp_page (negsuc n) = 1

-- `files[start:end]`, which panics out of range. A start or an end below zero is out of range.
unfoldable pub slice : {A : Type 0} → ℤ → ℤ → List A → Option (List A)
slice (pos a) (pos b) xs =
    if leb a b && leb b (length xs) then some (take (b - a) (drop a xs)) else none
slice _ _ xs = none

-- The choice among `files[:0]`, `files[start:]` and `files[start:end]`; `none` is a panic.
unfoldable pub cut : ℤ → ℤ → List FileInfo → Option (List FileInfo)
unfolding slice
cut start end files =
    let len = pos (length files) in
    if not (ltb_ℤ start len)
    then some []
    else if ltb_ℤ len end
    then slice start len files
    else slice start end files

-- The bounds are computed in 64 bits, where they wrap around.
unfoldable pub paginate : ℕ → List FileInfo → Option (List FileInfo)
unfolding per_page
paginate page files =
    let start = ((page - 1) * per_page) % 2 ^ 64 in
    let end = (start + per_page) % 2 ^ 64 in cut (signed start) (signed end) files

pub record Page : Type 0 where
  pub files : List FileInfo
  pub total : ℕ
  pub page : ℕ

module _ (to_lower : GoString → GoString) (sort : List FileInfo → List FileInfo) where
  -- The two filters of the loop.
  unfoldable pub matches : GoString → GoString → FileInfo → Bool
  matches category query info =
      (category == bytes "" || contains category info.categories)
      && (query == bytes "" || has_substring (to_lower info.name) (to_lower query))

  -- The loop over the file index, in the order in which it is visited.
  unfoldable pub matching : GoString → GoString → Map GoString FileInfo → List FileInfo
  matching category query [] = []
  matching category query ((_, info) ∷ files) =
      let rest = matching category query files in
      if matches category query info then info ∷ rest else rest

  -- `none` is a panic of the handler.
  unfoldable pub handle_list_files : GoString → GoString → ℤ → Tracker → Option Page
  unfolding clamp_page
  handle_list_files category query page t =
      let n = clamp_page page in
      elim (paginate n (sort (matching category query t.file_index))) [
        | none ↦ none
        | some files ↦ some (record { files = files; total = length files; page = n })
      ]

cut_past :
    (a : ℕ) (end : ℤ) (files : List FileInfo) → length files ≤ a → cut (pos a) end files ≡ some []
unfolding cut
cut_past a end files h = ground arith

cut_tail :
    (a b : ℕ) (files : List FileInfo)
    → a < length files
    → length files < b
    → cut (pos a) (pos b) files ≡ some (take (length files - a) (drop a files))
unfolding cut
cut_tail a b files h k = ground arith

cut_middle :
    (a b : ℕ) (files : List FileInfo)
    → a < length files
    → b ≤ length files
    → a ≤ b
    → cut (pos a) (pos b) files ≡ some (take (b - a) (drop a files))
unfolding cut
cut_middle a b files h k l = ground arith

cut_lem :
    (a : ℕ) (files : List FileInfo)
    → cut (pos a) (pos (a + 50)) files ≡ some (take 50 (drop a files))
cut_lem a files = elim (dec_lt a (length files)) [
  | no past ↦
      rw (cut_past a (pos (a + 50)) files (omega arith)) (rw (drop_all a files (omega arith)))
  | yes inside ↦ elim (dec_lt (length files) (a + 50)) [
    | yes short ↦ rw (cut_tail a (a + 50) files inside short) (
        rw (take_all (length files - a) (drop a files) (omega (arith, length-drop a files)))
          (rw (take_all 50 (drop a files) (omega (arith, length-drop a files)))))
    | no full ↦
        cut_middle a (a + 50) files inside (omega arith) (omega arith)
        ∙ ap (λ (k : ℕ). some (take k (drop a files))) {y = 50} (omega arith)
  ]
]

cut_at :
    (a : ℕ) (start end : ℤ) (files : List FileInfo)
    → start ≡ pos a
    → end ≡ pos (a + 50)
    → cut start end files ≡ some (take 50 (drop a files))
cut_at a start end files p q = rw (p, q) (cut_lem a files)

cut_negative : (a : ℕ) (end : ℤ) (files : List FileInfo) → cut (negsuc a) end files ≡ none
unfolding cut
cut_negative a end files = ground arith

signed_large : (r : ℕ) → 2 ^ 63 ≤ r → signed r ≡ negsuc (2 ^ 64 - 1 - r)
signed_large r h = ground arith

-- Where 64 bits hold the bounds, page n is the n-th run of fifty files, and empty past the end.
pub paginate_lem :
    (page : ℕ) (files : List FileInfo)
    → 0 < page
    → page * 50 < 2 ^ 63
    → paginate page files ≡ some (take 50 (drop ((page - 1) * 50) files))
unfolding paginate
paginate_lem page files p h = cut_at ((page - 1) * 50) _ _ files (ground arith) (ground arith)

clamp_pos : (page : ℤ) → 0 < clamp_page page
unfolding clamp_page
clamp_pos (pos zero) = omega arith
clamp_pos (pos (suc n)) = omega arith
clamp_pos (negsuc n) = omega arith

-- A page number whose start has the sign bit set makes the handler panic, whatever the files.
pub paginate_overflow :
    (page : ℕ) (files : List FileInfo)
    → 2 ^ 63 ≤ ((page - 1) * 50) % 2 ^ 64
    → paginate page files ≡ none
unfolding paginate
paginate_overflow page files h =
    rw (signed_large (((page - 1) * 50) % 2 ^ 64) h) (cut_negative _ _ files)

-- Files in falling order of their number of peers.
abbrev pub IsRanked : List FileInfo → Type 0
IsRanked [] = Unit
IsRanked (x ∷ xs) = All (λ y. y.num_peers ≤ x.num_peers) xs × IsRanked xs

take-IsRanked : (n : ℕ) (xs : List FileInfo) → IsRanked xs → IsRanked (take n xs)
take-IsRanked zero xs h = tt
take-IsRanked (suc n) [] h = tt
take-IsRanked (suc n) (x ∷ xs) h =
    (take-All (λ (y : FileInfo). y.num_peers ≤ x.num_peers) n xs h.0, take-IsRanked n xs h.1)

drop-IsRanked : (n : ℕ) (xs : List FileInfo) → IsRanked xs → IsRanked (drop n xs)
drop-IsRanked zero xs h = h
drop-IsRanked (suc n) [] h = tt
drop-IsRanked (suc n) (x ∷ xs) h = drop-IsRanked n xs h.1

-- What is assumed of sort.Slice with the order of HandleListFiles: the result is ordered, and holds
-- the elements that were given.
pub record Sorts (sort : List FileInfo → List FileInfo) : Type 1 where
  pub ranked : (xs : List FileInfo) → IsRanked (sort xs)
  pub kept : (P : FileInfo → Type 0) (xs : List FileInfo) → All P xs → All P (sort xs)

module _ (to_lower : GoString → GoString) (sort : List FileInfo → List FileInfo) where
  matching-All :
      (category query : GoString) (files : Map GoString FileInfo)
      → All
          (λ info. matches to_lower sort category query info ≡ true)
          (matching to_lower sort category query files)
  unfolding matching
  matching-All category query [] = tt
  matching-All category query ((_, info) ∷ files) =
      ground (arith, matching-All category query files)

  -- What a request asks of a file.
  abbrev pub IsWanted : GoString → GoString → FileInfo → Type 0
  IsWanted category query info =
      (category ≢ bytes "" → contains category info.categories ≡ true)
      × (query ≢ bytes "" → has_substring (to_lower info.name) (to_lower query) ≡ true)

  matches-IsWanted :
      (category query : GoString) (info : FileInfo)
      → matches to_lower sort category query info ≡ true
      → IsWanted category query info
  unfolding matches
  matches-IsWanted category query info e = (
    λ given. elim (Bool-cases (category == bytes "")) [
      | inl x ↦ absurd (given ((==_iff category (bytes "")).0 x))
      | inr x ↦ ground (arith, x, e)
    ],
    λ given. elim (Bool-cases (query == bytes "")) [
      | inl x ↦ absurd (given ((==_iff query (bytes "")).0 x))
      | inr x ↦ ground (arith, x, e)
    ],
  )

  matching-IsWanted :
      (category query : GoString) (files : Map GoString FileInfo)
      → All (IsWanted category query) (matching to_lower sort category query files)
  unfolding matching
  matching-IsWanted category query [] = tt
  matching-IsWanted category query ((_, info) ∷ files) =
      elim (Bool-cases (matches to_lower sort category query info)) [
        | inl e ↦
            rw e (matches-IsWanted category query info e, matching-IsWanted category query files)
        | inr e ↦ rw e (matching-IsWanted category query files)
      ]

  -- A page of the listing holds at most fifty files, each of which is of the category that is
  -- asked for and has the text of the query in its name, where these are given, the most shared ones
  -- first; it is the n-th such run of all that pass. Its `total` is its own length.
  pub handle_list_files_lem :
      (category query : GoString) (page : ℤ) (t : Tracker)
      → Sorts sort
      → clamp_page page * 50 < 2 ^ 63
      → let found = sort (matching to_lower sort category query t.file_index) in
        (p : Page) × (handle_list_files to_lower sort category query page t ≡ some p)
        × (p.files ≡ take 50 (drop ((clamp_page page - 1) * 50) found))
        × (p.total ≡ length p.files)
        × (length p.files ≤ 50)
        × IsRanked p.files
        × All (λ info. matches to_lower sort category query info ≡ true) p.files
        × All (IsWanted category query) p.files
  unfolding handle_list_files
  handle_list_files_lem category query page t s h =
      let n = clamp_page page in
      let found = sort (matching to_lower sort category query t.file_index) in
      let part = drop ((n - 1) * 50) found in
      let passes = λ (info : FileInfo). matches to_lower sort category query info ≡ true in
      (
        record { files = take 50 part; total = length (take 50 part); page = n },
        rw (paginate_lem n found (clamp_pos page) h, handle_list_files) refl,
        refl,
        refl,
        omega (arith, length-take 50 part),
        take-IsRanked 50 part (drop-IsRanked ((n - 1) * 50) found (s.ranked _)),
        take-All passes 50 part (
            drop-All passes ((n - 1) * 50) found
              (s.kept passes _ (matching-All category query t.file_index))),
        take-All (IsWanted category query) 50 part (
            drop-All (IsWanted category query) ((n - 1) * 50) found
              (s.kept (IsWanted category query) _ (matching-IsWanted category query t.file_index))),
      )
