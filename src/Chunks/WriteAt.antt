-- ===== src/Chunks/WriteAt.antt =====
-- Reading a file back byte by byte after WriteAt.
use file_share_p2p.Prelude.{
  ℕ, zero, suc, ◌+◌, ◌≤◌, ◌<◌, none, List, [], ◌∷◌, ◌≡◌, refl, ap, arith, ltb, if◌then◌else◌,
  length, take, drop, get_elem?, ◌⊎◌,
}
use file_share_p2p.Chunks.Defs.{overlay, write_at}

pub get_elem?-take :
    (n k : ℕ) (xs : List ℕ) → get_elem? (take n xs) k ≡ (if ltb k n then get_elem? xs k else none)
get_elem?-take zero k xs = ground arith
get_elem?-take (suc n) k [] = ground arith
get_elem?-take (suc n) zero (x ∷ xs) = ground arith
get_elem?-take (suc n) (suc k) (x ∷ xs) = ground (arith, get_elem?-take n k xs)

pub get_elem?-drop : (n k : ℕ) (xs : List ℕ) → get_elem? (drop n xs) k ≡ get_elem? xs (n + k)
get_elem?-drop zero k xs = ap (get_elem? xs) (omega arith)
get_elem?-drop (suc n) k [] = refl
get_elem?-drop (suc n) k (x ∷ xs) =
    let e : suc n + k ≡ suc (n + k) = omega arith in rw (e, get_elem?-drop n k xs)

pub get_elem?_past : (k : ℕ) (xs : List ℕ) → length xs ≤ k → get_elem? xs k ≡ none
get_elem?_past k [] h = refl
get_elem?_past zero (x ∷ xs) h = absurd (omega arith)
get_elem?_past (suc k) (x ∷ xs) h = get_elem?_past k xs (omega arith)

get_elem?-overlay :
    (ds file : List ℕ) (k : ℕ)
    → get_elem? (overlay ds file) k
      ≡ (if ltb k (length ds) then get_elem? ds k else get_elem? file k)
unfolding overlay
get_elem?-overlay [] file k = ground arith
get_elem?-overlay (d ∷ ds) [] zero = ground arith
get_elem?-overlay (d ∷ ds) [] (suc k) = ground (arith, get_elem?-overlay ds [] k)
get_elem?-overlay (d ∷ ds) (b ∷ file) zero = ground arith
get_elem?-overlay (d ∷ ds) (b ∷ file) (suc k) = ground (arith, get_elem?-overlay ds file k)

-- Inside the bytes that were written a file reads as these.
pub write_at_inside :
    (offset : ℕ) (ds file : List ℕ) (k : ℕ)
    → k < length ds
    → get_elem? (write_at offset ds file) (offset + k) ≡ get_elem? ds k
unfolding write_at overlay
write_at_inside offset [] file k h = absurd (omega arith)
write_at_inside zero (d ∷ ds) file k h = ground (arith, get_elem?-overlay (d ∷ ds) file k)
write_at_inside (suc offset) (d ∷ ds) [] k h =
    let e : suc offset + k ≡ suc (offset + k) = omega arith in
    rw (e, write_at_inside offset (d ∷ ds) [] k h)
write_at_inside (suc offset) (d ∷ ds) (b ∷ file) k h =
    let e : suc offset + k ≡ suc (offset + k) = omega arith in
    rw (e, write_at_inside offset (d ∷ ds) file k h)

-- Elsewhere a byte that was there before stays.
pub write_at_outside :
    (offset : ℕ) (ds file : List ℕ) (k : ℕ)
    → k < length file
    → (k < offset) ⊎ (offset + length ds ≤ k)
    → get_elem? (write_at offset ds file) k ≡ get_elem? file k
unfolding write_at
write_at_outside offset [] file k h o = refl
write_at_outside zero (d ∷ ds) file k h o = ground (arith, o, get_elem?-overlay (d ∷ ds) file k)
write_at_outside (suc offset) (d ∷ ds) [] k h o = absurd (omega arith)
write_at_outside (suc offset) (d ∷ ds) (b ∷ file) zero h o = refl
write_at_outside (suc offset) (d ∷ ds) (b ∷ file) (suc k) h o =
    write_at_outside offset (d ∷ ds) file k (omega arith) (ground (arith, o))

length-overlay :
    (ds file : List ℕ) (n : ℕ) → length file ≤ n → length ds ≤ n → length (overlay ds file) ≤ n
unfolding overlay
length-overlay [] file n h k = h
length-overlay (d ∷ ds) [] zero h k = absurd (omega arith)
length-overlay (d ∷ ds) [] (suc n) h k =
    omega (arith, length-overlay ds [] n (omega arith) (omega arith))
length-overlay (d ∷ ds) (b ∷ file) zero h k = absurd (omega arith)
length-overlay (d ∷ ds) (b ∷ file) (suc n) h k =
    omega (arith, length-overlay ds file n (omega arith) (omega arith))

-- A file does not grow past a bound on its length and on the end of the write.
pub length-write_at :
    (offset : ℕ) (ds file : List ℕ) (n : ℕ)
    → length file ≤ n
    → offset + length ds ≤ n
    → length (write_at offset ds file) ≤ n
unfolding write_at
length-write_at offset [] file n h k = h
length-write_at zero (d ∷ ds) file n h k = length-overlay (d ∷ ds) file n h (omega arith)
length-write_at (suc offset) (d ∷ ds) file zero h k = absurd (omega arith)
length-write_at (suc offset) (d ∷ ds) [] (suc n) h k =
    omega (arith, length-write_at offset (d ∷ ds) [] n (omega arith) (omega arith))
length-write_at (suc offset) (d ∷ ds) (b ∷ file) (suc n) h k =
    omega (arith, length-write_at offset (d ∷ ds) file n (omega arith) (omega arith))

-- The front of the bytes, then all of them, is all of them.
overlay_again : (n : ℕ) (ds file : List ℕ) → overlay ds (overlay (take n ds) file) ≡ overlay ds file
unfolding overlay
overlay_again zero ds file = refl
overlay_again (suc n) [] file = refl
overlay_again (suc n) (d ∷ ds) [] = ap (◌∷◌ d) (overlay_again n ds [])
overlay_again (suc n) (d ∷ ds) (b ∷ file) = ap (◌∷◌ d) (overlay_again n ds file)

pub write_at_again :
    (n offset : ℕ) (ds file : List ℕ)
    → write_at offset ds (write_at offset (take n ds) file) ≡ write_at offset ds file
unfolding write_at
write_at_again zero offset ds file = refl
write_at_again (suc n) offset [] file = refl
write_at_again (suc n) zero (d ∷ ds) file = overlay_again (suc n) (d ∷ ds) file
write_at_again (suc n) (suc offset) (d ∷ ds) [] =
    ap (◌∷◌ 0) (write_at_again (suc n) offset (d ∷ ds) [])
write_at_again (suc n) (suc offset) (d ∷ ds) (b ∷ file) =
    ap (◌∷◌ b) (write_at_again (suc n) offset (d ∷ ds) file)
