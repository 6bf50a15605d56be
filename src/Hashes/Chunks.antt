-- ===== src/Hashes/Chunks.antt =====
-- piece_verification.go against ReadChunk of store.go: the hashes are those of the chunks that are sent.
use file_share_p2p.Prelude.{
  ℕ, zero, suc, ◌+◌, ◌*◌, ◌^◌, ◌≤◌, ◌<◌, true, false, some, List, [], ◌∷◌, ◌≡◌, ◌↔◌, refl, sym, ap,
  ◌∙◌, arith, length, get_elem?, take, drop, eqb, drop_all, ==_refl,
}
use file_share_p2p.Prelude.Int.{pos}
use file_share_p2p.GoString.{GoString, string_eq}
use file_share_p2p.Prelude.Maps.{get}
use file_share_p2p.Chunks.Defs.{Files, ok, read_from, start_offset}
use file_share_p2p.Chunks.Transfer.{chunk_of, start_offset_small, read_from_lem}
use file_share_p2p.Hashes.Count.{number_of_chunks_lem}
use file_share_p2p.Hashes.Defs.{
  ReadOutcome, whole, FileCalls, FileHashes, hashed, number_of_chunks, hash_chunks,
  generate_file_hashes, verify_chunk,
}

-- Every call of Read fills the buffer or comes to the end of the file.
abbrev pub AllWhole : (ℕ → ReadOutcome) → Type 0
AllWhole reads = (i : ℕ) → reads i ≡ whole

-- The hashes of the chunks from an index on.
abbrev pub chunk_sums : (List ℕ → GoString) → ℕ → List ℕ → ℕ → ℕ → List GoString
chunk_sums sum size content i zero = []
chunk_sums sum size content i (suc left) =
    sum (chunk_of size content i) ∷ chunk_sums sum size content (i + 1) left

drop-drop : (m n : ℕ) (xs : List ℕ) → drop n (drop m xs) ≡ drop (m + n) xs
drop-drop zero n xs = ap (λ k. drop k xs) (omega arith)
drop-drop (suc m) n [] = drop_all n [] (omega arith) ∙ sym (drop_all (suc m + n) [] (omega arith))
drop-drop (suc m) n (x ∷ xs) =
    let same : suc (m + n) ≡ suc m + n = omega arith in
    drop-drop m n xs ∙ ap (λ k. drop k (x ∷ xs)) same

drop-length-take : (n : ℕ) (xs : List ℕ) → drop (length (take n xs)) xs ≡ drop n xs
drop-length-take zero xs = refl
drop-length-take (suc n) [] = refl
drop-length-take (suc n) (x ∷ xs) = drop-length-take n xs

-- After the bytes of one chunk stand those of the next.
next_chunk :
    (size i : ℕ) (content : List ℕ)
    → drop (length (chunk_of size content i)) (drop (i * size) content)
      ≡ drop ((i + 1) * size) content
next_chunk size i content =
    drop-length-take size (drop (i * size) content)
    ∙ drop-drop (i * size) size content
    ∙ ap (λ k. drop k content) (omega arith)

hash_chunks_whole :
    (sum : List ℕ → GoString) (reads : ℕ → ReadOutcome) (size left i : ℕ) (content : List ℕ)
    → AllWhole reads
    → hash_chunks sum reads size left i (drop (i * size) content)
      ≡ some (chunk_sums sum size content i left)
unfolding hash_chunks
hash_chunks_whole sum reads size zero i content h = refl
hash_chunks_whole sum reads size (suc left) i content h =
    let rest =
      ap (hash_chunks sum reads size left (i + 1)) (next_chunk size i content)
      ∙ hash_chunks_whole sum reads size left (i + 1) content h in
    rw (h i) (rw rest refl)

length-chunk_sums :
    (sum : List ℕ → GoString) (size : ℕ) (content : List ℕ) (i left : ℕ)
    → length (chunk_sums sum size content i left) ≡ left
length-chunk_sums sum size content i zero = refl
length-chunk_sums sum size content i (suc left) =
    ap suc (length-chunk_sums sum size content (i + 1) left)

get_elem?-chunk_sums :
    (sum : List ℕ → GoString) (size : ℕ) (content : List ℕ) (i left j : ℕ)
    → j < left
    → get_elem? (chunk_sums sum size content i left) j ≡ some (sum (chunk_of size content (i + j)))
get_elem?-chunk_sums sum size content i zero j h = absurd (omega arith)
get_elem?-chunk_sums sum size content i (suc left) zero h =
    ap (λ k. some (sum (chunk_of size content k))) (omega arith)
get_elem?-chunk_sums sum size content i (suc left) (suc j) h =
    get_elem?-chunk_sums sum size content (i + 1) left j (omega arith)
    ∙ ap (λ k. some (sum (chunk_of size content k))) (omega arith)

-- The hashes of a file with so many chunks.
abbrev pub described : (List ℕ → GoString) → ℕ → List ℕ → ℕ → FileHashes
described sum size content n = record {
  chunk_hashes = chunk_sums sum size content 0 n;
  total_hash = sum content;
  total_size = pos (length content);
}

pub generate_file_hashes_whole :
    (sum : List ℕ → GoString) (files : Files) (calls : FileCalls) (path : GoString) (size : ℕ)
    (content : List ℕ)
    → get path files ≡ some content
    → calls.has_info ≡ true
    → calls.is_copied ≡ true
    → AllWhole calls.reads
    → 1 ≤ size
    → length content + size ≤ 2 ^ 63
    → (n : ℕ) × (number_of_chunks (length content) size ≡ pos n)
      × ((i : ℕ) → (i < n) ↔ (i * size < length content))
      × (generate_file_hashes sum files calls path size ≡ hashed (described sum size content n))
unfolding generate_file_hashes
generate_file_hashes_whole sum files calls path size content f info copied reads p s =
    let (n, e, index) = number_of_chunks_lem (length content) size p s in
    let z : eqb size 0 ≡ false = ground (arith, p) in
    (
      n,
      e,
      index,
      ground
          (arith, f, info, z, e, copied, hash_chunks_whole sum calls.reads size n 0 content reads),
    )

-- Where the file can be read in full buffers, a chunk has a byte at least and the file and a chunk
-- have at most 2^63 bytes together, generateFileHashes returns one hash for each chunk, and for each
-- index whose chunk starts in the file the hash under it passes verifyChunk with what ReadChunk reads.
pub generate_file_hashes_lem :
    (sum : List ℕ → GoString) (files : Files) (calls : FileCalls) (path : GoString) (size : ℕ)
    (content : List ℕ) (i : ℕ)
    → get path files ≡ some content
    → calls.has_info ≡ true
    → calls.is_copied ≡ true
    → AllWhole calls.reads
    → 1 ≤ size
    → length content + size ≤ 2 ^ 63
    → i * size < length content
    → (h : FileHashes) × (chunk : List ℕ) × (expected : GoString) × (generate_file_hashes sum files
          calls path size
        ≡ hashed h)
      × (pos (length h.chunk_hashes) ≡ number_of_chunks (length content) size)
      × (read_from size content (start_offset (pos i) (pos size)) ≡ ok chunk)
      × (get_elem? h.chunk_hashes i ≡ some expected)
      × (verify_chunk sum chunk expected ≡ true)
generate_file_hashes_lem sum files calls path size content i f info copied reads p s l =
    let (n, e, index, g) =
      generate_file_hashes_whole sum files calls path size content f info copied reads p s in
    let chunk = chunk_of size content i in
    let same : 0 + i ≡ i = omega arith in
    (
      described sum size content n,
      chunk,
      sum chunk,
      g,
      ap pos (length-chunk_sums sum size content 0 n) ∙ sym e,
      ap (read_from size content)
            (start_offset_small i size p (omega (arith, l, s)) (omega (arith, l, s)))
          ∙ read_from_lem size (i * size) content l,
      get_elem?-chunk_sums sum size content 0 n i ((index i).1 l)
          ∙ ap (λ k. some (sum (chunk_of size content k))) same,
      ==_refl (sum chunk),
    )
