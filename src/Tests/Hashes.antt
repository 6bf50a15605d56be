-- ===== src/Tests/Hashes.antt =====
-- piece_verification.go: a file of five bytes in chunks of two; the bytes stand for their hash.
use file_share_p2p.Prelude.{ℕ, true, some, List, [], ◌∷◌, ◌≡◌, refl, arith, length, get_elem?}
use file_share_p2p.Prelude.Int.{pos}
use file_share_p2p.Prelude.Maps.{get}
use file_share_p2p.GoString.{GoString, string_eq, bytes_dec, bytes}
use file_share_p2p.Chunks.Defs.{Files, ok, read_from, start_offset}
use file_share_p2p.Hashes.Defs.{
  whole, FileCalls, FileHashes, hashed, number_of_chunks, generate_file_hashes, verify_chunk,
}
use file_share_p2p.Hashes.Chunks.{generate_file_hashes_lem}

abbrev sum : List ℕ → GoString
sum content = content

abbrev files : Files
files = (bytes "f", bytes "abcde") ∷ []

abbrev calls : FileCalls
calls = record { has_info = true; is_copied = true; reads = λ i. whole }

generate_file_hashes_lem_example :
    (h : FileHashes) × (chunk : List ℕ) × (expected : GoString) × (generate_file_hashes sum files
        calls
        (bytes "f")
        2
      ≡ hashed h)
    × (pos (length h.chunk_hashes) ≡ number_of_chunks 5 2)
    × (read_from 2 (bytes "abcde") (start_offset (pos 2) (pos 2)) ≡ ok chunk)
    × (get_elem? h.chunk_hashes 2 ≡ some expected)
    × (verify_chunk sum chunk expected ≡ true)
unfolding get string_eq bytes_dec
generate_file_hashes_lem_example =
    generate_file_hashes_lem sum files calls (bytes "f") 2 (bytes "abcde") 2 refl refl refl
      (λ i. refl) (omega arith) (omega arith) (omega arith)
