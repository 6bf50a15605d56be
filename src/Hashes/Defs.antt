-- ===== src/Hashes/Defs.antt =====
-- piece_verification.go: calculateHash, verifyChunk, generateFileHashes. server.go: generateFileID and
-- verifyDownloadedFile.
-- `sum` stands for the SHA-1 of some bytes in hexadecimal, from the standard library.
use file_share_p2p.Prelude.{
  ℕ, zero, suc, ◌+◌, ◌-◌, ◌/◌, ◌%◌, ◌^◌, Bool, Option, none, some, List, [], ◌∷◌, eqb, min,
  if◌then◌else◌, length, take, drop, ◌==◌, ◌>>=◌,
}
use file_share_p2p.Prelude.Int.{ℤ, pos, negsuc, sub_ℕ, signed}
use file_share_p2p.Prelude.Maps.{get}
use file_share_p2p.GoString.{GoString, string_eq}
use file_share_p2p.Chunks.Defs.{Files}

-- What a call of `file.Read` gives, if it gives any bytes: as many as fit or are left, at most so many,
-- or an error. At the end of the file there are none.
pub data ReadOutcome : Type 0 where
  whole : ReadOutcome
  part : ℕ → ReadOutcome
  failed : ReadOutcome

-- How the calls on an open file go: whether Stat and io.Copy succeed, and the calls of Read in turn.
pub record FileCalls : Type 0 where
  pub has_info : Bool
  pub is_copied : Bool
  pub reads : ℕ → ReadOutcome

pub data HashError : Type 0 where
  open_failed info_failed total_failed read_failed : HashError

pub record FileHashes : Type 0 where
  pub chunk_hashes : List GoString
  pub total_hash : GoString
  pub total_size : ℤ

-- What generateFileHashes does: it returns hashes, returns an error, or panics.
pub data Hashing : Type 0 where
  hashed : FileHashes → Hashing
  hash_error : HashError → Hashing
  panics : Hashing

-- The bytes of one call of Read into a buffer.
abbrev pub read_call : ReadOutcome → ℕ → List ℕ → Option (List ℕ)
read_call whole size rest = some (take size rest)
read_call (part n) size rest = some (take (min n size) rest)
read_call failed size rest = none

-- Division of an integer, which goes to zero.
abbrev pub div_ℤ : ℤ → ℕ → ℤ
div_ℤ (pos n) m = pos (n / m)
div_ℤ (negsuc n) m = sub_ℕ 0 (suc n / m)

-- `(totalSize + int64(chunkSize) - 1) / int64(chunkSize)` in 64 bits, for a size that is not zero.
unfoldable pub number_of_chunks : ℕ → ℕ → ℤ
number_of_chunks total size = div_ℤ (signed ((total + size + (2 ^ 64 - 1)) % 2 ^ 64)) size

module _ (sum : List ℕ → GoString) where
  -- calculateHash
  abbrev pub calculate_hash : List ℕ → GoString
  calculate_hash content = sum content

  -- verifyChunk
  abbrev pub verify_chunk : List ℕ → GoString → Bool
  verify_chunk content expected_hash = calculate_hash content == expected_hash

  -- The loop over the chunks, with `left` rounds to go and `i` done.
  unfoldable pub hash_chunks : (ℕ → ReadOutcome) → ℕ → ℕ → ℕ → List ℕ → Option (List GoString)
  hash_chunks reads size zero i rest = some []
  hash_chunks reads size (suc left) i rest = do
    content ← read_call (reads i) size rest
    hashes ← hash_chunks reads size left (i + 1) (drop (length content) rest)
    some (calculate_hash content ∷ hashes)

  -- generateFileHashes, from the total hash on.
  abbrev pub hashes_of_chunks : FileCalls → ℕ → List ℕ → ℤ → Hashing
  hashes_of_chunks calls size content (negsuc n) = panics
  hashes_of_chunks calls size content (pos n) =
      if calls.is_copied
      then elim (hash_chunks calls.reads size n 0 content) [
        | none ↦ hash_error read_failed
        | some hashes ↦ hashed (record {
          chunk_hashes = hashes;
          total_hash = sum content;
          total_size = pos (length content);
        })
      ]
      else hash_error total_failed

  -- generateFileHashes. A division by zero and a negative number of chunks panic.
  unfoldable pub generate_file_hashes : Files → FileCalls → GoString → ℕ → Hashing
  generate_file_hashes files calls path size = elim (get path files) [
    | none ↦ hash_error open_failed
    | some content ↦
        if calls.has_info
        then if eqb size 0
          then panics
          else hashes_of_chunks calls size content (number_of_chunks (length content) size)
        else hash_error info_failed
  ]

  -- generateFileID; `is_copied` tells whether io.Copy succeeds.
  unfoldable pub generate_file_id : Files → Bool → GoString → Option GoString
  generate_file_id files is_copied path =
      get path files >>= λ content. if is_copied then some (sum content) else none

  -- verifyDownloadedFile: whether it returns no error.
  unfoldable pub verify_downloaded_file : Files → Bool → GoString → GoString → Bool
  verify_downloaded_file files is_copied path expected_hash =
      elim (generate_file_id files is_copied path) [
        | none ↦ Bool.false
        | some actual_hash ↦ actual_hash == expected_hash
      ]
