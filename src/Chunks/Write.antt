-- ===== src/Chunks/Write.antt =====
-- server.go: when writeAndVerifyChunk succeeds, and what it leaves in the file.
use file_share_p2p.Prelude.{
  ℕ, Bool, true, false, not, Bool-cases, ◌||◌, ◌↔◌, none, some, List, ◌≡◌, ◌≢◌, arith,
  if◌then◌else◌, length, inl, inr,
}
use file_share_p2p.Prelude.Int.{ℤ, pos, negsuc, ltb_ℤ}
use file_share_p2p.Chunks.Defs.{
  WriteOutcome, all, short, broken, oversized, write_error, Written, start_offset, write_at,
  write_rounds, write_and_verify_chunk,
}
use file_share_p2p.Chunks.WriteAt.{write_at_again}

-- Which outcomes write all the bytes.
abbrev pub is_all : WriteOutcome → Bool
is_all all = true
is_all (short n) = false
is_all (broken n) = false

abbrev pub is_negative : ℤ → Bool
is_negative (pos n) = false
is_negative (negsuc n) = true

-- One of the three calls writes all the bytes.
abbrev pub is_written : (ℕ → WriteOutcome) → Bool
is_written outcomes = is_all (outcomes 0) || is_all (outcomes 1) || is_all (outcomes 2)

pub rounds-written :
    (outcomes : ℕ → WriteOutcome) (offset : ℕ) (chunk file : List ℕ)
    → is_written outcomes ≡ true
    → write_rounds outcomes 3 0 offset chunk file ≡ (write_at offset chunk file, none)
unfolding write_rounds
rounds-written outcomes offset chunk file h = grind (arith, h, write_at_again)

pub rounds-unwritten :
    (outcomes : ℕ → WriteOutcome) (offset : ℕ) (chunk file : List ℕ)
    → is_written outcomes ≡ false
    → (write_rounds outcomes 3 0 offset chunk file).1 ≢ none
unfolding write_rounds
rounds-unwritten outcomes offset chunk file h = ground (arith, h)

-- The tests of writeAndVerifyChunk, by their results.
checked_none :
    (outcomes : ℕ → WriteOutcome) (chunk file : List ℕ) (oversize : Bool) (start : ℤ)
    → ((if oversize then (file, some oversized) else elim start as (λ x. Written) [
      | pos offset ↦ write_rounds outcomes 3 0 offset chunk file
      | negsuc n ↦ (file, some write_error)
    ]).1
        ≡ none)
      ↔ ((oversize || is_negative start || not (is_written outcomes)) ≡ false)
checked_none outcomes chunk file true start = (λ h. ground arith, λ h. ground arith)
checked_none outcomes chunk file false (negsuc n) = (λ h. ground arith, λ h. ground arith)
checked_none outcomes chunk file false (pos offset) = elim (Bool-cases (is_written outcomes)) [
  | inl w ↦
      let e = rounds-written outcomes offset chunk file w in (λ h. ground arith, λ h. ground arith)
  | inr w ↦
      let e = rounds-unwritten outcomes offset chunk file w in
      (λ h. ground arith, λ h. ground arith)
]

-- The call returns no error exactly if the chunk is not larger than the chunk size, its offset is
-- not negative in 64 bits and one of the three calls of WriteAt writes all the bytes.
pub write_and_verify_chunk-none :
    (outcomes : ℕ → WriteOutcome) (chunk : List ℕ) (index size : ℤ) (file : List ℕ)
    → ((write_and_verify_chunk outcomes chunk index size file).1 ≡ none) ↔ (
        (ltb_ℤ size (pos (length chunk))
          || is_negative (start_offset index size)
          || not (is_written outcomes))
        ≡ false)
unfolding write_and_verify_chunk
write_and_verify_chunk-none outcomes chunk index size file =
    checked_none outcomes chunk file (ltb_ℤ size (pos (length chunk))) (start_offset index size)

-- Where the chunk is not larger than the chunk size, its offset is not negative in 64 bits and one of
-- the three calls of WriteAt writes all the bytes, there is no error and the file has the chunk at its
-- offset and no other change, whatever the calls before wrote in part.
pub write_and_verify_chunk_lem :
    (outcomes : ℕ → WriteOutcome) (chunk : List ℕ) (index size : ℤ) (file : List ℕ) (offset : ℕ)
    → ltb_ℤ size (pos (length chunk)) ≡ false
    → start_offset index size ≡ pos offset
    → is_written outcomes ≡ true
    → write_and_verify_chunk outcomes chunk index size file ≡ (write_at offset chunk file, none)
unfolding write_and_verify_chunk
write_and_verify_chunk_lem outcomes chunk index size file offset h o w =
    ground (arith, h, o, rounds-written outcomes offset chunk file w)
