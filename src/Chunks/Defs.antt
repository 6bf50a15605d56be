-- ===== src/Chunks/Defs.antt =====
-- store.go: ReadChunk. server.go: writeAndVerifyChunk.
-- A file is its bytes. Offsets are computed in 64 bits.
use file_share_p2p.Prelude.{
  ℕ, zero, suc, ◌+◌, ◌-◌, ◌*◌, ◌%◌, ◌^◌, Option, none, some, List, [], ◌∷◌, ltb, leb, if◌then◌else◌,
  length, take, drop,
}
use file_share_p2p.Prelude.Int.{ℤ, pos, negsuc, ltb_ℤ, signed}
use file_share_p2p.Prelude.Maps.{Map, get}
use file_share_p2p.GoString.{GoString, string_eq}

-- `1024 * 1024 * 16`
unfoldable pub default_chunk_size : ℕ
default_chunk_size = 1024 * 1024 * 16

-- The 64-bit pattern of an `int`.
abbrev pub bits : ℤ → ℕ
bits (pos n) = n % 2 ^ 64
bits (negsuc n) = 2 ^ 64 - 1 - n % 2 ^ 64

-- `int64(chunkIndex * chunkSize)`
abbrev pub start_offset : ℤ → ℤ → ℤ
start_offset index size = signed ((bits index * bits size) % 2 ^ 64)

pub data ReadError : Type 0 where
  open_failed past_end read_failed : ReadError

pub data ReadResult : Type 0 where
  ok : List ℕ → ReadResult
  err : ReadError → ReadResult

-- ReadChunk, from the offset on. `file.ReadAt` refuses a negative offset.
unfoldable pub read_from : ℕ → List ℕ → ℤ → ReadResult
read_from size content (negsuc n) = err read_failed
read_from size content (pos start) =
    if leb (length content) start
    then err past_end
    else (let end = if ltb (length content) (start + size) then length content else start + size in
        ok (take (end - start) (drop start content)))

abbrev pub Files : Type 0
Files = Map GoString (List ℕ)

-- ReadChunk; a path that is not in the map cannot be opened.
unfoldable pub read_chunk : Files → GoString → ℤ → ReadResult
read_chunk files path index = elim (get path files) [
  | none ↦ err open_failed
  | some content ↦
      read_from default_chunk_size content (start_offset index (pos default_chunk_size))
]

-- Bytes over the front of a file.
unfoldable pub overlay : List ℕ → List ℕ → List ℕ
overlay [] file = file
overlay (d ∷ ds) [] = d ∷ overlay ds []
overlay (d ∷ ds) (b ∷ file) = d ∷ overlay ds file

-- `output.WriteAt`: a gap before the offset reads as zeros, and writing nothing does not make one.
unfoldable pub write_at : ℕ → List ℕ → List ℕ → List ℕ
unfolding overlay
write_at offset [] file = file
write_at zero (d ∷ ds) file = overlay (d ∷ ds) file
write_at (suc offset) (d ∷ ds) [] = zero ∷ write_at offset (d ∷ ds) []
write_at (suc offset) (d ∷ ds) (b ∷ file) = b ∷ write_at offset (d ∷ ds) file

-- What one call of WriteAt does: all, or a number of bytes with or without an error.
pub data WriteOutcome : Type 0 where
  all : WriteOutcome
  short : ℕ → WriteOutcome
  broken : ℕ → WriteOutcome

pub data WriteError : Type 0 where
  oversized write_error incomplete after_retries : WriteError

-- The file, and the error that is returned.
abbrev pub Written : Type 0
Written = List ℕ × Option WriteError

-- The loop of writeAndVerifyChunk. `outcomes` is what the calls of WriteAt do, by the number of
-- retries; `left` is the number of rounds to go.
unfoldable pub write_rounds : (ℕ → WriteOutcome) → ℕ → ℕ → ℕ → List ℕ → List ℕ → Written
write_rounds outcomes zero retries offset chunk file = (file, some after_retries)
write_rounds outcomes (suc left) retries offset chunk file = elim (outcomes retries) [
  | all ↦ (write_at offset chunk file, none)
  | short n ↦
      if ltb retries 2
      then write_rounds outcomes left (suc retries) offset chunk
          (write_at offset (take n chunk) file)
      else (write_at offset (take n chunk) file, some incomplete)
  | broken n ↦
      if ltb retries 2
      then write_rounds outcomes left (suc retries) offset chunk
          (write_at offset (take n chunk) file)
      else (write_at offset (take n chunk) file, some write_error)
]

-- writeAndVerifyChunk. Every call at a negative offset fails and writes nothing.
unfoldable pub write_and_verify_chunk : (ℕ → WriteOutcome) → List ℕ → ℤ → ℤ → List ℕ → Written
write_and_verify_chunk outcomes chunk index size file =
    if ltb_ℤ size (pos (length chunk))
    then (file, some oversized)
    else elim (start_offset index size) [
      | pos offset ↦ write_rounds outcomes 3 0 offset chunk file
      | negsuc n ↦ (file, some write_error)
    ]
