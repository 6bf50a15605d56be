-- ===== src/Chunks/Transfer.antt =====
-- server.go and store.go: one chunk, read on one side and written on the other.
use file_share_p2p.Prelude.{
  ℕ, zero, suc, ◌+◌, ◌-◌, ◌*◌, ◌^◌, ◌%◌, ◌≤◌, ◌<◌, true, Option, none, some, List, [], ◌∷◌, ◌≡◌, ap,
  ◌∙◌, arith, length, take, drop, nat_eq, ◌>>=◌, length-take, length-drop, take_all,
}
use file_share_p2p.Prelude.Int.{pos, signed}
use file_share_p2p.Chunks.Defs.{
  ReadResult, ok, err, read_from, WriteOutcome, Written, start_offset, write_at,
  write_and_verify_chunk,
}
use file_share_p2p.Chunks.Write.{is_written, write_and_verify_chunk_lem}

-- What downloadChunk is left with: the file, if the write returned no error.
abbrev pub written : Written → Option (List ℕ)
written (file, none) = some file
written (file, some e) = none

-- The other side of a read: writeAndVerifyChunk, if there is a chunk.
abbrev pub receive : (ℕ → WriteOutcome) → ℕ → ℕ → List ℕ → ReadResult → Option (List ℕ)
receive outcomes size index file (err e) = none
receive outcomes size index file (ok chunk) =
    written (write_and_verify_chunk outcomes chunk (pos index) (pos size) file)

-- One chunk, read by ReadChunk on one side and written by writeAndVerifyChunk on the other; none if
-- either returns an error.
unfoldable pub transfer : ℕ → List ℕ → (ℕ → WriteOutcome) → ℕ → List ℕ → Option (List ℕ)
transfer size content outcomes index file =
    receive outcomes size index file (read_from size content (start_offset (pos index) (pos size)))

-- The chunks of a list, one after the other.
unfoldable pub transfer_all :
    ℕ → List ℕ → (ℕ → ℕ → WriteOutcome) → List ℕ → List ℕ → Option (List ℕ)
transfer_all size content outcomes [] file = some file
transfer_all size content outcomes (index ∷ rest) file =
    transfer size content (outcomes index) index file >>= λ next.
    transfer_all size content outcomes rest next

-- What ReadChunk reads.
abbrev pub chunk_of : ℕ → List ℕ → ℕ → List ℕ
chunk_of size content index = take size (drop (index * size) content)

le_mul : (i s : ℕ) → 1 ≤ s → i ≤ i * s
le_mul zero s h = omega arith
le_mul (suc i) s h = omega (arith, le_mul i s h)

pub start_offset_small :
    (index size : ℕ)
    → 1 ≤ size
    → size < 2 ^ 63
    → index * size < 2 ^ 63
    → start_offset (pos index) (pos size) ≡ pos (index * size)
start_offset_small index size p s h =
    let i = le_mul index size p in
    let a : index % 2 ^ 64 ≡ index = omega arith in
    let b : size % 2 ^ 64 ≡ size = omega arith in
    let c : (index * size) % 2 ^ 64 ≡ index * size = omega arith in
    ap signed (ap (λ k. k % 2 ^ 64) (rw (a, b)) ∙ c) ∙ ground (arith, h)

-- ReadChunk reads a full chunk, or what is left of the file.
pub read_from_lem :
    (size start : ℕ) (content : List ℕ)
    → start < length content
    → read_from size content (pos start) ≡ ok (take size (drop start content))
unfolding read_from
read_from_lem size start content h = ground (
  arith,
  length-drop start content,
  take_all (length content - start) (drop start content) (omega (arith, length-drop start content)),
  take_all size (drop start content),
)

pub length-chunk_of :
    (size : ℕ) (content : List ℕ) (index : ℕ)
    → (length (chunk_of size content index) ≤ size)
      × (index * size < length content
          → index * size + length (chunk_of size content index) ≤ length content)
length-chunk_of size content index =
    let a = length-take size (drop (index * size) content) in
    let b = length-drop (index * size) content in (omega arith, λ h. omega arith)

pub transfer_lem :
    (size : ℕ) (content : List ℕ) (outcomes : ℕ → WriteOutcome) (index : ℕ) (file : List ℕ)
    → 1 ≤ size
    → size < 2 ^ 63
    → length content < 2 ^ 63
    → index * size < length content
    → is_written outcomes ≡ true
    → transfer size content outcomes index file
      ≡ some (write_at (index * size) (chunk_of size content index) file)
unfolding transfer
transfer_lem size content outcomes index file p s c h w =
    let o = start_offset_small index size p s (omega arith) in
    let b = (length-chunk_of size content index).0 in
    let r = ap (read_from size content) o ∙ read_from_lem size (index * size) content h in
    let e =
      write_and_verify_chunk_lem outcomes (chunk_of size content index) (pos index) (pos size) file
        (index * size) (ground (arith, b)) o w in
    ap (receive outcomes size index file) r ∙ ap written e
