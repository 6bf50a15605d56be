-- ===== src/Chunks/Honest.antt =====
-- server.go: writeAndVerifyChunk with a chunk of the content, whether or not it succeeds.
use file_share_p2p.Prelude.{
  ℕ, ◌+◌, ◌*◌, ◌^◌, ◌≤◌, ◌<◌, true, false, none, List, ◌≡◌, sym, arith, length, ◌⊎◌, inl, inr,
  subst,
}
use file_share_p2p.Prelude.Int.{pos, ltb_ℤ}
use file_share_p2p.Chunks.Defs.{WriteOutcome, Written, write_rounds, write_and_verify_chunk}
use file_share_p2p.Chunks.WriteAt.{length-write_at}
use file_share_p2p.Chunks.Write.{
  is_written, write_and_verify_chunk-none, write_and_verify_chunk_lem,
}
use file_share_p2p.Chunks.Transfer.{chunk_of, length-chunk_of, start_offset_small}
use file_share_p2p.Chunks.Agree.{Agrees, agrees, length-run, rounds-Agrees}

-- Byte k lies in chunk i.
abbrev pub InChunk : ℕ → ℕ → ℕ → Type 0
InChunk size i k = (i * size ≤ k) × (k < i * size + size)

module _ (content : List ℕ) (size : ℕ) (p : 1 ≤ size) (s : size < 2 ^ 63)
    (c : length content < 2 ^ 63) where
  chunk_fits : (i : ℕ) → ltb_ℤ (pos size) (pos (length (chunk_of size content i))) ≡ false
  chunk_fits i = ground (arith, (length-chunk_of size content i).0)

  -- It does not spoil what agrees with the content.
  pub honest-Agrees :
      (good : ℕ → Type 0) (outcomes : ℕ → WriteOutcome) (i : ℕ) (file : List ℕ)
      → i * size < length content
      → Agrees content good file
      → Agrees content good
          (write_and_verify_chunk outcomes (chunk_of size content i) (pos i) (pos size) file).0
  honest-Agrees good outcomes i file h a =
      let o = start_offset_small i size p s (omega arith) in
      let t = chunk_fits i in
      let w : write_and_verify_chunk outcomes (chunk_of size content i) (pos i) (pos size) file
          ≡ write_rounds outcomes 3 0 (i * size) (chunk_of size content i) file =
        unfold write_and_verify_chunk in ground (arith, t, o) in
      subst (λ (r : Written). Agrees content good r.0) (sym w)
        (rounds-Agrees content good (i * size) size outcomes h 3 0 file a)

  -- Where it succeeds the chunk agrees too.
  pub honest-success :
      (good : ℕ → Type 0) (outcomes : ℕ → WriteOutcome) (i : ℕ) (file : List ℕ)
      → i * size < length content
      → Agrees content good file
      → (write_and_verify_chunk outcomes (chunk_of size content i) (pos i) (pos size) file).1 ≡ none
      → Agrees content
          (λ k. good k ⊎ InChunk size i k)
          (write_and_verify_chunk outcomes (chunk_of size content i) (pos i) (pos size) file).0
  honest-success good outcomes i file h a e =
      let chunk = chunk_of size content i in
      let o = start_offset_small i size p s (omega arith) in
      let t = (write_and_verify_chunk-none outcomes chunk (pos i) (pos size) file).0 e in
      let written : is_written outcomes ≡ true = ground (arith, t) in
      let w =
        write_and_verify_chunk_lem outcomes chunk (pos i) (pos size) file (i * size) (chunk_fits i)
          o written in
      subst (λ (r : Written). Agrees content (λ k. good k ⊎ InChunk size i k) r.0) (sym w)
        (record {
          within =
              length-write_at (i * size) chunk file (length content) a.within
                ((length-run content (i * size) size).1 h);
          same = λ k l g.
              agrees content (i * size) size file k l
                (elim g [ inl x ↦ inl (a.same k l x) | inr x ↦ inr x ]);
        })
