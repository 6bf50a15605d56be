-- ===== src/Chunks/Agree.antt =====
-- server.go: the bytes that writeAndVerifyChunk leaves in a file, against the content they come from.
use file_share_p2p.Prelude.{
  ℕ, zero, suc, ◌+◌, ◌-◌, ◌≤◌, ◌<◌, List, [], ◌∷◌, ◌≡◌, refl, sym, ap, ◌∙◌, arith, ltb, min, length,
  take, drop, get_elem?, ◌⊎◌, inl, inr, length-take, length-drop, dec_lt, subst, Bool-cases,
}
use file_share_p2p.Chunks.Defs.{WriteOutcome, all, short, broken, write_at, write_rounds}
use file_share_p2p.Chunks.WriteAt.{
  get_elem?-take, get_elem?-drop, write_at_inside, write_at_outside, length-write_at,
}

-- Where a file reads as some byte it is that long.
present :
    (file content : List ℕ) (k : ℕ)
    → k < length content
    → get_elem? file k ≡ get_elem? content k
    → k < length file
present [] [] k h e = h
present [] (x ∷ xs) zero h e = absurd (ground (arith, e))
present [] (x ∷ xs) (suc k) h e = absurd (omega (arith, present [] xs k (omega arith) e))
present (y ∷ ys) [] k h e = absurd (omega arith)
present (y ∷ ys) (x ∷ xs) zero h e = omega arith
present (y ∷ ys) (x ∷ xs) (suc k) h e = omega (arith, present ys xs k (omega arith) e)

module _ (content : List ℕ) (offset size : ℕ) where
  -- The bytes of a run of the content.
  abbrev pub run : List ℕ
  run = take size (drop offset content)

  pub length-run :
      (length run ≤ size) × (offset < length content → offset + length run ≤ length content)
  length-run =
      let a = length-take size (drop offset content) in
      let b = length-drop offset content in (omega arith, λ h. omega arith)

  run_byte : (j : ℕ) → j < size → get_elem? run j ≡ get_elem? content (offset + j)
  run_byte j h =
      get_elem?-take size j (drop offset content)
      ∙ ground (arith, h, get_elem?-drop offset j content)

  -- The bytes of the run that was written are the content's.
  agrees_inside :
      (file : List ℕ) (k : ℕ)
      → k < length content
      → offset ≤ k
      → k < offset + size
      → get_elem? (write_at offset run file) k ≡ get_elem? content k
  agrees_inside file k l a b =
      let c = length-take size (drop offset content) in
      let d = length-drop offset content in
      let e : offset + (k - offset) ≡ k = omega arith in
      let inside = write_at_inside offset run file (k - offset) (omega arith) in
      subst (λ i. get_elem? (write_at offset run file) i ≡ get_elem? content i) e
        (inside ∙ run_byte (k - offset) (omega arith))

  -- After a run is written the file agrees with the content where it did, and in the run.
  pub agrees :
      (file : List ℕ) (k : ℕ)
      → k < length content
      → (get_elem? file k ≡ get_elem? content k) ⊎ ((offset ≤ k) × (k < offset + size))
      → get_elem? (write_at offset run file) k ≡ get_elem? content k
  agrees file k l (inr h) = agrees_inside file k l h.0 h.1
  agrees file k l (inl e) = elim (dec_lt k offset) [
    | yes a ↦ write_at_outside offset run file k (present file content k l e) (inl a) ∙ e
    | no a ↦ elim (dec_lt k (offset + size)) [
      | yes b ↦ agrees_inside file k l (omega arith) b
      | no b ↦
          write_at_outside offset run file k (present file content k l e)
            (inr (omega (arith, length-run.0)))
          ∙ e
    ]
  ]

-- A file that is no longer than the content, with some bytes that are the content's.
pub record Agrees (content : List ℕ) (good : ℕ → Type 0) (file : List ℕ) : Type 0 where
  pub within : length file ≤ length content
  pub same : (k : ℕ) → k < length content → good k → get_elem? file k ≡ get_elem? content k

pub write_at-Agrees :
    (content : List ℕ) (good : ℕ → Type 0) (offset size : ℕ) (file : List ℕ)
    → offset < length content
    → Agrees content good file
    → Agrees content good (write_at offset (run content offset size) file)
write_at-Agrees content good offset size file h a = record {
  within =
      length-write_at offset (run content offset size) file (length content) a.within
        ((length-run content offset size).1 h);
  same = λ k l g. agrees content offset size file k l (inl (a.same k l g));
}

take-take : (n m : ℕ) (xs : List ℕ) → take n (take m xs) ≡ take (min n m) xs
take-take zero m xs = ground arith
take-take (suc n) zero xs = ground arith
take-take (suc n) (suc m) [] =
    let e : min (suc n) (suc m) ≡ suc (min n m) = ground arith in rw e refl
take-take (suc n) (suc m) (x ∷ xs) =
    let e : min (suc n) (suc m) ≡ suc (min n m) = ground arith in
    rw e (ap (◌∷◌ x) (take-take n m xs))

-- A run that is written in part is a shorter run.
partial-Agrees :
    (content : List ℕ) (good : ℕ → Type 0) (offset size n : ℕ) (file : List ℕ)
    → offset < length content
    → Agrees content good file
    → Agrees content good (write_at offset (take n (run content offset size)) file)
partial-Agrees content good offset size n file h a =
    subst (λ b. Agrees content good (write_at offset b file))
      (sym (take-take n size (drop offset content)))
      (write_at-Agrees content good offset (min n size) file h a)

module _ (content : List ℕ) (good : ℕ → Type 0) (offset size : ℕ) (outcomes : ℕ → WriteOutcome)
    (h : offset < length content) where
  -- One round, by what the call of WriteAt does.
  round-Agrees :
      (left retries : ℕ) (file : List ℕ) (o : WriteOutcome)
      → outcomes retries ≡ o
      → Agrees content good file
      → ((file' : List ℕ)
          → Agrees content good file'
          → Agrees content good
              (write_rounds outcomes left (suc retries) offset (run content offset size) file').0)
      → Agrees content good
          (write_rounds outcomes (suc left) retries offset (run content offset size) file).0
  unfolding write_rounds
  round-Agrees left retries file all e a rest =
      rw (e, write_rounds) (write_at-Agrees content good offset size file h a)
  round-Agrees left retries file (short n) e a rest =
      let part = partial-Agrees content good offset size n file h a in
      elim (Bool-cases (ltb retries 2)) [
        | inl t ↦ rw (e, t, write_rounds) (rest _ part)
        | inr t ↦ rw (e, t, write_rounds) part
      ]
  round-Agrees left retries file (broken n) e a rest =
      let part = partial-Agrees content good offset size n file h a in
      elim (Bool-cases (ltb retries 2)) [
        | inl t ↦ rw (e, t, write_rounds) (rest _ part)
        | inr t ↦ rw (e, t, write_rounds) part
      ]

  -- Whatever the calls of WriteAt write, a run of the content does not spoil what agrees.
  pub rounds-Agrees :
      (left retries : ℕ) (file : List ℕ)
      → Agrees content good file
      → Agrees content good
          (write_rounds outcomes left retries offset (run content offset size) file).0
  rounds-Agrees zero retries file a = unfold write_rounds in a
  rounds-Agrees (suc left) retries file a =
      round-Agrees left retries file (outcomes retries) refl a (rounds-Agrees left (suc retries))
