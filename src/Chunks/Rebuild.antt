-- ===== src/Chunks/Rebuild.antt =====
-- A file that is fetched chunk by chunk, in any order.
use file_share_p2p.Prelude.{
  ℕ, zero, suc, ◌+◌, ◌*◌, ◌^◌, ◌≤◌, ◌<◌, true, some, List, [], ◌∷◌, ◌≡◌, refl, ap, ◌∙◌, arith,
  length, get_elem?, ◌⊎◌, inl, inr, All, contains, nat_eq, ◌==◌, ==_iff, ◌>>=◌, Bool-cases, dec_lt,
  subst,
}
use file_share_p2p.Chunks.Defs.{WriteOutcome, write_at}
use file_share_p2p.Chunks.WriteAt.{length-write_at}
use file_share_p2p.Chunks.Write.{is_written}
use file_share_p2p.Chunks.Transfer.{transfer_all, chunk_of, length-chunk_of, transfer_lem}
use file_share_p2p.Chunks.Agree.{agrees}

-- A file that is not longer than the content and reads as it everywhere is the content.
pub same_bytes :
    (file content : List ℕ)
    → length file ≤ length content
    → ((k : ℕ) → k < length content → get_elem? file k ≡ get_elem? content k)
    → file ≡ content
same_bytes [] [] h e = refl
same_bytes [] (x ∷ xs) h e = absurd (ground (arith, e 0 (omega arith)))
same_bytes (y ∷ ys) [] h e = absurd (omega arith)
same_bytes (y ∷ ys) (x ∷ xs) h e =
    let head = e 0 (omega arith) in
    let tail = same_bytes ys xs (omega arith) (λ k l. e (suc k) (omega arith)) in
    ground (arith, head, tail)

-- The chunk a byte lies in.
pub cell : (size k : ℕ) → 1 ≤ size → (i : ℕ) × ((i * size ≤ k) × (k < i * size + size))
cell size zero h = (0, (omega arith, omega arith))
cell size (suc k) h =
    let (i, (a, b)) = cell size k h in
    elim (dec_lt (suc k) (i * size + size)) [
      | yes c ↦ (i, (omega arith, c))
      | no c ↦ (suc i, (omega arith, omega arith))
    ]

-- Every chunk of the list lies in the content and its write succeeds.
abbrev pub Transferable : ℕ → List ℕ → (ℕ → ℕ → WriteOutcome) → List ℕ → Type 0
Transferable size content outcomes order =
    All (λ i. (i * size < length content) × (is_written (outcomes i) ≡ true)) order

-- Byte k lies in a chunk of the list.
abbrev Covered : ℕ → List ℕ → ℕ → Type 0
Covered size order k =
    (i : ℕ) × ((contains i order ≡ true) × (i * size ≤ k) × (k < i * size + size))

-- A chunk of a list is its first or one of the others.
Covered-cons :
    (size i : ℕ) (rest : List ℕ) (k : ℕ)
    → Covered size (i ∷ rest) k
    → ((i * size ≤ k) × (k < i * size + size)) ⊎ Covered size rest k
unfolding contains
Covered-cons size i rest k (j, (c, a, b)) = elim (Bool-cases (j == i)) [
  | inl e ↦
      let same = (==_iff j i).0 e in
      inl (subst (λ x. (x * size ≤ k) × (k < x * size + size)) same (a, b))
  | inr e ↦ inr (j, (ground (arith, c, e), a, b))
]

-- After the chunks of a list the file is no longer than the content, and agrees with it where it did
-- and in these chunks.
transfer_all_lem :
    (size : ℕ) (content : List ℕ) (outcomes : ℕ → ℕ → WriteOutcome) (order file : List ℕ)
    → 1 ≤ size
    → size < 2 ^ 63
    → length content < 2 ^ 63
    → Transferable size content outcomes order
    → length file ≤ length content
    → (result : List ℕ) × ((transfer_all size content outcomes order file ≡ some result)
        × (length result ≤ length content)
        × ((k : ℕ)
            → k < length content
            → (get_elem? file k ≡ get_elem? content k) ⊎ Covered size order k
            → get_elem? result k ≡ get_elem? content k))
unfolding transfer_all contains
transfer_all_lem size content outcomes [] file p s c t h = (
  file,
  (refl, h, λ k l o. elim o [ inl e ↦ e | inr (i, (e, a, b)) ↦ absurd (ground (arith, e)) ]),
)
transfer_all_lem size content outcomes (i ∷ rest) file p s c t h =
    let next = write_at (i * size) (chunk_of size content i) file in
    let e = transfer_lem size content (outcomes i) i file p s c t.0.0 t.0.1 in
    let l =
      length-write_at (i * size) (chunk_of size content i) file (length content) h
        ((length-chunk_of size content i).1 t.0.0) in
    let (result, (f, b, same)) = transfer_all_lem size content outcomes rest next p s c t.1 l in
    (
      result,
      (
        ap (λ o. o >>= (λ w. transfer_all size content outcomes rest w)) e ∙ f,
        b,
        λ k m o. same k m (elim o [
          | inl x ↦ inl (agrees content (i * size) size file k m (inl x))
          | inr x ↦ elim (Covered-cons size i rest k x) [
            | inl y ↦ inl (agrees content (i * size) size file k m (inr y))
            | inr y ↦ inr y
          ]
        ]),
      ),
    )

-- Whatever file is there at first, if it is no longer than the content, and in whatever order the
-- chunks are transferred, each chunk of the content at least once, no other, and every one with a
-- write that succeeds in one of three calls, the file is the content at the end. The chunk size is
-- positive, and it and the content are at most 2^63 - 1 bytes.
pub transfer_all_rebuilds :
    (size : ℕ) (content : List ℕ) (outcomes : ℕ → ℕ → WriteOutcome) (order file : List ℕ)
    → 1 ≤ size
    → size < 2 ^ 63
    → length content < 2 ^ 63
    → Transferable size content outcomes order
    → ((i : ℕ) → i * size < length content → contains i order ≡ true)
    → length file ≤ length content
    → transfer_all size content outcomes order file ≡ some content
transfer_all_rebuilds size content outcomes order file p s c t cover h =
    let (result, (f, b, same)) = transfer_all_lem size content outcomes order file p s c t h in
    f
    ∙ ap some (
        same_bytes result content b (λ k l.
          (let (i, (a, m)) = cell size k p in same k l (inr (i, (cover i (omega arith), a, m))))))
