-- ===== src/Hashes/Count.antt =====
-- piece_verification.go: the number of chunks.
use file_share_p2p.Prelude.{
  ℕ, ◌+◌, ◌-◌, ◌*◌, ◌/◌, ◌%◌, ◌^◌, ◌≤◌, ◌<◌, ◌≡◌, ◌↔◌, dec_lt, ap, ◌∙◌, arith,
}
use native.Mathlib.Nat.{mod-lt, div-add-mod, mul-le-mul_right, mul_comm}
use file_share_p2p.Prelude.Int.{pos, signed}
use file_share_p2p.Hashes.Defs.{number_of_chunks, div_ℤ}

-- The rounded-up quotient.
abbrev pub quotient_up : ℕ → ℕ → ℕ
quotient_up total size = (total + size - 1) / size

number_of_chunks-quotient_up :
    (total size : ℕ)
    → 1 ≤ size
    → total + size ≤ 2 ^ 63
    → number_of_chunks total size ≡ pos (quotient_up total size)
unfolding number_of_chunks
number_of_chunks-quotient_up total size p h =
    let a : (total + size + (2 ^ 64 - 1)) % 2 ^ 64 ≡ total + size - 1 = omega arith in
    let b : signed (total + size - 1) ≡ pos (total + size - 1) = ground (arith, h, p) in
    ap (λ k. div_ℤ (signed k) size) a ∙ ap (λ k. div_ℤ k size) b

-- Multiplication by the size keeps an order; the products are atoms of `omega`.
quotient_up_iff : (total size i : ℕ) → 1 ≤ size → (i < quotient_up total size) ↔ (i * size < total)
quotient_up_iff total size i p =
    let a = total + size - 1 in
    let q = a / size in
    let division : size * q + a % size ≡ a = div-add-mod a size in
    let small : a % size < size = mod-lt a p in
    (
      λ h.
          (let m : (i + 1) * size ≤ q * size = mul-le-mul_right size (omega (arith, h)) in
            omega (arith, m, division, mul_comm size q)),
      λ h. elim (dec_lt i q) [
        | yes l ↦ l
        | no n ↦
            (let m : q * size ≤ i * size = mul-le-mul_right size (omega (arith, n)) in
              absurd (omega (arith, m, division, small, mul_comm size q, h)))
      ],
    )

-- Where the sum of the size of the file and that of a chunk is at most 2^63, and a chunk has a byte at
-- least, the number of chunks is not negative, and the indices below it are exactly those of the
-- chunks that start in the file.
pub number_of_chunks_lem :
    (total size : ℕ)
    → 1 ≤ size
    → total + size ≤ 2 ^ 63
    → (n : ℕ) × (number_of_chunks total size ≡ pos n) × ((i : ℕ) → (i < n) ↔ (i * size < total))
number_of_chunks_lem total size p h = (
  quotient_up total size,
  number_of_chunks-quotient_up total size p h,
  λ i. quotient_up_iff total size i p,
)
