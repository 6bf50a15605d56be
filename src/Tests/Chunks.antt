-- ===== src/Tests/Chunks.antt =====
-- store.go and server.go: five bytes in chunks of two, fetched out of order and one of them twice.
use file_share_p2p.Prelude.{
  ℕ, zero, suc, ◌*◌, ◌<◌, true, some, [], ◌∷◌, ◌≡◌, refl, contains, nat_eq, ℕ_discrete, arith,
}
use file_share_p2p.GoString.{bytes}
use file_share_p2p.Chunks.Defs.{WriteOutcome, all, short, broken}
use file_share_p2p.Chunks.Transfer.{transfer_all}
use file_share_p2p.Chunks.Rebuild.{transfer_all_rebuilds}

-- The first call writes a byte, the second fails after two, the third writes all.
abbrev flaky : ℕ → WriteOutcome
flaky zero = short 1
flaky (suc zero) = broken 2
flaky (suc (suc n)) = all

-- Every chunk of the five bytes is in the list.
all_listed : (i : ℕ) → i * 2 < 5 → contains i (2 ∷ 0 ∷ 1 ∷ 0 ∷ []) ≡ true
unfolding contains nat_eq ℕ_discrete
all_listed zero h = refl
all_listed (suc zero) h = refl
all_listed (suc (suc zero)) h = refl
all_listed (suc (suc (suc i))) h = absurd (omega arith)

transfer_all_rebuilds_example :
    transfer_all 2 (bytes "abcde") (λ i. flaky) (2 ∷ 0 ∷ 1 ∷ 0 ∷ []) [] ≡ some (bytes "abcde")
transfer_all_rebuilds_example =
    transfer_all_rebuilds 2 (bytes "abcde") (λ i. flaky) (2 ∷ 0 ∷ 1 ∷ 0 ∷ []) [] (omega arith)
      (omega arith) (omega arith)
      ((
        (omega arith, refl),
        ((omega arith, refl), ((omega arith, refl), ((omega arith, refl), tt))),
      ))
      all_listed (omega arith)
