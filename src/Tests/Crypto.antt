-- ===== src/Tests/Crypto.antt =====
-- crypto.go: a text encrypted in one read and decrypted in three, with a cipher that swaps two letters.
use file_share_p2p.Prelude.{
  ℕ, Bool, true, some, List, [], ◌∷◌, ◌++◌, ◌≡◌, refl, ap, eqb, if◌then◌else◌, length, map,
  length-map, arith,
}
use file_share_p2p.GoString.{bytes}
use file_share_p2p.Crypto.{
  more, last, zeros, copied, copy_stream, copy_encrypt, copy_decrypt, IsStream,
  copy_decrypt-copy_encrypt,
}

abbrev swap : ℕ → ℕ
swap b = if eqb b 97 then 98 else if eqb b 98 then 97 else b

abbrev cipher : List ℕ → List ℕ → ℕ → List ℕ → List ℕ
cipher key iv position content = map swap content

abbrev takes_key : List ℕ → Bool
takes_key key = eqb (length key) 32

map-append : (xs ys : List ℕ) → map swap (xs ++ ys) ≡ map swap xs ++ map swap ys
map-append [] ys = refl
map-append (x ∷ xs) ys = ap (◌∷◌ (swap x)) (map-append xs ys)

swap-swap : (b : ℕ) → swap (swap b) ≡ b
swap-swap b = ground arith

map-map : (xs : List ℕ) → map swap (map swap xs) ≡ xs
map-map [] = refl
map-map (x ∷ xs) = rw (swap-swap x) (ap (◌∷◌ x) (map-map xs))

cipher-IsStream : (key iv : List ℕ) → IsStream (cipher key iv)
cipher-IsStream key iv = record {
  apply-append = λ position xs ys. map-append xs ys;
  apply_nothing = λ position. refl;
  length-apply = λ position xs. length-map swap xs;
  apply_twice = λ position xs. map-map xs;
}

abbrev always : ℕ → Bool
always i = true

copy_decrypt-copy_encrypt_example :
    ((copy_encrypt takes_key cipher always
        (some (zeros 16))
        (zeros 32)
        (more (bytes "abc") ∷ [])).count
      ≡ some 19)
    × (copy_decrypt takes_key cipher always
          (zeros 32)
          (more (zeros 16) ∷ more (bytes "b") ∷ more [] ∷ last (bytes "ac") ∷ [])
        ≡ copied (bytes "abc") 19)
unfolding copy_encrypt copy_stream
copy_decrypt-copy_encrypt_example =
    copy_decrypt-copy_encrypt takes_key cipher always always (zeros 32) (zeros 16) (bytes "abc")
      (zeros 16) (bytes "bac") (more (bytes "abc") ∷ [])
      (more (bytes "b") ∷ more [] ∷ last (bytes "ac") ∷ []) refl refl
      (cipher-IsStream (zeros 32) (zeros 16)) (λ i. refl) (λ i. refl) refl refl refl refl
