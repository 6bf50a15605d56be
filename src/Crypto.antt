-- ===== src/Crypto.antt =====
-- crypto.go: generateID, hashKey, newEncryptionKey, copyStream, copyEncrypt and copyDecrypt.
-- `new_cipher` tells whether aes.NewCipher takes a key; `xor key iv` stands for the stream of
-- cipher.NewCTR: what XORKeyStream makes of bytes from a position of the stream on. `can_write` tells
-- whether Write on the destination succeeds after so many rounds.
use file_share_p2p.Prelude.{
  ℕ, zero, suc, ◌+◌, Bool, true, false, Option, none, some, List, [], ◌∷◌, ◌++◌, ◌≡◌, refl, sym, ap,
  ◌∙◌, subst, arith, if◌then◌else◌, length, take, drop, take_exact, drop_exact, option_cases,
  length-append, inl, inr, ◌>>=◌, ◌&&◌,
}
use mathlib.Core.Option.{some-injective}
use mathlib.Core.List.{append_assoc, append-nil}

-- A buffer of so many bytes after io.ReadFull has put these into it.
abbrev pub filled : ℕ → List ℕ → List ℕ
filled zero bytes = []
filled (suc n) [] = 0 ∷ filled n []
filled (suc n) (b ∷ bytes) = b ∷ filled n bytes

-- generateID; `hex` stands for hex.EncodeToString, `random` for what rand.Reader gives.
unfoldable pub generate_id : (List ℕ → List ℕ) → List ℕ → List ℕ
generate_id hex random = hex (filled 32 random)

-- hashKey; `md5` stands for md5.Sum.
unfoldable pub hash_key : (List ℕ → List ℕ) → (List ℕ → List ℕ) → List ℕ → List ℕ
hash_key hex md5 key = hex (md5 key)

-- newEncryptionKey
unfoldable pub new_encryption_key : List ℕ → List ℕ
new_encryption_key random = filled 32 random

-- What a call of Read on the source returns: bytes, bytes with io.EOF, or bytes with another error.
pub data ReadCall : Type 0 where
  more : List ℕ → ReadCall
  last : List ℕ → ReadCall
  broken : List ℕ → ReadCall

-- What is written, and the count that is returned, or none for an error.
pub record Copied : Type 0 where
  pub written : List ℕ
  pub count : Option ℕ

-- `block.BlockSize()` of AES
abbrev pub block_size : ℕ
block_size = 16

-- Whether a round of copyStream has bytes to write and the write fails.
abbrev pub step_failed : (ℕ → Bool) → ℕ → List ℕ → Bool
step_failed can_write i [] = false
step_failed can_write i (b ∷ bytes) = if can_write i then false else true

-- copyStream from a position on, with `i` rounds done and the count `nw`. A source with no calls left
-- has ended.
unfoldable pub copy_stream :
    (ℕ → List ℕ → List ℕ) → (ℕ → Bool) → ℕ → ℕ → ℕ → List ReadCall → List ℕ → Copied
copy_stream xor can_write position i nw [] written = record { written = written; count = some nw }
copy_stream xor can_write position i nw (more bytes ∷ calls) written =
    let rest =
      copy_stream xor can_write (position + length bytes) (suc i) (nw + length bytes) calls
        (written ++ xor position bytes) in
    if step_failed can_write i bytes then record { written = written; count = none } else rest
copy_stream xor can_write position i nw (last bytes ∷ calls) written =
    if step_failed can_write i bytes
    then record { written = written; count = none }
    else record { written = written ++ xor position bytes; count = some (nw + length bytes) }
copy_stream xor can_write position i nw (broken bytes ∷ calls) written = record {
  written = if step_failed can_write i bytes then written else written ++ xor position bytes;
  count = none;
}

abbrev pub failure : Copied
failure = record { written = []; count = none }

abbrev pub zeros : ℕ → List ℕ
zeros zero = []
zeros (suc n) = 0 ∷ zeros n

-- A buffer of the block size into which some bytes have been read.
abbrev pub buffer : List ℕ → List ℕ
buffer bytes = take block_size (bytes ++ zeros block_size)

module _ (new_cipher : List ℕ → Bool) (xor : List ℕ → List ℕ → ℕ → List ℕ → List ℕ) where
  -- copyEncrypt; `random` is what rand.Reader gives, or none for its error.
  unfoldable pub copy_encrypt : (ℕ → Bool) → Option (List ℕ) → List ℕ → List ReadCall → Copied
  copy_encrypt can_write none key calls = failure
  copy_encrypt can_write (some iv) key calls =
      if new_cipher key && can_write 0
      then copy_stream (xor key iv) can_write 0 1 block_size calls iv
      else failure

  -- copyDecrypt. The first call of Read fills the initialisation vector as far as it goes, and an
  -- error of it, io.EOF as well, is returned.
  unfoldable pub copy_decrypt : (ℕ → Bool) → List ℕ → List ReadCall → Copied
  copy_decrypt can_write key (more bytes ∷ calls) =
      if new_cipher key
      then copy_stream (xor key (buffer bytes)) can_write 0 0 block_size calls []
      else failure
  copy_decrypt can_write key _ = failure

-- The bytes of a source, unless it ends in an error.
abbrev pub read_bytes : List ReadCall → Option (List ℕ)
read_bytes [] = some []
read_bytes (more bytes ∷ calls) = read_bytes calls >>= λ rest. some (bytes ++ rest)
read_bytes (last bytes ∷ calls) = some bytes
read_bytes (broken bytes ∷ calls) = none

-- A stream cipher: bytes are changed in place, run by run, and twice is not at all.
pub record IsStream (apply : ℕ → List ℕ → List ℕ) : Type 0 where
  pub apply-append :
      (position : ℕ) (xs ys : List ℕ)
      → apply position (xs ++ ys) ≡ apply position xs ++ apply (position + length xs) ys
  pub apply_nothing : (position : ℕ) → apply position [] ≡ []
  pub length-apply : (position : ℕ) (xs : List ℕ) → length (apply position xs) ≡ length xs
  pub apply_twice : (position : ℕ) (xs : List ℕ) → apply position (apply position xs) ≡ xs

abbrev pub AllWritten : (ℕ → Bool) → Type 0
AllWritten can_write = (i : ℕ) → can_write i ≡ true

step_written :
    (can_write : ℕ → Bool) (i : ℕ) (bytes : List ℕ)
    → AllWritten can_write
    → step_failed can_write i bytes ≡ false
step_written can_write i [] h = refl
step_written can_write i (b ∷ bytes) h = rw (h i) refl

abbrev pub copied : List ℕ → ℕ → Copied
copied written count = record { written = written; count = some count }

same_copied : {v w : List ℕ} {m n : ℕ} → v ≡ w → m ≡ n → copied v m ≡ copied w n
same_copied {v} {w} {m} {n} p q = ap (λ x. copied x m) p ∙ ap (copied w) q

-- A clean source is written as a whole.
copy_stream_lem :
    (apply : ℕ → List ℕ → List ℕ) (can_write : ℕ → Bool) (position i nw : ℕ) (calls : List ReadCall)
    (written content : List ℕ)
    → IsStream apply
    → AllWritten can_write
    → read_bytes calls ≡ some content
    → copy_stream apply can_write position i nw calls written
      ≡ copied (written ++ apply position content) (nw + length content)
unfolding copy_stream
copy_stream_lem apply can_write position i nw [] written content law ok e =
    subst (λ c. copied written nw ≡ copied (written ++ apply position c) (nw + length c))
      (some-injective [] content e)
      (same_copied (sym (append-nil written) ∙ ap (◌++◌ written) (sym (law.apply_nothing position)))
        (omega arith))
copy_stream_lem apply can_write position i nw (more bytes ∷ calls) written content law ok e =
    elim (option_cases (read_bytes calls)) [
      | inl n ↦ absurd (ground (arith, n, e))
      | inr (rest, r) ↦
          (let joined : bytes ++ rest ≡ content =
              some-injective (bytes ++ rest) content (ground (arith, r, e)) in
            let ih =
              copy_stream_lem apply can_write (position + length bytes) (suc i) (nw + length bytes)
                calls (written ++ apply position bytes) rest law ok r in
            rw (step_written can_write i bytes ok, copy_stream)
              (ih
                ∙ same_copied
                    (append_assoc written (apply position bytes)
                        (apply (position + length bytes) rest)
                      ∙ ap (◌++◌ written)
                          (sym (law.apply-append position bytes rest) ∙ ap (apply position) joined))
                    (omega (arith, length-append bytes rest, ap (length {A = ℕ}) joined))))
    ]
copy_stream_lem apply can_write position i nw (last bytes ∷ calls) written content law ok e =
    rw (step_written can_write i bytes ok, copy_stream)
      (ap (λ c. copied (written ++ apply position c) (nw + length c))
        (some-injective bytes content e))
copy_stream_lem apply can_write position i nw (broken bytes ∷ calls) written content law ok e =
    absurd (ground (arith, e))

take_of_length : (n : ℕ) (xs ys : List ℕ) → length xs ≡ n → take n (xs ++ ys) ≡ xs
take_of_length n xs ys h = subst (λ k. take k (xs ++ ys) ≡ xs) h (take_exact xs ys)

drop_of_length : (n : ℕ) (xs ys : List ℕ) → length xs ≡ n → drop n (xs ++ ys) ≡ ys
drop_of_length n xs ys h = subst (λ k. drop k (xs ++ ys) ≡ ys) h (drop_exact xs ys)

module _ (new_cipher : List ℕ → Bool) (xor : List ℕ → List ℕ → ℕ → List ℕ → List ℕ) where
  encrypted :
      (can_write : ℕ → Bool) (key iv content : List ℕ) (calls : List ReadCall)
      → new_cipher key ≡ true
      → IsStream (xor key iv)
      → AllWritten can_write
      → read_bytes calls ≡ some content
      → copy_encrypt new_cipher xor can_write (some iv) key calls
        ≡ copied (iv ++ xor key iv 0 content) (block_size + length content)
  unfolding copy_encrypt
  encrypted can_write key iv content calls k law ok e =
      rw (k, ok 0, copy_encrypt)
        (copy_stream_lem (xor key iv) can_write 0 1 block_size calls iv content law ok e)

  decrypted :
      (can_write : ℕ → Bool) (key iv content : List ℕ) (calls : List ReadCall)
      → new_cipher key ≡ true
      → length iv ≡ block_size
      → IsStream (xor key iv)
      → AllWritten can_write
      → read_bytes calls ≡ some (xor key iv 0 content)
      → copy_decrypt new_cipher xor can_write key (more iv ∷ calls)
        ≡ copied content (block_size + length content)
  unfolding copy_decrypt
  decrypted can_write key iv content calls k l law ok e =
      let full = take_of_length block_size iv (zeros block_size) l in
      rw (k, copy_decrypt)
        (ap (λ v. copy_stream (xor key v) can_write 0 0 block_size calls []) full
          ∙ copy_stream_lem (xor key iv) can_write 0 0 block_size calls [] (xor key iv 0 content)
              law ok e
          ∙ same_copied (law.apply_twice 0 content)
              (ap (◌+◌ block_size) (law.length-apply 0 content)))

  -- Where AES takes the key, the initialisation vector has 16 bytes, the cipher's stream changes bytes
  -- in place and twice is not at all, and every write succeeds, copyDecrypt gives back what
  -- copyEncrypt was given, in whatever portions both sources are read, if the first read of the
  -- encrypted bytes gives all 16 bytes of the vector. Both return 16 more than the length.
  pub copy_decrypt-copy_encrypt :
      (can_write can_write' : ℕ → Bool) (key iv content front rest : List ℕ)
      (calls calls' : List ReadCall)
      → new_cipher key ≡ true
      → length iv ≡ block_size
      → IsStream (xor key iv)
      → AllWritten can_write
      → AllWritten can_write'
      → read_bytes calls ≡ some content
      → length front ≡ block_size
      → read_bytes calls' ≡ some rest
      → front ++ rest ≡ (copy_encrypt new_cipher xor can_write (some iv) key calls).written
      → ((copy_encrypt new_cipher xor can_write (some iv) key calls).count
          ≡ some (block_size + length content))
        × (copy_decrypt new_cipher xor can_write' key (more front ∷ calls')
            ≡ copied content (block_size + length content))
  copy_decrypt-copy_encrypt can_write can_write' key iv content front rest calls calls' k l law ok
        ok' e f e' h =
      let sent = encrypted can_write key iv content calls k law ok e in
      let same : front ++ rest ≡ iv ++ xor key iv 0 content =
        h ∙ ap (λ (c : Copied). c.written) sent in
      let p : front ≡ iv =
        sym (take_of_length block_size front rest f)
        ∙ ap (take block_size) same
        ∙ take_of_length block_size iv (xor key iv 0 content) l in
      let q : rest ≡ xor key iv 0 content =
        sym (drop_of_length block_size front rest f)
        ∙ ap (drop block_size) same
        ∙ drop_of_length block_size iv (xor key iv 0 content) l in
      (
        ap (λ (c : Copied). c.count) sent,
        ap (λ v. copy_decrypt new_cipher xor can_write' key (more v ∷ calls')) p
            ∙ decrypted can_write' key iv content calls' k l law ok' (e' ∙ ap some q),
      )
