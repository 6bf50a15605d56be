-- ===== src/Wire/Bytes.antt =====
-- encoding/binary as the program uses it: a uint32 as four bytes, the high one first.
use file_share_p2p.Prelude.{
  ℕ, ◌+◌, ◌*◌, ◌/◌, ◌%◌, ◌^◌, ◌<◌, List, [], ◌∷◌, ◌≡◌, refl, arith, length,
}

-- `uint32(n)`
abbrev pub uint32 : ℕ → ℕ
uint32 n = n % 2 ^ 32

-- `binary.BigEndian.PutUint32`
unfoldable pub put_uint32 : ℕ → List ℕ
put_uint32 v = (v / 2 ^ 24 % 256) ∷ (v / 2 ^ 16 % 256) ∷ (v / 2 ^ 8 % 256) ∷ (v % 256) ∷ []

-- `binary.BigEndian.Uint32`, of the four bytes that were read
unfoldable pub get_uint32 : List ℕ → ℕ
get_uint32 (a ∷ b ∷ c ∷ d ∷ _) = a * 2 ^ 24 + b * 2 ^ 16 + c * 2 ^ 8 + d
get_uint32 _ = 0

pub get-put_uint32 : (v : ℕ) → v < 2 ^ 32 → get_uint32 (put_uint32 v) ≡ v
unfolding get_uint32 put_uint32
get-put_uint32 v h = omega arith

pub length-put_uint32 : (v : ℕ) → length (put_uint32 v) ≡ 4
unfolding put_uint32
length-put_uint32 v = refl
