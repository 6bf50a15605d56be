-- ===== src/Tests/Store.antt =====
-- store.go: the metadata of one file on an empty disk.
use file_share_p2p.Prelude.{
  ℕ, zero, suc, map, get_elem?, arith, ap, false, true, some, Option, List, [], ◌∷◌, ◌≡◌, refl,
  if◌then◌else◌, ◌==◌,
}
use file_share_p2p.Prelude.Int.{pos}
use file_share_p2p.GoString.{GoString, string_eq, bytes, has_byte, tail_path}
use file_share_p2p.Metadata.{Metadata}
use file_share_p2p.Prelude.Maps.{get}
use file_share_p2p.Chunks.Defs.{Files}
use file_share_p2p.Store.Defs.{
  save_metadata, get_metadata, portion, stored_metadata, chunk_and_store, chunk_path,
  chunk_file_name,
}
use file_share_p2p.Store.Pieces.{IsDecimal, succeeding, chunk_and_store_lem}
use file_share_p2p.Store.RoundTrip.{get_metadata-save_metadata}

abbrev meta : Metadata
meta = record {
  file_id = bytes "x";
  num_chunks = pos 3;
  chunk_size = pos 2;
  file_extension = bytes ".txt";
  original_path = [];
  chunk_hashes = [];
  total_hash = bytes "33";
  total_size = pos 5;
}

-- A code of a record by its id, which is all that is used here.
abbrev encode : Metadata → Option (List ℕ)
encode m = some m.file_id

abbrev decode : List ℕ → Option Metadata
decode text = some (record meta { file_id = text })

get_metadata-save_metadata_example :
    ((save_metadata encode succeeding (bytes "store") meta []).1 ≡ true)
    × (get_metadata decode
          (bytes "store")
          (bytes "x")
          (save_metadata encode succeeding (bytes "store") meta []).0
        ≡ (if bytes "x" == bytes "x"
            then some meta
            else get_metadata decode (bytes "store") (bytes "x") []))
get_metadata-save_metadata_example =
    get_metadata-save_metadata encode decode succeeding (bytes "store") meta (bytes "x") []
      (bytes "x") refl refl refl refl refl

-- Numbers in unary.
abbrev unary : ℕ → GoString
unary zero = []
unary (suc i) = b'1' ∷ unary i

unary-IsDecimal : IsDecimal unary
unfolding has_byte
unary-IsDecimal = record { plain = plain; injective = injective }
  where
    plain : (i : ℕ) → has_byte b'.' (unary i) ≡ false
    plain zero = refl
    plain (suc i) = plain i

    injective : (i j : ℕ) → unary i ≡ unary j → i ≡ j
    injective zero zero e = refl
    injective zero (suc j) e = cc
    injective (suc i) zero e = cc
    injective (suc i) (suc j) e = ap suc (injective i j (tail_path e))

abbrev stored : Files × Option Metadata
stored =
    chunk_and_store unary encode (λ i. succeeding) succeeding (bytes "store") (bytes "x")
      (bytes ".txt") (map portion (bytes "ab" ∷ bytes "c" ∷ [])) []

chunk_and_store_lem_example :
    (stored.1 ≡ some (stored_metadata (bytes "x") (bytes ".txt") 2))
    × (get
          (chunk_path
            (bytes "store")
            (bytes "x")
            (chunk_file_name unary (bytes "x") 1)
            (bytes ".txt"))
          stored.0
        ≡ get_elem? (bytes "ab" ∷ bytes "c" ∷ []) 1)
chunk_and_store_lem_example =
    chunk_and_store_lem unary unary-IsDecimal (bytes "store") (bytes "x") (bytes ".txt") encode
      (λ i. succeeding) succeeding (bytes "ab" ∷ bytes "c" ∷ []) (bytes "x") [] 1 (λ j. refl) refl
      refl (omega arith)
