-- ===== src/Store/RoundTrip.antt =====
-- store.go: what GetMetadata gives after saveMetadata.
use file_share_p2p.Prelude.{
  ℕ, true, Option, none, some, List, ◌≡◌, sym, ◌∙◌, arith, ◌==◌, ==_refl, if◌then◌else◌,
}
use mathlib.Core.List.{append_cancel_left, append_cancel_right}
use file_share_p2p.Prelude.Maps.{get-put}
use file_share_p2p.GoString.{GoString, string_eq, bytes_dec, bytes, tail_path}
use file_share_p2p.Metadata.{Metadata}
use file_share_p2p.Chunks.Defs.{Files}
use file_share_p2p.Store.Defs.{DiskCalls, meta_file, save_metadata, get_metadata}

-- Metadata files of different ids stand under different paths.
meta_file-injective : (root a b : GoString) → meta_file root a ≡ meta_file root b → a ≡ b
meta_file-injective root a b e =
    append_cancel_right a b (bytes "_metadata.json") (tail_path (append_cancel_left root _ _ e))

meta_file_eq : (root a b : GoString) → (meta_file root a == meta_file root b) ≡ (a == b)
meta_file_eq root a b = elim (bytes_dec a b) [
  | yes e ↦ rw e (==_refl (meta_file root b) ∙ sym (==_refl b))
  | no n ↦ ground (arith, n, meta_file-injective root a b)
]

-- Where the metadata can be encoded as a text that decodes to it, and the calls on the disk succeed,
-- saveMetadata returns no error, GetMetadata then gives the metadata under its id, and what it gives
-- under any other id is as before.
pub get_metadata-save_metadata :
    (encode : Metadata → Option (List ℕ)) (decode : List ℕ → Option Metadata) (calls : DiskCalls)
    (root : GoString) (meta : Metadata) (text : List ℕ) (disk : Files) (other : GoString)
    → encode meta ≡ some text
    → decode text ≡ some meta
    → calls.can_make_dir ≡ true
    → calls.can_create ≡ true
    → calls.short_write ≡ none
    → ((save_metadata encode calls root meta disk).1 ≡ true)
      × (get_metadata decode root other (save_metadata encode calls root meta disk).0
          ≡ (if other == meta.file_id then some meta else get_metadata decode root other disk))
unfolding save_metadata get_metadata
get_metadata-save_metadata encode decode calls root meta text disk other e d dir create short =
    let same = meta_file_eq root other meta.file_id in
    let found = get-put (meta_file root meta.file_id) text disk (meta_file root other) in
    (ground (arith, e, dir, create, short), ground (arith, e, d, dir, create, short, found, same))
