-- ===== src/Store/Defs.antt =====
-- store.go: NewStore, saveMetadata, GetMetadata, writeChunk and ChunkAndStore over the files of a
-- disk, by path.
-- A path is its text. `encode` and `decode` stand for encoding/json, `decimal` for `%d` of fmt.
use file_share_p2p.Prelude.{
  eqb, length, ℕ, ◌+◌, Bool, true, false, ◌&&◌, Option, none, some, List, [], ◌∷◌, ◌++◌,
  if◌then◌else◌, take, ◌>>=◌,
}
use file_share_p2p.Prelude.Int.{pos}
use file_share_p2p.Prelude.Maps.{get, put}
use file_share_p2p.GoString.{GoString, string_eq, bytes, has_prefix}
use file_share_p2p.Metadata.{Metadata}
use file_share_p2p.Chunks.Defs.{Files, default_chunk_size}

pub record PathKey : Type 0 where
  pub path_name : GoString
  pub filename : GoString

-- `FullPath` of a path key
abbrev pub full_path : PathKey → GoString
full_path p = p.path_name ++ (bytes "/" ++ p.filename)

-- CASPathTransformFunc; `sum` is the SHA-1 of a text in hexadecimal, which has forty digits.
abbrev pub cas_path_transform_func : (GoString → GoString) → GoString → PathKey
cas_path_transform_func sum key = record { path_name = take 5 (sum key); filename = sum key }

pub record StoreOpts : Type 0 where
  pub root : GoString
  pub path_transform_func : Option (GoString → PathKey)

-- NewStore, as the options it keeps.
unfoldable pub new_store : (GoString → GoString) → StoreOpts → StoreOpts
new_store sum opts = record {
  root = if eqb (length opts.root) 0 then bytes "store" else opts.root;
  path_transform_func = elim opts.path_transform_func [
    | none ↦ some (cas_path_transform_func sum)
    | some transform ↦ some transform
  ];
}

-- Whether the calls succeed that make a directory and a file, and the bytes of a write that fails.
pub record DiskCalls : Type 0 where
  pub can_make_dir : Bool
  pub can_create : Bool
  pub short_write : Option ℕ

-- os.Create and one Write: the disk, and whether there is no error.
abbrev pub create_and_write : DiskCalls → GoString → List ℕ → Files → Files × Bool
create_and_write calls path content disk =
    if calls.can_make_dir && calls.can_create
    then elim calls.short_write [
      | none ↦ (put path content disk, true)
      | some n ↦ (put path (take n content) disk, false)
    ]
    else (disk, false)

-- `metaFile`
abbrev pub meta_file : GoString → GoString → GoString
meta_file root file_id = root ++ (bytes "/" ++ (file_id ++ bytes "_metadata.json"))

-- saveMetadata. A value that cannot be encoded leaves an empty file.
unfoldable pub save_metadata :
    (Metadata → Option (List ℕ)) → DiskCalls → GoString → Metadata → Files → Files × Bool
save_metadata encode calls root meta disk = elim (encode meta) [
  | some text ↦ create_and_write calls (meta_file root meta.file_id) text disk
  | none ↦
      (let (disk', made) = create_and_write calls (meta_file root meta.file_id) [] disk in
        (disk', false))
]

-- GetMetadata
unfoldable pub get_metadata :
    (List ℕ → Option Metadata) → GoString → GoString → Files → Option Metadata
get_metadata decode root file_id disk = get (meta_file root file_id) disk >>= λ text. decode text

-- `strings.TrimSuffix(name, ".")`
unfoldable pub trim_dot : GoString → GoString
trim_dot [] = []
trim_dot (c ∷ []) = if has_prefix (c ∷ []) (bytes ".") then [] else c ∷ []
trim_dot (c ∷ d ∷ name) = c ∷ trim_dot (d ∷ name)

-- `filePath` in writeChunk
abbrev pub chunk_path : GoString → GoString → GoString → GoString → GoString
chunk_path root id name ext = root ++ (bytes "/" ++ (id ++ (bytes "/" ++ (trim_dot name ++ ext))))

-- writeChunk, without the count that its caller drops.
unfoldable pub write_chunk :
    DiskCalls → GoString → GoString → GoString → GoString → List ℕ → Files → Files × Bool
write_chunk calls root id name ext content disk =
    create_and_write calls (chunk_path root id name ext) content disk

-- A call of Read in ChunkAndStore that is not the end of the file: bytes, or an error.
pub data ReadStep : Type 0 where
  portion : List ℕ → ReadStep
  broken : ReadStep

-- `chunkFileName`
abbrev pub chunk_file_name : (ℕ → GoString) → GoString → ℕ → GoString
chunk_file_name decimal file_id index = file_id ++ (bytes "_chunk_" ++ decimal index)

-- The loop of ChunkAndStore: the disk, and the number of chunks or none for an error. The list of
-- reads ends with the file.
unfoldable pub store_chunks :
    (ℕ → GoString)
    → (ℕ → DiskCalls)
    → GoString
    → GoString
    → GoString
    → List ReadStep
    → ℕ
    → Files
    → Files × Option ℕ
store_chunks decimal calls root file_id ext [] index disk = (disk, some index)
store_chunks decimal calls root file_id ext (broken ∷ reads) index disk = (disk, none)
store_chunks decimal calls root file_id ext (portion content ∷ reads) index disk =
    let r =
      write_chunk (calls index) root file_id (chunk_file_name decimal file_id index) ext content
        disk in
    let rest = store_chunks decimal calls root file_id ext reads (index + 1) r.0 in
    if r.1 then rest else (r.0, none)

-- The record that ChunkAndStore returns; the other fields are left empty.
abbrev pub stored_metadata : GoString → GoString → ℕ → Metadata
stored_metadata file_id ext chunks = record {
  file_id = file_id;
  num_chunks = pos chunks;
  chunk_size = pos default_chunk_size;
  file_extension = ext;
  original_path = [];
  chunk_hashes = [];
  total_hash = [];
  total_size = pos 0;
}

abbrev pub when_saved : Metadata → Files × Bool → Files × Option Metadata
when_saved meta (disk, saved) = (disk, (if saved then some meta else none))

abbrev pub when_stored :
    (Metadata → Option (List ℕ))
    → DiskCalls
    → GoString
    → GoString
    → GoString
    → Files × Option ℕ
    → Files × Option Metadata
when_stored encode calls root file_id ext (disk, none) = (disk, none)
when_stored encode calls root file_id ext (disk, some chunks) =
    when_saved (stored_metadata file_id ext chunks)
      (save_metadata encode calls root (stored_metadata file_id ext chunks) disk)

-- ChunkAndStore, for a file that can be opened.
unfoldable pub chunk_and_store :
    (ℕ → GoString)
    → (Metadata → Option (List ℕ))
    → (ℕ → DiskCalls)
    → DiskCalls
    → GoString
    → GoString
    → GoString
    → List ReadStep
    → Files
    → Files × Option Metadata
chunk_and_store decimal encode calls last_calls root file_id ext reads disk =
    when_stored encode last_calls root file_id ext
      (store_chunks decimal calls root file_id ext reads 0 disk)
