-- ===== src/Store/Pieces.antt =====
-- store.go: the chunk files and the metadata that ChunkAndStore leaves.
use mathlib.Core.List.{append_cancel_left, append_cancel_right}
use mathlib.Core.Option.{some-injective}
use file_share_p2p.Prelude.{
  ℕ, zero, suc, ◌+◌, ◌<◌, true, false, Option, none, some, List, [], ◌∷◌, ◌++◌, map, ◌≡◌, ◌≢◌, refl,
  sym, ap, ◌∙◌, arith, ◌==◌, ==_refl, ==_iff, length, get_elem?, Bool-cases, inl, inr,
}
use file_share_p2p.Prelude.Maps.{get, put, get-put}
use file_share_p2p.GoString.{GoString, string_eq, bytes, has_byte, has_prefix, head_path, tail_path}
use file_share_p2p.Metadata.{Metadata}
use file_share_p2p.Chunks.Defs.{Files}
use file_share_p2p.Store.Defs.{
  DiskCalls, meta_file, save_metadata, trim_dot, chunk_path, write_chunk, portion, chunk_file_name,
  store_chunks, stored_metadata, chunk_and_store, when_stored, when_saved,
}

-- Numbers are printed without a dot, and no two alike.
pub record IsDecimal (decimal : ℕ → GoString) : Type 0 where
  pub plain : (i : ℕ) → has_byte b'.' (decimal i) ≡ false
  pub injective : (i j : ℕ) → decimal i ≡ decimal j → i ≡ j

abbrev pub succeeding : DiskCalls
succeeding = record { can_make_dir = true; can_create = true; short_write = none }

trim_dot-append :
    (p : GoString) (c : ℕ) (q : GoString) → trim_dot (p ++ (c ∷ q)) ≡ p ++ trim_dot (c ∷ q)
unfolding trim_dot
trim_dot-append [] c q = refl
trim_dot-append (a ∷ []) c q = refl
trim_dot-append (a ∷ b ∷ p) c q = ap (◌∷◌ a) (trim_dot-append (b ∷ p) c q)

trim_dot_plain : (s : GoString) → has_byte b'.' s ≡ false → trim_dot s ≡ s
unfolding trim_dot has_byte has_prefix
trim_dot_plain [] h = refl
trim_dot_plain (c ∷ []) h = ground (arith, h)
trim_dot_plain (c ∷ d ∷ s) h = ap (◌∷◌ c) (trim_dot_plain (d ∷ s) (ground (arith, h)))

save_metadata-succeeding :
    (encode : Metadata → Option (List ℕ)) (calls : DiskCalls) (root : GoString) (meta : Metadata)
    (text : List ℕ) (disk : Files)
    → encode meta ≡ some text
    → calls ≡ succeeding
    → save_metadata encode calls root meta disk
      ≡ (put (meta_file root meta.file_id) text disk, true)
unfolding save_metadata
save_metadata-succeeding encode calls root meta text disk e c = ground (arith, e, c)

module _ (decimal : ℕ → GoString) (d : IsDecimal decimal) (root file_id ext : GoString) where
  abbrev path : ℕ → GoString
  path i = chunk_path root file_id (chunk_file_name decimal file_id i) ext

  name_kept :
      (i : ℕ) → trim_dot (chunk_file_name decimal file_id i) ≡ chunk_file_name decimal file_id i
  name_kept i =
      trim_dot-append file_id b'_' (bytes "chunk_" ++ decimal i)
      ∙ ap (◌++◌ file_id)
          (trim_dot_plain (bytes "_chunk_" ++ decimal i) (unfold has_byte in d.plain i))

  name-injective :
      (i j : ℕ) → chunk_file_name decimal file_id i ≡ chunk_file_name decimal file_id j → i ≡ j
  name-injective i j e =
      d.injective i j (append_cancel_left (bytes "_chunk_") _ _ (append_cancel_left file_id _ _ e))

  path-injective : (i j : ℕ) → path i ≡ path j → i ≡ j
  path-injective i j e =
      let below = append_cancel_left file_id _ _ (tail_path (append_cancel_left root _ _ e)) in
      let names = append_cancel_right _ _ ext (tail_path below) in
      name-injective i j (sym (name_kept i) ∙ names ∙ name_kept j)

  path_eq : (i j : ℕ) → i ≢ j → (path i == path j) ≡ false
  path_eq i j n = elim (Bool-cases (path i == path j)) [
    | inl e ↦ absurd (n (path-injective i j ((==_iff (path i) (path j)).0 e)))
    | inr e ↦ e
  ]

  module _ (calls : ℕ → DiskCalls) (ok : (i : ℕ) → calls i ≡ succeeding) where
    abbrev stored : List (List ℕ) → ℕ → Files → Files × Option ℕ
    stored contents k disk =
        store_chunks decimal calls root file_id ext (map portion contents) k disk

    stored_step :
        (content : List ℕ) (contents : List (List ℕ)) (k : ℕ) (disk : Files)
        → stored (content ∷ contents) k disk ≡ stored contents (k + 1) (put (path k) content disk)
    unfolding store_chunks write_chunk
    stored_step content contents k disk = rw (ok k) refl

    -- The files of earlier chunks stay as they are.
    stored_below :
        (contents : List (List ℕ)) (k : ℕ) (disk : Files) (j : ℕ)
        → j < k
        → get (path j) (stored contents k disk).0 ≡ get (path j) disk
    unfolding store_chunks
    stored_below [] k disk j h = refl
    stored_below (content ∷ contents) k disk j h =
        ap (λ (r : Files × Option ℕ). get (path j) r.0) (stored_step content contents k disk)
        ∙ stored_below contents (k + 1) (put (path k) content disk) j (omega arith)
        ∙ ground (arith, get-put (path k) content disk (path j), path_eq j k (λ e. omega arith))

    stored_count :
        (contents : List (List ℕ)) (k : ℕ) (disk : Files)
        → (stored contents k disk).1 ≡ some (k + length contents)
    unfolding store_chunks
    stored_count [] k disk = ap some (omega arith)
    stored_count (content ∷ contents) k disk =
        ap (λ (r : Files × Option ℕ). r.1) (stored_step content contents k disk)
        ∙ stored_count contents (k + 1) (put (path k) content disk)
        ∙ ap some (omega arith)

    stored_at :
        (contents : List (List ℕ)) (k : ℕ) (disk : Files) (i : ℕ)
        → i < length contents
        → get (path (k + i)) (stored contents k disk).0 ≡ get_elem? contents i
    stored_at [] k disk i h = absurd (omega arith)
    stored_at (content ∷ contents) k disk zero h =
        let same : k + 0 ≡ k = omega arith in
        ap (λ j. get (path j) (stored (content ∷ contents) k disk).0) same
        ∙ ap (λ (r : Files × Option ℕ). get (path k) r.0) (stored_step content contents k disk)
        ∙ stored_below contents (k + 1) (put (path k) content disk) k (omega arith)
        ∙ ground (arith, get-put (path k) content disk (path k), ==_refl (path k))
    stored_at (content ∷ contents) k disk (suc i) h =
        let same : k + suc i ≡ k + 1 + i = omega arith in
        ap (λ j. get (path j) (stored (content ∷ contents) k disk).0) same
        ∙ ap (λ (r : Files × Option ℕ). get (path (k + 1 + i)) r.0)
            (stored_step content contents k disk)
        ∙ stored_at contents (k + 1) (put (path k) content disk) i (omega arith)

  path-meta_file : (i : ℕ) → (path i == meta_file root file_id) ≡ false
  path-meta_file i = elim (Bool-cases (path i == meta_file root file_id)) [
    | inl e ↦
        (let same = (==_iff (path i) (meta_file root file_id)).0 e in
          let below =
            append_cancel_left file_id _ _ (tail_path (append_cancel_left root _ _ same)) in
          let slash : b'/' ≡ b'_' = head_path below in absurd (omega (arith, slash)))
    | inr e ↦ e
  ]

  when_stored-some :
      (encode : Metadata → Option (List ℕ)) (calls : DiskCalls) (r : Files × Option ℕ) (n : ℕ)
      → r.1 ≡ some n
      → when_stored encode calls root file_id ext r
        ≡ when_saved
            (stored_metadata file_id ext n)
            (save_metadata encode calls root (stored_metadata file_id ext n) r.0)
  when_stored-some encode calls (disk, none) n e = cc
  when_stored-some encode calls (disk, some m) n e =
      ap
        (λ k.
          when_saved (stored_metadata file_id ext k)
            (save_metadata encode calls root (stored_metadata file_id ext k) disk))
        (some-injective m n e)

  -- Where the file is read in some portions without an error, all calls on the disk succeed, the record
  -- can be encoded, and numbers are printed without a dot and no two alike, ChunkAndStore returns the
  -- number of portions, and the chunk file of each index holds the portion of that index.
  pub chunk_and_store_lem :
      (encode : Metadata → Option (List ℕ)) (calls : ℕ → DiskCalls) (last_calls : DiskCalls)
      (contents : List (List ℕ)) (text : List ℕ) (disk : Files) (i : ℕ)
      → ((j : ℕ) → calls j ≡ succeeding)
      → last_calls ≡ succeeding
      → encode (stored_metadata file_id ext (length contents)) ≡ some text
      → i < length contents
      → let r =
          chunk_and_store decimal encode calls last_calls root file_id ext
            (map portion contents)
            disk in
        (r.1 ≡ some (stored_metadata file_id ext (length contents)))
        × (get (path i) r.0 ≡ get_elem? contents i)
  unfolding chunk_and_store
  chunk_and_store_lem encode calls last_calls contents text disk i ok last e l =
      let s = stored calls ok contents 0 disk in
      let whole =
        when_stored-some encode last_calls s (length contents)
          (stored_count calls ok contents 0 disk ∙ ap some (omega arith)) in
      let same : 0 + i ≡ i = omega arith in
      let kept = ap (λ j. get (path j) s.0) (sym same) ∙ stored_at calls ok contents 0 disk i l in
      let other = get-put (meta_file root file_id) text s.0 (path i) in
      let meta = stored_metadata file_id ext (length contents) in
      let total =
        whole
        ∙ ap (when_saved meta)
            (save_metadata-succeeding encode last_calls root meta text s.0 e last) in
      (
        ap (λ (r : Files × Option Metadata). r.1) total,
        ap (λ (r : Files × Option Metadata). get (path i) r.0) total
            ∙ other
            ∙ ground (arith, path-meta_file i, kept),
      )
