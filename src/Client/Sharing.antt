-- ===== src/Client/Sharing.antt =====
-- server.go: what is known where ShareFile returns no error, and where DownloadFile comes to its loop.
use mathlib.Core.Option.{some-injective}
use file_share_p2p.Prelude.{
  ℕ, zero, suc, ◌+◌, Bool, true, false, Option, some, List, [], ◌∷◌, ◌≡◌, ◌≢◌, refl, sym, ap, ◌∙◌,
  arith, length, drop, option_cases, Bool-cases, inl, inr,
}
use file_share_p2p.Prelude.Int.{ℤ, pos, negsuc}
use file_share_p2p.Prelude.Maps.{get}
use file_share_p2p.GoString.{GoString, string_eq, bytes}
use file_share_p2p.Metadata.{Metadata}
use file_share_p2p.Chunks.Defs.{Files, default_chunk_size}
use file_share_p2p.Hashes.Defs.{
  ReadOutcome, FileCalls, FileHashes, Hashing, hashed, hash_error, panics, read_call,
  number_of_chunks, hash_chunks, hashes_of_chunks, generate_file_id, generate_file_hashes,
}
use file_share_p2p.Store.Defs.{save_metadata}
use file_share_p2p.Tracker.State.{Tracker, Announcement}
use file_share_p2p.Client.Announce.{announce_to_tracker}
use file_share_p2p.Client.Share.{
  World, shared, ShareCalls, shared_metadata, share_saved, share_hashed, share_file,
}

-- Whatever the reads give, there is a hash for each round.
length-hash_chunks :
    (sum : List ℕ → GoString) (reads : ℕ → ReadOutcome) (size left i : ℕ) (rest : List ℕ)
    (hashes : List GoString)
    → hash_chunks sum reads size left i rest ≡ some hashes
    → length hashes ≡ left
unfolding hash_chunks
length-hash_chunks sum reads size zero i rest hashes e =
    ap (length {A = GoString}) (sym (some-injective [] hashes e))
length-hash_chunks sum reads size (suc left) i rest hashes e =
    elim (option_cases (read_call (reads i) size rest)) [
      | inl f ↦ absurd (ground (arith, f, e))
      | inr (content, f) ↦
          elim (option_cases
            (hash_chunks sum reads size left (i + 1) (drop (length content) rest))) [
              | inl g ↦ absurd (ground (arith, f, g, e))
              | inr (others, g) ↦
                  (let l =
                      length-hash_chunks sum reads size left (i + 1) (drop (length content) rest)
                        others g in
                    let c : some (sum content ∷ others) ≡ some hashes = ground (arith, f, g, e) in
                    ap (length {A = GoString})
                      (sym (some-injective (sum content ∷ others) hashes c))
                    ∙ ap suc l)
            ]
    ]

hashed-injective : (g h : FileHashes) → hashed g ≡ hashed h → g ≡ h
hashed-injective g h e = cc

hashes_of_chunks-hashed :
    (sum : List ℕ → GoString) (calls : FileCalls) (size : ℕ) (content : List ℕ) (n : ℤ)
    (h : FileHashes)
    → hashes_of_chunks sum calls size content n ≡ hashed h
    → pos (length h.chunk_hashes) ≡ n
hashes_of_chunks-hashed sum calls size content (negsuc n) h e = cc
hashes_of_chunks-hashed sum calls size content (pos n) h e =
    elim (option_cases (hash_chunks sum calls.reads size n 0 content)) [
      | inl f ↦ absurd (ground (arith, f, e))
      | inr (hashes, f) ↦
          (let first : FileHashes = record {
            chunk_hashes = hashes;
            total_hash = sum content;
            total_size = pos (length content);
          } in
            let c : hashed first ≡ hashed h = ground (arith, f, e) in
            ap (λ (g : FileHashes). pos (length g.chunk_hashes)) (sym (hashed-injective first h c))
            ∙ ap pos (length-hash_chunks sum calls.reads size n 0 content hashes f))
    ]

-- Where generateFileHashes returns hashes, there are as many as the file has chunks.
generate_file_hashes-hashed :
    (sum : List ℕ → GoString) (files : Files) (calls : FileCalls) (path : GoString) (size : ℕ)
    (content : List ℕ) (h : FileHashes)
    → get path files ≡ some content
    → generate_file_hashes sum files calls path size ≡ hashed h
    → pos (length h.chunk_hashes) ≡ number_of_chunks (length content) size
unfolding generate_file_hashes
generate_file_hashes-hashed sum files calls path size content h f e =
    hashes_of_chunks-hashed sum calls size content (number_of_chunks (length content) size) h
      (ground (arith, f, e))

module _ (sum : List ℕ → GoString) (ext base : GoString → GoString)
    (encode : Metadata → Option (List ℕ)) (transmit : Announcement → Option Announcement)
    (root tracker_addr listen : GoString) (configured : tracker_addr ≢ bytes "") where
  -- The tracker that an announcement of a metadata leaves.
  abbrev announced : ShareCalls → Metadata → Tracker → Tracker
  announced calls meta t =
      (announce_to_tracker base transmit calls.addresses calls.deliveries listen meta.file_id meta
        t).0

  tracker-share_saved :
      (calls : ShareCalls) (meta : Metadata) (w : World) (r : Files × Bool)
      → (share_saved sum ext base encode transmit root tracker_addr listen calls meta w r).1
        ≡ shared
      → (share_saved sum ext base encode transmit root tracker_addr listen calls meta w r).0.tracker
        ≡ announced calls meta w.tracker
  tracker-share_saved calls meta w (disk, false) e = cc
  tracker-share_saved calls meta w (disk, true) e = ground (arith, configured)

  tracker-share_hashed :
      (calls : ShareCalls) (path file_id : GoString) (w : World) (x : Hashing)
      → (share_hashed sum ext base encode transmit root tracker_addr listen calls path file_id w
          x).1
        ≡ shared
      → (h : FileHashes) × (x ≡ hashed h)
        × ((share_hashed sum ext base encode transmit root tracker_addr listen calls path file_id w
              x).0.tracker
            ≡ announced calls (shared_metadata ext path file_id h) w.tracker)
  tracker-share_hashed calls path file_id w panics e = cc
  tracker-share_hashed calls path file_id w (hash_error x) e = cc
  tracker-share_hashed calls path file_id w (hashed h) e =
      let meta = shared_metadata ext path file_id h in
      (
        h,
        refl,
        tracker-share_saved calls meta w (save_metadata encode calls.disk root meta w.disk) e,
      )

  -- Where ShareFile returns no error, it has announced metadata with the SHA-1 as the id and a hash for
  -- each chunk.
  pub tracker-share_file :
      (calls : ShareCalls) (path : GoString) (w : World) (content : List ℕ)
      → get path w.disk ≡ some content
      → (share_file sum ext base encode transmit root tracker_addr listen calls path w).1 ≡ shared
      → (h : FileHashes) × (pos (length h.chunk_hashes)
          ≡ number_of_chunks (length content) default_chunk_size)
        × ((share_file sum ext base encode transmit root tracker_addr listen calls path w).0.tracker
            ≡ announced calls (shared_metadata ext path (sum content) h) w.tracker)
  unfolding share_file generate_file_id
  tracker-share_file calls path w content f e = elim (Bool-cases calls.is_read) [
    | inl r ↦
        (let x = generate_file_hashes sum w.disk calls.file path default_chunk_size in
          let (h, eq, t) =
            tracker-share_hashed calls path (sum content) w x (ground (arith, f, r, e)) in
          (
            h,
            generate_file_hashes-hashed sum w.disk calls.file path default_chunk_size content h f
                eq,
            ground (arith, f, r, t),
          ))
    | inr r ↦ absurd (ground (arith, f, r, e))
  ]
