-- ===== src/Program/Sharing.antt =====
-- main.go and server.go: where main shares a file, the file is active in its server.
use file_share_p2p.Prelude.{
  ℕ, Bool, true, false, Option, none, some, List, [], ◌∷◌, ◌≡◌, ◌≢◌, refl, sym, ap, ◌∙◌, arith, eqb,
  length, ◌==◌, ==_refl, Bool-cases, inl, inr,
}
use file_share_p2p.Prelude.Maps.{get, put, get-put, is_some}
use file_share_p2p.GoString.{GoString, string_eq, bytes}
use file_share_p2p.Metadata.{Metadata}
use file_share_p2p.Chunks.Defs.{Files, default_chunk_size}
use file_share_p2p.Hashes.Defs.{
  Hashing, hashed, hash_error, panics, generate_file_id, generate_file_hashes,
}
use file_share_p2p.Store.Defs.{save_metadata}
use file_share_p2p.Wire.Frame.{NetError}
use file_share_p2p.Tracker.State.{FileInfo, Announcement, Removal, Body}
use file_share_p2p.Server.State.{start_seeding}
use file_share_p2p.Client.Share.{
  World, ShareEnding, shared, failed, panicked, ShareCalls, shared_metadata, share_saved,
  share_hashed, share_file,
}
use file_share_p2p.Transport.Listen.{make_server}
use file_share_p2p.Program.Main.{
  Flags, MainCalls, MainEnding, running, main, main_started, main_stop, main_share, main_download,
  after_share,
}

module _ (sum : List ℕ → GoString) (ext base : GoString → GoString)
    (encode : Metadata → Option (List ℕ)) (transmit : Announcement → Option Announcement)
    (root tracker_addr listen : GoString) where
  active-share_saved :
      (calls : ShareCalls) (meta : Metadata) (w : World) (r : Files × Bool)
      → (share_saved sum ext base encode transmit root tracker_addr listen calls meta w r).1
        ≡ shared
      → is_some (
          get meta.file_id
            (share_saved sum ext base encode transmit root tracker_addr listen calls meta w
              r).0.server.active_files)
        ≡ true
  unfolding start_seeding
  active-share_saved calls meta w (disk, false) e = cc
  active-share_saved calls meta w (disk, true) e =
      let here : is_some (get meta.file_id (put meta.file_id meta w.server.active_files)) ≡ true =
        ground (
          arith,
          get-put meta.file_id meta w.server.active_files meta.file_id,
          ==_refl meta.file_id,
        ) in
      elim (Bool-cases (tracker_addr == bytes "")) [ inl f ↦ rw f here | inr f ↦ rw f here ]

  active-share_hashed :
      (calls : ShareCalls) (path file_id : GoString) (w : World) (x : Hashing)
      → (share_hashed sum ext base encode transmit root tracker_addr listen calls path file_id w
          x).1
        ≡ shared
      → is_some (
          get file_id
            (share_hashed sum ext base encode transmit root tracker_addr listen calls path file_id w
              x).0.server.active_files)
        ≡ true
  active-share_hashed calls path file_id w panics e = cc
  active-share_hashed calls path file_id w (hash_error x) e = cc
  active-share_hashed calls path file_id w (hashed h) e =
      let meta = shared_metadata ext path file_id h in
      active-share_saved calls meta w (save_metadata encode calls.disk root meta w.disk) e

  -- A file that ShareFile returns no error for is active under the hash of its content.
  pub active-share_file :
      (calls : ShareCalls) (path : GoString) (w : World) (content : List ℕ)
      → get path w.disk ≡ some content
      → (share_file sum ext base encode transmit root tracker_addr listen calls path w).1 ≡ shared
      → is_some (
          get
            (sum content)
            (share_file sum ext base encode transmit root tracker_addr listen calls path
              w).0.server.active_files)
        ≡ true
  unfolding share_file generate_file_id
  active-share_file calls path w content f e = elim (Bool-cases calls.is_read) [
    | inl r ↦
        let x = generate_file_hashes sum w.disk calls.file path default_chunk_size in
        let a = active-share_hashed calls path (sum content) w x (ground (arith, f, r, e)) in
        ground (arith, f, r, a)
    | inr r ↦ absurd (ground (arith, f, r, e))
  ]

nonempty : (text : GoString) → text ≢ bytes "" → eqb (length text) 0 ≡ false
nonempty [] h = absurd (h refl)
nonempty (c ∷ text) h = ground arith

-- Whether main keeps the server running.
abbrev pub is_running : MainEnding → Bool
is_running running = true
is_running _ = false

module _ (sum : List ℕ → GoString) (ext base : GoString → GoString)
    (encode : Metadata → Option (List ℕ)) (transmit : Announcement → Option Announcement)
    (receive : Removal → Option Removal) (decode : Body → Option FileInfo) where
  after_share-running :
      (flags : Flags) (calls : MainCalls) (r : World × ShareEnding)
      → eqb (length flags.download_file_id) 0 ≡ true
      → is_running (after_share sum ext base encode transmit receive decode flags calls r).1 ≡ true
      → (r.1 ≡ shared)
        × ((after_share sum ext base encode transmit receive decode flags calls r).0 ≡ r.0)
  unfolding main_download
  after_share-running flags calls (w, shared) d e = (refl, ground (arith, d))
  after_share-running flags calls (w, failed) d e = cc
  after_share-running flags calls (w, panicked) d e = cc

  main_started-running :
      (flags : Flags) (calls : MainCalls) (w : World) (start : Option NetError)
      → eqb (length flags.stop_seeding_id) 0 ≡ true
      → eqb (length flags.file_path) 0 ≡ false
      → is_running (main_started sum ext base encode transmit receive decode flags calls w start).1
        ≡ true
      → main_started sum ext base encode transmit receive decode flags calls w start
        ≡ after_share sum ext base encode transmit receive decode flags calls (
            share_file sum ext base encode transmit
              (bytes "shared_files")
              flags.tracker_addr
              flags.listen_addr
              calls.share
              flags.file_path
              w)
  unfolding main_started main_stop main_share
  main_started-running flags calls w none s f e = rw (s, f) refl
  main_started-running flags calls w (some x) s f e = cc

  -- Where main shares a file and keeps running, ShareFile has returned no error.
  pub main-share_file :
      (path_sum : GoString → GoString) (flags : Flags) (calls : MainCalls) (w : World)
      → flags.start_tracker ≡ false
      → flags.tracker_addr ≢ bytes ""
      → eqb (length flags.stop_seeding_id) 0 ≡ true
      → eqb (length flags.file_path) 0 ≡ false
      → eqb (length flags.download_file_id) 0 ≡ true
      → is_running (main sum ext base encode transmit receive decode path_sum flags calls w).1
        ≡ true
      → let w' = record w {
        server = (make_server path_sum flags.listen_addr flags.bootstrap_node).server;
      } in
        let r =
          share_file sum ext base encode transmit
            (bytes "shared_files")
            flags.tracker_addr
            flags.listen_addr
            calls.share
            flags.file_path
            w' in
        (r.1 ≡ shared)
        × ((main sum ext base encode transmit receive decode path_sum flags calls w).0 ≡ r.0)
  unfolding main
  main-share_file path_sum flags calls w t a s f d e =
      let w' : World = record w {
        server = (make_server path_sum flags.listen_addr flags.bootstrap_node).server;
      } in
      let started = main_started sum ext base encode transmit receive decode flags calls w' in
      let same : main sum ext base encode transmit receive decode path_sum flags calls w
          ≡ started calls.start =
        rw (t, nonempty flags.tracker_addr a) refl in
      let goes =
        main_started-running flags calls w' calls.start s f
          (ap (λ (r : World × MainEnding). is_running r.1) (sym same) ∙ e) in
      let all = same ∙ goes in
      let (returned, left) =
        after_share-running flags calls _ d
          (ap (λ (r : World × MainEnding). is_running r.1) (sym all) ∙ e) in
      (returned, ap (λ (r : World × MainEnding). r.0) all ∙ left)
