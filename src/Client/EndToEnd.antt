-- ===== src/Client/EndToEnd.antt =====
-- server.go and p2p/tracker.go: a file shared by one peer, announced, and downloaded by another.
use mathlib.Core.Option.{some-injective}
use file_share_p2p.Prelude.{
  ℕ, ◌+◌, ◌*◌, ◌^◌, ◌≤◌, ◌<◌, Bool, true, false, ◌||◌, Option, none, some, List, ◌≡◌, ◌≢◌, ◌↔◌,
  refl, sym, ap, ◌∙◌, arith, eqb, if◌then◌else◌, length, option_cases, Bool-cases, inl, inr, subst,
  All,
}
use file_share_p2p.Prelude.Int.{pos, pos_part}
use file_share_p2p.Prelude.Maps.{get}
use file_share_p2p.GoString.{GoString, string_eq, bytes}
use file_share_p2p.Metadata.{Metadata, metadata_of}
use file_share_p2p.Chunks.Defs.{Files, default_chunk_size}
use file_share_p2p.Hashes.Defs.{FileHashes, number_of_chunks}
use file_share_p2p.Hashes.Count.{number_of_chunks_lem}
use file_share_p2p.Store.Defs.{save_metadata}
use file_share_p2p.Server.State.{Server}
use file_share_p2p.Server.Connect.{refresh_peers}
use file_share_p2p.Tracker.State.{FileInfo, Tracker, Announcement, Body, file_json}
use file_share_p2p.Download.Defs.{Download, Event, start_download, run_events, ended, output}
use file_share_p2p.Download.Answers.{IsHonest}
use file_share_p2p.Download.Ended.{ended-output}
use file_share_p2p.Client.Address.{get_peer_address}
use file_share_p2p.Client.Announce.{announcement_of}
use file_share_p2p.Client.Share.{World, shared, ShareCalls, shared_metadata, share_file}
use file_share_p2p.Client.Fetch.{BeginCalls, Begun, begin_connected, begin_saved, begin_download}
use file_share_p2p.Client.Published.{is_answered, published, Published, Agreed}
use file_share_p2p.Client.Announced.{
  announce_to_tracker_lem, announced-Published, handle_get_metadata-Published,
}
use file_share_p2p.Client.Sharing.{tracker-share_file}

module _ (decode : Body → Option FileInfo) (encode : Metadata → Option (List ℕ))
    (root : GoString) where
  -- A download that has begun has these metadata, and its state is that of their start at some server.
  abbrev pub Starts : Metadata → Begun → Type 0
  Starts meta begun =
      (begun.meta ≡ meta) × (s : Server) × (start_download meta s ≡ some begun.download)

  begin_connected-Starts :
      (calls : BeginCalls) (meta : Metadata) (s : Server) (disk : Files) (begun : Begun)
      → begin_connected decode encode root calls meta (s, disk) ≡ some begun
      → Starts meta begun
  begin_connected-Starts calls meta s disk begun e =
      let s' = (refresh_peers calls.network 0 s).0 in
      elim (option_cases (start_download meta s')) [
        | inl f ↦ absurd (ground (arith, f, e))
        | inr (d, f) ↦ elim (Bool-cases calls.can_create_output) [
          | inl c ↦
              (let b : Begun = record { meta = meta; disk = disk; download = d } in
                let made : some b ≡ some begun = ground (arith, f, c, e) in
                subst (Starts meta) (some-injective b begun made) (refl, s', f))
          | inr c ↦ absurd (ground (arith, f, c, e))
        ]
      ]

  begin_saved-Starts :
      (calls : BeginCalls) (meta : Metadata) (s : Server) (r : Files × Bool) (begun : Begun)
      → begin_saved decode encode root calls meta s r ≡ some begun
      → Starts meta begun
  begin_saved-Starts calls meta s (disk, false) begun e = cc
  begin_saved-Starts calls meta s (disk, true) begun e =
      begin_connected-Starts calls meta s disk begun e

  -- Where the tracker has the file, a download of it that comes to its loop has its metadata.
  begin_download-Starts :
      (calls : BeginCalls) (meta : Metadata) (addr : GoString) (s : Server) (disk : Files)
      (t : Tracker) (begun : Begun)
      → ((info : FileInfo) → decode (file_json info) ≡ some info)
      → meta.file_id ≢ bytes ""
      → Published meta addr t
      → begin_download decode encode root calls meta.file_id s disk t ≡ some begun
      → Starts (published meta) begun
  unfolding begin_download
  begin_download-Starts calls meta addr s disk t begun json named p e =
      elim (Bool-cases calls.arrives) [
        | inl a ↦
            (let m = metadata_of p.info in
              let begins : begin_saved decode encode root calls m s
                    (save_metadata encode calls.disk root m disk)
                  ≡ some begun =
                ground (
                  arith,
                  a,
                  handle_get_metadata-Published meta addr t p named,
                  json p.info,
                  p.has_peers,
                  e,
                ) in
              subst (λ k. Starts k begun) p.same
                (begin_saved-Starts calls m s (save_metadata encode calls.disk root m disk) begun
                  begins))
        | inr a ↦ absurd (ground (arith, a, e))
      ]

-- The metadata that ShareFile announces is of the size and the chunks of the file.
chunks_exact :
    (content : List ℕ) (h : FileHashes)
    → length content + default_chunk_size ≤ 2 ^ 63
    → pos (length h.chunk_hashes) ≡ number_of_chunks (length content) default_chunk_size
    → (i : ℕ) → (i < length h.chunk_hashes) ↔ (i * default_chunk_size < length content)
unfolding default_chunk_size
chunks_exact content h s e i =
    let (n, same, exact) =
      number_of_chunks_lem (length content) default_chunk_size (omega arith) s in
    let count : length h.chunk_hashes ≡ n = ap pos_part (e ∙ same) in
    subst (λ k. (i < k) ↔ (i * default_chunk_size < length content)) (sym count) (exact i)

default_chunk_size-bounds : (1 ≤ default_chunk_size) × (default_chunk_size < 2 ^ 63)
unfolding default_chunk_size
default_chunk_size-bounds = (omega arith, omega arith)

-- A peer shares a file whose bytes and one chunk are at most 2^63 bytes together, with a tracker that
-- does not know its id, which is not empty, and ShareFile returns no error; its addresses are found, JSON carries what is
-- sent, and one of the three announcements is answered. Another peer asks that tracker for the id and
-- comes to the main loop of DownloadFile. If all peers send it chunks that ReadChunk reads from the
-- file, then in whatever order connections, requests, failures and writes come, once DownloadFile
-- returns nil its output file is the file, and removed if that is empty.
pub output-share_file :
    (sum : List ℕ → GoString) (ext base : GoString → GoString) (encode : Metadata → Option (List ℕ))
    (transmit : Announcement → Option Announcement) (decode : Body → Option FileInfo)
    (root tracker_addr listen addr path : GoString) (calls : ShareCalls) (w : World)
    (content : List ℕ) (peer : BeginCalls) (peer_root : GoString) (s : Server) (disk : Files)
    (begun : Begun) (events : List Event) (d' : Download) (refreshes : Bool)
    → tracker_addr ≢ bytes ""
    → sum content ≢ bytes ""
    → length content + default_chunk_size ≤ 2 ^ 63
    → get path w.disk ≡ some content
    → get (sum content) w.tracker.file_index ≡ none
    → get_peer_address calls.addresses.public_ip calls.addresses.local_ip listen ≡ some addr
    → ((a : Announcement) → transmit a ≡ some a)
    → ((info : FileInfo) → decode (file_json info) ≡ some info)
    → (is_answered (calls.deliveries 0)
        || is_answered (calls.deliveries 1)
        || is_answered (calls.deliveries 2))
      ≡ true
    → let r = share_file sum ext base encode transmit root tracker_addr listen calls path w in
      r.1 ≡ shared
      → begin_download decode encode peer_root peer (sum content) s disk r.0.tracker ≡ some begun
      → All (IsHonest content default_chunk_size) events
      → run_events (sum content) begun.meta events begun.download ≡ some d'
      → ended refreshes d' ≡ some true
      → output d' ≡ (if eqb (length content) 0 then none else some content)
output-share_file sum ext base encode transmit decode root tracker_addr listen addr path calls w
      content peer peer_root s disk begun events d' refreshes configured named small file unknown
      here sent json any returned begins honest runs done =
    let (h, count, left) =
      tracker-share_file sum ext base encode transmit root tracker_addr listen configured calls path
        w content file returned in
    let meta = shared_metadata ext path (sum content) h in
    let agreed : Agreed meta w.tracker = λ info e _. absurd (ground (arith, unknown, e)) in
    let message = sent (announcement_of base (sum content) addr meta) in
    let p =
      announced-Published base transmit calls.addresses calls.deliveries listen meta addr w.tracker
        here message agreed
        (announce_to_tracker_lem base transmit calls.addresses calls.deliveries listen meta addr
            w.tracker here message
          ∙ any) in
    let (same, server, starts) =
      begin_download-Starts decode encode peer_root peer meta addr s disk _ begun json named
        (subst (Published meta addr) (sym left) p) begins in
    let bounds = default_chunk_size-bounds in
    ended-output content default_chunk_size (sum content) (published meta) server events
      begun.download d' refreshes bounds.0 bounds.1 (omega (arith, small, bounds)) refl
      (chunks_exact content h small count) starts honest
      (subst (λ m. run_events (sum content) m events begun.download ≡ some d') same runs) done
