-- ===== src/Client/Share.antt =====
-- server.go: ShareFile with its announcements, StopSeedingFile and Cleanup.
-- `sum` is the SHA-1 in hexadecimal, `ext` and `base` are those of path/filepath, `encode` and
-- `transmit` JSON.
use file_share_p2p.Prelude.{
  ℕ, Bool, true, false, Option, none, some, List, [], ◌∷◌, if◌then◌else◌, length, ◌==◌,
}
use file_share_p2p.Prelude.Int.{pos}
use file_share_p2p.Prelude.Maps.{get}
use file_share_p2p.GoString.{GoString, string_eq, bytes}
use file_share_p2p.Metadata.{Metadata}
use file_share_p2p.Chunks.Defs.{Files, default_chunk_size}
use file_share_p2p.Hashes.Defs.{
  FileCalls, FileHashes, Hashing, hashed, hash_error, panics, generate_file_id,
  generate_file_hashes,
}
use file_share_p2p.Store.Defs.{DiskCalls, save_metadata}
use file_share_p2p.Server.State.{Server, start_seeding, stop_seeding}
use file_share_p2p.Tracker.State.{Tracker, Announcement, Removal, Request}
use file_share_p2p.Tracker.Handlers.{method_post, handle_remove}
use file_share_p2p.Client.Address.{get_peer_address}
use file_share_p2p.Client.Announce.{Delivery, Addresses, announce_to_tracker, is_ok, status_of}

-- One peer with its disk, and the tracker.
pub record World : Type 0 where
  pub server : Server
  pub disk : Files
  pub tracker : Tracker

-- What ShareFile does: it returns without or with an error, or panics.
pub data ShareEnding : Type 0 where
  shared failed panicked : ShareEnding

-- How the calls of ShareFile on the disk and the network go.
pub record ShareCalls : Type 0 where
  pub is_read : Bool
  pub file : FileCalls
  pub disk : DiskCalls
  pub addresses : Addresses
  pub deliveries : ℕ → Delivery

-- A request to /remove: as a `Delivery`, without a reading of the clock.
pub data RemovalDelivery : Type 0 where
  lost unanswered answered : RemovalDelivery

pub record StopCalls : Type 0 where
  pub addresses : Addresses
  pub delivery : RemovalDelivery

-- The record that ShareFile makes.
abbrev pub shared_metadata : (GoString → GoString) → GoString → GoString → FileHashes → Metadata
shared_metadata ext path file_id h = record {
  file_id = file_id;
  num_chunks = pos (length h.chunk_hashes);
  chunk_size = pos default_chunk_size;
  file_extension = ext path;
  original_path = path;
  chunk_hashes = h.chunk_hashes;
  total_hash = h.total_hash;
  total_size = h.total_size;
}

module _ (sum : List ℕ → GoString) (ext base : GoString → GoString)
    (encode : Metadata → Option (List ℕ)) (transmit : Announcement → Option Announcement)
    (root tracker_addr listen : GoString) where
  -- ShareFile after the metadata is saved; what announceToTracker returns is only logged.
  abbrev pub announce_shared : ShareCalls → Metadata → World → World
  announce_shared calls meta w =
      let server = start_seeding meta.file_id meta w.server in
      if tracker_addr == bytes "" then record w { server = server } else record w {
        server = server;
        tracker =
            (announce_to_tracker base transmit calls.addresses calls.deliveries listen meta.file_id
              meta w.tracker).0;
      }

  abbrev pub share_saved : ShareCalls → Metadata → World → Files × Bool → World × ShareEnding
  share_saved calls meta w (disk, false) = (record w { disk = disk }, failed)
  share_saved calls meta w (disk, true) =
      (announce_shared calls meta (record w { disk = disk }), shared)

  abbrev pub share_hashed : ShareCalls → GoString → GoString → World → Hashing → World × ShareEnding
  share_hashed calls path file_id w panics = (w, panicked)
  share_hashed calls path file_id w (hash_error e) = (w, failed)
  share_hashed calls path file_id w (hashed h) =
      let meta = shared_metadata ext path file_id h in
      share_saved calls meta w (save_metadata encode calls.disk root meta w.disk)

  -- ShareFile
  unfoldable pub share_file : ShareCalls → GoString → World → World × ShareEnding
  share_file calls path w = elim (generate_file_id sum w.disk calls.is_read path) [
    | none ↦ (w, failed)
    | some file_id ↦
        share_hashed calls path file_id w
          (generate_file_hashes sum w.disk calls.file path default_chunk_size)
  ]

module _ (base : GoString → GoString) (transmit : Announcement → Option Announcement)
    (listen : GoString) where
  -- A tick of the announcements that ShareFile starts, and of those of startTrackerAnnouncements: what
  -- announceToTracker does to the tracker, and whether there are more ticks.
  unfoldable pub announce_tick :
      Addresses → (ℕ → Delivery) → GoString → Server → Tracker → Tracker × Bool
  announce_tick addresses deliveries file_id s t = elim (get file_id s.active_files) [
    | none ↦ (t, false)
    | some meta ↦
        ((announce_to_tracker base transmit addresses deliveries listen file_id meta t).0, true)
  ]

-- `receive` stands for JSON on both sides of a request to /remove.
module _ (receive : Removal → Option Removal) (tracker_addr listen : GoString) where
  abbrev pub remove_request : Removal → Request Removal
  remove_request r = record { method = method_post; body = receive r }

  -- The POST of StopSeedingFile.
  unfoldable pub post_removal : RemovalDelivery → Removal → Tracker → Tracker × Option ℕ
  post_removal lost r t = (t, none)
  post_removal unanswered r t = ((handle_remove (remove_request r) t).0, none)
  post_removal answered r t = status_of (handle_remove (remove_request r) t)

  abbrev pub notify_tracker :
      RemovalDelivery → GoString → Option GoString → Tracker → Tracker × Bool
  notify_tracker delivery file_id none t = (t, false)
  notify_tracker delivery file_id (some addr) t =
      let r = post_removal delivery (record { file_id = file_id; peer_addr = addr }) t in
      (r.0, is_ok r.1)

  -- StopSeedingFile: the server, the tracker, and whether there is no error.
  unfoldable pub stop_seeding_file :
      StopCalls → GoString → Server × Tracker → (Server × Tracker) × Bool
  stop_seeding_file calls file_id (s, t) =
      if tracker_addr == bytes ""
      then ((stop_seeding file_id s, t), false)
      else (let addr = get_peer_address calls.addresses.public_ip calls.addresses.local_ip listen in
          let r = notify_tracker calls.delivery file_id addr t in
          ((stop_seeding file_id s, r.0), r.1))

  -- Cleanup over the list of active files it has made; errors are dropped.
  unfoldable pub cleanup :
      (GoString → StopCalls) → List GoString → Server × Tracker → Server × Tracker
  cleanup calls [] w = w
  cleanup calls (file_id ∷ files) w =
      cleanup calls files (stop_seeding_file (calls file_id) file_id w).0
