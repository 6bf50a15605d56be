-- ===== src/Tracker/Metadata.antt =====
-- What HandleGetMetadata answers after an announcement and after the last peer has left.
use file_share_p2p.Prelude.{
  ℕ, suc, Option, none, some, [], ◌∷◌, ◌≡◌, ◌≢◌, arith, if◌then◌else◌, length, contains, insert,
  length-insert, ap, remove,
}
use file_share_p2p.Prelude.Maps.{get}
use file_share_p2p.GoString.{string_eq, bytes}
use file_share_p2p.Tracker.State.{FileInfo, Tracker, Entry, entry, Announcement, Removal, file_json}
use file_share_p2p.Tracker.Handlers.{
  announce, announced_file, file_of_announcement, handle_get_metadata, peers_or_empty,
  remove_listing,
}
use file_share_p2p.Tracker.Entries.{entry-announce_self, entry-remove_listing}

-- The answer after an announcement.
abbrev pub announced_info : ℕ → Announcement → Tracker → FileInfo
announced_info uploaded a t = record (announced_file uploaded a (get a.file_id t.file_index)) {
  num_peers = length (insert a.peer_addr (peers_or_empty (get a.file_id t.peer_index)));
}

get_metadata-announce :
    (uploaded now : ℕ) (a : Announcement) (t : Tracker)
    → a.file_id ≢ bytes ""
    → handle_get_metadata a.file_id (announce uploaded now a t)
      ≡ record { status = 200; body = file_json (announced_info uploaded a t) }
unfolding handle_get_metadata
get_metadata-announce uploaded now a t h =
    ground (arith, ap (λ (e : Entry). e.info) (entry-announce_self uploaded now a t))

announced_hash :
    (uploaded : ℕ) (a : Announcement) (old : Option FileInfo)
    → (announced_file uploaded a old).total_hash ≡ a.total_hash
unfolding announced_file file_of_announcement
announced_hash uploaded a old = ground arith

-- After an announcement the tracker answers with a file of the announced hash, and its count of
-- peers has grown by one exactly where the announcing peer was not yet listed.
pub metadata-announce :
    (uploaded now : ℕ) (a : Announcement) (t : Tracker)
    → a.file_id ≢ bytes ""
    → let peers = peers_or_empty (get a.file_id t.peer_index) in
      (info : FileInfo) × (handle_get_metadata a.file_id (announce uploaded now a t)
        ≡ record { status = 200; body = file_json info })
      × (info.total_hash ≡ a.total_hash)
      × (info.num_peers ≡ (if contains a.peer_addr peers then length peers else suc (length peers)))
metadata-announce uploaded now a t h = (
  announced_info uploaded a t,
  get_metadata-announce uploaded now a t h,
  announced_hash uploaded a (get a.file_id t.file_index),
  length-insert a.peer_addr (peers_or_empty (get a.file_id t.peer_index)),
)

-- When the only peer of an offered file is removed, the tracker forgets the file and its set, and
-- answers that it is not found.
pub metadata-remove_last :
    (r : Removal) (t : Tracker) (info : FileInfo)
    → r.file_id ≢ bytes ""
    → get r.file_id t.peer_index ≡ some (r.peer_addr ∷ [])
    → get r.file_id t.file_index ≡ some info
    → let u = remove_listing r t in
      ((handle_get_metadata r.file_id u).status ≡ 404)
      × (entry u r.file_id ≡ record { peers = none; info = none })
unfolding handle_get_metadata remove
metadata-remove_last r t info h p f = ground (arith, entry-remove_listing r t r.file_id)
