-- ===== src/Tracker/Handlers.antt =====
-- p2p/tracker.go: the handlers that announce, remove and look up, and the loops that drop a peer.
-- `order` is the order in which a `range` visits the files: Go leaves it open.
use file_share_p2p.Prelude.{
  ℕ, not, ◌&&◌, Option, none, some, List, [], ◌∷◌, eqb, if◌then◌else◌, ◌==◌, length, contains,
  insert, remove,
}
use file_share_p2p.Prelude.Maps.{get, put, delete}
use file_share_p2p.GoString.{GoString, string_eq, bytes}
use file_share_p2p.Tracker.State.{
  FileInfo, PeerSet, Tracker, Announcement, Heartbeat, Removal, Request, Response, no_body, message,
  file_json,
}

abbrev pub method_post : GoString
method_post = bytes "POST"

abbrev pub status_ok : Response
status_ok = record { status = 200; body = no_body }

abbrev pub bad_request : GoString → Response
bad_request text = record { status = 400; body = message text }

abbrev pub method_not_allowed : Response
method_not_allowed = record { status = 405; body = message (bytes "Method not allowed") }

abbrev pub invalid_body : Response
invalid_body = bad_request (bytes "Invalid request body")

-- What the three POST handlers do with a request: the method is checked, then the body is decoded.
-- `run` is the part that follows under the lock.
unfoldable pub on_post : {A : Type 0} → Request A → (A → Tracker) → Tracker → Tracker × Response
on_post r run t =
    if r.method == method_post
    then elim r.body [ none ↦ (t, invalid_body) | some a ↦ (run a, status_ok) ]
    else (t, method_not_allowed)

-- The entry that an announcement creates. `NumPeers` is the zero value until it is counted.
unfoldable pub file_of_announcement : ℕ → Announcement → FileInfo
file_of_announcement now a = record {
  file_id = a.file_id;
  name = a.name;
  size = a.size;
  uploaded_at = now;
  description = a.description;
  categories = a.categories;
  num_peers = 0;
  extension = a.extension;
  num_chunks = a.num_chunks;
  chunk_size = a.chunk_size;
  chunk_hashes = a.chunk_hashes;
  total_hash = a.total_hash;
  total_size = a.total_size;
}

-- `!exists || existingFile.TotalHash != announce.TotalHash`
unfoldable pub announced_file : ℕ → Announcement → Option FileInfo → FileInfo
announced_file now a none = file_of_announcement now a
announced_file now a (some old) =
    if old.total_hash == a.total_hash then old else file_of_announcement now a

abbrev pub peers_or_empty : Option PeerSet → PeerSet
peers_or_empty none = []
peers_or_empty (some peers) = peers

-- The part of HandleAnnounce that runs under the lock.
unfoldable pub announce : ℕ → ℕ → Announcement → Tracker → Tracker
announce uploaded now a t =
    let peers = insert a.peer_addr (peers_or_empty (get a.file_id t.peer_index)) in
    let info = announced_file uploaded a (get a.file_id t.file_index) in
    record {
      file_index = put a.file_id (record info { num_peers = length peers }) t.file_index;
      peer_index = put a.file_id peers t.peer_index;
      peer_last_seen = put a.peer_addr now t.peer_last_seen;
    }

-- `uploaded` and `now` are the two readings of the clock.
unfoldable pub handle_announce : ℕ → ℕ → Request Announcement → Tracker → Tracker × Response
unfolding on_post
handle_announce uploaded now r t = on_post r (λ a. announce uploaded now a t) t

-- After a peer was deleted from a file's set: count again, and forget a file that nobody shares.
-- A set without file information stays, empty or not.
unfoldable pub settle : GoString → PeerSet → Tracker → Tracker
settle file peers t = elim (get file t.file_index) [
  | none ↦ record t { peer_index = put file peers t.peer_index }
  | some info ↦
      if eqb (length peers) 0
      then record t { file_index = delete file t.file_index; peer_index = delete file t.peer_index }
      else record t {
        file_index = put file (record info { num_peers = length peers }) t.file_index;
        peer_index = put file peers t.peer_index;
      }
]

-- One round of `for fileID, peers := range t.peerIndex` in RemovePeer, cleanupInactivePeers and
-- cleanupStalePeers. A file that an earlier round deleted is not visited.
unfoldable pub drop_from_file : GoString → Tracker → GoString → Tracker
drop_from_file addr t file = elim (get file t.peer_index) [
  | none ↦ t
  | some peers ↦ if contains addr peers then settle file (remove addr peers) t else t
]

unfoldable pub drop_from_files : GoString → List GoString → Tracker → Tracker
drop_from_files addr [] t = t
drop_from_files addr (file ∷ order) t = drop_from_files addr order (drop_from_file addr t file)

-- RemovePeer
unfoldable pub remove_peer : List GoString → GoString → Tracker → Tracker
remove_peer order addr t =
    let t' = drop_from_files addr order t in
    record t' { peer_last_seen = delete addr t'.peer_last_seen }

-- HandleRemove deletes without asking whether the peer is listed.
unfoldable pub remove_listing : Removal → Tracker → Tracker
remove_listing r t = elim (get r.file_id t.peer_index) [
  | none ↦ t
  | some peers ↦ settle r.file_id (remove r.peer_addr peers) t
]

unfoldable pub handle_remove : Request Removal → Tracker → Tracker × Response
unfolding on_post
handle_remove r t = on_post r (λ q. remove_listing q t) t

-- UpdatePeerActivity
unfoldable pub update_peer_activity : ℕ → GoString → Tracker → Tracker
update_peer_activity now addr t = record t { peer_last_seen = put addr now t.peer_last_seen }

-- HandleGetMetadata. The lock is released before the object, which the index shares, is encoded: the
-- first argument gives what other handlers have made of it by then.
abbrev pub metadata_answer : (FileInfo → FileInfo) → GoString → Tracker → Response
metadata_answer changed file t =
    if file == bytes ""
    then bad_request (bytes "file_id is required")
    else elim (get file t.file_index) [
      | none ↦ record { status = 404; body = message (bytes "File not found") }
      | some info ↦ record { status = 200; body = file_json (changed info) }
    ]

-- HandleGetMetadata where no other handler changes the object before it is encoded.
unfoldable pub handle_get_metadata : GoString → Tracker → Response
handle_get_metadata file t = metadata_answer (λ info. info) file t

-- HandleHeartbeat, first loop: list the peer under one file, known to the index or not.
unfoldable pub list_under : GoString → Tracker → GoString → Tracker
list_under addr t file =
    let peers = insert addr (peers_or_empty (get file t.peer_index)) in
    let t' = record t { peer_index = put file peers t.peer_index } in
    elim (get file t.file_index) [
      | none ↦ t'
      | some info ↦ record t' {
        file_index = put file (record info { num_peers = length peers }) t.file_index;
      }
    ]

unfoldable pub list_under_all : GoString → List GoString → Tracker → Tracker
list_under_all addr [] t = t
list_under_all addr (file ∷ files) t = list_under_all addr files (list_under addr t file)

-- HandleHeartbeat, second loop, one round: the files that the peer no longer shares.
unfoldable pub drop_unshared : GoString → List GoString → Tracker → GoString → Tracker
drop_unshared addr shared t file = elim (get file t.peer_index) [
  | none ↦ t
  | some peers ↦
      if contains addr peers && not (contains file shared)
      then settle file (remove addr peers) t
      else t
]

unfoldable pub drop_unshared_all : GoString → List GoString → List GoString → Tracker → Tracker
drop_unshared_all addr shared [] t = t
drop_unshared_all addr shared (file ∷ order) t =
    drop_unshared_all addr shared order (drop_unshared addr shared t file)

-- The part of HandleHeartbeat that runs under the lock; `order` is that of the second loop.
unfoldable pub heartbeat : List GoString → ℕ → Heartbeat → Tracker → Tracker
heartbeat order now h t =
    let seen = record t { peer_last_seen = put h.peer_addr now t.peer_last_seen } in
    drop_unshared_all h.peer_addr h.file_ids order (list_under_all h.peer_addr h.file_ids seen)

unfoldable pub handle_heartbeat :
    List GoString → ℕ → Request Heartbeat → Tracker → Tracker × Response
unfolding on_post
handle_heartbeat order now r t = on_post r (λ h. heartbeat order now h t) t
