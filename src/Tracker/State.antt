-- ===== src/Tracker/State.antt =====
-- p2p/tracker.go: FileInfo, Tracker and NewTracker, and what the handlers receive and answer.
use file_share_p2p.Prelude.{ℕ, Option, List, []}
use file_share_p2p.Prelude.Int.{ℤ}
use file_share_p2p.Prelude.Maps.{Map, get}
use file_share_p2p.GoString.{GoString, string_eq}

-- Times are nanoseconds since some start; `NumPeers` is only ever set to a length.
pub record FileInfo : Type 0 where
  pub file_id : GoString
  pub name : GoString
  pub size : ℤ
  pub uploaded_at : ℕ
  pub description : GoString
  pub categories : List GoString
  pub num_peers : ℕ
  pub extension : GoString
  pub num_chunks : ℤ
  pub chunk_size : ℤ
  pub chunk_hashes : List GoString
  pub total_hash : GoString
  pub total_size : ℤ

-- A peer set is a `map[string]bool` in which only `true` is stored.
abbrev pub PeerSet : Type 0
PeerSet = List GoString

pub record Tracker : Type 0 where
  pub file_index : Map GoString FileInfo
  pub peer_index : Map GoString PeerSet
  pub peer_last_seen : Map GoString ℕ

unfoldable pub new_tracker : Tracker
new_tracker = record { file_index = []; peer_index = []; peer_last_seen = [] }

-- What the tracker holds of one file.
pub record Entry : Type 0 where
  pub peers : Option PeerSet
  pub info : Option FileInfo

abbrev pub entry : Tracker → GoString → Entry
entry t f = record { peers = get f t.peer_index; info = get f t.file_index }

-- The body of a POST to /announce.
pub record Announcement : Type 0 where
  pub file_id : GoString
  pub peer_addr : GoString
  pub name : GoString
  pub size : ℤ
  pub description : GoString
  pub categories : List GoString
  pub extension : GoString
  pub num_chunks : ℤ
  pub chunk_size : ℤ
  pub chunk_hashes : List GoString
  pub total_hash : GoString
  pub total_size : ℤ

-- The body of a POST to /heartbeat.
pub record Heartbeat : Type 0 where
  pub peer_addr : GoString
  pub file_ids : List GoString

-- The body of a POST to /remove.
pub record Removal : Type 0 where
  pub file_id : GoString
  pub peer_addr : GoString

-- A request whose body decodes to an `A`, or to nothing where the JSON decoder reports an error.
pub record Request (A : Type 0) : Type 0 where
  pub method : GoString
  pub body : Option A

pub data Body : Type 0 where
  no_body : Body
  message : GoString → Body
  file_json : FileInfo → Body
  peers_json : List GoString → Body

pub record Response : Type 0 where
  pub status : ℕ
  pub body : Body
