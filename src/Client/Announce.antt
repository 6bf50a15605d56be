-- ===== src/Client/Announce.antt =====
-- server.go: announceToTracker against the handlers of p2p/tracker.go.
-- `transmit` stands for JSON on both sides: what the tracker decodes of what the client encodes.
use file_share_p2p.Prelude.{
  ℕ, zero, suc, ◌+◌, Bool, true, false, Option, none, some, [], ◌∷◌, eqb, if◌then◌else◌,
}
use file_share_p2p.GoString.{GoString, bytes}
use file_share_p2p.Metadata.{Metadata}
use file_share_p2p.Tracker.State.{Tracker, Announcement, Request, Response}
use file_share_p2p.Tracker.Handlers.{method_post, handle_announce}
use file_share_p2p.Client.Address.{get_peer_address}

-- A request over HTTP: it does not arrive, it is handled and no answer arrives, or both arrive. The
-- tracker reads its clock when it handles it.
pub data Delivery : Type 0 where
  lost : Delivery
  unanswered : (uploaded now : ℕ) → Delivery
  answered : (uploaded now : ℕ) → Delivery

-- What GetPublicIP and GetLocalIP give.
pub record Addresses : Type 0 where
  pub public_ip : Option GoString
  pub local_ip : Option GoString

-- The payload of announceToTracker; `base` is filepath.Base.
unfoldable pub announcement_of :
    (GoString → GoString) → GoString → GoString → Metadata → Announcement
announcement_of base file_id peer_addr meta = record {
  file_id = file_id;
  peer_addr = peer_addr;
  name = base meta.original_path;
  size = meta.total_size;
  description = bytes "File shared via ForeverStore";
  categories = bytes "misc" ∷ [];
  extension = meta.file_extension;
  num_chunks = meta.num_chunks;
  chunk_size = meta.chunk_size;
  chunk_hashes = meta.chunk_hashes;
  total_hash = meta.total_hash;
  total_size = meta.total_size;
}

abbrev pub announce_request : Option Announcement → Request Announcement
announce_request body = record { method = method_post; body = body }

-- The status that the client sees, if it sees one.
abbrev pub status_of : Tracker × Response → Tracker × Option ℕ
status_of (t, response) = (t, some response.status)

-- One attempt of announceToTracker.
unfoldable pub post_announcement : Delivery → Option Announcement → Tracker → Tracker × Option ℕ
post_announcement lost body t = (t, none)
post_announcement (unanswered uploaded now) body t =
    ((handle_announce uploaded now (announce_request body) t).0, none)
post_announcement (answered uploaded now) body t =
    status_of (handle_announce uploaded now (announce_request body) t)

abbrev pub is_ok : Option ℕ → Bool
is_ok none = false
is_ok (some status) = eqb status 200

-- The loop of announceToTracker with `left` attempts to go and `attempt` done.
unfoldable pub announce_rounds :
    (ℕ → Delivery) → ℕ → ℕ → Option Announcement → Tracker → Tracker × Bool
announce_rounds deliveries zero attempt body t = (t, false)
announce_rounds deliveries (suc left) attempt body t =
    let r = post_announcement (deliveries attempt) body t in
    let rest = announce_rounds deliveries left (attempt + 1) body r.0 in
    if is_ok r.1 then (r.0, true) else rest

-- announceToTracker: the tracker, and whether there is no error.
unfoldable pub announce_to_tracker :
    (GoString → GoString)
    → (Announcement → Option Announcement)
    → Addresses
    → (ℕ → Delivery)
    → GoString
    → GoString
    → Metadata
    → Tracker
    → Tracker × Bool
announce_to_tracker base transmit addresses deliveries listen file_id meta t =
    elim (get_peer_address addresses.public_ip addresses.local_ip listen) [
      | none ↦ (t, false)
      | some addr ↦
          announce_rounds deliveries 3 0 (transmit (announcement_of base file_id addr meta)) t
    ]
