-- ===== src/Tests/Tracker.antt =====
-- p2p/tracker.go: two peers share a file, one of them falls silent.
use file_share_p2p.Prelude.{
  ◌*◌, not, ◌&&◌, some, none, [], ◌∷◌, ◌≡◌, refl, contains, insert, remove, if◌then◌else◌, ◌==◌,
  ◌≢◌, ℕ_discrete,
}
use file_share_p2p.Prelude.Int.{pos}
use file_share_p2p.Prelude.Maps.{get, put, delete, keys}
use file_share_p2p.GoString.{GoString, string_eq, bytes_dec, bytes}
use file_share_p2p.Tracker.State.{
  Tracker, new_tracker, Announcement, Heartbeat, Removal, Request, peers_json,
}
use file_share_p2p.Tracker.Handlers.{
  announce, announced_file, file_of_announcement, handle_announce, heartbeat, method_post, settle,
  drop_from_file, drop_from_files,
}
use file_share_p2p.Tracker.Cleanup.{
  Orders, second, stale_after, is_stale, inactivity_threshold, cleanup_inactive_peers,
  cleanup_stale_peers, handle_get_peers, drop_stale_from, drop_if_stale,
}
use file_share_p2p.Tracker.Entries.{Covers-keys}
use file_share_p2p.Tracker.Membership.{has, has-heartbeat}
use file_share_p2p.Tracker.Freshness.{seen, names, names-handle_get_peers}
use file_share_p2p.Tracker.Inactive.{has-cleanup_inactive_peers}
use file_share_p2p.Tracker.Reach.{start, next, announces, IsConsistent, Reach-IsConsistent}
use file_share_p2p.Tracker.Directory.{directory}
use file_share_p2p.Tracker.Refinement.{names-Reach}

abbrev pub file_x : GoString
file_x = bytes "x"

abbrev pub peer_a : GoString
peer_a = bytes "1.2.3.4:3000"

abbrev peer_b : GoString
peer_b = bytes "5.6.7.8:3000"

abbrev pub announcement : GoString → Announcement
announcement peer = record {
  file_id = file_x;
  peer_addr = peer;
  name = bytes "notes.txt";
  size = pos 10;
  description = bytes "";
  categories = bytes "misc" ∷ [];
  extension = bytes ".txt";
  num_chunks = pos 1;
  chunk_size = pos 16777216;
  chunk_hashes = bytes "00" ∷ [];
  total_hash = bytes "00";
  total_size = pos 10;
}

-- Peer a announces at 0 s and peer b at 100 s.
abbrev alone : Tracker
alone = announce 0 0 (announcement peer_a) new_tracker

abbrev shared : Tracker
shared = announce 0 (100 * second) (announcement peer_b) alone

abbrev pub orders : Tracker → Orders
orders t = record {
  peers = keys t.peer_last_seen;
  files = λ _. keys t.peer_index;
  empties = λ _. keys t.peer_index;
}

-- At 130 s peer a is stale, and peer b is not.
get_peers_runs :
    (handle_get_peers (orders shared) (130 * second) file_x shared).1.body
    ≡ peers_json (peer_b ∷ [])
unfolding handle_get_peers cleanup_stale_peers drop_stale_from drop_if_stale drop_from_files
    drop_from_file settle announce announced_file file_of_announcement new_tracker get put delete
    keys contains insert remove string_eq bytes_dec ℕ_discrete
get_peers_runs = refl

announce_request : Request Announcement
announce_request = record { method = method_post; body = some (announcement peer_a) }

Reach-IsConsistent_example : IsConsistent (handle_announce 0 0 announce_request new_tracker).0
Reach-IsConsistent_example = Reach-IsConsistent (next start (announces 0 0 announce_request))

pub file_x_given : file_x ≢ bytes ""
file_x_given e = cc

names-handle_get_peers_example :
    let r = (handle_get_peers (orders shared) (130 * second) file_x shared).1 in
    (r.status ≡ 200)
    × (names (orders shared) (130 * second) r.body peer_a ≡ (
        has shared file_x peer_a && not (is_stale stale_after (130 * second) (seen shared peer_a))))
names-handle_get_peers_example =
    names-handle_get_peers (orders shared) (130 * second) shared file_x peer_a file_x_given
      (λ a. Covers-keys shared.peer_index) (Covers-keys shared.peer_last_seen)

has-cleanup_inactive_peers_example :
    let u = cleanup_inactive_peers (orders shared) inactivity_threshold (130 * second) shared in
    let gone = is_stale inactivity_threshold (130 * second) (seen shared peer_a) in
    (has u file_x peer_a ≡ (not gone && has shared file_x peer_a))
    × (seen u peer_a ≡ (if gone then none else seen shared peer_a))
has-cleanup_inactive_peers_example =
    has-cleanup_inactive_peers (orders shared) inactivity_threshold (130 * second) shared file_x
      peer_a (λ a. Covers-keys shared.peer_index) (Covers-keys shared.peer_last_seen)

-- Peer a now shares another file, which the index does not know.
abbrev beat : Heartbeat
beat = record { peer_addr = peer_a; file_ids = bytes "y" ∷ [] }

has-heartbeat_example :
    has (heartbeat (keys shared.peer_index) 7 beat shared) file_x peer_a
    ≡ (if peer_a == peer_a then contains file_x (bytes "y" ∷ []) else has shared file_x peer_a)
has-heartbeat_example =
    has-heartbeat (keys shared.peer_index) 7 beat shared file_x peer_a
      (Covers-keys shared.peer_index)

abbrev only_a : Removal
only_a = record { file_id = file_x; peer_addr = peer_a }

abbrev reached : Tracker
reached = (handle_announce 0 0 announce_request new_tracker).0

names-Reach_example :
    let r = (handle_get_peers (orders reached) (130 * second) file_x reached).1 in
    let d = directory (next start (announces 0 0 announce_request)) in
    (r.status ≡ 200)
    × (names (orders reached) (130 * second) r.body peer_a
        ≡ (d.offers file_x peer_a && not (is_stale stale_after (130 * second) (d.last peer_a))))
names-Reach_example =
    names-Reach (next start (announces 0 0 announce_request)) (orders reached) (130 * second) file_x
      peer_a file_x_given (λ a. Covers-keys reached.peer_index) (Covers-keys reached.peer_last_seen)
