-- ===== src/Tracker/Reach.antt =====
-- The tracker's life as a step relation: requests, cleanups and disconnections in any interleaving
-- (every handler holds the lock), and the invariant in every state that is reached.
use file_share_p2p.Prelude.{
  ℕ, true, List, ◌≡◌, arith, ◌==◌, contains, inl, inr, Bool-cases, option_cases, ap,
}
use file_share_p2p.Prelude.Maps.{get, is_some, get-put}
use file_share_p2p.GoString.{GoString, string_eq, bytes}
use file_share_p2p.Tracker.State.{Tracker, new_tracker, Announcement, Heartbeat, Removal, Request}
use file_share_p2p.Tracker.Handlers.{
  announce, heartbeat, remove_listing, remove_peer, update_peer_activity, handle_announce,
  handle_heartbeat, handle_remove, on_post, method_post,
}
use file_share_p2p.Tracker.Cleanup.{
  Orders, cleanup_inactive_peers, cleanup_stale_peers, handle_get_peers,
}
use file_share_p2p.Tracker.Entries.{Covers, last_seen-remove_listing}
use file_share_p2p.Tracker.Membership.{
  has, has-announce, has-remove_listing, has-heartbeat, has-remove_peer, seen-heartbeat,
  seen-remove_peer,
}
use file_share_p2p.Tracker.Freshness.{
  seen, CoverFiles, has-cleanup_stale_peers, seen-cleanup_stale_peers,
}
use file_share_p2p.Tracker.Inactive.{has-cleanup_inactive_peers}
use file_share_p2p.Tracker.Invariant.{
  AllEntries, announce-AllEntries, heartbeat-AllEntries, remove_listing-AllEntries,
  drop_from_files-AllEntries, cleanup_inactive_peers-AllEntries, cleanup_stale_peers-AllEntries,
  new_tracker-AllEntries,
}

-- Every listed peer has a time at which it was last seen, so a cleanup will find it.
abbrev pub AllSeen : Tracker → Type 0
AllSeen t = (file q : GoString) → has t file q ≡ true → is_some (seen t q) ≡ true

pub record IsConsistent (t : Tracker) : Type 0 where
  pub entries : AllEntries t
  pub times : AllSeen t

announce-IsConsistent :
    (uploaded now : ℕ) (a : Announcement) (t : Tracker)
    → IsConsistent t
    → IsConsistent (announce uploaded now a t)
announce-IsConsistent uploaded now a t c = record {
  entries = announce-AllEntries uploaded now a t c.entries;
  times = λ file q h.
      unfold announce in
      ground (
        arith,
        has-announce uploaded now a t file q,
        get-put a.peer_addr now t.peer_last_seen q,
        c.times file q,
      );
}

heartbeat-IsConsistent :
    (order : List GoString) (now : ℕ) (b : Heartbeat) (t : Tracker)
    → Covers order t.peer_index
    → IsConsistent t
    → IsConsistent (heartbeat order now b t)
heartbeat-IsConsistent order now b t cover c = record {
  entries = heartbeat-AllEntries order now b t cover c.entries;
  times = λ file q h. ground (
    arith,
    has-heartbeat order now b t file q cover,
    seen-heartbeat order now b t q,
    c.times file q,
  );
}

remove_listing-IsConsistent :
    (r : Removal) (t : Tracker) → IsConsistent t → IsConsistent (remove_listing r t)
remove_listing-IsConsistent r t c = record {
  entries = remove_listing-AllEntries r t c.entries;
  times = λ file q h. ground (
    arith,
    has-remove_listing r t file q,
    ap (get q) (last_seen-remove_listing r t),
    c.times file q,
  );
}

remove_peer-IsConsistent :
    (order : List GoString) (addr : GoString) (t : Tracker)
    → Covers order t.peer_index
    → IsConsistent t
    → IsConsistent (remove_peer order addr t)
remove_peer-IsConsistent order addr t cover c = record {
  entries = unfold remove_peer in drop_from_files-AllEntries addr order t c.entries;
  times = λ file q h. ground (
    arith,
    has-remove_peer order addr t file q cover,
    seen-remove_peer order addr t q,
    c.times file q,
  );
}

cleanup_stale_peers-IsConsistent :
    (o : Orders) (now : ℕ) (t : Tracker)
    → CoverFiles o t
    → Covers o.peers t.peer_last_seen
    → IsConsistent t
    → IsConsistent (cleanup_stale_peers o now t)
cleanup_stale_peers-IsConsistent o now t files peers c = record {
  entries = cleanup_stale_peers-AllEntries o now t c.entries;
  times = λ file q h. ground (
    arith,
    has-cleanup_stale_peers o now t file q files peers,
    seen-cleanup_stale_peers o now t q peers,
    c.times file q,
  );
}

cleanup_inactive_peers-IsConsistent :
    (o : Orders) (threshold now : ℕ) (t : Tracker)
    → CoverFiles o t
    → Covers o.peers t.peer_last_seen
    → IsConsistent t
    → IsConsistent (cleanup_inactive_peers o threshold now t)
cleanup_inactive_peers-IsConsistent o threshold now t files peers c = record {
  entries = cleanup_inactive_peers-AllEntries o threshold now t c.entries;
  times = λ file q h.
      ground
        (arith, has-cleanup_inactive_peers o threshold now t file q files peers, c.times file q);
}

update_peer_activity-IsConsistent :
    (now : ℕ) (addr : GoString) (t : Tracker)
    → IsConsistent t
    → IsConsistent (update_peer_activity now addr t)
unfolding update_peer_activity
update_peer_activity-IsConsistent now addr t c = record {
  entries = c.entries;
  times = λ file q h. ground (arith, get-put addr now t.peer_last_seen q, c.times file q);
}

-- One thing that happens to the tracker. The orders of the loops are any that leave out no key.
pub data Step (t : Tracker) : Tracker → Type 0 where
  announces :
      (uploaded now : ℕ) (r : Request Announcement) → Step t (handle_announce uploaded now r t).0
  beats :
      (order : List GoString) (now : ℕ) (r : Request Heartbeat)
      → Covers order t.peer_index
      → Step t (handle_heartbeat order now r t).0
  removes : (r : Request Removal) → Step t (handle_remove r t).0
  asks :
      (o : Orders) (now : ℕ) (file : GoString)
      → CoverFiles o t
      → Covers o.peers t.peer_last_seen
      → Step t (handle_get_peers o now file t).0
  cleans :
      (o : Orders) (threshold now : ℕ)
      → CoverFiles o t
      → Covers o.peers t.peer_last_seen
      → Step t (cleanup_inactive_peers o threshold now t)
  disconnects :
      (order : List GoString) (addr : GoString)
      → Covers order t.peer_index
      → Step t (remove_peer order addr t)
  touches : (now : ℕ) (addr : GoString) → Step t (update_peer_activity now addr t)

pub data Reach : Tracker → Type 0 where
  start : Reach new_tracker
  next : {t u : Tracker} → Reach t → Step t u → Reach u

on_post-IsConsistent :
    {A : Type 0} (r : Request A) (run : A → Tracker) (t : Tracker)
    → IsConsistent t
    → ((a : A) → IsConsistent (run a))
    → IsConsistent (on_post r run t).0
unfolding on_post
on_post-IsConsistent r run t c keep = elim (Bool-cases (r.method == method_post)) [
  | inl e ↦ rw e (elim (option_cases r.body) [ inl b ↦ rw b c | inr (a, b) ↦ rw b (keep a) ])
  | inr e ↦ rw e c
]

get_peers-IsConsistent :
    (o : Orders) (now : ℕ) (file : GoString) (t : Tracker)
    → IsConsistent t
    → IsConsistent (cleanup_stale_peers o now t)
    → IsConsistent (handle_get_peers o now file t).0
unfolding handle_get_peers
get_peers-IsConsistent o now file t c d = elim (Bool-cases (file == bytes "")) [
  | inl e ↦ rw e c
  | inr e ↦ rw e d
]

Step-IsConsistent : {t u : Tracker} → Step t u → IsConsistent t → IsConsistent u
unfolding handle_announce handle_heartbeat handle_remove
Step-IsConsistent {t} (announces uploaded now r) c =
    on_post-IsConsistent r (λ a. announce uploaded now a t) t c
      (λ a. announce-IsConsistent uploaded now a t c)
Step-IsConsistent {t} (beats order now r cover) c =
    on_post-IsConsistent r (λ b. heartbeat order now b t) t c
      (λ b. heartbeat-IsConsistent order now b t cover c)
Step-IsConsistent {t} (removes r) c =
    on_post-IsConsistent r (λ q. remove_listing q t) t c (λ q. remove_listing-IsConsistent q t c)
Step-IsConsistent {t} (asks o now file files peers) c =
    get_peers-IsConsistent o now file t c (cleanup_stale_peers-IsConsistent o now t files peers c)
Step-IsConsistent {t} (cleans o threshold now files peers) c =
    cleanup_inactive_peers-IsConsistent o threshold now t files peers c
Step-IsConsistent {t} (disconnects order addr cover) c =
    remove_peer-IsConsistent order addr t cover c
Step-IsConsistent {t} (touches now addr) c = update_peer_activity-IsConsistent now addr t c

new_tracker-IsConsistent : IsConsistent new_tracker
unfolding new_tracker contains get
new_tracker-IsConsistent = record {
  entries = unfold new_tracker in new_tracker-AllEntries;
  times = λ file q h. cc;
}

-- In every state that the tracker reaches, each offered file has at least one peer, its count is the
-- number of its distinct peers, and each listed peer has a time at which it was last seen.
pub Reach-IsConsistent : {t : Tracker} → Reach t → IsConsistent t
Reach-IsConsistent start = new_tracker-IsConsistent
Reach-IsConsistent (next r s) = Step-IsConsistent s (Reach-IsConsistent r)
