-- ===== src/Tracker/Refinement.antt =====
-- The tracker does what the directory says, and GET /peers answers from it.
use file_share_p2p.Prelude.{
  ◌*◌, ℕ, not, ◌&&◌, List, [], ◌≡◌, ◌≢◌, refl, ap, ◌∙◌, arith, if◌then◌else◌, ◌==◌, contains, inl,
  inr, Bool-cases, option_cases,
}
use file_share_p2p.Prelude.Maps.{get, get-put}
use file_share_p2p.GoString.{GoString, string_eq, bytes}
use file_share_p2p.Tracker.State.{Tracker, new_tracker, Announcement, Heartbeat, Removal, Request}
use file_share_p2p.Tracker.Handlers.{
  announce, heartbeat, remove_listing, remove_peer, update_peer_activity, handle_announce,
  handle_heartbeat, handle_remove, on_post, method_post,
}
use file_share_p2p.Tracker.Cleanup.{
  second, Orders, is_stale, stale_after, cleanup_inactive_peers, cleanup_stale_peers,
  handle_get_peers,
}
use file_share_p2p.Tracker.Entries.{Covers, last_seen-remove_listing}
use file_share_p2p.Tracker.Membership.{
  has-announce, has-remove_listing, has-heartbeat, has-remove_peer, seen-heartbeat,
  seen-remove_peer,
}
use file_share_p2p.Tracker.Freshness.{
  names, CoverFiles, has-cleanup_stale_peers, seen-cleanup_stale_peers, names-handle_get_peers,
}
use file_share_p2p.Tracker.Inactive.{has-cleanup_inactive_peers}
use file_share_p2p.Tracker.Reach.{
  Step, announces, beats, removes, asks, cleans, disconnects, touches, Reach, start, next,
}
use file_share_p2p.Tracker.Directory.{
  Directory, Act, offer, offer_exactly, withdraw, expire, forget, note, nothing, apply, act_of_post,
  act_of, directory, Shows,
}

post-Shows :
    {A : Type 0} (r : Request A) (run : A → Tracker) (act : A → Act) (t : Tracker) (d : Directory)
    → Shows t d
    → ((a : A) → Shows (run a) (apply (act a) d))
    → Shows (on_post r run t).0 (apply (act_of_post r act) d)
unfolding on_post act_of_post apply
post-Shows r run act t d h keep = elim (Bool-cases (r.method == method_post)) [
  | inl e ↦ (elim (option_cases r.body) [ inl b ↦ rw (e, b) h | inr (a, b) ↦ rw (e, b) (keep a) ])
  | inr e ↦ rw e h
]

stale-Shows :
    (o : Orders) (now : ℕ) (t : Tracker) (d : Directory)
    → CoverFiles o t
    → Covers o.peers t.peer_last_seen
    → Shows t d
    → Shows (cleanup_stale_peers o now t) (apply (expire stale_after now) d)
unfolding apply
stale-Shows o now t d files peers h = record {
  offers = λ file q.
      ground (arith, has-cleanup_stale_peers o now t file q files peers, h.offers file q, h.last q);
  last = λ q. ground (arith, seen-cleanup_stale_peers o now t q peers, h.last q);
}

announce-Shows :
    (uploaded now : ℕ) (a : Announcement) (t : Tracker) (d : Directory)
    → Shows t d
    → Shows (announce uploaded now a t) (apply (offer a.file_id a.peer_addr now) d)
unfolding apply
announce-Shows uploaded now a t d h = record {
  offers = λ file q. ground (arith, has-announce uploaded now a t file q, h.offers file q);
  last =
      λ q. unfold announce in ground (arith, get-put a.peer_addr now t.peer_last_seen q, h.last q);
}

heartbeat-Shows :
    (order : List GoString) (now : ℕ) (b : Heartbeat) (t : Tracker) (d : Directory)
    → Covers order t.peer_index
    → Shows t d
    → Shows (heartbeat order now b t) (apply (offer_exactly b.peer_addr b.file_ids now) d)
unfolding apply
heartbeat-Shows order now b t d cover h = record {
  offers = λ file q. ground (arith, has-heartbeat order now b t file q cover, h.offers file q);
  last = λ q. ground (arith, seen-heartbeat order now b t q, h.last q);
}

remove_listing-Shows :
    (r : Removal) (t : Tracker) (d : Directory)
    → Shows t d
    → Shows (remove_listing r t) (apply (withdraw r.file_id r.peer_addr) d)
unfolding apply
remove_listing-Shows r t d h = record {
  offers = λ file q. ground (arith, has-remove_listing r t file q, h.offers file q);
  last = λ q. ap (get q) (last_seen-remove_listing r t) ∙ h.last q;
}

inactive-Shows :
    (o : Orders) (threshold now : ℕ) (t : Tracker) (d : Directory)
    → CoverFiles o t
    → Covers o.peers t.peer_last_seen
    → Shows t d
    → Shows (cleanup_inactive_peers o threshold now t) (apply (expire threshold now) d)
unfolding apply
inactive-Shows o threshold now t d files peers h = record {
  offers = λ file q. ground (
    arith,
    has-cleanup_inactive_peers o threshold now t file q files peers,
    h.offers file q,
    h.last q,
  );
  last =
      λ q. ground (arith, has-cleanup_inactive_peers o threshold now t [] q files peers, h.last q);
}

remove_peer-Shows :
    (order : List GoString) (addr : GoString) (t : Tracker) (d : Directory)
    → Covers order t.peer_index
    → Shows t d
    → Shows (remove_peer order addr t) (apply (forget addr) d)
unfolding apply
remove_peer-Shows order addr t d cover h = record {
  offers = λ file q. ground (arith, has-remove_peer order addr t file q cover, h.offers file q);
  last = λ q. ground (arith, seen-remove_peer order addr t q, h.last q);
}

touch-Shows :
    (now : ℕ) (addr : GoString) (t : Tracker) (d : Directory)
    → Shows t d
    → Shows (update_peer_activity now addr t) (apply (note addr now) d)
unfolding apply update_peer_activity
touch-Shows now addr t d h = record {
  offers = h.offers;
  last = λ q. ground (arith, get-put addr now t.peer_last_seen q, h.last q);
}

asks-Shows :
    (o : Orders) (now : ℕ) (file : GoString) (t : Tracker) (d : Directory)
    → CoverFiles o t
    → Covers o.peers t.peer_last_seen
    → Shows t d
    → Shows
        (handle_get_peers o now file t).0
        (apply (if file == bytes "" then nothing else expire stale_after now) d)
unfolding handle_get_peers
asks-Shows o now file t d files peers h = elim (Bool-cases (file == bytes "")) [
  | inl e ↦ rw e (unfold apply in h)
  | inr e ↦ rw e (stale-Shows o now t d files peers h)
]

Step-Shows :
    {t u : Tracker} (s : Step t u) (d : Directory) → Shows t d → Shows u (apply (act_of s) d)
unfolding act_of handle_announce handle_heartbeat handle_remove
Step-Shows {t} (announces uploaded now r) d h =
    post-Shows r (λ a. announce uploaded now a t) _ t d h (λ a. announce-Shows uploaded now a t d h)
Step-Shows {t} (beats order now r cover) d h =
    post-Shows r (λ b. heartbeat order now b t) _ t d h
      (λ b. heartbeat-Shows order now b t d cover h)
Step-Shows {t} (removes r) d h =
    post-Shows r (λ q. remove_listing q t) _ t d h (λ q. remove_listing-Shows q t d h)
Step-Shows {t} (asks o now file files peers) d h = asks-Shows o now file t d files peers h
Step-Shows {t} (cleans o threshold now files peers) d h =
    inactive-Shows o threshold now t d files peers h
Step-Shows {t} (disconnects order addr cover) d h = remove_peer-Shows order addr t d cover h
Step-Shows {t} (touches now addr) d h = touch-Shows now addr t d h

-- In every state that the tracker reaches by requests, cleanups and disconnections in any order, and
-- with any order of its loops over maps, it shows the directory that the same events make of the empty
-- one.
pub Reach-Shows : {t : Tracker} (r : Reach t) → Shows t (directory r)
unfolding directory new_tracker contains get
Reach-Shows start = record { offers = λ file q. refl; last = λ q. refl }
Reach-Shows (next r s) = Step-Shows s (directory r) (Reach-Shows r)

-- In every such state GET /peers answers 200 and names a peer exactly if the directory has it as
-- offering the file, and as seen within two minutes, provided a file is given and the loops leave out
-- no key.
pub names-Reach :
    {t : Tracker} (r : Reach t) (o : Orders) (now : ℕ) (file q : GoString)
    → file ≢ bytes ""
    → CoverFiles o t
    → Covers o.peers t.peer_last_seen
    → let answer = (handle_get_peers o now file t).1 in
      let d = directory r in
      (answer.status ≡ 200)
      × (names o now answer.body q
          ≡ (d.offers file q && not (is_stale (120 * second) now (d.last q))))
names-Reach {t} r o now file q given files peers =
    let h = Reach-Shows r in
    let (ok, listed) = names-handle_get_peers o now t file q given files peers in
    (ok, ground (arith, listed, h.offers file q, h.last q))
