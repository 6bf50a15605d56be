-- ===== src/Client/Stopped.antt =====
-- server.go against p2p/tracker.go: what Cleanup leaves at the server and at the tracker.
use file_share_p2p.Prelude.{
  Bool, true, false, not, ◌&&◌, Option, none, some, List, [], ◌∷◌, ◌≡◌, ◌≢◌, refl, ap, ◌∙◌, arith,
  if◌then◌else◌, ◌==◌, ==_refl, contains,
}
use file_share_p2p.Prelude.Maps.{get, get-delete}
use file_share_p2p.GoString.{GoString, string_eq, bytes}
use file_share_p2p.Server.State.{Server, stop_seeding}
use file_share_p2p.Tracker.State.{Tracker, Entry, entry, Removal}
use file_share_p2p.Tracker.Handlers.{
  on_post, handle_remove, remove_listing, peers_or_empty, method_post,
}
use file_share_p2p.Tracker.Entries.{entry-remove_listing}
use file_share_p2p.Tracker.Membership.{contains-unlist_entry}
use file_share_p2p.Client.Address.{get_peer_address}
use file_share_p2p.Client.Share.{
  RemovalDelivery, lost, unanswered, answered, StopCalls, post_removal, stop_seeding_file, cleanup,
}

abbrev pub is_delivered : RemovalDelivery → Bool
is_delivered lost = false
is_delivered _ = true

active-stop_seeding :
    (f : GoString) (s : Server) (file : GoString)
    → get file (stop_seeding f s).active_files
      ≡ (if file == f then none else get file s.active_files)
unfolding stop_seeding
active-stop_seeding f s file = get-delete f s.active_files file

pub contains-remove_listing :
    (r : Removal) (t : Tracker) (file q : GoString)
    → contains q (peers_or_empty (get file (remove_listing r t).peer_index)) ≡ (
        not (q == r.peer_addr && file == r.file_id)
        && contains q (peers_or_empty (get file t.peer_index)))
contains-remove_listing r t file q =
    ap (λ (e : Entry). contains q (peers_or_empty e.peers)) (entry-remove_listing r t file)
    ∙ ground (arith, contains-unlist_entry r.peer_addr q (entry t file))

module _ (receive : Removal → Option Removal) (tracker_addr listen addr : GoString)
    (calls : GoString → StopCalls) (configured : tracker_addr ≢ bytes "")
    (here : (file : GoString)
      → get_peer_address (calls file).addresses.public_ip (calls file).addresses.local_ip listen
        ≡ some addr)
    (sent : (file : GoString) → is_delivered (calls file).delivery ≡ true)
    (received : (r : Removal) → receive r ≡ some r) where
  post_removal_lem :
      (delivery : RemovalDelivery) (r : Removal) (t : Tracker)
      → is_delivered delivery ≡ true
      → (post_removal receive tracker_addr listen delivery r t).0 ≡ remove_listing r t
  unfolding post_removal handle_remove on_post
  post_removal_lem lost r t h = cc
  post_removal_lem unanswered r t h = rw (received r, ==_refl method_post) refl
  post_removal_lem answered r t h = rw (received r, ==_refl method_post) refl

  pub stop_seeding_file_lem :
      (file : GoString) (s : Server) (t : Tracker)
      → (stop_seeding_file receive tracker_addr listen (calls file) file (s, t)).0
        ≡ (stop_seeding file s, remove_listing (record { file_id = file; peer_addr = addr }) t)
  unfolding stop_seeding_file
  stop_seeding_file_lem file s t = ground (
    arith,
    configured,
    here file,
    post_removal_lem (calls file).delivery (record { file_id = file; peer_addr = addr }) t
        (sent file),
  )

  -- Where a tracker is configured, the peer finds its address each time, and each request to /remove
  -- arrives and is decoded as it was sent, Cleanup leaves none of the files on its list active and
  -- none of them with this peer at the tracker, and changes nothing else of either.
  pub has-cleanup :
      (files : List GoString) (s : Server) (t : Tracker) (file q : GoString)
      → let w = cleanup receive tracker_addr listen calls files (s, t) in
        (get file w.0.active_files
          ≡ (if contains file files then none else get file s.active_files))
        × (contains q (peers_or_empty (get file w.1.peer_index)) ≡ (
            not (q == addr && contains file files)
            && contains q (peers_or_empty (get file t.peer_index))))
  unfolding cleanup contains
  has-cleanup [] s t file q = (refl, ground arith)
  has-cleanup (f ∷ files) s t file q =
      let u = remove_listing (record { file_id = f; peer_addr = addr }) t in
      let (a, b) = has-cleanup files (stop_seeding f s) u file q in
      let c = contains-remove_listing (record { file_id = f; peer_addr = addr }) t file q in
      let run : Server × Tracker → Server × Tracker =
        cleanup receive tracker_addr listen calls files in
      let step = stop_seeding_file_lem f s t in
      (
        ap (λ w. get file (run w).0.active_files) step
            ∙ a
            ∙ ground (arith, active-stop_seeding f s file),
        ap (λ w. contains q (peers_or_empty (get file (run w).1.peer_index))) step
            ∙ b
            ∙ ground (arith, c),
      )
