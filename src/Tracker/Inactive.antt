-- ===== src/Tracker/Inactive.antt =====
-- What cleanupInactivePeers leaves: the listings of the active peers, and no empty set.
use file_share_p2p.Prelude.{
  ℕ, true, Option, none, some, List, [], ◌∷◌, ◌≡◌, refl, arith, if◌then◌else◌, ◌==◌, eqb, ◌∙◌,
  length, contains, contains_of_empty, ap, not, ◌&&◌,
}
use file_share_p2p.Prelude.Maps.{get, delete, is_some, get-delete}
use file_share_p2p.GoString.{GoString, string_eq}
use file_share_p2p.Tracker.State.{FileInfo, PeerSet, Tracker, Entry, entry}
use file_share_p2p.Tracker.Handlers.{peers_or_empty, drop_from_files}
use file_share_p2p.Tracker.Cleanup.{
  Orders, is_stale, inactive_peers, drop_if_empty, drop_empty_lists, drop_inactive,
  cleanup_inactive_peers,
}
use file_share_p2p.Tracker.Entries.{Covers, last_seen-drop_from_files}
use file_share_p2p.Tracker.Membership.{has, has_entry}
use file_share_p2p.Tracker.Freshness.{seen, CoverFiles, has-drop_all, keys-drop_from_files}

-- An entry after the loop over empty lists.
abbrev pub prune_entry : Entry → Entry
prune_entry e = elim e.peers [
  | none ↦ e
  | some peers ↦ if eqb (length peers) 0 then record e { peers = none } else e
]

entry-drop_if_empty :
    (t : Tracker) (file g : GoString)
    → entry (drop_if_empty t file) g ≡ (if g == file then prune_entry (entry t g) else entry t g)
unfolding drop_if_empty
entry-drop_if_empty t file g = grind (arith, get-delete)

pub entry-drop_empty_lists :
    (order : List GoString) (t : Tracker) (g : GoString)
    → entry (drop_empty_lists order t) g
      ≡ (if contains g order then prune_entry (entry t g) else entry t g)
unfolding drop_empty_lists contains
entry-drop_empty_lists [] t g = refl
entry-drop_empty_lists (file ∷ order) t g =
    ground
      (arith, entry-drop_empty_lists order (drop_if_empty t file) g, entry-drop_if_empty t file g)

last_seen-drop_empty_lists :
    (order : List GoString) (t : Tracker)
    → (drop_empty_lists order t).peer_last_seen ≡ t.peer_last_seen
unfolding drop_empty_lists drop_if_empty
last_seen-drop_empty_lists [] t = refl
last_seen-drop_empty_lists (file ∷ order) t =
    last_seen-drop_empty_lists order (drop_if_empty t file) ∙ ground arith

has_prune_parts :
    (q : GoString) (peers : Option PeerSet) (info : Option FileInfo)
    → contains q (peers_or_empty (prune_entry (record { peers = peers; info = info })).peers)
      ≡ contains q (peers_or_empty peers)
unfolding contains
has_prune_parts q none info = refl
has_prune_parts q (some peers) info = ground (arith, contains_of_empty q peers)

has_prune :
    (q : GoString) (e : Entry)
    → contains q (peers_or_empty (prune_entry e).peers) ≡ contains q (peers_or_empty e.peers)
unfolding contains
has_prune q e = has_prune_parts q e.peers e.info

has-drop_empty_lists :
    (order : List GoString) (t : Tracker) (file q : GoString)
    → has (drop_empty_lists order t) file q ≡ has t file q
has-drop_empty_lists order t file q = ground (
  arith,
  ap (λ (e : Entry). has_entry e q) (entry-drop_empty_lists order t file),
  has_prune q (entry t file),
)

keys-drop_empty_lists :
    (order : List GoString) (t : Tracker) (file : GoString)
    → is_some (get file (drop_empty_lists order t).peer_index) ≡ true
    → is_some (get file t.peer_index) ≡ true
keys-drop_empty_lists order t file h =
    ground (arith, ap (λ (e : Entry). is_some e.peers) (entry-drop_empty_lists order t file))

module _ (o : Orders) where
  -- One round of the loop over the removed peers.
  forget : GoString → Tracker → Tracker
  forget addr t = drop_empty_lists (o.empties addr) (
      drop_from_files addr (o.files addr)
        (record t { peer_last_seen = delete addr t.peer_last_seen }))

  forget-CoverFiles :
      (addr : GoString) (t : Tracker) → CoverFiles o t → CoverFiles o (forget addr t)
  unfolding forget
  forget-CoverFiles addr t all a file h = all a file (
      keys-drop_from_files addr (o.files addr) _ file
        (keys-drop_empty_lists (o.empties addr) _ file h))

  has-forget :
      (addr : GoString) (t : Tracker) (file q : GoString)
      → CoverFiles o t
      → has (forget addr t) file q ≡ (not (q == addr) && has t file q)
  unfolding forget
  has-forget addr t file q all =
      has-drop_empty_lists (o.empties addr) _ file q
      ∙ has-drop_all addr (o.files addr)
          (record t { peer_last_seen = delete addr t.peer_last_seen }) file q (all addr)

  seen-forget :
      (addr : GoString) (t : Tracker) (q : GoString)
      → seen (forget addr t) q ≡ (if q == addr then none else seen t q)
  unfolding forget
  seen-forget addr t q =
      ap (get q) (
        last_seen-drop_empty_lists (o.empties addr) _
        ∙ last_seen-drop_from_files addr (o.files addr) _)
      ∙ get-delete addr t.peer_last_seen q

  has-drop_inactive :
      (removed : List GoString) (t : Tracker) (file q : GoString)
      → CoverFiles o t
      → has (drop_inactive o removed t) file q ≡ (not (contains q removed) && has t file q)
  unfolding drop_inactive contains forget
  has-drop_inactive [] t file q all = refl
  has-drop_inactive (addr ∷ removed) t file q all = ground (
    arith,
    has-drop_inactive removed (forget addr t) file q (forget-CoverFiles addr t all),
    has-forget addr t file q all,
  )

  seen-drop_inactive :
      (removed : List GoString) (t : Tracker) (q : GoString)
      → seen (drop_inactive o removed t) q ≡ (if contains q removed then none else seen t q)
  unfolding drop_inactive contains forget
  seen-drop_inactive [] t q = refl
  seen-drop_inactive (addr ∷ removed) t q =
      ground (arith, seen-drop_inactive removed (forget addr t) q, seen-forget addr t q)

  contains-inactive_peers :
      (threshold now : ℕ) (order : List GoString) (t : Tracker) (q : GoString)
      → contains q (inactive_peers threshold now order t)
        ≡ (contains q order && is_stale threshold now (seen t q))
  unfolding inactive_peers contains
  contains-inactive_peers threshold now [] t q = refl
  contains-inactive_peers threshold now (addr ∷ order) t q =
      ground (arith, contains-inactive_peers threshold now order t q)

  -- cleanupInactivePeers keeps exactly the listings and the times of the peers that were seen within
  -- the threshold.
  pub has-cleanup_inactive_peers :
      (threshold now : ℕ) (t : Tracker) (file q : GoString)
      → CoverFiles o t
      → Covers o.peers t.peer_last_seen
      → let u = cleanup_inactive_peers o threshold now t in
        let gone = is_stale threshold now (seen t q) in
        (has u file q ≡ (not gone && has t file q)) × (seen u q ≡ (if gone then none else seen t q))
  unfolding cleanup_inactive_peers
  has-cleanup_inactive_peers threshold now t file q files peers = ground (
    arith,
    has-drop_inactive (inactive_peers threshold now o.peers t) t file q files,
    seen-drop_inactive (inactive_peers threshold now o.peers t) t q,
    contains-inactive_peers threshold now o.peers t q,
    peers q,
  )
