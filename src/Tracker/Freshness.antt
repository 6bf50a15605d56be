-- ===== src/Tracker/Freshness.antt =====
-- What the two cleanups leave, and so whom HandleGetPeers names.
use file_share_p2p.Prelude.{
  ◌*◌, ℕ, Bool, true, false, Option, none, List, [], ◌∷◌, ◌≡◌, refl, arith, if◌then◌else◌, ◌==◌,
  contains, ◌∙◌, ap, not, ◌&&◌, ◌≢◌,
}
use file_share_p2p.Prelude.Maps.{get, is_some, get-delete}
use file_share_p2p.GoString.{GoString, string_eq, bytes}
use file_share_p2p.Tracker.State.{Tracker, Entry, entry, Body, peers_json}
use file_share_p2p.Tracker.Handlers.{drop_from_files}
use file_share_p2p.Tracker.Cleanup.{
  second, Orders, is_stale, stale_after, drop_if_stale, drop_stale_from, cleanup_stale_peers,
  handle_get_peers,
}
use file_share_p2p.Tracker.Entries.{
  drop_entry, Covers, entry-drop_all, entry-drop_from_files, last_seen-drop_from_files,
}
use file_share_p2p.Tracker.Membership.{has, has_entry, contains-drop_entry}

-- The times at which peers were last seen.
abbrev pub seen : Tracker → GoString → Option ℕ
seen t addr = get addr t.peer_last_seen

-- The orders of the inner loops leave out no file.
abbrev pub CoverFiles : Orders → Tracker → Type 0
CoverFiles o t = (addr : GoString) → Covers (o.files addr) t.peer_index

pub has-drop_all :
    (addr : GoString) (order : List GoString) (t : Tracker) (file q : GoString)
    → Covers order t.peer_index
    → has (drop_from_files addr order t) file q ≡ (not (q == addr) && has t file q)
has-drop_all addr order t file q all =
    ap (λ (x : Entry). has_entry x q) (entry-drop_all addr order t file all)
    ∙ contains-drop_entry addr q (entry t file)

keys-drop_entry :
    (addr : GoString) (e : Entry)
    → is_some (drop_entry addr e).peers ≡ true
    → is_some e.peers ≡ true
keys-drop_entry addr e h = ground arith

-- Dropping a peer makes no new set.
pub keys-drop_from_files :
    (addr : GoString) (order : List GoString) (t : Tracker) (file : GoString)
    → is_some (get file (drop_from_files addr order t).peer_index) ≡ true
    → is_some (get file t.peer_index) ≡ true
keys-drop_from_files addr order t file h = ground (
  arith,
  ap (λ (x : Entry). is_some x.peers) (entry-drop_from_files addr order t file),
  keys-drop_entry addr (entry t file),
)

module _ (o : Orders) (now : ℕ) where
  stale : Tracker → GoString → Bool
  stale t addr = is_stale stale_after now (seen t addr)

  drop_if_stale-CoverFiles :
      (t : Tracker) (addr : GoString) → CoverFiles o t → CoverFiles o (drop_if_stale o now t addr)
  unfolding drop_if_stale
  drop_if_stale-CoverFiles t addr all a file h =
      all a file (ground (arith, keys-drop_from_files addr (o.files addr) t file))

  has-drop_if_stale :
      (t : Tracker) (addr file q : GoString)
      → CoverFiles o t
      → has (drop_if_stale o now t addr) file q ≡ (has t file q && not (q == addr && stale t q))
  unfolding drop_if_stale stale
  has-drop_if_stale t addr file q all =
      ground (arith, has-drop_all addr (o.files addr) t file q (all addr))

  seen-drop_if_stale :
      (t : Tracker) (addr q : GoString)
      → seen (drop_if_stale o now t addr) q ≡ (if q == addr && stale t q then none else seen t q)
  unfolding drop_if_stale stale
  seen-drop_if_stale t addr q = ground (
    arith,
    get-delete addr (drop_from_files addr (o.files addr) t).peer_last_seen q,
    ap (get q) (last_seen-drop_from_files addr (o.files addr) t),
  )

  has-drop_stale_from :
      (order : List GoString) (t : Tracker) (file q : GoString)
      → CoverFiles o t
      → has (drop_stale_from o now order t) file q
        ≡ (has t file q && not (contains q order && stale t q))
  unfolding drop_stale_from contains stale
  has-drop_stale_from [] t file q all = ground arith
  has-drop_stale_from (addr ∷ order) t file q all = ground (
    arith,
    has-drop_stale_from order (drop_if_stale o now t addr) file q
        (drop_if_stale-CoverFiles t addr all),
    has-drop_if_stale t addr file q all,
    seen-drop_if_stale t addr q,
  )

  seen-drop_stale_from :
      (order : List GoString) (t : Tracker) (q : GoString)
      → seen (drop_stale_from o now order t) q
        ≡ (if contains q order && stale t q then none else seen t q)
  unfolding drop_stale_from contains stale
  seen-drop_stale_from [] t q = refl
  seen-drop_stale_from (addr ∷ order) t q = ground (
    arith,
    seen-drop_stale_from order (drop_if_stale o now t addr) q,
    seen-drop_if_stale t addr q,
  )

  -- cleanupStalePeers keeps exactly the listings of peers that are not stale.
  pub has-cleanup_stale_peers :
      (t : Tracker) (file q : GoString)
      → CoverFiles o t
      → Covers o.peers t.peer_last_seen
      → has (cleanup_stale_peers o now t) file q
        ≡ (has t file q && not (is_stale stale_after now (seen t q)))
  unfolding cleanup_stale_peers stale
  has-cleanup_stale_peers t file q files peers =
      ground (arith, has-drop_stale_from o.peers t file q files, peers q)

  pub seen-cleanup_stale_peers :
      (t : Tracker) (q : GoString)
      → Covers o.peers t.peer_last_seen
      → seen (cleanup_stale_peers o now t) q
        ≡ (if is_stale stale_after now (seen t q) then none else seen t q)
  unfolding cleanup_stale_peers stale
  seen-cleanup_stale_peers t q peers = ground (arith, seen-drop_stale_from o.peers t q, peers q)

  -- The list in a response, and nothing where the response holds no list.
  abbrev pub names : Body → GoString → Bool
  names (peers_json peers) q = contains q peers
  names _ q = false

  -- HandleGetPeers names a peer exactly where it is listed under the file and was seen within two
  -- minutes.
  pub names-handle_get_peers :
      (t : Tracker) (file q : GoString)
      → file ≢ bytes ""
      → CoverFiles o t
      → Covers o.peers t.peer_last_seen
      → let r = (handle_get_peers o now file t).1 in
        (r.status ≡ 200)
        × (names r.body q ≡ (has t file q && not (is_stale (120 * second) now (seen t q))))
  unfolding handle_get_peers
  names-handle_get_peers t file q given files peers =
      ground (arith, has-cleanup_stale_peers t file q files peers)
