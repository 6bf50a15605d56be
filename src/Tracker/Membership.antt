-- ===== src/Tracker/Membership.antt =====
-- Which peers are listed under which files after each operation, whatever the order of the loops.
use file_share_p2p.Prelude.{
  ℕ, Bool, Option, none, some, List, ◌≡◌, refl, arith, if◌then◌else◌, ◌==◌, contains, remove,
  contains-insert, contains-remove, contains_of_empty, ◌∙◌, ap, not, ◌&&◌, ◌||◌,
}
use file_share_p2p.Prelude.Maps.{get, get-put, get-delete}
use file_share_p2p.GoString.{GoString, string_eq}
use file_share_p2p.Tracker.State.{
  FileInfo, PeerSet, Tracker, Entry, entry, Announcement, Heartbeat, Removal,
}
use file_share_p2p.Tracker.Handlers.{
  peers_or_empty, announce, drop_from_files, remove_peer, remove_listing, heartbeat,
}
use file_share_p2p.Tracker.Entries.{
  settle_entry, drop_entry, list_entry, Covers, entry-drop_all, last_seen-drop_from_files,
  last_seen-list_under_all, last_seen-drop_unshared_all, unlist_entry, entry-remove_listing,
  entry-heartbeat,
}

-- The peers that dropping leaves are the others.
contains-settle_entry :
    (q : GoString) (peers : PeerSet) (info : Option FileInfo)
    → contains q (peers_or_empty (settle_entry peers info).peers) ≡ contains q peers
unfolding contains
contains-settle_entry q peers none = refl
contains-settle_entry q peers (some info) = ground (arith, contains_of_empty q peers)

contains-drop_parts :
    (addr q : GoString) (peers : Option PeerSet) (info : Option FileInfo)
    → contains q (peers_or_empty (drop_entry addr (record { peers = peers; info = info })).peers)
      ≡ (not (q == addr) && contains q (peers_or_empty peers))
contains-drop_parts addr q none info = unfold contains in ground arith
contains-drop_parts addr q (some peers) info =
    ground (arith, contains-settle_entry q (remove addr peers) info, contains-remove addr q peers)

pub contains-drop_entry :
    (addr q : GoString) (e : Entry)
    → contains q (peers_or_empty (drop_entry addr e).peers)
      ≡ (not (q == addr) && contains q (peers_or_empty e.peers))
contains-drop_entry addr q e = contains-drop_parts addr q e.peers e.info

contains-unlist_parts :
    (addr q : GoString) (peers : Option PeerSet) (info : Option FileInfo)
    → contains q (peers_or_empty (unlist_entry addr (record { peers = peers; info = info })).peers)
      ≡ (not (q == addr) && contains q (peers_or_empty peers))
contains-unlist_parts addr q none info = unfold contains in ground arith
contains-unlist_parts addr q (some peers) info =
    ground (arith, contains-settle_entry q (remove addr peers) info, contains-remove addr q peers)

pub contains-unlist_entry :
    (addr q : GoString) (e : Entry)
    → contains q (peers_or_empty (unlist_entry addr e).peers)
      ≡ (not (q == addr) && contains q (peers_or_empty e.peers))
contains-unlist_entry addr q e = contains-unlist_parts addr q e.peers e.info

pub contains-list_entry :
    (addr q : GoString) (e : Entry)
    → contains q (peers_or_empty (list_entry addr e).peers)
      ≡ (q == addr || contains q (peers_or_empty e.peers))
contains-list_entry addr q e = contains-insert addr q (peers_or_empty e.peers)

-- `addr` is listed under `file`.
abbrev pub has : Tracker → GoString → GoString → Bool
has t file addr = contains addr (peers_or_empty (get file t.peer_index))

abbrev pub has_entry : Entry → GoString → Bool
has_entry e addr = contains addr (peers_or_empty e.peers)

-- An announcement lists one peer under one file, and changes no other listing.
pub has-announce :
    (uploaded now : ℕ) (a : Announcement) (t : Tracker) (file q : GoString)
    → has (announce uploaded now a t) file q
      ≡ ((file == a.file_id && q == a.peer_addr) || has t file q)
unfolding announce
has-announce uploaded now a t file q = grind (arith, get-put, contains-insert)

-- A removal takes one peer from one file, and changes no other listing.
pub has-remove_listing :
    (r : Removal) (t : Tracker) (file q : GoString)
    → has (remove_listing r t) file q
      ≡ (not (file == r.file_id && q == r.peer_addr) && has t file q)
has-remove_listing r t file q = ground (
  arith,
  ap (λ (x : Entry). has_entry x q) (entry-remove_listing r t file),
  contains-unlist_entry r.peer_addr q (entry t file),
)

-- After a heartbeat the peer is listed under exactly the files that it names; other peers stay.
pub has-heartbeat :
    (order : List GoString) (now : ℕ) (h : Heartbeat) (t : Tracker) (file q : GoString)
    → Covers order t.peer_index
    → has (heartbeat order now h t) file q
      ≡ (if q == h.peer_addr then contains file h.file_ids else has t file q)
has-heartbeat order now h t file q all = ground (
  arith,
  ap (λ (x : Entry). has_entry x q) (entry-heartbeat order now h t file all),
  contains-list_entry h.peer_addr q (entry t file),
  contains-drop_entry h.peer_addr q (entry t file),
)

-- RemovePeer takes the peer from every file, and changes no other listing.
pub has-remove_peer :
    (order : List GoString) (addr : GoString) (t : Tracker) (file q : GoString)
    → Covers order t.peer_index
    → has (remove_peer order addr t) file q ≡ (not (q == addr) && has t file q)
unfolding remove_peer
has-remove_peer order addr t file q all =
    ap (λ (x : Entry). has_entry x q) (entry-drop_all addr order t file all)
    ∙ contains-drop_entry addr q (entry t file)

-- A heartbeat notes the time for its sender alone.
pub seen-heartbeat :
    (order : List GoString) (now : ℕ) (h : Heartbeat) (t : Tracker) (q : GoString)
    → get q (heartbeat order now h t).peer_last_seen
      ≡ (if q == h.peer_addr then some now else get q t.peer_last_seen)
unfolding heartbeat
seen-heartbeat order now h t q =
    ap (get q) (
      last_seen-drop_unshared_all h.peer_addr h.file_ids order _
      ∙ last_seen-list_under_all h.peer_addr h.file_ids _)
    ∙ get-put h.peer_addr now t.peer_last_seen q

pub seen-remove_peer :
    (order : List GoString) (addr : GoString) (t : Tracker) (q : GoString)
    → get q (remove_peer order addr t).peer_last_seen
      ≡ (if q == addr then none else get q t.peer_last_seen)
unfolding remove_peer
seen-remove_peer order addr t q = ground (
  arith,
  get-delete addr (drop_from_files addr order t).peer_last_seen q,
  ap (get q) (last_seen-drop_from_files addr order t),
)
