-- ===== src/Tracker/Invariant.antt =====
-- The invariant of the tracker's three maps: what an entry looks like, and the steps that keep it so.
use file_share_p2p.Prelude.{
  ℕ, ◌<◌, Bool, true, false, Option, none, some, List, [], ◌∷◌, ◌≡◌, refl, arith, if◌then◌else◌,
  ◌==◌, length, contains, insert, remove, IsNodup, insert-IsNodup, remove-IsNodup, insert_pos,
  Bool-cases, inl, inr, sym, subst,
}
use file_share_p2p.Prelude.Maps.{get, delete}
use file_share_p2p.GoString.{GoString, string_eq}
use file_share_p2p.Tracker.State.{
  FileInfo, PeerSet, Tracker, new_tracker, Entry, entry, Announcement, Heartbeat, Removal,
}
use file_share_p2p.Tracker.Handlers.{
  peers_or_empty, announce, announced_file, file_of_announcement, drop_from_files, remove_listing,
  heartbeat,
}
use file_share_p2p.Tracker.Cleanup.{
  Orders, drop_empty_lists, drop_inactive, cleanup_inactive_peers, inactive_peers, drop_if_stale,
  drop_stale_from, cleanup_stale_peers,
}
use file_share_p2p.Tracker.Entries.{
  settle_entry, drop_entry, list_entry, unlist_entry, Covers, entry-drop_from_files,
  entry-remove_listing, entry-heartbeat, entry-announce_self, entry-announce_ne,
}
use file_share_p2p.Tracker.Inactive.{prune_entry, entry-drop_empty_lists}

-- A file that is offered has a set with at least one peer, and its count is the size of the set.
abbrev pub IsCounted : GoString → Option PeerSet → Option FileInfo → Type 0
IsCounted file peers none = Unit
IsCounted file none (some info) = ⊥
IsCounted file (some peers) (some info) =
    (info.num_peers ≡ length peers) × (0 < length peers) × (info.file_id ≡ file)

abbrev pub IsDistinct : Option PeerSet → Type 0
IsDistinct none = Unit
IsDistinct (some peers) = IsNodup peers

abbrev pub IsEntry : GoString → Entry → Type 0
IsEntry file e = IsCounted file e.peers e.info × IsDistinct e.peers

abbrev pub AllEntries : Tracker → Type 0
AllEntries t = (file : GoString) → IsEntry file (entry t file)

settle_entry-IsEntry :
    (file : GoString) (peers : PeerSet) (info : Option FileInfo) (old : Option PeerSet)
    → IsNodup peers
    → IsCounted file old info
    → IsEntry file (settle_entry peers info)
settle_entry-IsEntry file peers none old u c = (tt, u)
settle_entry-IsEntry file peers (some info) none u c = absurd c
settle_entry-IsEntry file peers (some info) (some old) u c = ground arith

drop_parts-IsEntry :
    (addr file : GoString) (peers : Option PeerSet) (info : Option FileInfo)
    → IsEntry file (record { peers = peers; info = info })
    → IsEntry file (drop_entry addr (record { peers = peers; info = info }))
drop_parts-IsEntry addr file none info h = h
drop_parts-IsEntry addr file (some peers) info (c, u) = elim (Bool-cases (contains addr peers)) [
  | inl e ↦ rw e (
      settle_entry-IsEntry file (remove addr peers) info (some peers) (remove-IsNodup addr peers u)
        c)
  | inr e ↦ rw e (c, u)
]

drop_entry-IsEntry :
    (addr file : GoString) (e : Entry) → IsEntry file e → IsEntry file (drop_entry addr e)
drop_entry-IsEntry addr file e h = drop_parts-IsEntry addr file e.peers e.info h

list_parts-IsEntry :
    (addr file : GoString) (peers : Option PeerSet) (info : Option FileInfo)
    → IsEntry file (record { peers = peers; info = info })
    → IsEntry file (list_entry addr (record { peers = peers; info = info }))
list_parts-IsEntry addr file none none h = (tt, insert-IsNodup addr [] tt)
list_parts-IsEntry addr file none (some info) h = absurd h.0
list_parts-IsEntry addr file (some peers) none (c, u) = (tt, insert-IsNodup addr peers u)
list_parts-IsEntry addr file (some peers) (some info) (c, u) =
    ((refl, insert_pos addr peers, c.2), insert-IsNodup addr peers u)

list_entry-IsEntry :
    (addr file : GoString) (e : Entry) → IsEntry file e → IsEntry file (list_entry addr e)
list_entry-IsEntry addr file e h = list_parts-IsEntry addr file e.peers e.info h

unlist_parts-IsEntry :
    (addr file : GoString) (peers : Option PeerSet) (info : Option FileInfo)
    → IsEntry file (record { peers = peers; info = info })
    → IsEntry file (unlist_entry addr (record { peers = peers; info = info }))
unlist_parts-IsEntry addr file none info h = h
unlist_parts-IsEntry addr file (some peers) info (c, u) =
    settle_entry-IsEntry file (remove addr peers) info (some peers) (remove-IsNodup addr peers u) c

prune_parts-IsEntry :
    (file : GoString) (peers : Option PeerSet) (info : Option FileInfo)
    → IsEntry file (record { peers = peers; info = info })
    → IsEntry file (prune_entry (record { peers = peers; info = info }))
prune_parts-IsEntry file none info h = h
prune_parts-IsEntry file (some peers) none (c, u) = ground arith
prune_parts-IsEntry file (some peers) (some info) (c, u) = ground arith

-- An operation that leaves an entry or changes it by `change`.
IsEntry-choice :
    (change : Entry → Entry)
    → ((file : GoString) (e : Entry) → IsEntry file e → IsEntry file (change e))
    → (test : Bool) (t : Tracker) (file : GoString) {e : Entry}
    → e ≡ (if test then change (entry t file) else entry t file)
    → AllEntries t
    → IsEntry file e
IsEntry-choice change keep true t file p all =
    subst (IsEntry file) (sym p) (keep file (entry t file) (all file))
IsEntry-choice change keep false t file p all = subst (IsEntry file) (sym p) (all file)

pub drop_from_files-AllEntries :
    (addr : GoString) (order : List GoString) (t : Tracker)
    → AllEntries t
    → AllEntries (drop_from_files addr order t)
drop_from_files-AllEntries addr order t all file =
    IsEntry-choice (drop_entry addr) (drop_entry-IsEntry addr) (contains file order) t file
      (entry-drop_from_files addr order t file) all

pub remove_listing-AllEntries :
    (r : Removal) (t : Tracker) → AllEntries t → AllEntries (remove_listing r t)
remove_listing-AllEntries r t all file =
    IsEntry-choice (unlist_entry r.peer_addr)
      (λ f e. unlist_parts-IsEntry r.peer_addr f e.peers e.info) (file == r.file_id) t file
      (entry-remove_listing r t file) all

pub heartbeat-AllEntries :
    (order : List GoString) (now : ℕ) (h : Heartbeat) (t : Tracker)
    → Covers order t.peer_index
    → AllEntries t
    → AllEntries (heartbeat order now h t)
heartbeat-AllEntries order now h t cover all file =
    let p = entry-heartbeat order now h t file cover in
    elim (Bool-cases (contains file h.file_ids)) [
      | inl e ↦
          subst (IsEntry file) (sym (rw e at p))
            (list_entry-IsEntry h.peer_addr file (entry t file) (all file))
      | inr e ↦
          subst (IsEntry file) (sym (rw e at p))
            (drop_entry-IsEntry h.peer_addr file (entry t file) (all file))
    ]

drop_empty_lists-AllEntries :
    (order : List GoString) (t : Tracker) → AllEntries t → AllEntries (drop_empty_lists order t)
drop_empty_lists-AllEntries order t all file =
    IsEntry-choice prune_entry (λ f e. prune_parts-IsEntry f e.peers e.info) (contains file order) t
      file (entry-drop_empty_lists order t file) all

drop_inactive-AllEntries :
    (o : Orders) (removed : List GoString) (t : Tracker)
    → AllEntries t
    → AllEntries (drop_inactive o removed t)
unfolding drop_inactive
drop_inactive-AllEntries o [] t all = all
drop_inactive-AllEntries o (addr ∷ removed) t all = drop_inactive-AllEntries o removed _ (
    drop_empty_lists-AllEntries (o.empties addr) _ (
      drop_from_files-AllEntries addr (o.files addr)
        (record t { peer_last_seen = delete addr t.peer_last_seen }) all))

pub cleanup_inactive_peers-AllEntries :
    (o : Orders) (threshold now : ℕ) (t : Tracker)
    → AllEntries t
    → AllEntries (cleanup_inactive_peers o threshold now t)
unfolding cleanup_inactive_peers
cleanup_inactive_peers-AllEntries o threshold now t =
    drop_inactive-AllEntries o (inactive_peers threshold now o.peers t) t

drop_if_stale-AllEntries :
    (o : Orders) (now : ℕ) (t : Tracker) (addr : GoString)
    → AllEntries t
    → AllEntries (drop_if_stale o now t addr)
unfolding drop_if_stale
drop_if_stale-AllEntries o now t addr all file =
    ground (arith, drop_from_files-AllEntries addr (o.files addr) t all file, all file)

drop_stale_from-AllEntries :
    (o : Orders) (now : ℕ) (order : List GoString) (t : Tracker)
    → AllEntries t
    → AllEntries (drop_stale_from o now order t)
unfolding drop_stale_from
drop_stale_from-AllEntries o now [] t all = all
drop_stale_from-AllEntries o now (addr ∷ order) t all =
    drop_stale_from-AllEntries o now order _ (drop_if_stale-AllEntries o now t addr all)

pub cleanup_stale_peers-AllEntries :
    (o : Orders) (now : ℕ) (t : Tracker) → AllEntries t → AllEntries (cleanup_stale_peers o now t)
unfolding cleanup_stale_peers
cleanup_stale_peers-AllEntries o now t = drop_stale_from-AllEntries o now o.peers t

-- What an announcement makes of the entry of its file.
announced-IsEntry :
    (uploaded : ℕ) (a : Announcement) (peers : Option PeerSet) (info : Option FileInfo)
    → IsEntry a.file_id (record { peers = peers; info = info })
    → let ps = insert a.peer_addr (peers_or_empty peers) in
      IsEntry a.file_id (record {
        peers = some ps;
        info = some (record (announced_file uploaded a info) { num_peers = length ps });
      })
unfolding announced_file file_of_announcement
announced-IsEntry uploaded a none none h =
    ((refl, insert_pos a.peer_addr [], refl), insert-IsNodup a.peer_addr [] tt)
announced-IsEntry uploaded a none (some old) h = absurd h.0
announced-IsEntry uploaded a (some peers) none (c, u) =
    ((refl, insert_pos a.peer_addr peers, refl), insert-IsNodup a.peer_addr peers u)
announced-IsEntry uploaded a (some peers) (some old) (c, u) =
    ((refl, insert_pos a.peer_addr peers, ground arith), insert-IsNodup a.peer_addr peers u)

pub announce-AllEntries :
    (uploaded now : ℕ) (a : Announcement) (t : Tracker)
    → AllEntries t
    → AllEntries (announce uploaded now a t)
announce-AllEntries uploaded now a t all file = elim (string_eq.dec file a.file_id) [
  | yes e ↦
      subst (λ f. IsEntry f (entry (announce uploaded now a t) f)) (sym e)
        (subst (IsEntry a.file_id) (sym (entry-announce_self uploaded now a t))
          (announced-IsEntry uploaded a _ _ (all a.file_id)))
  | no n ↦ subst (IsEntry file) (sym (entry-announce_ne uploaded now a t file n)) (all file)
]

pub new_tracker-AllEntries : AllEntries new_tracker
unfolding new_tracker get
new_tracker-AllEntries file = (tt, tt)
