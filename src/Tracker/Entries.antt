-- ===== src/Tracker/Entries.antt =====
-- Each operation of the tracker acts on the entries of single files: what it does to one entry, and
-- what the loops do to all of them, whatever the order.
use file_share_p2p.Prelude.{
  ℕ, true, not, ◌&&◌, Option, none, some, List, [], ◌∷◌, ◌≡◌, refl, arith, eqb, if◌then◌else◌, ◌==◌,
  length, contains, insert, remove, contains-remove, ◌∙◌, ◌≢◌, ==_refl, insert_idem,
}
use file_share_p2p.Prelude.Maps.{Map, get, put, keys, is_some, get-put, get-delete, contains-keys}
use file_share_p2p.GoString.{GoString, string_eq}
use file_share_p2p.Tracker.State.{
  FileInfo, PeerSet, Tracker, Entry, entry, Announcement, Removal, Heartbeat,
}
use file_share_p2p.Tracker.Handlers.{
  announce, announced_file, settle, drop_from_file, drop_from_files, remove_listing, list_under,
  list_under_all, drop_unshared, drop_unshared_all, peers_or_empty, heartbeat,
}

-- The specification of an entry after a peer has been deleted from its set.
abbrev pub settle_entry : PeerSet → Option FileInfo → Entry
settle_entry peers none = record { peers = some peers; info = none }
settle_entry peers (some info) =
    if eqb (length peers) 0
    then record { peers = none; info = none }
    else record { peers = some peers; info = some (record info { num_peers = length peers }) }

abbrev pub drop_entry : GoString → Entry → Entry
drop_entry addr e = elim e.peers [
  | none ↦ e
  | some peers ↦ if contains addr peers then settle_entry (remove addr peers) e.info else e
]

-- HandleRemove deletes a peer whether or not it is listed.
abbrev pub unlist_entry : GoString → Entry → Entry
unlist_entry addr e = elim e.peers [
  | none ↦ e
  | some peers ↦ settle_entry (remove addr peers) e.info
]

-- The specification of an entry after a peer has been listed under it.
abbrev pub list_entry : GoString → Entry → Entry
list_entry addr e =
    let peers = insert addr (peers_or_empty e.peers) in
    record {
      peers = some peers;
      info = elim e.info [
        | none ↦ none
        | some info ↦ some (record info { num_peers = length peers })
      ];
    }

-- An order of visits that leaves out no key.
abbrev pub Covers {ℓ} : {V : Type ℓ} → List GoString → Map GoString V → Type 0
Covers order m = (k : GoString) → is_some (get k m) ≡ true → contains k order ≡ true

pub entry-settle :
    (file : GoString) (peers : PeerSet) (t : Tracker) (g : GoString)
    → entry (settle file peers t) g
      ≡ (if g == file then settle_entry peers (get file t.file_index) else entry t g)
unfolding settle
entry-settle file peers t g = grind (arith, get-put, get-delete)

pub entry-drop_from_file :
    (addr : GoString) (t : Tracker) (file g : GoString)
    → entry (drop_from_file addr t file) g
      ≡ (if g == file then drop_entry addr (entry t g) else entry t g)
unfolding drop_from_file
entry-drop_from_file addr t file g = grind (arith, entry-settle)

drop_entry_idem :
    (addr : GoString) (e : Entry) → drop_entry addr (drop_entry addr e) ≡ drop_entry addr e
drop_entry_idem addr e = grind (arith, contains-remove)

pub entry-drop_from_files :
    (addr : GoString) (order : List GoString) (t : Tracker) (g : GoString)
    → entry (drop_from_files addr order t) g
      ≡ (if contains g order then drop_entry addr (entry t g) else entry t g)
unfolding drop_from_files contains
entry-drop_from_files addr [] t g = refl
entry-drop_from_files addr (file ∷ order) t g = ground (
  arith,
  entry-drop_from_files addr order (drop_from_file addr t file) g,
  entry-drop_from_file addr t file g,
  drop_entry_idem addr (entry t g),
)

-- Whatever the order of the visits, every file loses the peer.
pub entry-drop_all :
    (addr : GoString) (order : List GoString) (t : Tracker) (g : GoString)
    → Covers order t.peer_index
    → entry (drop_from_files addr order t) g ≡ drop_entry addr (entry t g)
entry-drop_all addr order t g all = ground (arith, entry-drop_from_files addr order t g, all g)

pub last_seen-settle :
    (file : GoString) (peers : PeerSet) (t : Tracker)
    → (settle file peers t).peer_last_seen ≡ t.peer_last_seen
unfolding settle
last_seen-settle file peers t = ground arith

pub last_seen-drop_from_files :
    (addr : GoString) (order : List GoString) (t : Tracker)
    → (drop_from_files addr order t).peer_last_seen ≡ t.peer_last_seen
unfolding drop_from_files drop_from_file
last_seen-drop_from_files addr [] t = refl
last_seen-drop_from_files addr (file ∷ order) t =
    last_seen-drop_from_files addr order (drop_from_file addr t file)
    ∙ grind (arith, last_seen-settle)

pub entry-list_under :
    (addr : GoString) (t : Tracker) (file g : GoString)
    → entry (list_under addr t file) g
      ≡ (if g == file then list_entry addr (entry t g) else entry t g)
unfolding list_under
entry-list_under addr t file g = grind (arith, get-put)

list_entry_idem :
    (addr : GoString) (e : Entry) → list_entry addr (list_entry addr e) ≡ list_entry addr e
list_entry_idem addr e = grind (arith, insert_idem)

pub entry-list_under_all :
    (addr : GoString) (files : List GoString) (t : Tracker) (g : GoString)
    → entry (list_under_all addr files t) g
      ≡ (if contains g files then list_entry addr (entry t g) else entry t g)
unfolding list_under_all contains
entry-list_under_all addr [] t g = refl
entry-list_under_all addr (file ∷ files) t g = ground (
  arith,
  entry-list_under_all addr files (list_under addr t file) g,
  entry-list_under addr t file g,
  list_entry_idem addr (entry t g),
)

pub last_seen-list_under_all :
    (addr : GoString) (files : List GoString) (t : Tracker)
    → (list_under_all addr files t).peer_last_seen ≡ t.peer_last_seen
unfolding list_under_all list_under
last_seen-list_under_all addr [] t = refl
last_seen-list_under_all addr (file ∷ files) t =
    last_seen-list_under_all addr files (list_under addr t file) ∙ ground arith

pub entry-drop_unshared :
    (addr : GoString) (shared : List GoString) (t : Tracker) (file g : GoString)
    → entry (drop_unshared addr shared t file) g
      ≡ (if g == file && not (contains g shared) then drop_entry addr (entry t g) else entry t g)
unfolding drop_unshared
entry-drop_unshared addr shared t file g = grind (arith, entry-settle)

pub entry-drop_unshared_all :
    (addr : GoString) (shared order : List GoString) (t : Tracker) (g : GoString)
    → entry (drop_unshared_all addr shared order t) g ≡ (
        if contains g order && not (contains g shared)
        then drop_entry addr (entry t g)
        else entry t g)
unfolding drop_unshared_all contains
entry-drop_unshared_all addr shared [] t g = refl
entry-drop_unshared_all addr shared (file ∷ order) t g = ground (
  arith,
  entry-drop_unshared_all addr shared order (drop_unshared addr shared t file) g,
  entry-drop_unshared addr shared t file g,
  drop_entry_idem addr (entry t g),
)

pub last_seen-drop_unshared_all :
    (addr : GoString) (shared order : List GoString) (t : Tracker)
    → (drop_unshared_all addr shared order t).peer_last_seen ≡ t.peer_last_seen
unfolding drop_unshared_all drop_unshared
last_seen-drop_unshared_all addr shared [] t = refl
last_seen-drop_unshared_all addr shared (file ∷ order) t =
    last_seen-drop_unshared_all addr shared order (drop_unshared addr shared t file)
    ∙ grind (arith, last_seen-settle)

pub entry-remove_listing :
    (r : Removal) (t : Tracker) (g : GoString)
    → entry (remove_listing r t) g
      ≡ (if g == r.file_id then unlist_entry r.peer_addr (entry t g) else entry t g)
unfolding remove_listing
entry-remove_listing r t g = grind (arith, entry-settle)

pub last_seen-remove_listing :
    (r : Removal) (t : Tracker) → (remove_listing r t).peer_last_seen ≡ t.peer_last_seen
unfolding remove_listing
last_seen-remove_listing r t = grind (arith, last_seen-settle)

-- Whatever the order of its second loop, a heartbeat lists the peer under the files that it names
-- and drops it from all others.
pub entry-heartbeat :
    (order : List GoString) (now : ℕ) (h : Heartbeat) (t : Tracker) (g : GoString)
    → Covers order t.peer_index
    → entry (heartbeat order now h t) g ≡ (
        if contains g h.file_ids
        then list_entry h.peer_addr (entry t g)
        else drop_entry h.peer_addr (entry t g))
unfolding heartbeat
entry-heartbeat order now h t g all =
    let seen : Tracker = record t { peer_last_seen = put h.peer_addr now t.peer_last_seen } in
    ground (
      arith,
      entry-drop_unshared_all h.peer_addr h.file_ids order
          (list_under_all h.peer_addr h.file_ids seen) g,
      entry-list_under_all h.peer_addr h.file_ids seen g,
      all g,
    )

-- The specification of an entry after an announcement of its file.
abbrev pub announce_entry : ℕ → Announcement → Entry → Entry
announce_entry uploaded a e =
    let peers = insert a.peer_addr (peers_or_empty e.peers) in
    record {
      peers = some peers;
      info = some (record (announced_file uploaded a e.info) { num_peers = length peers });
    }

pub entry-announce_self :
    (uploaded now : ℕ) (a : Announcement) (t : Tracker)
    → entry (announce uploaded now a t) a.file_id ≡ announce_entry uploaded a (entry t a.file_id)
unfolding announce
entry-announce_self uploaded now a t = simp (get-put, ==_refl)

pub entry-announce_ne :
    (uploaded now : ℕ) (a : Announcement) (t : Tracker) (g : GoString)
    → g ≢ a.file_id
    → entry (announce uploaded now a t) g ≡ entry t g
unfolding announce
entry-announce_ne uploaded now a t g h = simp get-put (ground arith)

-- The order of the entries themselves leaves out no key.
pub Covers-keys {ℓ} : {V : Type ℓ} (m : Map GoString V) → Covers (keys m) m
Covers-keys m k h = contains-keys k m ∙ h
