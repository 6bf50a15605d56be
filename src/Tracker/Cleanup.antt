-- ===== src/Tracker/Cleanup.antt =====
-- p2p/tracker.go: cleanupInactivePeers, cleanupStalePeers and HandleGetPeers.
use file_share_p2p.Prelude.{
  ℕ, ◌+◌, ◌*◌, ◌^◌, Bool, Option, none, some, List, [], ◌∷◌, ltb, eqb, if◌then◌else◌, ◌==◌, length,
}
use file_share_p2p.Prelude.Maps.{get, delete}
use file_share_p2p.GoString.{GoString, string_eq, bytes}
use file_share_p2p.Tracker.State.{Tracker, Response, peers_json}
use file_share_p2p.Tracker.Handlers.{drop_from_files, bad_request, peers_or_empty}

abbrev pub second : ℕ
second = 10 ^ 9

-- DefaultCleanupConfig
abbrev pub inactivity_threshold : ℕ
inactivity_threshold = 120 * second

-- `2 * time.Minute` of cleanupStalePeers
abbrev pub stale_after : ℕ
stale_after = 120 * second

-- The orders in which the `range` loops of a cleanup visit the peers and, for each peer, the files.
pub record Orders : Type 0 where
  pub peers : List GoString
  pub files : GoString → List GoString
  pub empties : GoString → List GoString

-- `now.Sub(lastSeen) > threshold`, and `lastSeen.Before(now.Add(-threshold))`
abbrev pub is_stale : ℕ → ℕ → Option ℕ → Bool
is_stale threshold now none = Bool.false
is_stale threshold now (some seen) = ltb (seen + threshold) now

-- cleanupInactivePeers, first loop
unfoldable pub inactive_peers : ℕ → ℕ → List GoString → Tracker → List GoString
inactive_peers threshold now [] t = []
inactive_peers threshold now (addr ∷ order) t =
    let rest = inactive_peers threshold now order t in
    if is_stale threshold now (get addr t.peer_last_seen) then addr ∷ rest else rest

-- cleanupInactivePeers, the loop over empty peer lists
unfoldable pub drop_if_empty : Tracker → GoString → Tracker
drop_if_empty t file = elim (get file t.peer_index) [
  | none ↦ t
  | some peers ↦
      if eqb (length peers) 0 then record t { peer_index = delete file t.peer_index } else t
]

unfoldable pub drop_empty_lists : List GoString → Tracker → Tracker
drop_empty_lists [] t = t
drop_empty_lists (file ∷ order) t = drop_empty_lists order (drop_if_empty t file)

unfoldable pub drop_inactive : Orders → List GoString → Tracker → Tracker
drop_inactive o [] t = t
drop_inactive o (addr ∷ removed) t =
    let forgotten = record t { peer_last_seen = delete addr t.peer_last_seen } in
    drop_inactive o removed
      (drop_empty_lists (o.empties addr) (drop_from_files addr (o.files addr) forgotten))

unfoldable pub cleanup_inactive_peers : Orders → ℕ → ℕ → Tracker → Tracker
cleanup_inactive_peers o threshold now t =
    drop_inactive o (inactive_peers threshold now o.peers t) t

-- cleanupStalePeers, one round of the loop over `peerLastSeen`
unfoldable pub drop_if_stale : Orders → ℕ → Tracker → GoString → Tracker
drop_if_stale o now t addr =
    if is_stale stale_after now (get addr t.peer_last_seen)
    then (let t' = drop_from_files addr (o.files addr) t in
        record t' { peer_last_seen = delete addr t'.peer_last_seen })
    else t

unfoldable pub drop_stale_from : Orders → ℕ → List GoString → Tracker → Tracker
drop_stale_from o now [] t = t
drop_stale_from o now (addr ∷ order) t = drop_stale_from o now order (drop_if_stale o now t addr)

unfoldable pub cleanup_stale_peers : Orders → ℕ → Tracker → Tracker
cleanup_stale_peers o now t = drop_stale_from o now o.peers t

-- A file that is unknown or has no peers is answered with the empty list.
unfoldable pub handle_get_peers : Orders → ℕ → GoString → Tracker → Tracker × Response
handle_get_peers o now file t =
    if file == bytes ""
    then (t, bad_request (bytes "file_id is required"))
    else (let t' = cleanup_stale_peers o now t in
        (t', record { status = 200; body = peers_json (peers_or_empty (get file t'.peer_index)) }))
