-- ===== src/Download/Defs.antt =====
-- server.go: DownloadFile from the creation of the output file on.
-- The main loop, its workers and the connections that come up run at the same time; an event is a
-- piece of one of them that the others see as a whole.
use file_share_p2p.Prelude.{
  ℕ, zero, suc, ◌+◌, ◌-◌, ◌*◌, Bool, true, false, not, ◌&&◌, ◌||◌, Option, none, some, List, [],
  ◌∷◌, eqb, ltb, if◌then◌else◌, length, contains, insert, remove, nat_eq, ◌==◌, ◌>>=◌, map,
}
use file_share_p2p.Prelude.Int.{pos, pos_part}
use file_share_p2p.Prelude.Maps.{Map, keys}
use file_share_p2p.GoString.{GoString, string_eq}
use file_share_p2p.Metadata.{Metadata}
use file_share_p2p.Pieces.Defs.{
  PieceStatus, missing, verified, PieceInfo, PieceManager, new_piece_manager, update_peer_pieces,
  mark_piece_status, eligible, get_next_pieces, is_complete,
}
use file_share_p2p.Server.State.{Server, on_peer}
use file_share_p2p.Server.Download.{Ending, Progress, ask_peer}

-- A running worker: its piece, the attempts of downloadChunk that it has not begun, and the remote
-- addresses of the peers that it has still to ask in the attempt it is at.
pub record Worker : Type 0 where
  pub piece : ℕ
  pub attempts : ℕ
  pub peers : List GoString

-- The server, the piece manager, the output file, the pieces of the current batch that are not started
-- yet, the running workers, how many values are in the buffer of `sem`, `activeDownloads`, and whether
-- the main loop has been left.
pub record Download : Type 0 where
  pub server : Server
  pub manager : PieceManager
  pub file : List ℕ
  pub batch : List ℕ
  pub workers : List Worker
  pub sem : ℕ
  pub active : List ℕ
  pub is_waiting : Bool

-- The loop that fills `pieces` with 0, 1, ….
abbrev pub piece_indices : ℕ → ℕ → List ℕ
piece_indices i zero = []
piece_indices i (suc left) = i ∷ piece_indices (i + 1) left

-- The loop over `s.peers` before the download.
unfoldable pub add_peers : List ℕ → List GoString → PieceManager → PieceManager
add_peers pieces [] manager = manager
add_peers pieces (addr ∷ addrs) manager =
    add_peers pieces addrs (update_peer_pieces addr pieces manager)

-- The state in which the main loop starts; `none` is the panic of NewPieceManager.
unfoldable pub start_download : Metadata → Server → Option Download
start_download meta server = do
  manager ← new_piece_manager meta.num_chunks meta.chunk_hashes
  some (record {
    server = server;
    manager = add_peers (piece_indices 0 (pos_part meta.num_chunks)) (keys server.peers) manager;
    file = [];
    batch = [];
    workers = [];
    sem = 0;
    active = [];
    is_waiting = false;
  })

-- `maxConcurrent`
abbrev pub max_concurrent : ℕ
max_concurrent = 10

-- `requestMultiple`
abbrev pub request_multiple : ℕ → ℕ
request_multiple peer_count = if ltb 1 peer_count then peer_count * 2 else 2

-- The worker with a number, if it is there and is for the piece. The newest has number 0.
unfoldable pub worker_at : ℕ → ℕ → List Worker → Option Worker
worker_at k i [] = none
worker_at zero i (w ∷ workers) = if w.piece == i then some w else none
worker_at (suc k) i (w ∷ workers) = worker_at k i workers

-- It goes on.
unfoldable pub set_worker : ℕ → Worker → List Worker → List Worker
set_worker k w [] = []
set_worker zero w (v ∷ workers) = w ∷ workers
set_worker (suc k) w (v ∷ workers) = v ∷ set_worker k w workers

-- It ends.
unfoldable pub end_worker : ℕ → List Worker → List Worker
end_worker k [] = []
end_worker zero (w ∷ workers) = workers
end_worker (suc k) (w ∷ workers) = w ∷ end_worker k workers

-- The remote addresses of `s.peers`.
unfoldable pub remotes : Map GoString GoString → List GoString
remotes [] = []
remotes ((_, remote) ∷ peers) = remote ∷ remotes peers

-- The peers without one of an address.
unfoldable pub without : GoString → List GoString → List GoString
without remote [] = []
without remote (r ∷ rest) = let left = without remote rest in if remote == r then rest else r ∷ left

-- `maxRetries`
abbrev pub max_retries : ℕ
max_retries = 3

pub data Event : Type 0 where
  -- a connection comes up
  connect : GoString → Event
  -- a round of the main loop asks for pieces; the function stands for the sort in GetNextPieces
  plan : (List PieceInfo → List PieceInfo) → Event
  -- the main loop is left
  leave : Event
  -- the main loop starts the worker for the next piece of the batch
  launch : Event
  -- the worker with a number, which is for a piece, begins an attempt
  attempt : ℕ → ℕ → Event
  -- it asks a peer, and the wait ends
  ask : ℕ → ℕ → GoString → Ending → Event
  -- it is left without attempts
  give_up : ℕ → ℕ → Event

-- The state after GetNextPieces has chosen pieces.
abbrev pub with_batch : Download → PieceManager × List PieceInfo → Download
with_batch d (manager, chosen) = record d {
  manager = manager;
  batch = map (λ piece. piece.index) chosen;
}

unfoldable pub plan_round : (List PieceInfo → List PieceInfo) → Download → Option Download
plan_round arrange d =
    if d.is_waiting
      || is_complete d.manager
      || not (eqb (length d.batch) 0)
      || eqb (length d.server.peers) 0
    then none
    else get_next_pieces arrange (max_concurrent * request_multiple (length d.server.peers))
        d.manager
      >>= λ r. some (with_batch d r)

-- The main loop ends by its test, or where there are peers and no piece to ask for and no active
-- download; the batch before has been started.
abbrev pub can_leave : Download → Bool
can_leave d =
    not d.is_waiting
    && eqb (length d.batch) 0
    && (is_complete d.manager
        || (not (eqb (length d.server.peers) 0)
            && eqb (length (eligible d.manager.pieces)) 0
            && eqb (length d.active) 0))

-- `sem <- struct{}{}` waits while the buffer of the channel is full; then the worker starts.
unfoldable pub launch_worker : List ℕ → Download → Option Download
launch_worker [] d = none
launch_worker (i ∷ batch) d =
    if ltb d.sem max_concurrent
    then some (record d {
      batch = batch;
      workers = record { piece = i; attempts = max_retries; peers = [] } ∷ d.workers;
      sem = d.sem + 1;
      active = insert i d.active;
    })
    else none

-- The worker marks its piece and returns; its deferred functions take the piece off `activeDownloads`
-- and a value out of `sem`, in which every running worker has one.
abbrev pub worker_returns : ℕ → Worker → PieceStatus → Download → Download
worker_returns k w status d = record d {
  manager = mark_piece_status w.piece status d.manager;
  workers = end_worker k d.workers;
  sem = d.sem - 1;
  active = remove w.piece d.active;
}

-- An attempt begins with the peers that are connected, once all of the attempt before are asked. With
-- none connected refreshPeers is called: what it connects is a `connect` before this event, and where
-- it fails or connects none, the attempt has no peers.
abbrev pub begin_attempt : ℕ → Download → Worker → Option Download
begin_attempt k d w =
    if ltb 0 w.attempts && eqb (length w.peers) 0
    then some (record d {
      workers =
          set_worker k (record w { attempts = w.attempts - 1; peers = remotes d.server.peers })
            d.workers;
    })
    else none

-- The worker after it has asked a peer: it ends with a verified piece, or goes on to the next.
abbrev pub asked : ℕ → GoString → Download → Progress → Worker → Download
asked k remote d p w =
    let after = record d { server = p.server; file = p.file } in
    if p.is_downloaded then worker_returns k w verified after else record after {
      workers = set_worker k (record w { peers = without remote w.peers }) d.workers;
    }

module _ (file_id : GoString) (meta : Metadata) where
  -- The shuffle puts the peers of the attempt into any order, so any that is left may be next.
  abbrev pub ask_next : ℕ → GoString → Ending → Download → Worker → Option Download
  ask_next k remote ending d w =
      if contains remote w.peers
      then some (
          asked k remote d
            (ask_peer file_id (pos w.piece) meta.chunk_size remote ending d.server d.file) w)
      else none

  -- `none` where the event cannot happen in the state.
  unfoldable pub apply_event : Event → Download → Option Download
  apply_event (connect remote) d = some (record d { server = on_peer remote d.server })
  apply_event (plan arrange) d = plan_round arrange d
  apply_event leave d = if can_leave d then some (record d { is_waiting = true }) else none
  apply_event launch d = launch_worker d.batch d
  apply_event (attempt k i) d = worker_at k i d.workers >>= begin_attempt k d
  apply_event (ask k i remote ending) d = worker_at k i d.workers >>= ask_next k remote ending d
  apply_event (give_up k i) d = worker_at k i d.workers >>= λ w.
      if eqb w.attempts 0 && eqb (length w.peers) 0
      then some (worker_returns k w missing d)
      else none

  unfoldable pub run_events : List Event → Download → Option Download
  run_events [] d = some d
  run_events (e ∷ events) d = apply_event e d >>= λ d'. run_events events d'

-- After the main loop and `wg.Wait()` DownloadFile tests once more whether all pieces are verified:
-- whether it returns nil, or none while it runs.
unfoldable pub result : Download → Option Bool
result d = if d.is_waiting && eqb (length d.workers) 0 then some (is_complete d.manager) else none

-- The main loop finds no peer; the batch before has been started.
abbrev pub can_abandon : Download → Bool
can_abandon d =
    not d.is_waiting
    && eqb (length d.batch) 0
    && not (is_complete d.manager)
    && eqb (length d.server.peers) 0

-- The result with the return of the main loop where there is no peer and connectToAllPeers, which is
-- then called, returns an error. Workers that are left over have no part in it.
unfoldable pub ended : Bool → Download → Option Bool
unfolding result
ended refreshes d = if can_abandon d && not refreshes then some false else result d

-- What is left of the output file: the deferred function removes an empty one.
unfoldable pub output : Download → Option (List ℕ)
output d = if eqb (length d.file) 0 then none else some d.file
