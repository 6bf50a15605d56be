-- ===== src/Download/Drain.antt =====
-- server.go: workers of DownloadFile whose peers do not answer.
use file_share_p2p.Prelude.{
  ℕ, zero, suc, ◌<◌, false, ◌>>=◌, some, List, [], ◌∷◌, ◌++◌, ◌≡◌, refl, ap, ◌∙◌, arith, eqb, ltb,
  ==_refl, length, contains, nat_eq, All,
}
use file_share_p2p.Prelude.Int.{pos}
use file_share_p2p.Prelude.Maps.{get, is_some}
use file_share_p2p.GoString.{GoString, string_eq}
use file_share_p2p.Metadata.{Metadata}
use file_share_p2p.Pieces.Defs.{missing}
use file_share_p2p.Pieces.Invariant.{IsPieces, mark_piece_status-IsPieces}
use file_share_p2p.Server.Download.{timed_out, ask_peer, add_handler}
use file_share_p2p.Download.Defs.{
  Download, Worker, Event, attempt, ask, give_up, worker_at, set_worker, end_worker, remotes,
  without, worker_returns, apply_event, run_events,
}
use file_share_p2p.Download.Answers.{IsHonest}
use file_share_p2p.Download.Invariant.{known-mark}
use file_share_p2p.Download.Peered.{Peered, mark_piece_status-Peered}
use file_share_p2p.Download.Finish.{run_events-append, All-append}

-- The main loop runs, a peer is connected, the table has the pieces below n with a peer each, the batch
-- is about such pieces, and the running workers have their values in `sem`.
pub record IsOpen (n : ℕ) (d : Download) : Type 0 where
  pub pieces : IsPieces d.manager.pieces
  pub known : (j : ℕ) → is_some (get j d.manager.pieces) ≡ ltb j n
  pub peered : Peered d.manager
  pub batch : All (λ i. i < n) d.batch
  pub running : d.is_waiting ≡ false
  pub values : d.sem ≡ length d.workers
  pub connected : eqb (length d.server.peers) 0 ≡ false

module _ (content : List ℕ) (size n : ℕ) (file_id : GoString) (meta : Metadata) where
  -- Events in which peers are honest lead from one state to the other.
  abbrev pub Leads : Download → Download → Type 0
  Leads d d' =
      (events : List Event) × All (IsHonest content size) events
      × (run_events file_id meta events d ≡ some d')

  pub Leads-trans : (d d' d'' : Download) → Leads d d' → Leads d' d'' → Leads d d''
  Leads-trans d d' d'' (events, honest, runs) (more, honest2, runs2) = (
    events ++ more,
    All-append (IsHonest content size) events more honest honest2,
    run_events-append file_id meta events more d
        ∙ ap (λ r. r >>= λ x. run_events file_id meta more x) runs
        ∙ runs2,
  )

  Leads-one :
      (e : Event) (d d' : Download)
      → IsHonest content size e
      → apply_event file_id meta e d ≡ some d'
      → Leads d d'
  unfolding run_events
  Leads-one e d d' honest runs = (e ∷ [], (honest, tt), ap (λ r. r >>= λ x. some x) runs)

  -- An open state to which the state leads, with these workers.
  abbrev Comes : Download → List Worker → Type 0
  Comes d workers = (d' : Download) × Leads d d' × IsOpen n d' × (d'.workers ≡ workers)

  Comes-trans :
      (d d' : Download) (workers : List Worker) → Leads d d' → Comes d' workers → Comes d workers
  Comes-trans d d' workers l (d'', more, open_state, same) =
      (d'', Leads-trans d d' d'' l more, open_state, same)

  abbrev worker : ℕ → ℕ → List GoString → Worker
  worker i left peers = record { piece = i; attempts = left; peers = peers }

  -- The state after the worker's next peer has not answered.
  abbrev passed : ℕ → List Worker → Download → Download
  passed i workers d = record d { server = add_handler file_id (pos i) d.server; workers = workers }

  pass_runs :
      (i left : ℕ) (remote : GoString) (peers : List GoString) (workers : List Worker)
      (d : Download)
      → d.workers ≡ worker i left (remote ∷ peers) ∷ workers
      → apply_event file_id meta (ask 0 i remote timed_out) d
        ≡ some (passed i (worker i left peers ∷ workers) d)
  unfolding apply_event worker_at set_worker without ask_peer contains
  pass_runs i left remote peers workers d e = ground (arith, e, ==_refl i, ==_refl remote)

  -- The state keeps being open where the number of workers is the same.
  workers-IsOpen :
      (workers : List Worker) (d : Download)
      → length workers ≡ length d.workers
      → IsOpen n d
      → IsOpen n (record d { workers = workers })
  workers-IsOpen workers d same h = record {
    pieces = h.pieces;
    known = h.known;
    peered = h.peered;
    batch = h.batch;
    running = h.running;
    values = omega (arith, h.values, same);
    connected = h.connected;
  }

  passed-IsOpen :
      (i : ℕ) (workers : List Worker) (d : Download)
      → length workers ≡ length d.workers
      → IsOpen n d
      → IsOpen n (passed i workers d)
  passed-IsOpen i workers d same h = record {
    pieces = h.pieces;
    known = h.known;
    peered = h.peered;
    batch = h.batch;
    running = h.running;
    values = omega (arith, h.values, same);
    connected = h.connected;
  }

  -- No peer of the attempt answers.
  ask_all :
      (i left : ℕ) (peers : List GoString) (workers : List Worker) (d : Download)
      → IsOpen n d
      → d.workers ≡ worker i left peers ∷ workers
      → Comes d (worker i left [] ∷ workers)
  ask_all i left [] workers d h e = (d, ([], tt, unfold run_events in refl), h, e)
  ask_all i left (remote ∷ peers) workers d h e =
      let d' = passed i (worker i left peers ∷ workers) d in
      Comes-trans d d' (worker i left [] ∷ workers)
        (Leads-one (ask 0 i remote timed_out) d d' tt (pass_runs i left remote peers workers d e))
        (ask_all i left peers workers d'
          (passed-IsOpen i (worker i left peers ∷ workers) d (ground (arith, e)) h) refl)

  attempt_runs :
      (i left : ℕ) (workers : List Worker) (d : Download)
      → d.workers ≡ worker i (suc left) [] ∷ workers
      → apply_event file_id meta (attempt 0 i) d
        ≡ some (record d { workers = worker i left (remotes d.server.peers) ∷ workers })
  unfolding apply_event worker_at set_worker
  attempt_runs i left workers d e = ground (arith, e, ==_refl i)

  give_up_runs :
      (i : ℕ) (workers : List Worker) (d : Download)
      → d.workers ≡ worker i 0 [] ∷ workers
      → (apply_event file_id meta (give_up 0 i) d
          ≡ some (worker_returns 0 (worker i 0 []) missing d))
        × ((worker_returns 0 (worker i 0 []) missing d).workers ≡ workers)
  unfolding apply_event worker_at end_worker
  give_up_runs i workers d e = (ground (arith, e, ==_refl i), ground (arith, e))

  gave_up-IsOpen :
      (i : ℕ) (workers : List Worker) (d : Download)
      → d.workers ≡ worker i 0 [] ∷ workers
      → IsOpen n d
      → IsOpen n (worker_returns 0 (worker i 0 []) missing d)
  gave_up-IsOpen i workers d e h = record {
    pieces = mark_piece_status-IsPieces i missing d.manager h.pieces;
    known = known-mark n d.manager i missing h.known;
    peered = mark_piece_status-Peered d.manager i missing (ground arith) h.peered;
    batch = h.batch;
    running = h.running;
    values = ground (arith, h.values, e, (give_up_runs i workers d e).1);
    connected = h.connected;
  }

  -- The newest worker returns.
  one_returns :
      (i left : ℕ) (peers : List GoString) (workers : List Worker) (d : Download)
      → IsOpen n d
      → d.workers ≡ worker i left peers ∷ workers
      → Comes d workers
  one_returns i zero peers workers d h e =
      let (d1, leads, h1, e1) = ask_all i 0 peers workers d h e in
      let d2 = worker_returns 0 (worker i 0 []) missing d1 in
      let (runs, rest) = give_up_runs i workers d1 e1 in
      (
        d2,
        Leads-trans d d1 d2 leads (Leads-one (give_up 0 i) d1 d2 tt runs),
        gave_up-IsOpen i workers d1 e1 h1,
        rest,
      )
  one_returns i (suc left) peers workers d h e =
      let (d1, leads, h1, e1) = ask_all i (suc left) peers workers d h e in
      let found = remotes d1.server.peers in
      let d2 = record d1 { workers = worker i left found ∷ workers } in
      let start = Leads-one (attempt 0 i) d1 d2 tt (attempt_runs i left workers d1 e1) in
      Comes-trans d d2 workers (Leads-trans d d1 d2 leads start) (
        one_returns i left found workers d2
          (workers-IsOpen (worker i left found ∷ workers) d1 (ground (arith, e1)) h1) refl)

  -- All of them return.
  pub all_return :
      (workers : List Worker) (d : Download) → IsOpen n d → d.workers ≡ workers → Comes d []
  all_return [] d h e = (d, ([], tt, unfold run_events in refl), h, e)
  all_return (w ∷ workers) d h e =
      let (d1, leads, h1, e1) = one_returns w.piece w.attempts w.peers workers d h e in
      Comes-trans d d1 [] leads (all_return workers d1 h1 e1)
