-- ===== src/Download/Bounds.antt =====
-- server.go: how many chunks DownloadFile fetches at once, and how many it asks the piece manager for.
use mathlib.Core.Option.{some-injective}
use file_share_p2p.Prelude.{
  ℕ, ◌+◌, ◌&&◌, eqb, ◌*◌, ◌≤◌, Bool, true, false, none, some, List, [], ◌∷◌, ◌≡◌, refl, arith, ltb,
  if◌then◌else◌, length, contains, insert, nat_eq, subst, option_cases, Bool-cases, inl, inr,
}
use file_share_p2p.GoString.{GoString, string_eq}
use file_share_p2p.Metadata.{Metadata}
use file_share_p2p.Pieces.Defs.{
  PieceStatus, PieceInfo, missing, verified, get_next_pieces, new_piece_manager,
}
use file_share_p2p.Server.State.{Server, on_peer}
use file_share_p2p.Server.Download.{Progress}
use file_share_p2p.Download.Defs.{
  Download, Worker, Event, connect, plan, leave, launch, attempt, ask, give_up, worker_at,
  set_worker, plan_round, launch_worker, worker_returns, can_leave, with_batch, asked,
  max_concurrent, max_retries, request_multiple, start_download, apply_event, run_events,
}
use file_share_p2p.Download.Invariant.{length-set_worker, Found, worker_at-Found}

-- Every running worker has a value in `sem`, whose buffer holds ten.
abbrev pub Few : Download → Type 0
Few d = (d.sem ≡ length d.workers) × (d.sem ≤ 10)

guarded-Few :
    (test : Bool) (next d' : Download)
    → (if test then some next else none) ≡ some d'
    → (test ≡ true → Few next)
    → Few d'
guarded-Few true next d' e f = subst Few (some-injective next d' e) (f refl)
guarded-Few false next d' e f = cc

launch_worker-Few :
    (batch : List ℕ) (d d' : Download) → launch_worker batch d ≡ some d' → Few d → Few d'
unfolding launch_worker
launch_worker-Few [] d d' e h = cc
launch_worker-Few (i ∷ batch) d d' e h =
    guarded-Few (ltb d.sem max_concurrent)
      (record d {
        batch = batch;
        workers = record { piece = i; attempts = max_retries; peers = [] } ∷ d.workers;
        sem = d.sem + 1;
        active = insert i d.active;
      })
      d' e (λ t. ground (arith, t))

plan_round-Few :
    (arrange : List PieceInfo → List PieceInfo) (d d' : Download)
    → plan_round arrange d ≡ some d'
    → Few d
    → Few d'
unfolding plan_round
plan_round-Few arrange d d' e h =
    elim (option_cases (
      get_next_pieces arrange (max_concurrent * request_multiple (length d.server.peers))
        d.manager)) [
          | inl f ↦ absurd (ground (arith, f, e))
          | inr (r, f) ↦
              (let next : some (with_batch d r) ≡ some d' = ground (arith, f, e) in
                subst Few (some-injective (with_batch d r) d' next) h)
        ]

-- A worker that returns takes its value out.
worker_returns-Few :
    (k i : ℕ) (w : Worker) (status : PieceStatus) (d : Download)
    → Found k i w d.workers
    → Few d
    → Few (worker_returns k w status d)
worker_returns-Few k i w status d found h = omega (arith, found.one_less, h)

set_worker-Few :
    (k : ℕ) (w : Worker) (d : Download)
    → Few d
    → Few (record d { workers = set_worker k w d.workers })
set_worker-Few k w d h = omega (arith, length-set_worker k w d.workers, h)

asked-Few :
    (k i : ℕ) (remote : GoString) (d : Download) (q : Progress) (w : Worker)
    → Found k i w d.workers
    → Few d
    → Few (asked k remote d q w)
asked-Few k i remote d q w found h = elim (Bool-cases q.is_downloaded) [
  | inl e ↦ rw e (worker_returns-Few k i w verified d found h)
  | inr e ↦ rw e (set_worker-Few k _ d h)
]

module _ (file_id : GoString) (meta : Metadata) where
  apply_event-Few :
      (event : Event) (d d' : Download)
      → apply_event file_id meta event d ≡ some d'
      → Few d
      → Few d'
  unfolding apply_event
  apply_event-Few (connect remote) d d' e h =
      subst Few (some-injective (record d { server = on_peer remote d.server }) d' e) h
  apply_event-Few (plan arrange) d d' e h = plan_round-Few arrange d d' e h
  apply_event-Few leave d d' e h =
      guarded-Few (can_leave d) (record d { is_waiting = true }) d' e (λ t. h)
  apply_event-Few launch d d' e h = launch_worker-Few d.batch d d' e h
  apply_event-Few (attempt k i) d d' e h = elim (option_cases (worker_at k i d.workers)) [
    | inl f ↦ absurd (ground (arith, f, e))
    | inr (w, f) ↦
        guarded-Few (ltb 0 w.attempts && eqb (length w.peers) 0) _ d' (rw f at e)
          (λ t. set_worker-Few k _ d h)
  ]
  apply_event-Few (ask k i remote ending) d d' e h = elim (option_cases (worker_at k i d.workers)) [
    | inl f ↦ absurd (ground (arith, f, e))
    | inr (w, f) ↦
        guarded-Few (contains remote w.peers) _ d' (rw f at e)
          (λ t. asked-Few k i remote d _ w (worker_at-Found k i w d.workers f) h)
  ]
  apply_event-Few (give_up k i) d d' e h = elim (option_cases (worker_at k i d.workers)) [
    | inl f ↦ absurd (ground (arith, f, e))
    | inr (w, f) ↦
        guarded-Few (eqb w.attempts 0 && eqb (length w.peers) 0) _ d' (rw f at e)
          (λ t. worker_returns-Few k i w missing d (worker_at-Found k i w d.workers f) h)
  ]

  run_events-Few :
      (events : List Event) (d d' : Download)
      → run_events file_id meta events d ≡ some d'
      → Few d
      → Few d'
  unfolding run_events
  run_events-Few [] d d' e h = subst Few (some-injective d d' e) h
  run_events-Few (event ∷ events) d d' e h =
      elim (option_cases (apply_event file_id meta event d)) [
        | inl f ↦ absurd (ground (arith, f, e))
        | inr (next, f) ↦
            run_events-Few events next d' (ground (arith, f, e)) (apply_event-Few event d next f h)
      ]

  -- In every state that a download comes to, `sem` has as many values as workers run, and these are at
  -- most ten: a worker is never started before one of ten has returned, and each that returns, with
  -- its piece or without it, makes room for another.
  pub few_workers :
      (server : Server) (events : List Event) (d d' : Download)
      → start_download meta server ≡ some d
      → run_events file_id meta events d ≡ some d'
      → (d'.sem ≡ length d'.workers) × (length d'.workers ≤ 10)
  unfolding start_download
  few_workers server events d d' start runs =
      let few =
        run_events-Few events d d' runs
          (elim (option_cases (new_piece_manager meta.num_chunks meta.chunk_hashes)) [
            | inl f ↦ absurd (ground (arith, f, start))
            | inr (pm, f) ↦ ground (arith, f, start)
          ]) in
      omega (arith, few)
