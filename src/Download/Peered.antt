-- ===== src/Download/Peered.antt =====
-- server.go: the peers and the statuses of the pieces while DownloadFile runs.
use mathlib.Core.Option.{some-injective}
use file_share_p2p.Prelude.{
  ℕ, ◌+◌, ◌*◌, ◌<◌, Bool, true, false, ◌&&◌, ◌||◌, none, some, List, [], ◌∷◌, ◌≡◌, inl, inr, arith,
  eqb, ltb, if◌then◌else◌, ◌==◌, length, contains, insert, nat_eq, subst, option_cases, Bool-cases,
}
use mathlib.Core.List.{Permᴰ}
use file_share_p2p.Prelude.Maps.{get}
use file_share_p2p.GoString.{GoString, string_eq}
use file_share_p2p.Metadata.{Metadata}
use file_share_p2p.Pieces.Defs.{
  PieceStatus, missing, requested, verified, is_missing, is_requested, is_verified, PieceInfo,
  PieceManager, eligible, mark_piece_status,
}
use file_share_p2p.Pieces.Candidates.{indices}
use file_share_p2p.Pieces.Selection.{get_next_pieces_lem}
use file_share_p2p.Pieces.Table.{get-mark_piece_status}
use file_share_p2p.Server.Download.{Progress}
use file_share_p2p.Server.State.{on_peer}
use file_share_p2p.Download.Defs.{
  Download, Worker, Event, connect, plan, leave, launch, attempt, ask, give_up, can_leave,
  plan_round, launch_worker, with_batch, worker_at, worker_returns, asked, max_concurrent,
  max_retries, request_multiple, apply_event,
}
use file_share_p2p.Download.Answers.{IsHonest}
use file_share_p2p.Download.Invariant.{IsSound}
use file_share_p2p.Download.Work.{Available}

abbrev pub is_set : PieceStatus → Bool
is_set status = is_missing status || is_requested status || is_verified status

-- Every piece of the table has a peer and a status that the program sets.
abbrev pub Peered : PieceManager → Type 0
Peered pm =
    (j : ℕ) (piece : PieceInfo)
    → get j pm.pieces ≡ some piece
    → (0 < length piece.peers) × (is_set piece.status ≡ true)

pub Peered-Available : (pm : PieceManager) → Peered pm → Available pm
Peered-Available pm h j piece e =
    let (peers, set) = h j piece e in
    elim (Bool-cases (is_verified piece.status)) [
      | inl v ↦ inl v
      | inr v ↦ inr (ground (arith, set, v), peers)
    ]

pub mark_piece_status-Peered :
    (pm : PieceManager) (i : ℕ) (status : PieceStatus)
    → is_set status ≡ true
    → Peered pm
    → Peered (mark_piece_status i status pm)
mark_piece_status-Peered pm i status s h j piece e = elim (Bool-cases (j == i)) [
  | inl same ↦ elim (option_cases (get j pm.pieces)) [
    | inl f ↦ absurd (ground (arith, get-mark_piece_status i status pm j, same, f, e))
    | inr (q, f) ↦
        (let after : PieceInfo = record q { status = status } in
          let found : some after ≡ some piece =
            ground (arith, get-mark_piece_status i status pm j, same, f, e) in
          subst (λ (x : PieceInfo). (0 < length x.peers) × (is_set x.status ≡ true))
            (some-injective after piece found) ((h j q f).0, s))
  ]
  | inr other ↦ h j piece (ground (arith, get-mark_piece_status i status pm j, other, e))
]

guarded-Peered :
    (test : Bool) (next d' : Download)
    → (if test then some next else none) ≡ some d'
    → Peered next.manager
    → Peered d'.manager
guarded-Peered true next d' e h =
    subst (λ (x : Download). Peered x.manager) (some-injective next d' e) h
guarded-Peered false next d' e h = cc

plan_round-Peered :
    (content : List ℕ) (size n : ℕ) (arrange : List PieceInfo → List PieceInfo) (d d' : Download)
    → ((pieces : List PieceInfo) → Permᴰ pieces (arrange pieces))
    → plan_round arrange d ≡ some d'
    → IsSound content size n d
    → Peered d.manager
    → Peered d'.manager
plan_round-Peered content size n arrange d d' perm e s h =
    let m = max_concurrent * request_multiple (length d.server.peers) in
    let (after, chosen, runs, count, good, effect, kept) =
      get_next_pieces_lem arrange m d.manager (perm (eligible d.manager.pieces)) s.pieces in
    let result : some (with_batch d (after, chosen)) ≡ some d' =
      unfold plan_round in ground (arith, runs, e) in
    subst (λ (x : Download). Peered x.manager)
      (some-injective (with_batch d (after, chosen)) d' result)
      (λ j piece f. elim (Bool-cases (contains j (indices chosen))) [
        | inl c ↦ elim (option_cases (get j d.manager.pieces)) [
          | inl g ↦ absurd (ground (arith, effect j, c, g, f))
          | inr (q, g) ↦
              (let next : PieceInfo = record q { status = requested } in
                let same : some next ≡ some piece = ground (arith, effect j, c, g, f) in
                subst (λ (x : PieceInfo). (0 < length x.peers) × (is_set x.status ≡ true))
                  (some-injective next piece same) ((h j q g).0, ground arith))
        ]
        | inr c ↦ h j piece (ground (arith, effect j, c, f))
      ])

launch_worker-Peered :
    (batch : List ℕ) (d d' : Download)
    → launch_worker batch d ≡ some d'
    → Peered d.manager
    → Peered d'.manager
unfolding launch_worker
launch_worker-Peered [] d d' e h = cc
launch_worker-Peered (i ∷ batch) d d' e h =
    guarded-Peered (ltb d.sem max_concurrent)
      (record d {
        batch = batch;
        workers = record { piece = i; attempts = max_retries; peers = [] } ∷ d.workers;
        sem = d.sem + 1;
        active = insert i d.active;
      })
      d' e h

asked-Peered :
    (k : ℕ) (remote : GoString) (d : Download) (q : Progress) (w : Worker)
    → Peered d.manager
    → Peered (asked k remote d q w).manager
asked-Peered k remote d q w h = elim (Bool-cases q.is_downloaded) [
  | inl e ↦ rw e (mark_piece_status-Peered d.manager w.piece verified (ground arith) h)
  | inr e ↦ rw e h
]

module _ (content : List ℕ) (size n : ℕ) (file_id : GoString) (meta : Metadata) where
  pub apply_event-Peered :
      (event : Event) (d d' : Download)
      → IsHonest content size event
      → apply_event file_id meta event d ≡ some d'
      → IsSound content size n d
      → Peered d.manager
      → Peered d'.manager
  unfolding apply_event
  apply_event-Peered (connect remote) d d' honest e s h =
      subst (λ (x : Download). Peered x.manager)
        (some-injective (record d { server = on_peer remote d.server }) d' e) h
  apply_event-Peered (plan arrange) d d' honest e s h =
      plan_round-Peered content size n arrange d d' honest e s h
  apply_event-Peered leave d d' honest e s h =
      guarded-Peered (can_leave d) (record d { is_waiting = true }) d' e h
  apply_event-Peered launch d d' honest e s h = launch_worker-Peered d.batch d d' e h
  apply_event-Peered (attempt k i) d d' honest e s h =
      elim (option_cases (worker_at k i d.workers)) [
        | inl f ↦ absurd (ground (arith, f, e))
        | inr (w, f) ↦
            guarded-Peered (ltb 0 w.attempts && eqb (length w.peers) 0) _ d' (rw f at e) h
      ]
  apply_event-Peered (ask k i remote ending) d d' honest e s h =
      elim (option_cases (worker_at k i d.workers)) [
        | inl f ↦ absurd (ground (arith, f, e))
        | inr (w, f) ↦
            guarded-Peered (contains remote w.peers) _ d' (rw f at e)
              (asked-Peered k remote d _ w h)
      ]
  apply_event-Peered (give_up k i) d d' honest e s h =
      elim (option_cases (worker_at k i d.workers)) [
        | inl f ↦ absurd (ground (arith, f, e))
        | inr (w, f) ↦
            guarded-Peered (eqb w.attempts 0 && eqb (length w.peers) 0)
              (worker_returns k w missing d) d' (rw f at e)
              (mark_piece_status-Peered d.manager w.piece missing (ground arith) h)
      ]
