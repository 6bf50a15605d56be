-- ===== src/Download/Finish.antt =====
-- server.go: a download that is not complete can go on and end.
use mathlib.Core.List.Permᴰ
use file_share_p2p.Prelude.{
  ℕ, zero, suc, ◌+◌, ◌*◌, ◌^◌, ◌≤◌, ◌<◌, true, false, some, List, [], ◌∷◌, ◌++◌, ◌≡◌, inl, inr,
  refl, ap, ◌∙◌, arith, if◌then◌else◌, ◌>>=◌, length, nat_eq, All, subst, option_cases, Bool-cases,
  dec_lt,
}
use file_share_p2p.Prelude.Int.{pos}
use file_share_p2p.Prelude.Maps.{get}
use file_share_p2p.GoString.{GoString}
use file_share_p2p.Metadata.{Metadata}
use file_share_p2p.Pieces.Defs.{PieceManager, is_complete}
use file_share_p2p.Pieces.Table.{is_done}
use file_share_p2p.Download.Defs.{Download, Event, plan, leave, apply_event, run_events, result}
use file_share_p2p.Download.Answers.{IsHonest}
use file_share_p2p.Download.Work.{IsIdle, Grows, work, work_runs, work-IsHonest}
use file_share_p2p.Download.Rounds.{plan_runs}

-- How many pieces below n are not verified.
abbrev left_below : PieceManager → ℕ → ℕ
left_below pm zero = 0
left_below pm (suc j) = (if is_done (get j pm.pieces) then 0 else 1) + left_below pm j

left_below-Grows :
    (before after : PieceManager) (n : ℕ)
    → Grows before after
    → left_below after n ≤ left_below before n
left_below-Grows before after zero g = omega arith
left_below-Grows before after (suc j) g = ground (arith, left_below-Grows before after j g, g j)

left_below_less :
    (before after : PieceManager) (n i : ℕ)
    → Grows before after
    → i < n
    → is_done (get i before.pieces) ≡ false
    → is_done (get i after.pieces) ≡ true
    → left_below after n < left_below before n
left_below_less before after zero i g l a b = absurd (omega arith)
left_below_less before after (suc j) i g l a b = elim (dec_lt i j) [
  | yes below ↦ ground (arith, g j, left_below_less before after j i g below a b)
  | no last ↦
      (let k : i ≡ j = omega (arith, last, l) in
        let x = subst (λ y. is_done (get y before.pieces) ≡ false) k a in
        let y = subst (λ y. is_done (get y after.pieces) ≡ true) k b in
        ground (arith, x, y, left_below-Grows before after j g))
]

pub run_events-append :
    (file_id : GoString) (meta : Metadata) (es fs : List Event) (d : Download)
    → run_events file_id meta (es ++ fs) d
      ≡ (run_events file_id meta es d >>= λ d'. run_events file_id meta fs d')
unfolding run_events
run_events-append file_id meta [] fs d = refl
run_events-append file_id meta (e ∷ es) fs d = elim (option_cases (apply_event file_id meta e d)) [
  | inl f ↦ rw f refl
  | inr (d', f) ↦ rw f (run_events-append file_id meta es fs d')
]

pub All-append : (P : Event → Type 0) (es fs : List Event) → All P es → All P fs → All P (es ++ fs)
All-append P [] fs h g = g
All-append P (e ∷ es) fs (p, h) g = (p, All-append P es fs h g)

module _ (content : List ℕ) (size n : ℕ) (p : 1 ≤ size) (s : size < 2 ^ 63)
    (c : length content < 2 ^ 63) (exact : (i : ℕ) → i < n → i * size < length content)
    (file_id remote : GoString) (meta : Metadata) (m : meta.chunk_size ≡ pos size) where
  -- Some continuation of a state in which peers are honest comes to the end, without an error.
  abbrev pub CanFinish : Download → Type 0
  CanFinish d =
      (events : List Event) × (d' : Download) × All (IsHonest content size) events
      × (run_events file_id meta events d ≡ some d')
      × (result d' ≡ some true)

  complete_finishes :
      (d : Download) → IsIdle n remote d → d.batch ≡ [] → is_complete d.manager ≡ true → CanFinish d
  unfolding run_events apply_event result
  complete_finishes d h b e = (
    leave ∷ [],
    record d { is_waiting = true },
    (tt, tt),
    ground (arith, h.running, b, e),
    ground (arith, h.idle, e),
  )

  -- One round and its workers: fewer pieces are left.
  one_round :
      (d : Download)
      → IsIdle n remote d
      → d.batch ≡ []
      → is_complete d.manager ≡ false
      → (events : List Event) × (d' : Download) × All (IsHonest content size) events
        × (run_events file_id meta events d ≡ some d')
        × IsIdle n remote d'
        × (d'.batch ≡ [])
        × (left_below d'.manager n < left_below d.manager n)
  unfolding run_events apply_event
  one_round d h b e =
      let (d1, i, rest, planned, idle, grows, batch, below, unverified) =
        plan_runs n remote d h b e in
      let (d2, runs, idle2, done, grows2, all_done) =
        work_runs content size n p s c exact file_id remote meta m (i ∷ rest) d1 idle below batch in
      let jobs = work content size n p s c exact file_id remote meta m (i ∷ rest) in
      (
        plan (λ pieces. pieces) ∷ jobs,
        d2,
        (
          (λ pieces. Permᴰ.refl pieces),
          work-IsHonest content size n p s c exact file_id remote meta m (i ∷ rest) below,
        ),
        ap (λ r. r >>= λ d'. run_events file_id meta jobs d') planned ∙ runs,
        idle2,
        done,
        left_below_less d.manager d2.manager n i (λ j g. grows2 j (grows j g)) below.0 unverified
            all_done.0,
      )

  continue :
      (d d' : Download) (events : List Event)
      → All (IsHonest content size) events
      → run_events file_id meta events d ≡ some d'
      → CanFinish d'
      → CanFinish d
  continue d d' events honest runs (more, last, honest2, runs2, ends) = (
    events ++ more,
    last,
    All-append (IsHonest content size) events more honest honest2,
    run_events-append file_id meta events more d
        ∙ ap (λ r. r >>= λ x. run_events file_id meta more x) runs
        ∙ runs2,
    ends,
  )

  finish_within :
      (bound : ℕ) (d : Download)
      → IsIdle n remote d
      → d.batch ≡ []
      → left_below d.manager n ≤ bound
      → CanFinish d
  finish_within zero d h b l = elim (Bool-cases (is_complete d.manager)) [
    | inl e ↦ complete_finishes d h b e
    | inr e ↦
        (let (events, d', honest, runs, idle, done, less) = one_round d h b e in
          absurd (omega (arith, less, l)))
  ]
  finish_within (suc bound) d h b l = elim (Bool-cases (is_complete d.manager)) [
    | inl e ↦ complete_finishes d h b e
    | inr e ↦
        (let (events, d', honest, runs, idle, done, less) = one_round d h b e in
          continue d d' events honest runs
            (finish_within bound d' idle done (omega (arith, less, l))))
  ]

  -- In a state between two batches with no worker left, where some peer is connected and every piece
  -- that is not verified is missing or requested and has a peer, the download can go on, with peers
  -- that send what ReadChunk reads from the content, and come to its end without an error. The table
  -- has the pieces below n, which start in the content, and the sizes are below 2^63.
  pub run_events_finishes :
      (d : Download)
      → IsIdle n remote d
      → d.batch ≡ []
      → (events : List Event) × (d' : Download) × All (IsHonest content size) events
        × (run_events file_id meta events d ≡ some d')
        × (result d' ≡ some true)
  run_events_finishes d h b = finish_within (left_below d.manager n) d h b (omega arith)
