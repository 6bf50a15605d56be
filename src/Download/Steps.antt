-- ===== src/Download/Steps.antt =====
-- server.go: every event of DownloadFile keeps the invariant.
use mathlib.Core.Option.{some-injective}
use file_share_p2p.Prelude.{
  ℕ, ◌&&◌, eqb, ltb, sym, ◌*◌, ◌^◌, ◌≤◌, ◌<◌, Bool, true, false, none, some, List, [], ◌∷◌, ◌≡◌,
  inl, inr, refl, arith, if◌then◌else◌, length, contains, nat_eq, All, subst, option_cases,
}
use file_share_p2p.Prelude.Int.{pos}
use file_share_p2p.GoString.{GoString, string_eq}
use file_share_p2p.Metadata.{Metadata}
use file_share_p2p.Server.State.{on_peer}
use file_share_p2p.Download.Defs.{
  Download, Event, connect, plan, leave, launch, attempt, ask, give_up, worker_at, can_leave,
  apply_event, run_events,
}
use file_share_p2p.Download.Invariant.{IsSound, worker_at-Found}
use file_share_p2p.Download.Answers.{
  IsHonest, plan_round-IsSound, launch_worker-IsSound, set_worker-IsSound, ask-IsSound,
  give_up-IsSound,
}

module _ (content : List ℕ) (size n : ℕ) (p : 1 ≤ size) (s : size < 2 ^ 63)
    (c : length content < 2 ^ 63) (exact : (i : ℕ) → i < n → i * size < length content) where
  -- An event that happens under a test.
  guarded-IsSound :
      (test : Bool) (next d' : Download)
      → (if test then some next else none) ≡ some d'
      → (test ≡ true → IsSound content size n next)
      → IsSound content size n d'
  guarded-IsSound true next d' e f =
      subst (IsSound content size n) (some-injective next d' e) (f refl)
  guarded-IsSound false next d' e f = cc

  module _ (file_id : GoString) (meta : Metadata) (m : meta.chunk_size ≡ pos size) where
    pub apply_event-IsSound :
        (event : Event) (d d' : Download)
        → IsHonest content size event
        → apply_event file_id meta event d ≡ some d'
        → IsSound content size n d
        → IsSound content size n d'
    unfolding apply_event
    apply_event-IsSound (connect remote) d d' honest e h =
        subst (IsSound content size n)
          (some-injective (record d { server = on_peer remote d.server }) d' e)
          (record {
            pieces = h.pieces;
            known = h.known;
            batch = h.batch;
            workers = h.workers;
            agrees = h.agrees;
          })
    apply_event-IsSound (plan arrange) d d' honest e h =
        plan_round-IsSound content size n p s c exact arrange d d' honest e h
    apply_event-IsSound launch d d' honest e h =
        launch_worker-IsSound content size n p s c exact d.batch d d' h.batch e h
    apply_event-IsSound leave d d' honest e h =
        guarded-IsSound (can_leave d) (record d { is_waiting = true }) d' e
          (λ t. record {
            pieces = h.pieces;
            known = h.known;
            batch = h.batch;
            workers = h.workers;
            agrees = h.agrees;
          })
    apply_event-IsSound (attempt k i) d d' honest e h =
        elim (option_cases (worker_at k i d.workers)) [
          | inl f ↦ absurd (ground (arith, f, e))
          | inr (w, f) ↦
              (let found = worker_at-Found k i w d.workers f in
                guarded-IsSound (ltb 0 w.attempts && eqb (length w.peers) 0) _ d' (rw f at e) (λ t.
                  set_worker-IsSound content size n p s c exact k _ d
                    (found.member (λ v. v.piece < n) h.workers) h))
        ]
    apply_event-IsSound (ask k i remote ending) d d' honest e h =
        elim (option_cases (worker_at k i d.workers)) [
          | inl f ↦ absurd (ground (arith, f, e))
          | inr (w, f) ↦
              (let found = worker_at-Found k i w d.workers f in
                let told =
                  subst (λ j. IsHonest content size (ask k j remote ending)) (sym found.same)
                    honest in
                guarded-IsSound (contains remote w.peers) _ d' (rw f at e) (λ t.
                  ask-IsSound content size n p s c exact meta.chunk_size m file_id k remote w
                    (found.member (λ v. v.piece < n) h.workers) ending d told h))
        ]
    apply_event-IsSound (give_up k i) d d' honest e h =
        elim (option_cases (worker_at k i d.workers)) [
          | inl f ↦ absurd (ground (arith, f, e))
          | inr (w, f) ↦
              guarded-IsSound (eqb w.attempts 0 && eqb (length w.peers) 0) _ d' (rw f at e)
                (λ t. give_up-IsSound content size n p s c exact k w d h)
        ]

    pub run_events-IsSound :
        (events : List Event) (d d' : Download)
        → All (IsHonest content size) events
        → run_events file_id meta events d ≡ some d'
        → IsSound content size n d
        → IsSound content size n d'
    unfolding run_events
    run_events-IsSound [] d d' honest e h = subst (IsSound content size n) (some-injective d d' e) h
    run_events-IsSound (event ∷ events) d d' (honest, rest) e h =
        elim (option_cases (apply_event file_id meta event d)) [
          | inl f ↦ absurd (ground (arith, f, e))
          | inr (next, f) ↦
              run_events-IsSound events next d' rest (ground (arith, f, e))
                (apply_event-IsSound event d next honest f h)
        ]
