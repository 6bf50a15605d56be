-- ===== src/Download/Answers.antt =====
-- server.go: a round of the main loop, and a worker's question, keep the invariant.
use mathlib.Core.List.{Permᴰ}
use mathlib.Core.Option.{some-injective}
use file_share_p2p.Prelude.{
  ℕ, ◌+◌, ◌*◌, ◌^◌, ◌≤◌, ◌<◌, true, none, some, List, [], ◌∷◌, map, ◌≡◌, ◌⊎◌, inl, inr, refl, sym,
  ap, ◌∙◌, arith, ltb, if◌then◌else◌, length, contains, insert, nat_eq, All, subst, Bool-cases,
}
use file_share_p2p.Prelude.Int.{ℤ, pos}
use file_share_p2p.Prelude.Maps.{get, is_some}
use file_share_p2p.GoString.{GoString}
use file_share_p2p.Chunks.Defs.{
  WriteOutcome, Written, ok, read_from, start_offset, write_and_verify_chunk,
}
use file_share_p2p.Chunks.Transfer.{chunk_of, start_offset_small, read_from_lem}
use file_share_p2p.Chunks.Agree.{Agrees}
use file_share_p2p.Chunks.Honest.{InChunk, honest-Agrees, honest-success}
use file_share_p2p.Pieces.Defs.{
  missing, verified, PieceInfo, PieceManager, eligible, mark_piece_status,
}
use file_share_p2p.Pieces.Invariant.{mark_piece_status-IsPieces}
use file_share_p2p.Pieces.Candidates.{wanted, IsCandidate, indices, request}
use file_share_p2p.Pieces.Selection.{get_next_pieces_lem}
use file_share_p2p.Server.Download.{Ending, unsent, answered, failed, timed_out, Progress, ask_peer}
use file_share_p2p.Download.Defs.{
  Download, Worker, Event, connect, plan, leave, launch, attempt, ask, give_up, plan_round,
  launch_worker, worker_returns, with_batch, asked, set_worker, max_concurrent, max_retries,
  request_multiple,
}
use file_share_p2p.Download.Invariant.{
  Agrees-mono, All-end_worker, All-set_worker, Good, IsSound, known-mark, Good-missing,
  Good-verified,
}

-- The sort rearranges, and an answer is the chunk that ReadChunk reads from the content.
abbrev pub IsHonest : List ℕ → ℕ → Event → Type 0
IsHonest content size (connect remote) = Unit
IsHonest content size (plan arrange) = (pieces : List PieceInfo) → Permᴰ pieces (arrange pieces)
IsHonest content size leave = Unit
IsHonest content size launch = Unit
IsHonest content size (attempt k i) = Unit
IsHonest content size (ask k i remote (answered bytes outcomes)) =
    read_from size content (start_offset (pos i) (pos size)) ≡ ok bytes
IsHonest content size (ask k i remote unsent) = Unit
IsHonest content size (ask k i remote failed) = Unit
IsHonest content size (ask k i remote timed_out) = Unit
IsHonest content size (give_up k i) = Unit

module _ (content : List ℕ) (size n : ℕ) (p : 1 ≤ size) (s : size < 2 ^ 63)
    (c : length content < 2 ^ 63) (exact : (i : ℕ) → i < n → i * size < length content) where
  -- The pieces that are not verified by a request.
  Good-request :
      (before after : PieceManager) (chosen : List PieceInfo) (k : ℕ)
      → ((j : ℕ)
          → get j after.pieces ≡ (
              if contains j (indices chosen)
              then request (get j before.pieces)
              else get j before.pieces))
      → Good size after k
      → Good size before k
  Good-request before after chosen k effect (j, (e, b)) = (j, (ground (arith, effect j, e), b))

  chosen_below :
      (pm : PieceManager) (test : List PieceInfo)
      → ((i : ℕ) → is_some (get i pm.pieces) ≡ ltb i n)
      → All (IsCandidate (wanted pm.pieces) pm.pieces) test
      → All (λ i. i < n) (map (λ piece. piece.index) test)
  chosen_below pm [] known h = tt
  chosen_below pm (piece ∷ test) known (q, h) =
      (ground (arith, known piece.index, q.0), chosen_below pm test known h)

  pub plan_round-IsSound :
      (arrange : List PieceInfo → List PieceInfo) (d d' : Download)
      → ((pieces : List PieceInfo) → Permᴰ pieces (arrange pieces))
      → plan_round arrange d ≡ some d'
      → IsSound content size n d
      → IsSound content size n d'
  plan_round-IsSound arrange d d' perm e h =
      let m = max_concurrent * request_multiple (length d.server.peers) in
      let (after, chosen, runs, count, good, effect, kept) =
        get_next_pieces_lem arrange m d.manager (perm (eligible d.manager.pieces)) h.pieces in
      let result : some (with_batch d (after, chosen)) ≡ some d' =
        unfold plan_round in ground (arith, runs, e) in
      subst (IsSound content size n) (some-injective (with_batch d (after, chosen)) d' result)
        (record {
          pieces = kept;
          known = λ i. ground (arith, effect i, h.known i);
          batch = chosen_below d.manager chosen h.known good;
          workers = h.workers;
          agrees =
              Agrees-mono content (Good size d.manager) (Good size after) d.file
                (λ k. Good-request d.manager after chosen k effect) h.agrees;
        })

  pub launch_worker-IsSound :
      (batch : List ℕ) (d d' : Download)
      → All (λ i. i < n) batch
      → launch_worker batch d ≡ some d'
      → IsSound content size n d
      → IsSound content size n d'
  unfolding launch_worker
  launch_worker-IsSound [] d d' b e h = cc
  launch_worker-IsSound (i ∷ batch) d d' (b, bs) e h =
      elim (Bool-cases (ltb d.sem max_concurrent)) [
        | inl t ↦
            let next = record d {
              batch = batch;
              workers = record { piece = i; attempts = max_retries; peers = [] } ∷ d.workers;
              sem = d.sem + 1;
              active = insert i d.active;
            } in
            subst (IsSound content size n) (some-injective next d' (rw t at e)) (record {
              pieces = h.pieces;
              known = h.known;
              batch = bs;
              workers = (b, h.workers);
              agrees = h.agrees;
            })
        | inr t ↦ absurd (ground (arith, t, e))
      ]

  -- An answer of ReadChunk is a chunk of the content.
  honest_answer :
      (i : ℕ) (bytes : List ℕ)
      → i < n
      → read_from size content (start_offset (pos i) (pos size)) ≡ ok bytes
      → bytes ≡ chunk_of size content i
  honest_answer i bytes h e =
      let l = exact i h in
      let o = start_offset_small i size p s (omega arith) in
      let r = ap (read_from size content) o ∙ read_from_lem size (i * size) content l in
      ground (arith, e, r)

  -- A worker that goes on keeps its piece.
  pub set_worker-IsSound :
      (k : ℕ) (w : Worker) (d : Download)
      → w.piece < n
      → IsSound content size n d
      → IsSound content size n (record d { workers = set_worker k w d.workers })
  set_worker-IsSound k w d l h = record {
    pieces = h.pieces;
    known = h.known;
    batch = h.batch;
    workers = All-set_worker (λ v. v.piece < n) k w d.workers l h.workers;
    agrees = h.agrees;
  }

  -- A worker after one question: what the file has to meet, by whether it is done.
  asked-IsSound :
      (k : ℕ) (remote : GoString) (w : Worker) (d : Download) (q : Progress)
      → w.piece < n
      → Agrees content (Good size d.manager) q.file
      → (q.is_downloaded ≡ true
          → Agrees content (λ b. Good size d.manager b ⊎ InChunk size w.piece b) q.file)
      → IsSound content size n d
      → IsSound content size n (asked k remote d q w)
  asked-IsSound k remote w d q l a b h = elim (Bool-cases q.is_downloaded) [
    | inl e ↦ rw e (record {
      pieces = mark_piece_status-IsPieces w.piece verified d.manager h.pieces;
      known = known-mark n d.manager w.piece verified h.known;
      batch = h.batch;
      workers = All-end_worker (λ v. v.piece < n) k d.workers h.workers;
      agrees =
          Agrees-mono content (λ b. Good size d.manager b ⊎ InChunk size w.piece b)
            (Good size (mark_piece_status w.piece verified d.manager)) q.file
            (Good-verified size d.manager w.piece) (b e);
    })
    | inr e ↦ rw e (record {
      pieces = h.pieces;
      known = h.known;
      batch = h.batch;
      workers = All-set_worker (λ v. v.piece < n) k _ d.workers l h.workers;
      agrees = a;
    })
  ]

  module _ (chunk_size : ℤ) (m : chunk_size ≡ pos size) (file_id : GoString) (k : ℕ)
      (remote : GoString) (w : Worker) (l : w.piece < n) where
    answered-IsSound :
        (bytes : List ℕ) (outcomes : ℕ → WriteOutcome) (d : Download)
        → read_from size content (start_offset (pos w.piece) (pos size)) ≡ ok bytes
        → IsSound content size n d
        → IsSound content size n (
            asked k remote d
              (ask_peer file_id
                (pos w.piece)
                chunk_size
                remote
                (answered bytes outcomes)
                d.server
                d.file)
              w)
    answered-IsSound bytes outcomes d e h =
        let q =
          ask_peer file_id (pos w.piece) chunk_size remote (answered bytes outcomes) d.server
            d.file in
        let good = Good size d.manager in
        let chunk = chunk_of size content w.piece in
        let written = write_and_verify_chunk outcomes chunk (pos w.piece) (pos size) d.file in
        let same : write_and_verify_chunk outcomes bytes (pos w.piece) chunk_size d.file ≡ written =
          rw (m, honest_answer w.piece bytes l e) refl in
        asked-IsSound k remote w d q l
          (unfold ask_peer in
            subst (λ (r : Written). Agrees content good r.0) (sym same)
              (honest-Agrees content size p s c good outcomes w.piece d.file (exact w.piece l)
                h.agrees))
          (λ t.
            (let none_error : written.1 ≡ none = unfold ask_peer in ground (arith, t, same) in
              unfold ask_peer in
              subst (λ (r : Written). Agrees content (λ b. good b ⊎ InChunk size w.piece b) r.0)
                (sym same)
                (honest-success content size p s c good outcomes w.piece d.file (exact w.piece l)
                  h.agrees none_error)))
          h

    -- A question that ends in another way leaves the file as it is.
    pub ask-IsSound :
        (ending : Ending) (d : Download)
        → IsHonest content size (ask k w.piece remote ending)
        → IsSound content size n d
        → IsSound content size n (
            asked k remote d
              (ask_peer file_id (pos w.piece) chunk_size remote ending d.server d.file)
              w)
    unfolding ask_peer
    ask-IsSound (answered bytes outcomes) d honest h = answered-IsSound bytes outcomes d honest h
    ask-IsSound unsent d honest h =
        asked-IsSound k remote w d
          (ask_peer file_id (pos w.piece) chunk_size remote unsent d.server d.file) l h.agrees
          (λ t. absurd (ground (arith, t))) h
    ask-IsSound failed d honest h =
        asked-IsSound k remote w d
          (ask_peer file_id (pos w.piece) chunk_size remote failed d.server d.file) l h.agrees
          (λ t. absurd (ground (arith, t))) h
    ask-IsSound timed_out d honest h =
        asked-IsSound k remote w d
          (ask_peer file_id (pos w.piece) chunk_size remote timed_out d.server d.file) l h.agrees
          (λ t. absurd (ground (arith, t))) h

  pub give_up-IsSound :
      (k : ℕ) (w : Worker) (d : Download)
      → IsSound content size n d
      → IsSound content size n (worker_returns k w missing d)
  give_up-IsSound k w d h = record {
    pieces = mark_piece_status-IsPieces w.piece missing d.manager h.pieces;
    known = known-mark n d.manager w.piece missing h.known;
    batch = h.batch;
    workers = All-end_worker (λ v. v.piece < n) k d.workers h.workers;
    agrees =
        Agrees-mono content (Good size d.manager)
          (Good size (mark_piece_status w.piece missing d.manager)) d.file
          (Good-missing size d.manager w.piece) h.agrees;
  }
