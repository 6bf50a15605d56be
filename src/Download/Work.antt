-- ===== src/Download/Work.antt =====
-- server.go: the workers of one batch, one after the other, each with a peer that answers.
use mathlib.Core.Option.{some-injective}
use file_share_p2p.Prelude.{
  ℕ, ◌*◌, ◌^◌, ◌≤◌, ◌<◌, true, false, none, some, List, [], ◌∷◌, ◌≡◌, inl, inr, refl, ap, ◌∙◌,
  arith, ltb, ◌==◌, ==_refl, length, contains, insert, remove, nat_eq, All, subst, option_cases,
  Bool-cases,
}
use file_share_p2p.Prelude.Int.{pos}
use file_share_p2p.Prelude.Maps.{get, is_some}
use file_share_p2p.GoString.{GoString, string_eq}
use file_share_p2p.Metadata.{Metadata}
use file_share_p2p.Chunks.Defs.{all, write_and_verify_chunk, read_from}
use file_share_p2p.Chunks.Write.{write_and_verify_chunk_lem}
use file_share_p2p.Chunks.Transfer.{chunk_of, start_offset_small, length-chunk_of, read_from_lem}
use file_share_p2p.Chunks.Defs.{write_at}
use file_share_p2p.Pieces.Defs.{verified, PieceInfo, PieceManager, mark_piece_status}
use file_share_p2p.Pieces.Invariant.{IsPieces, mark_piece_status-IsPieces}
use file_share_p2p.Pieces.Progress.{IsAvailable}
use file_share_p2p.Pieces.Table.{is_done, get-mark_piece_status}
use file_share_p2p.Server.Download.{answered, ask_peer, add_handler}
use file_share_p2p.Download.Defs.{
  Download, Event, launch, attempt, ask, launch_worker, worker_at, set_worker, end_worker, remotes,
  apply_event, run_events,
}
use file_share_p2p.Download.Answers.{IsHonest}
use file_share_p2p.Download.Invariant.{known-mark}

-- Every unverified piece of the table is missing or requested, and has a peer.
abbrev pub Available : PieceManager → Type 0
Available pm = (j : ℕ) (piece : PieceInfo) → get j pm.pieces ≡ some piece → IsAvailable piece

-- A state between the batches: no worker runs, the peer is the first of those that are connected, and
-- the table has the pieces below n.
pub record IsIdle (n : ℕ) (remote : GoString) (d : Download) : Type 0 where
  pub pieces : IsPieces d.manager.pieces
  pub known : (j : ℕ) → is_some (get j d.manager.pieces) ≡ ltb j n
  pub available : Available d.manager
  pub idle : d.workers ≡ []
  pub running : d.is_waiting ≡ false
  pub free : d.sem ≡ 0
  pub connected : (others : List GoString) × (remotes d.server.peers ≡ remote ∷ others)

-- What is verified stays so.
abbrev pub Grows : PieceManager → PieceManager → Type 0
Grows before after =
    (j : ℕ) → is_done (get j before.pieces) ≡ true → is_done (get j after.pieces) ≡ true

marked-Available :
    (pm : PieceManager) (i : ℕ) → Available pm → Available (mark_piece_status i verified pm)
marked-Available pm i h j piece e = elim (Bool-cases (j == i)) [
  | inl same ↦ elim (option_cases (get j pm.pieces)) [
    | inl f ↦ absurd (ground (arith, get-mark_piece_status i verified pm j, same, f, e))
    | inr (q, f) ↦
        (let after : PieceInfo = record q { status = verified } in
          let found : some after ≡ some piece =
            ground (arith, get-mark_piece_status i verified pm j, same, f, e) in
          subst IsAvailable (some-injective after piece found) (inl refl))
  ]
  | inr other ↦ h j piece (ground (arith, get-mark_piece_status i verified pm j, other, e))
]

module _ (content : List ℕ) (size n : ℕ) (p : 1 ≤ size) (s : size < 2 ^ 63)
    (c : length content < 2 ^ 63) (exact : (i : ℕ) → i < n → i * size < length content)
    (file_id remote : GoString) (meta : Metadata) (m : meta.chunk_size ≡ pos size) where
  -- The peer answers with the chunk, and the first write is whole.
  abbrev pub good : ℕ → Event
  good i = ask 0 i remote (answered (chunk_of size content i) (λ attempt. all))

  abbrev pub work : List ℕ → List Event
  work [] = []
  work (i ∷ batch) = launch ∷ attempt 0 i ∷ good i ∷ work batch

  -- The state after one piece.
  abbrev fetched : ℕ → List ℕ → Download → Download
  fetched i batch d = record d {
    server = add_handler file_id (pos i) d.server;
    manager = mark_piece_status i verified d.manager;
    file = write_at (i * size) (chunk_of size content i) d.file;
    batch = batch;
    workers = [];
    sem = 0;
    active = remove i (insert i d.active);
  }

  written_whole :
      (i : ℕ) (file : List ℕ)
      → i < n
      → write_and_verify_chunk (λ attempt. all) (chunk_of size content i) (pos i) (pos size) file
        ≡ (write_at (i * size) (chunk_of size content i) file, none)
  written_whole i file h =
      write_and_verify_chunk_lem (λ attempt. all) (chunk_of size content i) (pos i) (pos size) file
        (i * size) (ground (arith, (length-chunk_of size content i).0))
        (start_offset_small i size p s (omega (arith, exact i h, c))) refl

  fetch_runs :
      (i : ℕ) (batch : List ℕ) (events : List Event) (d : Download)
      → i < n
      → IsIdle n remote d
      → d.batch ≡ i ∷ batch
      → run_events file_id meta (launch ∷ attempt 0 i ∷ good i ∷ events) d
        ≡ run_events file_id meta events (fetched i batch d)
  unfolding run_events apply_event launch_worker worker_at set_worker end_worker ask_peer contains
  fetch_runs i batch events d l h b =
      let (others, first) = h.connected in
      ground
        (arith, h.idle, h.free, first, b, m, ==_refl i, ==_refl remote, written_whole i d.file l)

  marked-Grows : (pm : PieceManager) (i : ℕ) → Grows pm (mark_piece_status i verified pm)
  marked-Grows pm i j e = elim (option_cases (get j pm.pieces)) [
    | inl f ↦ absurd (ground (arith, f, e))
    | inr (piece, f) ↦ ground (arith, get-mark_piece_status i verified pm j, f, e)
  ]

  marked_done :
      (pm : PieceManager) (i : ℕ)
      → is_some (get i pm.pieces) ≡ true
      → is_done (get i (mark_piece_status i verified pm).pieces) ≡ true
  marked_done pm i e = elim (option_cases (get i pm.pieces)) [
    | inl f ↦ absurd (ground (arith, f, e))
    | inr (piece, f) ↦ ground (arith, get-mark_piece_status i verified pm i, ==_refl i, f)
  ]

  fetched-IsIdle :
      (i : ℕ) (batch : List ℕ) (d : Download)
      → IsIdle n remote d
      → IsIdle n remote (fetched i batch d)
  fetched-IsIdle i batch d h = record {
    pieces = mark_piece_status-IsPieces i verified d.manager h.pieces;
    known = known-mark n d.manager i verified h.known;
    available = marked-Available d.manager i h.available;
    idle = refl;
    running = h.running;
    free = refl;
    connected = h.connected;
  }

  -- Where all pieces of a batch are below n, the workers fetch them all.
  pub work_runs :
      (batch : List ℕ) (d : Download)
      → IsIdle n remote d
      → All (λ i. i < n) batch
      → d.batch ≡ batch
      → (d' : Download) × (run_events file_id meta (work batch) d ≡ some d')
        × IsIdle n remote d'
        × (d'.batch ≡ [])
        × Grows d.manager d'.manager
        × All (λ i. is_done (get i d'.manager.pieces) ≡ true) batch
  unfolding run_events
  work_runs [] d h below e = (d, refl, h, e, (λ j g. g), tt)
  work_runs (i ∷ batch) d h (l, below) e =
      let next = fetched i batch d in
      let (d', runs, idle, done, grows, all_done) =
        work_runs batch next (fetched-IsIdle i batch d h) below refl in
      let here = marked_done d.manager i (ground (arith, h.known i, l)) in
      (
        d',
        fetch_runs i batch (work batch) d l h e ∙ runs,
        idle,
        done,
        (λ j g. grows j (marked-Grows d.manager i j g)),
        (grows i here, all_done),
      )

  pub work-IsHonest :
      (batch : List ℕ) → All (λ i. i < n) batch → All (IsHonest content size) (work batch)
  work-IsHonest [] h = tt
  work-IsHonest (i ∷ batch) (l, h) =
      let o = start_offset_small i size p s (omega (arith, exact i l, c)) in
      (
        tt,
        (
          tt,
          (
            ap (read_from size content) o ∙ read_from_lem size (i * size) content (exact i l),
            work-IsHonest batch h,
          ),
        ),
      )
