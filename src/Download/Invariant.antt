-- ===== src/Download/Invariant.antt =====
-- server.go: what holds in every state of DownloadFile where the peers send the content's chunks.
use mathlib.Core.Option.{some-injective}
use file_share_p2p.Prelude.{
  ℕ, zero, suc, ◌+◌, ◌<◌, true, some, refl, List, [], ◌∷◌, ◌≡◌, ◌⊎◌, inl, inr, arith, ltb, length,
  nat_eq, ◌==◌, ==_iff, All, subst, Bool-cases,
}
use file_share_p2p.Prelude.Maps.{get, is_some}
use file_share_p2p.Chunks.Agree.{Agrees}
use file_share_p2p.Chunks.Honest.{InChunk}
use file_share_p2p.Pieces.Defs.{PieceStatus, missing, verified, PieceManager, mark_piece_status}
use file_share_p2p.Pieces.Invariant.{IsPieces}
use file_share_p2p.Pieces.Table.{is_done, get-mark_piece_status}
use file_share_p2p.Download.Defs.{Download, Worker, worker_at, set_worker, end_worker}

pub Agrees-mono :
    (content : List ℕ) (good good' : ℕ → Type 0) (file : List ℕ)
    → ((k : ℕ) → good' k → good k)
    → Agrees content good file
    → Agrees content good' file
Agrees-mono content good good' file f a = record {
  within = a.within;
  same = λ k l g. a.same k l (f k g);
}

pub All-end_worker :
    (P : Worker → Type 0) (k : ℕ) (workers : List Worker)
    → All P workers
    → All P (end_worker k workers)
unfolding end_worker
All-end_worker P k [] h = tt
All-end_worker P zero (w ∷ workers) (p, h) = h
All-end_worker P (suc k) (w ∷ workers) (p, h) = (p, All-end_worker P k workers h)

pub All-set_worker :
    (P : Worker → Type 0) (k : ℕ) (w : Worker) (workers : List Worker)
    → P w
    → All P workers
    → All P (set_worker k w workers)
unfolding set_worker
All-set_worker P k w [] q h = tt
All-set_worker P zero w (v ∷ workers) q (p, h) = (q, h)
All-set_worker P (suc k) w (v ∷ workers) q (p, h) = (p, All-set_worker P k w workers q h)

pub length-set_worker :
    (k : ℕ) (w : Worker) (workers : List Worker) → length (set_worker k w workers) ≡ length workers
unfolding set_worker
length-set_worker k w [] = refl
length-set_worker zero w (v ∷ workers) = refl
length-set_worker (suc k) w (v ∷ workers) = omega (arith, length-set_worker k w workers)

-- A worker that is found is for the piece, is one of the workers, and is one less when it ends.
pub record Found (k i : ℕ) (w : Worker) (workers : List Worker) : Type 1 where
  pub same : w.piece ≡ i
  pub member : (P : Worker → Type 0) → All P workers → P w
  pub one_less : length (end_worker k workers) + 1 ≡ length workers

pub worker_at-Found :
    (k i : ℕ) (w : Worker) (workers : List Worker)
    → worker_at k i workers ≡ some w
    → Found k i w workers
unfolding worker_at end_worker
worker_at-Found k i w [] e = cc
worker_at-Found zero i w (v ∷ workers) e = elim (Bool-cases (v.piece == i)) [
  | inl same ↦
      (let here : some v ≡ some w = ground (arith, same, e) in
        subst (λ x. Found zero i x (v ∷ workers)) (some-injective v w here)
          (record {
            same = (==_iff v.piece i).0 same;
            member = λ P h. h.0;
            one_less = omega arith;
          }))
  | inr other ↦ absurd (ground (arith, other, e))
]
worker_at-Found (suc k) i w (v ∷ workers) e =
    let f = worker_at-Found k i w workers e in
    record { same = f.same; member = λ P h. f.member P h.1; one_less = omega (arith, f.one_less) }

-- Byte k lies in a verified piece.
abbrev pub Good : ℕ → PieceManager → ℕ → Type 0
Good size pm k = (i : ℕ) × ((is_done (get i pm.pieces) ≡ true) × InChunk size i k)

module _ (content : List ℕ) (size n : ℕ) where
  -- The table has the pieces below n, the batch and the workers are about such pieces, and the file is no longer than the content and agrees with it in every verified
  -- piece.
  pub record IsSound (d : Download) : Type 0 where
    pub pieces : IsPieces d.manager.pieces
    pub known : (i : ℕ) → is_some (get i d.manager.pieces) ≡ ltb i n
    pub batch : All (λ i. i < n) d.batch
    pub workers : All (λ (w : Worker). w.piece < n) d.workers
    pub agrees : Agrees content (Good size d.manager) d.file

pub known-mark :
    (n : ℕ) (pm : PieceManager) (i : ℕ) (status : PieceStatus)
    → ((j : ℕ) → is_some (get j pm.pieces) ≡ ltb j n)
    → (j : ℕ) → is_some (get j (mark_piece_status i status pm).pieces) ≡ ltb j n
known-mark n pm i status h j = ground (arith, get-mark_piece_status i status pm j, h j)

-- No piece becomes verified by a mark as missing.
pub Good-missing :
    (size : ℕ) (pm : PieceManager) (i k : ℕ)
    → Good size (mark_piece_status i missing pm) k
    → Good size pm k
Good-missing size pm i k (j, (e, b)) =
    (j, (ground (arith, get-mark_piece_status i missing pm j, e), b))

-- A mark as verified makes no other piece verified.
pub Good-verified :
    (size : ℕ) (pm : PieceManager) (i k : ℕ)
    → Good size (mark_piece_status i verified pm) k
    → Good size pm k ⊎ InChunk size i k
Good-verified size pm i k (j, (e, b)) = elim (Bool-cases (j == i)) [
  | inl same ↦ inr (subst (λ x. InChunk size x k) ((==_iff j i).0 same) b)
  | inr other ↦ inl (j, (ground (arith, get-mark_piece_status i verified pm j, e, other), b))
]
