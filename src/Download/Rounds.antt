-- ===== src/Download/Rounds.antt =====
-- server.go: a round of the main loop in a state between two batches.
use mathlib.Core.List.Permᴰ
use mathlib.Core.Option.{some-injective}
use file_share_p2p.Prelude.{
  ℕ, ◌*◌, ◌<◌, Bool, true, false, some, List, [], ◌∷◌, ◌≡◌, inl, inr, refl, sym, ap, arith, eqb,
  ltb, if◌then◌else◌, ◌==◌, ==_iff, length, contains, nat_eq, All, subst, Bool-cases,
}
use file_share_p2p.Prelude.Maps.{Map, get, is_some}
use file_share_p2p.GoString.{GoString}
use file_share_p2p.Pieces.Defs.{
  PieceStatus, missing, requested, received, verified, is_missing, is_requested, is_verified,
  PieceInfo, PieceManager, candidates, is_complete,
}
use file_share_p2p.Pieces.Invariant.{IsPieces}
use file_share_p2p.Pieces.Candidates.{wanted, IsCandidate, indices, request}
use file_share_p2p.Pieces.Selection.{get_next_pieces_lem}
use file_share_p2p.Pieces.Progress.{IsAvailable, AllAvailable, eligible_pos}
use file_share_p2p.Pieces.Table.{is_done}
use file_share_p2p.Download.Defs.{
  Download, remotes, plan_round, with_batch, max_concurrent, request_multiple,
}
use file_share_p2p.Download.Work.{Available, IsIdle, Grows}

-- The two ways to say that all pieces are available.
AllAvailable-get :
    (pieces : Map ℕ PieceInfo)
    → IsPieces pieces
    → ((j : ℕ) (piece : PieceInfo) → get j pieces ≡ some piece → IsAvailable piece)
    → AllAvailable pieces
AllAvailable-get [] h all = tt
AllAvailable-get ((i, q) ∷ pieces) (hq, fresh, h) all = (
  all i q (unfold get in ground arith),
  AllAvailable-get pieces h (λ j piece e. all j piece (unfold get in ground arith)),
)

pick_verified : (b : Bool) → (if b then is_requested else is_missing) verified ≡ false
pick_verified true = refl
pick_verified false = refl

wanted_open :
    (pieces : Map ℕ PieceInfo) (status : PieceStatus)
    → wanted pieces status ≡ true
    → is_verified status ≡ false
wanted_open pieces missing e = refl
wanted_open pieces requested e = refl
wanted_open pieces received e = refl
wanted_open pieces verified e =
    let x = pick_verified (eqb (length (candidates is_missing pieces)) 0) in absurd (cc)

-- A chosen index is that of a piece that is not verified and has a peer.
candidate_at :
    (pieces : Map ℕ PieceInfo) (chosen : List PieceInfo) (j : ℕ)
    → All (IsCandidate (wanted pieces) pieces) chosen
    → contains j (indices chosen) ≡ true
    → (piece : PieceInfo) × (get j pieces ≡ some piece)
      × (is_verified piece.status ≡ false)
      × (0 < length piece.peers)
unfolding contains
candidate_at pieces [] j h e = cc
candidate_at pieces (piece ∷ chosen) j ((found, test, peers), h) e =
    elim (Bool-cases (j == piece.index)) [
      | inl same ↦ (
        piece,
        subst (λ k. get k pieces ≡ some piece) (sym ((==_iff j piece.index).0 same)) found,
        wanted_open pieces piece.status test,
        peers,
      )
      | inr other ↦ candidate_at pieces chosen j h (ground (arith, other, e))
    ]

chosen_below :
    (n : ℕ) (pieces : Map ℕ PieceInfo) (chosen : List PieceInfo)
    → ((j : ℕ) → is_some (get j pieces) ≡ ltb j n)
    → All (IsCandidate (wanted pieces) pieces) chosen
    → All (λ i. i < n) (indices chosen)
chosen_below n pieces [] known h = tt
chosen_below n pieces (piece ∷ chosen) known (q, h) =
    (ground (arith, known piece.index, q.0), chosen_below n pieces chosen known h)

first_of :
    (chosen : List PieceInfo)
    → 0 < length chosen
    → (piece : PieceInfo) × (rest : List PieceInfo) × (chosen ≡ piece ∷ rest)
first_of [] h = absurd (omega arith)
first_of (piece ∷ rest) h = (piece, rest, refl)

-- Whether or not a piece is chosen.
planned-Available :
    (before after : PieceManager) (chosen : List PieceInfo)
    → All (IsCandidate (wanted before.pieces) before.pieces) chosen
    → ((j : ℕ)
        → get j after.pieces ≡ (
            if contains j (indices chosen)
            then request (get j before.pieces)
            else get j before.pieces))
    → Available before
    → Available after
planned-Available before after chosen good effect h j piece e =
    elim (Bool-cases (contains j (indices chosen))) [
      | inl f ↦
          (let (q, found, _, peers) = candidate_at before.pieces chosen j good f in
            let next : PieceInfo = record q { status = requested } in
            let same : some next ≡ some piece = ground (arith, effect j, f, found, e) in
            subst IsAvailable (some-injective next piece same) (inr (refl, peers)))
      | inr f ↦ h j piece (ground (arith, effect j, f, e))
    ]

planned-Grows :
    (before after : PieceManager) (chosen : List PieceInfo)
    → All (IsCandidate (wanted before.pieces) before.pieces) chosen
    → ((j : ℕ)
        → get j after.pieces ≡ (
            if contains j (indices chosen)
            then request (get j before.pieces)
            else get j before.pieces))
    → Grows before after
planned-Grows before after chosen good effect j e =
    elim (Bool-cases (contains j (indices chosen))) [
      | inl f ↦
          (let (q, found, unverified, _) = candidate_at before.pieces chosen j good f in
            absurd (ground (arith, found, unverified, e)))
      | inr f ↦ ground (arith, effect j, f, e)
    ]

remotes_pos :
    (peers : Map GoString GoString) (remote : GoString) (others : List GoString)
    → remotes peers ≡ remote ∷ others
    → eqb (length peers) 0 ≡ false
unfolding remotes
remotes_pos [] remote others e = cc
remotes_pos (peer ∷ peers) remote others e = ground arith

-- A round of the main loop in an idle state of a download that is not complete starts a batch with a
-- piece that is not verified.
pub plan_runs :
    (n : ℕ) (remote : GoString) (d : Download)
    → IsIdle n remote d
    → d.batch ≡ []
    → is_complete d.manager ≡ false
    → (d' : Download) × (i : ℕ) × (rest : List ℕ) × (plan_round (λ pieces. pieces) d ≡ some d')
      × IsIdle n remote d'
      × Grows d.manager d'.manager
      × (d'.batch ≡ i ∷ rest)
      × All (λ j. j < n) (i ∷ rest)
      × (is_done (get i d.manager.pieces) ≡ false)
unfolding plan_round
plan_runs n remote d h b e =
    let m = max_concurrent * request_multiple (length d.server.peers) in
    let some_peer = remotes_pos d.server.peers remote h.connected.0 h.connected.1 in
    let (after, chosen, runs, count, good, effect, kept) =
      get_next_pieces_lem (λ pieces. pieces) m d.manager (Permᴰ.refl _) h.pieces in
    let some_piece =
      eligible_pos d.manager (AllAvailable-get d.manager.pieces h.pieces h.available) e in
    let (piece, rest, split) = first_of chosen (ground (arith, count, some_piece)) in
    let (first, _) =
      subst (All (IsCandidate (wanted d.manager.pieces) d.manager.pieces)) split good in
    (
      with_batch d (after, chosen),
      piece.index,
      indices rest,
      ground (arith, b, e, h.running, some_peer, runs),
      record {
        pieces = kept;
        known = λ j. ground (arith, effect j, h.known j);
        available = planned-Available d.manager after chosen good effect h.available;
        idle = h.idle;
        running = h.running;
        free = h.free;
        connected = h.connected;
      },
      planned-Grows d.manager after chosen good effect,
      ap indices split,
      subst (All (λ j. j < n)) (ap indices split)
          (chosen_below n d.manager.pieces chosen h.known good),
      ground (arith, first.0, wanted_open d.manager.pieces piece.status first.1),
    )
