-- ===== src/Pieces/Candidates.antt =====
-- What GetNextPieces chooses from, and what marking the chosen pieces does.
use file_share_p2p.Prelude.{
  ℕ, ◌<◌, Bool, true, ◌&&◌, Option, none, some, List, [], ◌∷◌, map, ◌≡◌, refl, arith, if◌then◌else◌,
  nat_eq, length, ltb, eqb, contains, All, All-map, option_cases, Bool-cases, inl, inr,
}
use file_share_p2p.Prelude.Maps.{Map, get, put, get-put, is_some}
use file_share_p2p.Pieces.Defs.{
  PieceStatus, requested, is_missing, is_requested, PieceInfo, candidates, eligible, mark_requested,
}
use file_share_p2p.Pieces.Invariant.{IsPieces, get-IsPiece, put-IsPieces, set_status-Keeps}

-- A piece of the table in a state that passes the test, and with a peer to ask.
abbrev pub IsCandidate : (PieceStatus → Bool) → Map ℕ PieceInfo → PieceInfo → Type 0
IsCandidate test pieces piece =
    (get piece.index pieces ≡ some piece) × (test piece.status ≡ true) × (0 < length piece.peers)

later-IsCandidate :
    (test : PieceStatus → Bool) (i : ℕ) (q : PieceInfo) (pieces : Map ℕ PieceInfo)
    → get i pieces ≡ none
    → (piece : PieceInfo) → IsCandidate test pieces piece
    → IsCandidate test ((i, q) ∷ pieces) piece
unfolding get
later-IsCandidate test i q pieces fresh piece (found, t, p) = (ground arith, t, p)

pub candidates-IsCandidate :
    (test : PieceStatus → Bool) (pieces : Map ℕ PieceInfo)
    → IsPieces pieces
    → All (IsCandidate test pieces) (candidates test pieces)
unfolding candidates
candidates-IsCandidate test [] h = tt
candidates-IsCandidate test ((i, q) ∷ pieces) (hq, fresh, h) =
    let rest =
      All-map {P = IsCandidate test pieces} {Q = IsCandidate test ((i, q) ∷ pieces)}
        (later-IsCandidate test i q pieces fresh) (candidates test pieces)
        (candidates-IsCandidate test pieces h) in
    elim (Bool-cases (test q.status && ltb 0 (length q.peers))) [
      | inl e ↦ rw e ((unfold get in ground (arith, hq.indexed), ground arith, ground arith), rest)
      | inr e ↦ rw e rest
    ]

-- The test that the eligible pieces pass: missing, or where no missing piece has a peer, requested.
abbrev pub wanted : Map ℕ PieceInfo → PieceStatus → Bool
wanted pieces = if eqb (length (candidates is_missing pieces)) 0 then is_requested else is_missing

pub eligible-IsCandidate :
    (pieces : Map ℕ PieceInfo)
    → IsPieces pieces
    → All (IsCandidate (wanted pieces) pieces) (eligible pieces)
unfolding eligible
eligible-IsCandidate pieces h = elim (Bool-cases (eqb (length (candidates is_missing pieces)) 0)) [
  | inl e ↦ rw e (candidates-IsCandidate is_requested pieces h)
  | inr e ↦ rw e (candidates-IsCandidate is_missing pieces h)
]

abbrev pub indices : List PieceInfo → List ℕ
indices = map (λ piece. piece.index)

-- What marking does to the piece at one index.
abbrev pub request : Option PieceInfo → Option PieceInfo
request none = none
request (some piece) = some (record piece { status = requested })

-- Marking the pieces of a list, each of which is in the table, finds them all, changes the status of
-- these and nothing else, and keeps the invariant.
pub mark_requested_lem :
    (chosen : List PieceInfo) (pieces : Map ℕ PieceInfo)
    → All (λ piece. is_some (get piece.index pieces) ≡ true) chosen
    → IsPieces pieces
    → (after : Map ℕ PieceInfo) × (mark_requested chosen pieces ≡ some after)
      × ((j : ℕ)
          → get j after
            ≡ (if contains j (indices chosen) then request (get j pieces) else get j pieces))
      × IsPieces after
unfolding mark_requested contains
mark_requested_lem [] pieces h valid = (pieces, refl, λ j. refl, valid)
mark_requested_lem (piece ∷ chosen) pieces (here, later) valid =
    elim (option_cases (get piece.index pieces)) [
      | inl e ↦ absurd (ground arith)
      | inr (found, e) ↦
          let marked = put piece.index (record found { status = requested }) pieces in
          let (after, runs, effect, kept) =
            mark_requested_lem chosen marked
              (All-map {P = λ (x : PieceInfo). is_some (get x.index pieces) ≡ true}
                {Q = λ (x : PieceInfo). is_some (get x.index marked) ≡ true}
                (λ x p.
                  ground (
                    arith,
                    get-put piece.index (record found { status = requested }) pieces x.index,
                  ))
                chosen later)
              (put-IsPieces piece.index _ pieces
                (set_status-Keeps requested piece.index found
                  (get-IsPiece piece.index pieces found valid e))
                valid) in
          (
            after,
            rw e runs,
            λ j. ground (
              arith,
              effect j,
              get-put piece.index (record found { status = requested }) pieces j,
              e,
            ),
            kept,
          )
    ]
