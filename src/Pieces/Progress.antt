-- ===== src/Pieces/Progress.antt =====
-- When a download is complete, when there is something to request, and how pieces rank.
use file_share_p2p.Prelude.{
  ℕ, ◌<◌, ◌+◌, true, false, ◌&&◌, ◌||◌, some, [], ◌∷◌, ◌≡◌, ◌↔◌, ◌⊎◌, refl, arith, if◌then◌else◌,
  ◌==◌, nat_eq, length, ltb, contains, not, contains-remove, ◌∙◌,
}
use file_share_p2p.Prelude.Int.{ltb_ℤ}
use file_share_p2p.Prelude.Maps.{Map, get}
use file_share_p2p.GoString.{GoString, string_eq}
use file_share_p2p.Pieces.Defs.{
  PieceStatus, missing, verified, is_missing, is_requested, is_verified, PieceInfo, PieceManager,
  candidates, eligible, all_verified, is_complete, drop_peer, remove_peer,
}
use file_share_p2p.Pieces.Invariant.{IsPiece, IsPieces, get-map_pieces}

verified_of_test : (s : PieceStatus) → is_verified s ≡ true → s ≡ verified
verified_of_test s h = ground arith

all_verified-get :
    (pieces : Map ℕ PieceInfo) (i : ℕ) (piece : PieceInfo)
    → all_verified pieces ≡ true
    → get i pieces ≡ some piece
    → piece.status ≡ verified
unfolding all_verified get
all_verified-get [] i piece h e = cc
all_verified-get ((j, q) ∷ pieces) i piece h e =
    ground (arith, verified_of_test q.status, all_verified-get pieces i piece)

get-all_verified :
    (pieces : Map ℕ PieceInfo)
    → IsPieces pieces
    → ((i : ℕ) (piece : PieceInfo) → get i pieces ≡ some piece → piece.status ≡ verified)
    → all_verified pieces ≡ true
unfolding all_verified
get-all_verified [] h all = refl
get-all_verified ((j, q) ∷ pieces) (hq, fresh, h) all = ground (
  arith,
  all j q (unfold get in ground arith),
  get-all_verified pieces h (λ i piece e. all i piece (unfold get in ground arith)),
)

-- IsComplete answers true exactly where every piece of the table is verified.
pub is_complete_iff :
    (pm : PieceManager)
    → IsPieces pm.pieces
    → (is_complete pm ≡ true)
      ↔ ((i : ℕ) (piece : PieceInfo) → get i pm.pieces ≡ some piece → piece.status ≡ verified)
unfolding is_complete
is_complete_iff pm valid =
    (λ h i piece. all_verified-get pm.pieces i piece h, get-all_verified pm.pieces valid)

-- Some peer has every piece that is not verified, and such a piece is missing or requested: the
-- program never sets another state.
abbrev pub IsAvailable : PieceInfo → Type 0
IsAvailable piece =
    (is_verified piece.status ≡ true)
    ⊎ ((is_missing piece.status || is_requested piece.status ≡ true) × (0 < length piece.peers))

abbrev pub AllAvailable : Map ℕ PieceInfo → Type 0
AllAvailable [] = Unit
AllAvailable ((_, piece) ∷ pieces) = IsAvailable piece × AllAvailable pieces

some_candidate :
    (pieces : Map ℕ PieceInfo)
    → AllAvailable pieces
    → all_verified pieces ≡ false
    → 0 < length (candidates is_missing pieces) + length (candidates is_requested pieces)
unfolding all_verified candidates
some_candidate [] h e = cc
some_candidate ((i, piece) ∷ pieces) (a, h) e = ground (arith, some_candidate pieces h)

-- While the download is not complete and every unverified piece has a peer, there is a piece to
-- request.
pub eligible_pos :
    (pm : PieceManager)
    → AllAvailable pm.pieces
    → is_complete pm ≡ false
    → 0 < length (eligible pm.pieces)
unfolding is_complete eligible
eligible_pos pm h e = ground (arith, some_candidate pm.pieces h)

-- Of two pieces that have peers, the one with fewer peers has the higher priority.
pub priority_lem :
    (i j : ℕ) (p q : PieceInfo)
    → IsPiece i p
    → IsPiece j q
    → 0 < length p.peers
    → 0 < length q.peers
    → ltb_ℤ p.priority q.priority ≡ ltb (length q.peers) (length p.peers)
priority_lem i j p q vp vq hp hq = ground arith

-- RemovePeer takes the peer, and no other, from every piece. It makes every requested piece missing
-- again, whichever peer it was requested from, and leaves the other states as they are.
pub status-remove_peer :
    (addr : GoString) (pm : PieceManager) (i : ℕ) (piece : PieceInfo)
    → get i pm.pieces ≡ some piece
    → (after : PieceInfo) × (get i (remove_peer addr pm).pieces ≡ some after)
      × (after.status ≡ (if is_requested piece.status then missing else piece.status))
      × ((q : GoString) → contains q after.peers ≡ (not (q == addr) && contains q piece.peers))
unfolding remove_peer drop_peer
status-remove_peer addr pm i piece e = (
  drop_peer addr piece,
  get-map_pieces (drop_peer addr) pm.pieces i ∙ rw e refl,
  refl,
  λ q. contains-remove addr q piece.peers,
)
