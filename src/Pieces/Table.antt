-- ===== src/Pieces/Table.antt =====
-- Which indices a piece manager knows, and which of its pieces are verified, under its methods.
use file_share_p2p.Prelude.{
  ℕ, zero, suc, ◌+◌, Bool, false, ◌&&◌, Option, none, some, List, [], ◌∷◌, ◌≡◌, inl, inr, refl,
  arith, if◌then◌else◌, ◌==◌, ==_iff, nat_eq, leb, ltb, option_cases, Bool-cases, ap,
}
use file_share_p2p.Prelude.Int.{ℤ, pos_part}
use file_share_p2p.Prelude.Maps.{Map, get, get-put, is_some}
use file_share_p2p.GoString.{GoString}
use file_share_p2p.Pieces.Defs.{
  PieceStatus, is_verified, PieceInfo, PieceManager, fresh_pieces, new_piece_manager, add_peer,
  update_piece, add_peer_to, update_peer_pieces, mark_piece_status,
}

-- The piece is there and verified.
abbrev pub is_done : Option PieceInfo → Bool
is_done none = false
is_done (some piece) = is_verified piece.status

abbrev pub update : (PieceInfo → PieceInfo) → Option PieceInfo → Option PieceInfo
update f none = none
update f (some piece) = some (f piece)

pub get-update_piece :
    (i : ℕ) (f : PieceInfo → PieceInfo) (pieces : Map ℕ PieceInfo) (j : ℕ)
    → get j (update_piece i f pieces) ≡ (if j == i then update f (get j pieces) else get j pieces)
get-update_piece i f pieces j = elim (option_cases (get i pieces)) [
  | inl e ↦ elim (Bool-cases (j == i)) [
    | inl same ↦
        let k = (==_iff j i).0 same in
        unfold update_piece in ground (arith, e, same, ap (λ x. get x pieces) k)
    | inr other ↦ unfold update_piece in ground (arith, e, other)
  ]
  | inr (piece, e) ↦ elim (Bool-cases (j == i)) [
    | inl same ↦
        let k = (==_iff j i).0 same in
        unfold update_piece in
        ground (arith, e, same, ap (λ x. get x pieces) k, get-put i (f piece) pieces j)
    | inr other ↦ unfold update_piece in ground (arith, e, other, get-put i (f piece) pieces j)
  ]
]

pub get-mark_piece_status :
    (i : ℕ) (status : PieceStatus) (pm : PieceManager) (j : ℕ)
    → get j (mark_piece_status i status pm).pieces ≡ (
        if j == i
        then update (λ piece. record piece { status = status }) (get j pm.pieces)
        else get j pm.pieces)
unfolding mark_piece_status
get-mark_piece_status i status pm j =
    get-update_piece i (λ piece. record piece { status = status }) pm.pieces j

-- What a change of peers keeps.
abbrev pub SameStatus : Option PieceInfo → Option PieceInfo → Type 0
SameStatus a b = (is_some a ≡ is_some b) × (is_done a ≡ is_done b)

add_peer_to-SameStatus :
    (addr : GoString) (indices : List ℕ) (pieces : Map ℕ PieceInfo) (j : ℕ)
    → SameStatus (get j (add_peer_to addr indices pieces)) (get j pieces)
unfolding add_peer_to add_peer
add_peer_to-SameStatus addr [] pieces j = (refl, refl)
add_peer_to-SameStatus addr (i ∷ indices) pieces j =
    let step = get-update_piece i (add_peer addr) pieces j in
    let rest = add_peer_to-SameStatus addr indices (update_piece i (add_peer addr) pieces) j in
    (ground (arith, step, rest.0), ground (arith, step, rest.1))

pub update_peer_pieces-SameStatus :
    (addr : GoString) (indices : List ℕ) (pm : PieceManager) (j : ℕ)
    → SameStatus (get j (update_peer_pieces addr indices pm).pieces) (get j pm.pieces)
unfolding update_peer_pieces
update_peer_pieces-SameStatus addr indices pm = add_peer_to-SameStatus addr indices pm.pieces

-- NewPieceManager makes a missing piece for each index below the number.
fresh_lem :
    (i left : ℕ) (hashes : List GoString) (pieces : Map ℕ PieceInfo) (j : ℕ)
    → fresh_pieces i left hashes ≡ some pieces
    → (is_some (get j pieces) ≡ (leb i j && ltb j (i + left))) × (is_done (get j pieces) ≡ false)
unfolding fresh_pieces get nat_eq
fresh_lem i zero hashes pieces j e = ground arith
fresh_lem i (suc left) [] pieces j e = cc
fresh_lem i (suc left) (hash ∷ hashes) pieces j e =
    elim (option_cases (fresh_pieces (i + 1) left hashes)) [
      | inl n ↦ ground (arith, n)
      | inr (rest, p) ↦ ground (arith, p, fresh_lem (i + 1) left hashes rest j p)
    ]

pub new_piece_manager_lem :
    (n : ℤ) (hashes : List GoString) (pm : PieceManager) (j : ℕ)
    → new_piece_manager n hashes ≡ some pm
    → (is_some (get j pm.pieces) ≡ ltb j (pos_part n)) × (is_done (get j pm.pieces) ≡ false)
unfolding new_piece_manager
new_piece_manager_lem n hashes pm j e = elim (option_cases (fresh_pieces 0 (pos_part n) hashes)) [
  | inl p ↦ ground (arith, p)
  | inr (pieces, p) ↦ ground (arith, p, fresh_lem 0 (pos_part n) hashes pieces j p)
]
