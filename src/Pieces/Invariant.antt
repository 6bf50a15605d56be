-- ===== src/Pieces/Invariant.antt =====
-- The invariant of the table of pieces, kept by every method.
use mathlib.Core.Option.{some-injective}
use file_share_p2p.Prelude.{
  ==_iff, ℕ, zero, suc, ◌+◌, ◌<◌, none, some, List, [], ◌∷◌, ◌≡◌, ◌⊎◌, inl, inr, refl, arith, ◌>>=◌,
  ◌==◌, nat_eq, IsNodup, insert-IsNodup, remove-IsNodup, option_cases, Bool-cases, sym, ◌∙◌, subst,
}
use file_share_p2p.Prelude.Int.{ℤ, pos_part}
use file_share_p2p.Prelude.Maps.{Map, get, put, get-put}
use file_share_p2p.GoString.{GoString, string_eq}
use file_share_p2p.Pieces.Defs.{
  PieceStatus, PieceInfo, PieceManager, fresh_piece, fresh_pieces, new_piece_manager, rarity,
  add_peer, update_piece, add_peer_to, update_peer_pieces, drop_peer, map_pieces, remove_peer,
  mark_piece_status,
}

-- A piece knows its index, has a set of peers, and ranks by its number of peers once it has had one.
pub record IsPiece (i : ℕ) (piece : PieceInfo) : Type 0 where
  pub indexed : piece.index ≡ i
  pub ranked : (piece.priority ≡ rarity piece.peers) ⊎ (piece.peers ≡ [])
  pub distinct : IsNodup piece.peers

-- Every entry is such a piece, and no index has two.
abbrev pub IsPieces : Map ℕ PieceInfo → Type 0
IsPieces [] = Unit
IsPieces ((i, piece) ∷ pieces) = IsPiece i piece × (get i pieces ≡ none) × IsPieces pieces

get-fresh_pieces :
    (i left : ℕ) (hashes : List GoString) (pieces : Map ℕ PieceInfo) (j : ℕ)
    → fresh_pieces i left hashes ≡ some pieces
    → j < i
    → get j pieces ≡ none
unfolding fresh_pieces get nat_eq
get-fresh_pieces i zero hashes pieces j e h = ground arith
get-fresh_pieces i (suc left) [] pieces j e h = cc
get-fresh_pieces i (suc left) (hash ∷ hashes) pieces j e h =
    elim (option_cases (fresh_pieces (i + 1) left hashes)) [
      | inl n ↦ ground arith
      | inr (rest, p) ↦ ground (arith, get-fresh_pieces (i + 1) left hashes rest j p)
    ]

fresh_piece-IsPiece : (i : ℕ) (hash : GoString) → IsPiece i (fresh_piece i hash)
fresh_piece-IsPiece i hash = record { indexed = refl; ranked = inr refl; distinct = tt }

fresh_pieces-IsPieces :
    (i left : ℕ) (hashes : List GoString) (pieces : Map ℕ PieceInfo)
    → fresh_pieces i left hashes ≡ some pieces
    → IsPieces pieces
unfolding fresh_pieces
fresh_pieces-IsPieces i zero hashes pieces e = subst IsPieces (some-injective _ _ e) tt
fresh_pieces-IsPieces i (suc left) [] pieces e = cc
fresh_pieces-IsPieces i (suc left) (hash ∷ hashes) pieces e =
    elim (option_cases (fresh_pieces (i + 1) left hashes)) [
      | inl n ↦ ground (arith, n)
      | inr (rest, p) ↦
          subst IsPieces (some-injective ((i, fresh_piece i hash) ∷ rest) pieces (ground arith)) (
            fresh_piece-IsPiece i hash,
            get-fresh_pieces (i + 1) left hashes rest i p (omega arith),
            fresh_pieces-IsPieces (i + 1) left hashes rest p,
          )
    ]

pub put-IsPieces :
    (i : ℕ) (piece : PieceInfo) (pieces : Map ℕ PieceInfo)
    → IsPiece i piece
    → IsPieces pieces
    → IsPieces (put i piece pieces)
unfolding put get
put-IsPieces i piece [] p h = (p, refl, tt)
put-IsPieces i piece ((j, q) ∷ pieces) p (hq, fresh, h) = elim (Bool-cases (i == j)) [
  | inl e ↦ rw e (p, ground (arith, (==_iff i j).0 e), h)
  | inr e ↦ rw e (
    hq,
    ground (arith, get-put i piece pieces j, (==_iff i j).1),
    put-IsPieces i piece pieces p h,
  )
]

pub get-IsPiece :
    (i : ℕ) (pieces : Map ℕ PieceInfo) (piece : PieceInfo)
    → IsPieces pieces
    → get i pieces ≡ some piece
    → IsPiece i piece
unfolding get
get-IsPiece i [] piece h e = cc
get-IsPiece i ((j, q) ∷ pieces) piece (hq, fresh, h) e = elim (Bool-cases (i == j)) [
  | inl p ↦
      subst (IsPiece i) (some-injective q piece (rw p at e))
        (subst (λ k. IsPiece k q) (sym ((==_iff i j).0 p)) hq)
  | inr n ↦ get-IsPiece i pieces piece h (rw n at e)
]

-- A change that keeps every piece a piece.
abbrev pub Keeps : (PieceInfo → PieceInfo) → Type 0
Keeps f = (i : ℕ) (piece : PieceInfo) → IsPiece i piece → IsPiece i (f piece)

update_piece-IsPieces :
    (i : ℕ) (f : PieceInfo → PieceInfo) (pieces : Map ℕ PieceInfo)
    → Keeps f
    → IsPieces pieces
    → IsPieces (update_piece i f pieces)
unfolding update_piece
update_piece-IsPieces i f pieces keep h = elim (option_cases (get i pieces)) [
  | inl e ↦ rw (e, update_piece) h
  | inr (piece, e) ↦
      rw (e, update_piece)
        (put-IsPieces i (f piece) pieces (keep i piece (get-IsPiece i pieces piece h e)) h)
]

pub get-map_pieces :
    (f : PieceInfo → PieceInfo) (pieces : Map ℕ PieceInfo) (i : ℕ)
    → get i (map_pieces f pieces) ≡ (get i pieces >>= λ piece. some (f piece))
unfolding map_pieces get
get-map_pieces f [] i = refl
get-map_pieces f ((j, q) ∷ pieces) i = elim (Bool-cases (i == j)) [
  | inl e ↦ rw e refl
  | inr e ↦ rw e (get-map_pieces f pieces i)
]

map_pieces-IsPieces :
    (f : PieceInfo → PieceInfo) (pieces : Map ℕ PieceInfo)
    → Keeps f
    → IsPieces pieces
    → IsPieces (map_pieces f pieces)
unfolding map_pieces
map_pieces-IsPieces f [] keep h = tt
map_pieces-IsPieces f ((j, q) ∷ pieces) keep (hq, fresh, h) =
    (keep j q hq, get-map_pieces f pieces j ∙ rw fresh refl, map_pieces-IsPieces f pieces keep h)

add_peer-Keeps : (addr : GoString) → Keeps (add_peer addr)
unfolding add_peer
add_peer-Keeps addr i piece p = record {
  indexed = p.indexed;
  ranked = inl refl;
  distinct = insert-IsNodup addr piece.peers p.distinct;
}

drop_peer-Keeps : (addr : GoString) → Keeps (drop_peer addr)
unfolding drop_peer
drop_peer-Keeps addr i piece p = record {
  indexed = p.indexed;
  ranked = inl refl;
  distinct = remove-IsNodup addr piece.peers p.distinct;
}

pub set_status-Keeps : (status : PieceStatus) → Keeps (λ piece. record piece { status = status })
set_status-Keeps status i piece p = record {
  indexed = p.indexed;
  ranked = p.ranked;
  distinct = p.distinct;
}

add_peer_to-IsPieces :
    (addr : GoString) (indices : List ℕ) (pieces : Map ℕ PieceInfo)
    → IsPieces pieces
    → IsPieces (add_peer_to addr indices pieces)
unfolding add_peer_to
add_peer_to-IsPieces addr [] pieces h = h
add_peer_to-IsPieces addr (i ∷ indices) pieces h =
    add_peer_to-IsPieces addr indices _
      (update_piece-IsPieces i (add_peer addr) pieces (add_peer-Keeps addr) h)

pub new_piece_manager-IsPieces :
    (n : ℤ) (hashes : List GoString) (pm : PieceManager)
    → new_piece_manager n hashes ≡ some pm
    → IsPieces pm.pieces
unfolding new_piece_manager
new_piece_manager-IsPieces n hashes pm e =
    elim (option_cases (fresh_pieces 0 (pos_part n) hashes)) [
      | inl p ↦ ground arith
      | inr (pieces, p) ↦ fresh_pieces-IsPieces 0 (pos_part n) hashes pm.pieces (ground arith)
    ]

pub update_peer_pieces-IsPieces :
    (addr : GoString) (indices : List ℕ) (pm : PieceManager)
    → IsPieces pm.pieces
    → IsPieces (update_peer_pieces addr indices pm).pieces
unfolding update_peer_pieces
update_peer_pieces-IsPieces addr indices pm = add_peer_to-IsPieces addr indices pm.pieces

pub remove_peer-IsPieces :
    (addr : GoString) (pm : PieceManager)
    → IsPieces pm.pieces
    → IsPieces (remove_peer addr pm).pieces
unfolding remove_peer
remove_peer-IsPieces addr pm = map_pieces-IsPieces (drop_peer addr) pm.pieces (drop_peer-Keeps addr)

pub mark_piece_status-IsPieces :
    (i : ℕ) (status : PieceStatus) (pm : PieceManager)
    → IsPieces pm.pieces
    → IsPieces (mark_piece_status i status pm).pieces
unfolding mark_piece_status
mark_piece_status-IsPieces i status pm =
    update_piece-IsPieces i (λ piece. record piece { status = status }) pm.pieces
      (set_status-Keeps status)
