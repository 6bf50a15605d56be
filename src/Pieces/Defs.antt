-- ===== src/Pieces/Defs.antt =====
-- piece_manager.go: PieceStatus, PieceInfo, PieceManager and its methods.
use file_share_p2p.Prelude.{
  ℕ, zero, suc, ◌+◌, Bool, true, false, ◌&&◌, Option, none, some, List, [], ◌∷◌, ltb, eqb,
  if◌then◌else◌, ◌>>=◌, take, length, insert, remove, nat_eq,
}
use file_share_p2p.Prelude.Int.{ℤ, pos, pos_part, sub_ℕ}
use file_share_p2p.Prelude.Maps.{Map, get, put}
use file_share_p2p.GoString.{GoString, string_eq}

pub data PieceStatus : Type 0 where
  missing requested received verified : PieceStatus

-- The test `status == s` for two of the constants.
abbrev pub is_missing : PieceStatus → Bool
is_missing missing = true
is_missing _ = false

abbrev pub is_requested : PieceStatus → Bool
is_requested requested = true
is_requested _ = false

abbrev pub is_verified : PieceStatus → Bool
is_verified verified = true
is_verified _ = false

-- `Peers` is a `map[string]bool` in which only `true` is stored.
pub record PieceInfo : Type 0 where
  pub index : ℕ
  pub size : ℕ
  pub hash : GoString
  pub status : PieceStatus
  pub peers : List GoString
  pub priority : ℤ

pub record PieceManager : Type 0 where
  pub pieces : Map ℕ PieceInfo
  pub num_pieces : ℤ

-- The piece that NewPieceManager stores at `i`.
abbrev pub fresh_piece : ℕ → GoString → PieceInfo
fresh_piece i hash = record {
  index = i;
  size = 0;
  hash = hash;
  status = missing;
  peers = [];
  priority = pos 0;
}

-- The loop of NewPieceManager from `i`, with `left` rounds to go; `none` is the panic of `hashes[i]`.
unfoldable pub fresh_pieces : ℕ → ℕ → List GoString → Option (Map ℕ PieceInfo)
fresh_pieces i zero hashes = some []
fresh_pieces i (suc left) [] = none
fresh_pieces i (suc left) (hash ∷ hashes) = do
  rest ← fresh_pieces (i + 1) left hashes
  some ((i, fresh_piece i hash) ∷ rest)

-- NewPieceManager. The loop runs no round for a negative number.
unfoldable pub new_piece_manager : ℤ → List GoString → Option PieceManager
new_piece_manager n hashes = do
  pieces ← fresh_pieces 0 (pos_part n) hashes
  some (record { pieces = pieces; num_pieces = n })

-- `1000 - len(piece.Peers)`
abbrev pub rarity : List GoString → ℤ
rarity peers = sub_ℕ 1000 (length peers)

-- UpdatePeerPieces, one round.
unfoldable pub add_peer : GoString → PieceInfo → PieceInfo
add_peer addr piece =
    let peers = insert addr piece.peers in record piece { peers = peers; priority = rarity peers }

unfoldable pub update_piece : ℕ → (PieceInfo → PieceInfo) → Map ℕ PieceInfo → Map ℕ PieceInfo
update_piece i f pieces = elim (get i pieces) [
  | none ↦ pieces
  | some piece ↦ put i (f piece) pieces
]

unfoldable pub add_peer_to : GoString → List ℕ → Map ℕ PieceInfo → Map ℕ PieceInfo
add_peer_to addr [] pieces = pieces
add_peer_to addr (i ∷ indices) pieces =
    add_peer_to addr indices (update_piece i (add_peer addr) pieces)

unfoldable pub update_peer_pieces : GoString → List ℕ → PieceManager → PieceManager
update_peer_pieces addr indices pm = record pm { pieces = add_peer_to addr indices pm.pieces }

-- RemovePeer, one round. The status is reset whichever peer the piece was requested from.
unfoldable pub drop_peer : GoString → PieceInfo → PieceInfo
drop_peer addr piece =
    let peers = remove addr piece.peers in
    record piece {
      peers = peers;
      status = if is_requested piece.status then missing else piece.status;
      priority = rarity peers;
    }

-- A round for each entry: the rounds touch different pieces, so their order is of no account.
unfoldable pub map_pieces : (PieceInfo → PieceInfo) → Map ℕ PieceInfo → Map ℕ PieceInfo
map_pieces f [] = []
map_pieces f ((i, piece) ∷ pieces) = (i, f piece) ∷ map_pieces f pieces

unfoldable pub remove_peer : GoString → PieceManager → PieceManager
unfolding map_pieces
remove_peer addr pm = record pm { pieces = map_pieces (drop_peer addr) pm.pieces }

-- MarkPieceStatus
unfoldable pub mark_piece_status : ℕ → PieceStatus → PieceManager → PieceManager
mark_piece_status i status pm = record pm {
  pieces = update_piece i (λ piece. record piece { status = status }) pm.pieces;
}

-- The pieces in one of the two states that some peer has, copied in the order of the loop.
unfoldable pub candidates : (PieceStatus → Bool) → Map ℕ PieceInfo → List PieceInfo
candidates test [] = []
candidates test ((_, piece) ∷ pieces) =
    let rest = candidates test pieces in
    if test piece.status && ltb 0 (length piece.peers) then piece ∷ rest else rest

-- The missing pieces, or where there is none the requested ones.
unfoldable pub eligible : Map ℕ PieceInfo → List PieceInfo
eligible pieces =
    let first = candidates is_missing pieces in
    let second = candidates is_requested pieces in if eqb (length first) 0 then second else first

-- `pm.pieces[piece.Index].Status = PieceRequested` for each piece; `none` is a nil dereference.
unfoldable pub mark_requested : List PieceInfo → Map ℕ PieceInfo → Option (Map ℕ PieceInfo)
mark_requested [] pieces = some pieces
mark_requested (piece ∷ chosen) pieces = do
  found ← get piece.index pieces
  mark_requested chosen (put piece.index (record found { status = requested }) pieces)

-- GetNextPieces. `arrange` stands for sort.Slice with its random comparison.
unfoldable pub get_next_pieces :
    (List PieceInfo → List PieceInfo) → ℕ → PieceManager → Option (PieceManager × List PieceInfo)
get_next_pieces arrange n pm =
    let sorted = arrange (eligible pm.pieces) in
    let chosen = if ltb n (length sorted) then take n sorted else sorted in
    mark_requested chosen pm.pieces >>= λ pieces. some (record pm { pieces = pieces }, chosen)

-- IsComplete
unfoldable pub all_verified : Map ℕ PieceInfo → Bool
all_verified [] = true
all_verified ((_, piece) ∷ pieces) =
    let rest = all_verified pieces in if is_verified piece.status then rest else false

unfoldable pub is_complete : PieceManager → Bool
unfolding all_verified
is_complete pm = all_verified pm.pieces
