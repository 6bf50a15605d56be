-- ===== src/Tests/Pieces.antt =====
-- piece_manager.go: two pieces, one in flight, and two peers.
use mathlib.Core.List.Permᴰ
use file_share_p2p.Prelude.{
  ℕ, ℕ_discrete, min, some, List, [], ◌∷◌, ◌≡◌, refl, if◌then◌else◌, length, contains, nat_eq, All,
  inl,
}
use file_share_p2p.Prelude.Int.{pos}
use file_share_p2p.Prelude.Maps.{get, put}
use file_share_p2p.GoString.{GoString, string_eq, bytes_dec, bytes}
use file_share_p2p.Pieces.Defs.{
  missing, requested, verified, PieceInfo, PieceManager, eligible, get_next_pieces, remove_peer,
  candidates, mark_requested, update_peer_pieces, mark_piece_status, new_piece_manager, fresh_piece,
  fresh_pieces,
}
use file_share_p2p.Pieces.Invariant.{IsPieces, IsPiece}
use file_share_p2p.Pieces.Candidates.{wanted, indices, request, IsCandidate}
use file_share_p2p.Pieces.Selection.{get_next_pieces_lem}
use file_share_p2p.Pieces.Reach.{start, by_update, by_mark, by_remove, Reach-IsPieces}

abbrev peer_a : GoString
peer_a = bytes "a:1"

abbrev peer_b : GoString
peer_b = bytes "b:1"

abbrev first_piece : PieceInfo
first_piece = record {
  index = 0;
  size = 0;
  hash = bytes "00";
  status = requested;
  peers = peer_a ∷ [];
  priority = pos 999;
}

abbrev second_piece : PieceInfo
second_piece = record {
  index = 1;
  size = 0;
  hash = bytes "11";
  status = missing;
  peers = peer_a ∷ peer_b ∷ [];
  priority = pos 998;
}

abbrev pieces : PieceManager
pieces = record { pieces = (0, first_piece) ∷ (1, second_piece) ∷ []; num_pieces = pos 2 }

first_piece-IsPiece : IsPiece 0 first_piece
unfolding contains
first_piece-IsPiece = record { indexed = refl; ranked = inl refl; distinct = (refl, tt) }

second_piece-IsPiece : IsPiece 1 second_piece
unfolding contains string_eq bytes_dec ℕ_discrete
second_piece-IsPiece = record { indexed = refl; ranked = inl refl; distinct = (refl, (refl, tt)) }

pieces-IsPieces : IsPieces pieces.pieces
unfolding get nat_eq ℕ_discrete
pieces-IsPieces = (first_piece-IsPiece, refl, (second_piece-IsPiece, refl, tt))

get_next_pieces_example :
    get_next_pieces (λ xs. xs) 5 pieces
    ≡ some (
      record pieces {
        pieces = (0, first_piece) ∷ (1, record second_piece { status = requested }) ∷ [];
      },
      second_piece ∷ [],
    )
unfolding get_next_pieces eligible candidates mark_requested get put nat_eq ℕ_discrete
get_next_pieces_example = refl

get_next_pieces_lem_example :
    (after : PieceManager) × (chosen : List PieceInfo) × (get_next_pieces (λ xs. xs) 5 pieces
      ≡ some (after, chosen))
    × (length chosen ≡ min 5 (length (eligible pieces.pieces)))
    × All (IsCandidate (wanted pieces.pieces) pieces.pieces) chosen
    × ((j : ℕ)
        → get j after.pieces ≡ (
            if contains j (indices chosen)
            then request (get j pieces.pieces)
            else get j pieces.pieces))
    × IsPieces after.pieces
get_next_pieces_lem_example =
    get_next_pieces_lem (λ xs. xs) 5 pieces (Permᴰ.refl (eligible pieces.pieces)) pieces-IsPieces

abbrev hashes : List GoString
hashes = bytes "00" ∷ bytes "11" ∷ []

abbrev fresh : PieceManager
fresh = record {
  pieces = (0, fresh_piece 0 (bytes "00")) ∷ (1, fresh_piece 1 (bytes "11")) ∷ [];
  num_pieces = pos 2;
}

new_piece_manager_example : new_piece_manager (pos 2) hashes ≡ some fresh
unfolding new_piece_manager fresh_pieces
new_piece_manager_example = refl

Reach-IsPieces_example :
    IsPieces
      (remove_peer peer_a
        (mark_piece_status 1 verified (update_peer_pieces peer_a (0 ∷ 1 ∷ 7 ∷ []) fresh))).pieces
Reach-IsPieces_example = Reach-IsPieces _ (
    by_remove peer_a _ (
      by_mark 1 verified _ (
        by_update peer_a (0 ∷ 1 ∷ 7 ∷ []) fresh
          (start (pos 2) hashes fresh new_piece_manager_example))))
