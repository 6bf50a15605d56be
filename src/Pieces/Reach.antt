-- ===== src/Pieces/Reach.antt =====
-- The states of a piece manager during a download.
use mathlib.Core.Option.{some-injective}
use file_share_p2p.Prelude.{ℕ, some, List, ◌≡◌, ap, sym, subst, ◌∙◌}
use mathlib.Core.List.{Permᴰ}
use file_share_p2p.Prelude.Int.{ℤ}
use file_share_p2p.GoString.{GoString}
use file_share_p2p.Pieces.Defs.{
  PieceStatus, PieceInfo, PieceManager, new_piece_manager, update_peer_pieces, remove_peer,
  mark_piece_status, eligible, get_next_pieces,
}
use file_share_p2p.Pieces.Invariant.{
  IsPieces, new_piece_manager-IsPieces, update_peer_pieces-IsPieces, remove_peer-IsPieces,
  mark_piece_status-IsPieces,
}
use file_share_p2p.Pieces.Selection.{get_next_pieces_lem}

-- The states that calls of the methods lead to, in any order and with any arguments.
pub data Reach : PieceManager → Type 0 where
  start :
      (n : ℤ) (hashes : List GoString) (pm : PieceManager)
      → new_piece_manager n hashes ≡ some pm
      → Reach pm
  by_update :
      (addr : GoString) (indices : List ℕ) (pm : PieceManager)
      → Reach pm
      → Reach (update_peer_pieces addr indices pm)
  by_remove : (addr : GoString) (pm : PieceManager) → Reach pm → Reach (remove_peer addr pm)
  by_mark :
      (i : ℕ) (status : PieceStatus) (pm : PieceManager)
      → Reach pm
      → Reach (mark_piece_status i status pm)
  by_next :
      (arrange : List PieceInfo → List PieceInfo) (n : ℕ) (pm after : PieceManager)
      (chosen : List PieceInfo)
      → Permᴰ (eligible pm.pieces) (arrange (eligible pm.pieces))
      → get_next_pieces arrange n pm ≡ some (after, chosen)
      → Reach pm
      → Reach after

-- In every state of a piece manager each piece stands under its own index and no index has two, its
-- peers are without repetition, and its priority is 1000 less the number of its peers, unless it has
-- none.
pub Reach-IsPieces : (pm : PieceManager) → Reach pm → IsPieces pm.pieces
Reach-IsPieces pm (start n hashes _ e) = new_piece_manager-IsPieces n hashes pm e
Reach-IsPieces pm (by_update addr indices before r) =
    update_peer_pieces-IsPieces addr indices before (Reach-IsPieces before r)
Reach-IsPieces pm (by_remove addr before r) =
    remove_peer-IsPieces addr before (Reach-IsPieces before r)
Reach-IsPieces pm (by_mark i status before r) =
    mark_piece_status-IsPieces i status before (Reach-IsPieces before r)
Reach-IsPieces pm (by_next arrange n before after chosen perm e r) =
    let (after', chosen', e', m, c, j, kept) =
      get_next_pieces_lem arrange n before perm (Reach-IsPieces before r) in
    subst (λ (x : PieceManager). IsPieces x.pieces)
      (ap (λ (x : PieceManager × List PieceInfo). x.0)
        (some-injective (after', chosen') (after, chosen) (sym e' ∙ e)))
      kept
