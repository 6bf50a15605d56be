-- ===== src/Download/Duplicates.antt =====
-- server.go: two workers for one piece, of which the first succeeds and the second gives up.
use file_share_p2p.Prelude.{
  ℕ, true, false, some, [], ◌∷◌, ◌≡◌, refl, arith, nat_eq, ==_refl, Bool-cases, inl, inr,
}
use file_share_p2p.Prelude.Maps.{get}
use file_share_p2p.GoString.{GoString}
use file_share_p2p.Metadata.{Metadata}
use file_share_p2p.Pieces.Defs.{missing, PieceInfo, PieceManager, mark_piece_status, is_complete}
use file_share_p2p.Pieces.Invariant.{IsPieces, mark_piece_status-IsPieces}
use file_share_p2p.Pieces.Progress.{is_complete_iff}
use file_share_p2p.Pieces.Table.{get-mark_piece_status}
use file_share_p2p.Download.Defs.{
  Download, give_up, worker_at, end_worker, worker_returns, apply_event, result,
}

missing-incomplete :
    (pm : PieceManager) (i : ℕ) (piece : PieceInfo)
    → IsPieces pm.pieces
    → get i pm.pieces ≡ some piece
    → is_complete (mark_piece_status i missing pm) ≡ false
missing-incomplete pm i piece h e =
    let after = mark_piece_status i missing pm in
    let there : get i after.pieces ≡ some (record piece { status = missing }) =
      ground (arith, get-mark_piece_status i missing pm i, e, ==_refl i) in
    elim (Bool-cases (is_complete after)) [
      | inl c ↦
          (let v =
              (is_complete_iff after (mark_piece_status-IsPieces i missing pm h)).0 c i
                (record piece { status = missing }) there in
            cc)
      | inr c ↦ c
    ]

-- Where the main loop has been left and one worker is left, which has no attempt and no peer left for
-- its piece and so gives up, DownloadFile returns an error, though every piece may have been verified
-- and the file be complete.
pub result-give_up :
    (file_id : GoString) (meta : Metadata) (d : Download) (i : ℕ) (piece : PieceInfo)
    → IsPieces d.manager.pieces
    → get i d.manager.pieces ≡ some piece
    → d.is_waiting ≡ true
    → d.workers ≡ record { piece = i; attempts = 0; peers = [] } ∷ []
    → (d' : Download) × (apply_event file_id meta (give_up 0 i) d ≡ some d')
      × (result d' ≡ some false)
      × (d'.file ≡ d.file)
unfolding apply_event result end_worker worker_at
result-give_up file_id meta d i piece h e w one = (
  worker_returns 0 (record { piece = i; attempts = 0; peers = [] }) missing d,
  ground (arith, one, ==_refl i),
  ground (arith, one, w, ==_refl i, missing-incomplete d.manager i piece h e),
  refl,
)
