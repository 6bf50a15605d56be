-- ===== src/Download/Complete.antt =====
-- server.go: what DownloadFile has written when it returns nil.
use file_share_p2p.Prelude.{
  ℕ, ◌*◌, ◌^◌, ◌≤◌, ◌<◌, true, false, none, some, List, [], ◌∷◌, ◌≡◌, ◌↔◌, inl, inr, refl, ◌∙◌,
  arith, eqb, if◌then◌else◌, length, nat_eq, All, subst, option_cases,
}
use mathlib.Core.Option.{some-injective}
use file_share_p2p.Prelude.Int.{pos, pos_part}
use file_share_p2p.Prelude.Maps.{get, keys}
use file_share_p2p.GoString.{GoString}
use file_share_p2p.Metadata.{Metadata}
use file_share_p2p.Chunks.Rebuild.{same_bytes, cell}
use file_share_p2p.Pieces.Defs.{PieceManager, new_piece_manager, update_peer_pieces, is_complete}
use file_share_p2p.Pieces.Invariant.{
  IsPieces, new_piece_manager-IsPieces, update_peer_pieces-IsPieces,
}
use file_share_p2p.Pieces.Progress.{is_complete_iff}
use file_share_p2p.Pieces.Table.{
  is_done, SameStatus, update_peer_pieces-SameStatus, new_piece_manager_lem,
}
use file_share_p2p.Server.State.{Server}
use file_share_p2p.Download.Defs.{
  Download, Event, piece_indices, add_peers, start_download, run_events, result, output,
}
use file_share_p2p.Download.Invariant.{IsSound}
use file_share_p2p.Download.Answers.{IsHonest}
use file_share_p2p.Download.Steps.{run_events-IsSound}

pub add_peers-IsPieces :
    (pieces : List ℕ) (addrs : List GoString) (pm : PieceManager)
    → IsPieces pm.pieces
    → IsPieces (add_peers pieces addrs pm).pieces
unfolding add_peers
add_peers-IsPieces pieces [] pm h = h
add_peers-IsPieces pieces (addr ∷ addrs) pm h =
    add_peers-IsPieces pieces addrs (update_peer_pieces addr pieces pm)
      (update_peer_pieces-IsPieces addr pieces pm h)

pub add_peers-SameStatus :
    (pieces : List ℕ) (addrs : List GoString) (pm : PieceManager) (j : ℕ)
    → SameStatus (get j (add_peers pieces addrs pm).pieces) (get j pm.pieces)
unfolding add_peers
add_peers-SameStatus pieces [] pm j = (refl, refl)
add_peers-SameStatus pieces (addr ∷ addrs) pm j =
    let (a, b) = add_peers-SameStatus pieces addrs (update_peer_pieces addr pieces pm) j in
    let (x, y) = update_peer_pieces-SameStatus addr pieces pm j in (a ∙ x, b ∙ y)

-- The state in which the main loop starts: nothing is verified.
pub start-IsSound :
    (content : List ℕ) (size : ℕ) (meta : Metadata) (server : Server) (d : Download)
    → start_download meta server ≡ some d
    → IsSound content size (pos_part meta.num_chunks) d
unfolding start_download
start-IsSound content size meta server d e =
    elim (option_cases (new_piece_manager meta.num_chunks meta.chunk_hashes)) [
      | inl f ↦ absurd (ground (arith, f, e))
      | inr (pm, f) ↦
          (let pieces = piece_indices 0 (pos_part meta.num_chunks) in
            let addrs = keys server.peers in
            let first : Download = record {
              server = server;
              manager = add_peers pieces addrs pm;
              file = [];
              batch = [];
              workers = [];
              sem = 0;
              active = [];
              is_waiting = false;
            } in
            let status = add_peers-SameStatus pieces addrs pm in
            let fresh = λ (j : ℕ). new_piece_manager_lem meta.num_chunks meta.chunk_hashes pm j f in
            let starts : some first ≡ some d = ground (arith, f, e) in
            subst (IsSound content size (pos_part meta.num_chunks)) (some-injective first d starts)
              (record {
                pieces =
                    add_peers-IsPieces pieces addrs pm
                      (new_piece_manager-IsPieces meta.num_chunks meta.chunk_hashes pm f);
                known = λ j. (status j).0 ∙ (fresh j).0;
                batch = tt;
                workers = tt;
                agrees = record {
                  within = omega arith;
                  same = λ k l g. absurd (ground (arith, g.1.0, (status g.0).1, (fresh g.0).1));
                };
              }))
    ]

-- Where all pieces are verified the file is the content.
complete-content :
    (content : List ℕ) (size n : ℕ) (d : Download)
    → 1 ≤ size
    → ((i : ℕ) → i * size < length content → i < n)
    → is_complete d.manager ≡ true
    → IsSound content size n d
    → d.file ≡ content
complete-content content size n d p within e h = same_bytes d.file content h.agrees.within (λ k l.
    (let (i, (a, b)) = cell size k p in
      h.agrees.same k l (i, (done i (within i (omega arith)), (a, b)))))
  where
    done : (i : ℕ) → i < n → is_done (get i d.manager.pieces) ≡ true
    done i l = elim (option_cases (get i d.manager.pieces)) [
      | inl f ↦ absurd (ground (arith, f, h.known i))
      | inr (piece, f) ↦
          (let v = (is_complete_iff d.manager h.pieces).0 e i piece f in rw f (rw v refl))
    ]

-- Let the peers only send chunks that ReadChunk reads from one content, and let the metadata have the
-- chunk size and a chunk for exactly the indices that start in the content. Whatever the order of the
-- events, with any number of workers that fail or write in part, if DownloadFile returns nil then the
-- output file holds the content, and is removed if that is empty. A chunk has a byte at least, and
-- all sizes are below 2^63.
pub result-output :
    (content : List ℕ) (size : ℕ) (file_id : GoString) (meta : Metadata) (server : Server)
    (events : List Event) (d d' : Download)
    → 1 ≤ size
    → size < 2 ^ 63
    → length content < 2 ^ 63
    → meta.chunk_size ≡ pos size
    → ((i : ℕ) → (i < pos_part meta.num_chunks) ↔ (i * size < length content))
    → start_download meta server ≡ some d
    → All (IsHonest content size) events
    → run_events file_id meta events d ≡ some d'
    → result d' ≡ some true
    → output d' ≡ (if eqb (length content) 0 then none else some content)
unfolding result output
result-output content size file_id meta server events d d' p s c m exact start honest runs e =
    let n = pos_part meta.num_chunks in
    let sound =
      run_events-IsSound content size n p s c (λ i. (exact i).0) file_id meta m events d d' honest
        runs (start-IsSound content size meta server d start) in
    let done : is_complete d'.manager ≡ true = ground (arith, e) in
    let same = complete-content content size n d' p (λ i. (exact i).1) done sound in rw same refl
