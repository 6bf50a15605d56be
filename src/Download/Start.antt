-- ===== src/Download/Start.antt =====
-- server.go: the peers of the pieces when the main loop of DownloadFile starts.
use mathlib.Core.Option.{some-injective}
use file_share_p2p.Prelude.{
  ℕ, zero, suc, ◌+◌, ◌<◌, Bool, true, false, ◌&&◌, ◌||◌, Option, some, List, [], ◌∷◌, ◌≡◌, inl, inr,
  refl, sym, ap, ◌∙◌, arith, eqb, ltb, leb, ◌==◌, length, contains, insert_pos, nat_eq, subst,
  option_cases, Bool-cases,
}
use file_share_p2p.Prelude.Int.{ℤ, pos_part}
use file_share_p2p.Prelude.Maps.{Map, get, keys}
use file_share_p2p.GoString.{GoString, string_eq}
use file_share_p2p.Metadata.{Metadata}
use file_share_p2p.Pieces.Defs.{
  is_missing, PieceInfo, PieceManager, fresh_piece, fresh_pieces, new_piece_manager, add_peer,
  update_piece, add_peer_to, update_peer_pieces,
}
use file_share_p2p.Pieces.Table.{get-update_piece, new_piece_manager_lem}
use file_share_p2p.Server.State.{Server}
use file_share_p2p.Download.Defs.{Download, piece_indices, add_peers, start_download}
use file_share_p2p.Download.Peered.{Peered}

contains-piece_indices :
    (i left j : ℕ) → contains j (piece_indices i left) ≡ (leb i j && ltb j (i + left))
unfolding contains nat_eq
contains-piece_indices i zero j = ground arith
contains-piece_indices i (suc left) j = ground (arith, contains-piece_indices (i + 1) left j)

-- A new piece is missing and has no peer.
pub fresh_missing :
    (i left : ℕ) (hashes : List GoString) (pieces : Map ℕ PieceInfo) (j : ℕ) (piece : PieceInfo)
    → fresh_pieces i left hashes ≡ some pieces
    → get j pieces ≡ some piece
    → (is_missing piece.status ≡ true) × (length piece.peers ≡ 0)
unfolding fresh_pieces get nat_eq
fresh_missing i zero hashes pieces j piece e f =
    let g : get j [] ≡ some piece = ap (get j) (some-injective [] pieces e) ∙ f in absurd (cc)
fresh_missing i (suc left) [] pieces j piece e f = cc
fresh_missing i (suc left) (hash ∷ hashes) pieces j piece e f =
    elim (option_cases (fresh_pieces (i + 1) left hashes)) [
      | inl n ↦ absurd (ground (arith, n, e))
      | inr (rest, p) ↦
          (let table = (i, fresh_piece i hash) ∷ rest in
            let made : some table ≡ some pieces = ground (arith, p, e) in
            let g : get j table ≡ some piece = ap (get j) (some-injective table pieces made) ∙ f in
            elim (Bool-cases (j == i)) [
              | inl here ↦
                  (let x : some (fresh_piece i hash) ≡ some piece = ground (arith, here, g) in
                    subst (λ (q : PieceInfo). (is_missing q.status ≡ true) × (length q.peers ≡ 0))
                      (some-injective (fresh_piece i hash) piece x) (refl, refl))
              | inr other ↦
                  fresh_missing (i + 1) left hashes rest j piece p (ground (arith, other, g))
            ])
    ]

-- The pieces after some are given a peer: none is new, the status is kept, and those that are given
-- one, or had one, have one.
record Fed (given : Bool) (before after : Option PieceInfo) (q : PieceInfo) : Type 0 where
  piece : PieceInfo
  found : before ≡ some piece
  same : is_missing piece.status ≡ is_missing q.status
  fed : (given || ltb 0 (length piece.peers)) ≡ true → 0 < length q.peers

add_peer_to-Fed :
    (addr : GoString) (indices : List ℕ) (pieces : Map ℕ PieceInfo) (j : ℕ) (q : PieceInfo)
    → get j (add_peer_to addr indices pieces) ≡ some q
    → Fed (contains j indices) (get j pieces) (get j (add_peer_to addr indices pieces)) q
unfolding add_peer_to contains add_peer
add_peer_to-Fed addr [] pieces j q e = record {
  piece = q;
  found = e;
  same = refl;
  fed = λ h. ground (arith, h);
}
add_peer_to-Fed addr (i ∷ indices) pieces j q e =
    let next = update_piece i (add_peer addr) pieces in
    let r = add_peer_to-Fed addr indices next j q e in
    elim (option_cases (get j pieces)) [
      | inl f ↦ absurd (ground (arith, f, get-update_piece i (add_peer addr) pieces j, r.found))
      | inr (x, f) ↦ elim (Bool-cases (j == i)) [
        | inl here ↦
            (let y = add_peer addr x in
              let k : y ≡ r.piece =
                some-injective y r.piece
                  (ground (arith, get-update_piece i (add_peer addr) pieces j, here, f, r.found)) in
              let some_peer =
                subst (λ (z : PieceInfo). 0 < length z.peers) k (insert_pos addr x.peers) in
              record {
                piece = x;
                found = f;
                same = ap (λ (z : PieceInfo). is_missing z.status) k ∙ r.same;
                fed = λ h. r.fed (ground (arith, some_peer));
              })
        | inr other ↦
            (let k : x ≡ r.piece =
                some-injective x r.piece (
                  ground (arith, get-update_piece i (add_peer addr) pieces j, other, f, r.found)) in
              record {
                piece = x;
                found = f;
                same = ap (λ (z : PieceInfo). is_missing z.status) k ∙ r.same;
                fed = λ h. r.fed (
                    subst (λ (z : PieceInfo). (contains j indices || ltb 0 (length z.peers)) ≡ true)
                      k (ground (arith, h, other)));
              })
      ]
    ]

add_peers-Fed :
    (pieces : List ℕ) (addr : GoString) (addrs : List GoString) (pm : PieceManager) (j : ℕ)
    (q : PieceInfo)
    → get j (add_peers pieces (addr ∷ addrs) pm).pieces ≡ some q
    → Fed
        (contains j pieces)
        (get j pm.pieces)
        (get j (add_peers pieces (addr ∷ addrs) pm).pieces)
        q
unfolding add_peers update_peer_pieces
add_peers-Fed pieces addr [] pm j q e = add_peer_to-Fed addr pieces pm.pieces j q e
add_peers-Fed pieces addr (other ∷ addrs) pm j q e =
    let r = add_peers-Fed pieces other addrs (update_peer_pieces addr pieces pm) j q e in
    let x = add_peer_to-Fed addr pieces pm.pieces j r.piece r.found in
    record {
      piece = x.piece;
      found = x.found;
      same = x.same ∙ r.same;
      fed = λ h. r.fed (ground (arith, x.fed h));
    }

keys-cons :
    (peers : Map GoString GoString)
    → eqb (length peers) 0 ≡ false
    → (addr : GoString) × (addrs : List GoString) × (keys peers ≡ addr ∷ addrs)
unfolding keys
keys-cons [] h = absurd (ground (arith, h))
keys-cons ((addr, _) ∷ peers) h = (addr, keys peers, refl)

-- Every piece below n has a peer and is missing.
add_peers-Peered :
    (n : ℤ) (hashes : List GoString) (pm : PieceManager) (addrs : List GoString)
    → new_piece_manager n hashes ≡ some pm
    → (addr : GoString) → Peered (add_peers (piece_indices 0 (pos_part n)) (addr ∷ addrs) pm)
unfolding new_piece_manager
add_peers-Peered n hashes pm addrs e addr j q f =
    let fed = add_peers-Fed (piece_indices 0 (pos_part n)) addr addrs pm j q f in
    let known = (new_piece_manager_lem n hashes pm j (unfold new_piece_manager in e)).0 in
    let below : contains j (piece_indices 0 (pos_part n)) ≡ true =
      ground (arith, contains-piece_indices 0 (pos_part n) j, known, fed.found) in
    elim (option_cases (fresh_pieces 0 (pos_part n) hashes)) [
      | inl g ↦ absurd (ground (arith, g, e))
      | inr (pieces, g) ↦
          (let made : record { pieces = pieces; num_pieces = n } ≡ pm =
              some-injective (record { pieces = pieces; num_pieces = n }) pm
                (ground (arith, g, e)) in
            let found = ap (λ (m : PieceManager). get j m.pieces) made ∙ fed.found in
            let fresh = (fresh_missing 0 (pos_part n) hashes pieces j fed.piece g found).0 in
            (fed.fed (ground (arith, below)), ground (arith, fresh, fed.same)))
    ]

pub start_download-Peered :
    (meta : Metadata) (server : Server) (d : Download)
    → eqb (length server.peers) 0 ≡ false
    → start_download meta server ≡ some d
    → Peered d.manager
unfolding start_download
start_download-Peered meta server d h e =
    elim (option_cases (new_piece_manager meta.num_chunks meta.chunk_hashes)) [
      | inl f ↦ absurd (ground (arith, f, e))
      | inr (pm, f) ↦
          (let pieces = piece_indices 0 (pos_part meta.num_chunks) in
            let (addr, addrs, split) = keys-cons server.peers h in
            let first : Download = record {
              server = server;
              manager = add_peers pieces (keys server.peers) pm;
              file = [];
              batch = [];
              workers = [];
              sem = 0;
              active = [];
              is_waiting = false;
            } in
            let starts : some first ≡ some d = ground (arith, f, e) in
            subst (λ (x : Download). Peered x.manager) (some-injective first d starts)
              (subst (λ k. Peered (add_peers pieces k pm)) (sym split)
                (add_peers-Peered meta.num_chunks meta.chunk_hashes pm addrs f addr)))
    ]
