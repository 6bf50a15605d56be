-- ===== src/Server/Limit.antt =====
-- server.go and store.go: the list of response handlers, and the limit that is tested on its length.
use file_share_p2p.Prelude.{
  ℕ, suc, ◌≤◌, ◌<◌, Bool, true, false, Option, none, List, [], ◌∷◌, ◌≡◌, ◌≢◌, refl, sym, subst, ap,
  arith, eqb, leb, if◌then◌else◌, length, option_cases, inl, inr,
}
use file_share_p2p.Prelude.Int.{ℤ}
use file_share_p2p.Prelude.Maps.{get}
use file_share_p2p.GoString.{GoString, string_eq}
use file_share_p2p.Wire.Frame.{Writer}
use file_share_p2p.Chunks.Defs.{Files}
use file_share_p2p.Server.State.{Message, ChunkRequest, Server, Handler}
use file_share_p2p.Metadata.{Metadata}
use file_share_p2p.Server.Reply.{reply_active, max_concurrent_chunks, handle_chunk_request}
use file_share_p2p.Server.Connect.{Network}
use file_share_p2p.Server.Download.{
  Ending, ask_peer, ask_peers, prepare, download_rounds, download_chunk,
}
use file_share_p2p.Server.Handlers.{
  num_handlers, ask_peer_adds, ask_peers_grows, prepare_keeps, download_rounds_grows,
  Steps-num_handlers, Steps,
}

reply_active-full :
    (encode : Message → Option (List ℕ)) (disk : ℕ → Files) (write : ℕ → Writer) (t : Server)
    (req : ChunkRequest) (meta : Metadata)
    → max_concurrent_chunks ≤ num_handlers t
    → ((reply_active encode disk write t req meta).writes ≡ [])
      × ((reply_active encode disk write t req meta).error ≢ none)
unfolding reply_active max_concurrent_chunks
reply_active-full encode disk write t req meta h =
    let e : leb 5 (num_handlers t) ≡ true = ground arith in
    rw (e, reply_active) (refl, λ x. ground (arith, x))

-- Once the list of response handlers has five entries, the server answers no chunk request any more:
-- after any further steps every request is refused and nothing is written.
pub handle_chunk_request-full :
    (encode : Message → Option (List ℕ)) (disk : ℕ → Files) (write : ℕ → Writer) (s t : Server)
    (req : ChunkRequest)
    → Steps s t
    → max_concurrent_chunks ≤ num_handlers s
    → ((handle_chunk_request encode disk write t req).writes ≡ [])
      × ((handle_chunk_request encode disk write t req).error ≢ none)
unfolding handle_chunk_request reply_active
handle_chunk_request-full encode disk write s t req r h =
    let g = Steps-num_handlers s t r in
    elim (option_cases (get req.file_id t.active_files)) [
      | inl e ↦ rw (e, handle_chunk_request) (refl, λ x. ground (arith, x))
      | inr (meta, e) ↦
          rw (e, handle_chunk_request)
            (reply_active-full encode disk write t req meta (omega arith))
    ]

ask_peers_adds :
    (file_id : GoString) (index size : ℤ) (peers : List (GoString × Ending)) (s : Server)
    (file : List ℕ)
    → 0 < length peers
    → num_handlers s < num_handlers (ask_peers file_id index size peers s file).server
unfolding ask_peers
ask_peers_adds file_id index size [] s file h = absurd (omega arith)
ask_peers_adds file_id index size ((remote, ending) ∷ peers) s file h =
    let p = ask_peer file_id index size remote ending s file in
    ground (
      arith,
      ask_peer_adds file_id index size remote ending s file,
      ask_peers_grows file_id index size peers p.server p.file,
    )

prepare_some :
    (net : Network) (attempt : ℕ) (s : Server)
    → 0 < length s.peers
    → prepare net attempt s ≡ (s, true)
prepare_some net attempt s h = let e : eqb (length s.peers) 0 ≡ false = ground arith in rw e refl

download_rounds_adds :
    (file_id : GoString) (index size : ℤ) (peers : ℕ → Server → List (GoString × Ending))
    (net : Network) (left attempt : ℕ) (s : Server) (file : List ℕ)
    → 0 < length s.peers
    → 0 < length (peers attempt s)
    → num_handlers s
      < num_handlers (download_rounds file_id index size peers net (suc left) attempt s file).server
unfolding download_rounds
download_rounds_adds file_id index size peers net left attempt s file h k =
    let ready = prepare net attempt s in
    let asked = if ready.1 then peers attempt ready.0 else [] in
    let p = ask_peers file_id index size asked ready.0 file in
    let a =
      subst (λ (x : Server × Bool). 0 < length (if x.1 then peers attempt x.0 else []))
        (sym (prepare_some net attempt s h)) k in
    ground (
      arith,
      ap (length {A = Handler}) (prepare_keeps net attempt s),
      ask_peers_adds file_id index size asked ready.0 file a,
      download_rounds_grows file_id index size peers net left (suc attempt) p.server p.file,
    )

-- A download that finds a peer in its first attempt leaves the list of response handlers longer,
-- whether or not it succeeds.
pub download_chunk-grows :
    (file_id : GoString) (index size : ℤ) (peers : ℕ → Server → List (GoString × Ending))
    (net : Network) (s : Server) (file : List ℕ)
    → 0 < length s.peers
    → 0 < length (peers 0 s)
    → num_handlers s < num_handlers (download_chunk file_id index size peers net s file).server
unfolding download_chunk
download_chunk-grows file_id index size peers net s file h k =
    download_rounds_adds file_id index size peers net 2 0 s file h k
