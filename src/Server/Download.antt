-- ===== src/Server/Download.antt =====
-- server.go: downloadChunk.
-- What the other side does is an argument: for each peer that is asked, how the wait ends. The
-- messages that end it pass through handleRPCMessage, which changes no list of peers or handlers.
use file_share_p2p.Prelude.{
  ℕ, zero, suc, Bool, true, false, Option, none, some, List, [], ◌∷◌, ◌++◌, eqb, if◌then◌else◌,
  length,
}
use file_share_p2p.Prelude.Int.{ℤ}
use file_share_p2p.Prelude.Maps.{delete}
use file_share_p2p.GoString.{GoString, string_eq}
use file_share_p2p.Chunks.Defs.{WriteOutcome, WriteError, write_and_verify_chunk}
use file_share_p2p.Server.State.{Server, Handler}
use file_share_p2p.Server.Connect.{Network, refresh_peers}

-- How asking one peer ends: the request is not encoded or not sent, a response arrives, its handler
-- reports a payload of another type, or the time runs out.
pub data Ending : Type 0 where
  unsent : Ending
  answered : List ℕ → (ℕ → WriteOutcome) → Ending
  failed : Ending
  timed_out : Ending

-- The state with the file that is written, and whether the chunk is there.
pub record Progress : Type 0 where
  pub server : Server
  pub file : List ℕ
  pub is_downloaded : Bool

-- The handler for one question. `done` is closed on every path before the function goes on.
abbrev pub closed_handler : GoString → ℤ → Handler
closed_handler file_id index = record {
  file_id = file_id;
  chunk = index;
  is_done = true;
  response = none;
  is_failed = false;
}

abbrev pub add_handler : GoString → ℤ → Server → Server
add_handler file_id index s = record s {
  response_handlers = s.response_handlers ++ (closed_handler file_id index ∷ []);
}

abbrev pub is_none : Option WriteError → Bool
is_none none = true
is_none (some e) = false

-- One peer, which is known by its remote address.
unfoldable pub ask_peer : GoString → ℤ → ℤ → GoString → Ending → Server → List ℕ → Progress
ask_peer file_id index size remote unsent s file = record {
  server = add_handler file_id index s;
  file = file;
  is_downloaded = false;
}
ask_peer file_id index size remote (answered content outcomes) s file =
    let result = write_and_verify_chunk outcomes content index size file in
    record {
      server = add_handler file_id index s;
      file = result.0;
      is_downloaded = is_none result.1;
    }
ask_peer file_id index size remote failed s file =
    let s' = add_handler file_id index s in
    record {
      server = record s' { peers = delete remote s'.peers };
      file = file;
      is_downloaded = false;
    }
ask_peer file_id index size remote timed_out s file = record {
  server = add_handler file_id index s;
  file = file;
  is_downloaded = false;
}

-- The peers of one attempt, in their order, up to one that answers with a chunk that is written.
unfoldable pub ask_peers : GoString → ℤ → ℤ → List (GoString × Ending) → Server → List ℕ → Progress
ask_peers file_id index size [] s file = record { server = s; file = file; is_downloaded = false }
ask_peers file_id index size ((remote, ending) ∷ peers) s file =
    let p = ask_peer file_id index size remote ending s file in
    let rest = ask_peers file_id index size peers p.server p.file in
    if p.is_downloaded then p else rest

-- The state an attempt starts from, and whether it goes on to ask peers: refreshPeers is called where
-- there is no peer, and may return an error.
abbrev pub prepare : Network → ℕ → Server → Server × Bool
prepare net attempt s = if eqb (length s.peers) 0 then refresh_peers net attempt s else (s, true)

-- The attempts that are left. `peers` gives the shuffled peers of an attempt with how each ends.
unfoldable pub download_rounds :
    GoString
    → ℤ
    → ℤ
    → (ℕ → Server → List (GoString × Ending))
    → Network
    → ℕ
    → ℕ
    → Server
    → List ℕ
    → Progress
download_rounds file_id index size peers net zero attempt s file = record {
  server = s;
  file = file;
  is_downloaded = false;
}
download_rounds file_id index size peers net (suc left) attempt s file =
    let (s', is_ready) = prepare net attempt s in
    let asked = if is_ready then peers attempt s' else [] in
    let p = ask_peers file_id index size asked s' file in
    let rest = download_rounds file_id index size peers net left (suc attempt) p.server p.file in
    if p.is_downloaded then p else rest

-- downloadChunk
unfoldable pub download_chunk :
    GoString
    → ℤ
    → ℤ
    → (ℕ → Server → List (GoString × Ending))
    → Network
    → Server
    → List ℕ
    → Progress
download_chunk file_id index size peers net s file =
    download_rounds file_id index size peers net 3 0 s file
