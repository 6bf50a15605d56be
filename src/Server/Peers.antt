-- ===== src/Server/Peers.antt =====
-- server.go: the table of peers, which onPeer keys by the normalised address.
use file_share_p2p.Prelude.{ℕ, none, some, List, ◌≡◌, arith, if◌then◌else◌, ◌==◌}
use file_share_p2p.Prelude.Int.{ℤ}
use file_share_p2p.Prelude.Maps.{get, put, get-put, get-delete}
use file_share_p2p.GoString.{GoString, string_eq}
use file_share_p2p.Server.State.{Server, normalize_address, on_peer}
use file_share_p2p.Server.Download.{failed, ask_peer}

-- After a peer connects and its handler then fails, nothing stands in the table under its remote
-- address, the peer stands under its normalised address where that is another one, and every other
-- entry is as before.
pub get-ask_peer_failed :
    (file_id : GoString) (index size : ℤ) (remote : GoString) (s : Server) (file : List ℕ)
    (addr : GoString)
    → get addr (ask_peer file_id index size remote failed (on_peer remote s) file).server.peers ≡ (
        if addr == remote
        then none
        else if addr == normalize_address remote
        then some remote
        else get addr s.peers)
unfolding ask_peer on_peer
get-ask_peer_failed file_id index size remote s file addr = ground (
  arith,
  get-delete remote (put (normalize_address remote) remote s.peers) addr,
  get-put (normalize_address remote) remote s.peers addr,
)
