-- ===== src/Server/Exchange.antt =====
-- server.go, store.go and p2p/tcp_transport.go: one request for a chunk and its answer, from the peer
-- that asks to the peer that serves and back.
-- `encode` and `decode_message` stand for gob's Encode and Decode.
use file_share_p2p.Prelude.{ℕ, true, false, Option, none, some, List, [], ◌∷◌, ◌++◌}
use file_share_p2p.Prelude.Int.{ℤ}
use file_share_p2p.GoString.{GoString}
use file_share_p2p.Wire.Frame.{eof, Writer, Stream, Rpc, decode, send}
use file_share_p2p.Wire.RoundTrip.{after}
use file_share_p2p.Wire.Conn.{read_loop}
use file_share_p2p.Chunks.Defs.{Files}
use file_share_p2p.Server.State.{
  Message, Server, Handler, new_chunk_request_message, normalize_address,
}
use file_share_p2p.Server.Rpc.{RpcResult, replied, consume_rpc_messages}
use file_share_p2p.Server.RoundTrip.{joined}

-- The handler of a question that waits for its answer.
unfoldable pub open_handler : GoString → ℤ → Handler
open_handler file_id index = record {
  file_id = file_id;
  chunk = index;
  is_done = false;
  response = none;
  is_failed = false;
}

-- downloadChunk, up to the request
unfoldable pub wait_for : GoString → ℤ → Server → Server
wait_for file_id index s = record s {
  response_handlers = s.response_handlers ++ (open_handler file_id index ∷ []);
}

-- A connection that carries these writes and is then closed.
abbrev pub carrying : List (List ℕ) → Stream
carrying writes = after (joined writes) (record { bytes = []; ending = eof })

-- What handleConn forwards of the first message, where the channel has room.
unfoldable pub receive : GoString → List (List ℕ) → List Rpc
receive remote writes =
    read_loop (normalize_address remote) 0 (((decode (carrying writes)).0, true) ∷ [])

-- What the results put on the connection of their peer.
unfoldable pub reply_writes : List RpcResult → List (List ℕ)
reply_writes [] = []
reply_writes (replied peer reply ∷ results) = reply.writes ++ reply_writes results
reply_writes (_ ∷ results) = reply_writes results

module _ (encode : Message → Option (List ℕ)) (decode_message : List ℕ → Option Message)
    (disk : ℕ → Files) (write : ℕ → Writer) where
  unfoldable pub send_request : GoString → ℤ → List (List ℕ)
  send_request file_id index = elim (encode (new_chunk_request_message file_id index)) [
    | none ↦ []
    | some payload ↦ (send (write 0) payload).writes
  ]

  -- The one side asks, the other side consumes the request, and the first consumes the reply. Each
  -- side knows the other by the remote address of its connection.
  unfoldable pub exchange : GoString → ℤ → GoString → Server → GoString → Server → Server
  exchange file_id index server_remote asking client_remote serving =
      let requests = receive client_remote (send_request file_id index) in
      let answers = (consume_rpc_messages encode decode_message disk write requests serving).1 in
      let responses = receive server_remote (reply_writes answers) in
      (consume_rpc_messages encode decode_message disk write responses asking).0
