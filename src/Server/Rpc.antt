-- ===== src/Server/Rpc.antt =====
-- server.go: handleRPCMessage, consumeRPCMessages and listPeers.
-- `decode` stands for gob.NewDecoder(...).Decode.
use file_share_p2p.Prelude.{ℕ, Option, none, some, List, [], ◌∷◌, map, if◌then◌else◌, ◌==◌}
use file_share_p2p.Prelude.Maps.{get, keys}
use file_share_p2p.GoString.{GoString, string_eq}
use file_share_p2p.Wire.Frame.{Rpc, Writer}
use file_share_p2p.Chunks.Defs.{Files}
use file_share_p2p.Server.State.{
  Payload, chunk_request, Message, Server, on_response, normalize_address,
  message_type_chunk_request, message_type_chunk_response,
}
use file_share_p2p.Server.Reply.{Reply, handle_chunk_request}

-- What a message leads to: an error, a reply on the peer's connection, or the responses' handlers.
pub data RpcResult : Type 0 where
  decode_error unknown_peer invalid_payload unknown_type : RpcResult
  replied : GoString → Reply → RpcResult
  handled : RpcResult

-- Every handler sees the message.
unfoldable pub run_handlers : Message → Server → Server
run_handlers msg s = record s { response_handlers = map (on_response msg) s.response_handlers }

-- listPeers, which nothing calls, in the order of the list
unfoldable pub list_peers : Server → List GoString
list_peers s = keys s.peers

module _ (encode : Message → Option (List ℕ)) (decode : List ℕ → Option Message) (disk : ℕ → Files)
    (write : ℕ → Writer) where
  unfoldable pub reply_to : GoString → Payload → Server → RpcResult
  reply_to peer (chunk_request req) s = replied peer (handle_chunk_request encode disk write s req)
  reply_to peer _ s = invalid_payload

  -- The switch on the type of the message.
  unfoldable pub dispatch : GoString → Message → Server → Server × RpcResult
  dispatch peer msg s =
      if msg.kind == message_type_chunk_request
      then (s, reply_to peer msg.payload s)
      else if msg.kind == message_type_chunk_response
      then (run_handlers msg s, handled)
      else (s, unknown_type)

  unfoldable pub with_message : Rpc → Option Message → Server → Server × RpcResult
  with_message rpc none s = (s, decode_error)
  with_message rpc (some msg) s = elim (get (normalize_address rpc.sender) s.peers) [
    | none ↦ (s, unknown_peer)
    | some peer ↦ dispatch peer msg s
  ]

  unfoldable pub handle_rpc_message : Rpc → Server → Server × RpcResult
  handle_rpc_message rpc s = with_message rpc (decode rpc.payload) s

  -- consumeRPCMessages: the messages of the channel in their order, an error of one of them not ending
  -- the loop.
  unfoldable pub consume_rpc_messages : List Rpc → Server → Server × List RpcResult
  consume_rpc_messages [] s = (s, [])
  consume_rpc_messages (rpc ∷ rpcs) s =
      let (s', result) = handle_rpc_message rpc s in
      let (s'', results) = consume_rpc_messages rpcs s' in (s'', result ∷ results)
