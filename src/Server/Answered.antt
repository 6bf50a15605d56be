-- ===== src/Server/Answered.antt =====
-- server.go, store.go and p2p/tcp_transport.go: what an exchange of a request and its answer leaves
-- in the server that asked.
use file_share_p2p.Prelude.{
  ℕ, ◌≤◌, ◌<◌, false, Option, some, List, [], ◌∷◌, ◌++◌, ◌≡◌, refl, ap, ◌∙◌, arith, length, map,
  ==_refl,
}
use mathlib.Core.List.{map-append}
use file_share_p2p.Prelude.Int.{ℤ, leb_ℤ}
use file_share_p2p.Prelude.Maps.{get}
use file_share_p2p.GoString.{GoString, string_eq, bytes_dec}
use file_share_p2p.Wire.Frame.{Writer, Rpc, empty_rpc, max_message_size}
use file_share_p2p.Chunks.Defs.{Files, ok, read_chunk}
use file_share_p2p.Metadata.{Metadata}
use file_share_p2p.Server.State.{
  Message, ChunkResponse, Server, Handler, new_chunk_request_message, new_chunk_response_message,
  normalize_address, on_peer, on_response,
}
use file_share_p2p.Server.Reply.{handle_chunk_request, max_concurrent_chunks}
use file_share_p2p.Server.Rpc.{
  RpcResult, replied, handled, handle_rpc_message, with_message, dispatch, reply_to, run_handlers,
  consume_rpc_messages,
}
use file_share_p2p.Server.RoundTrip.{IsHealthy}
use file_share_p2p.Server.Normal.{normalize_address_twice, get-on_peer}
use file_share_p2p.Server.Delivery.{receive-send_request, receive-reply}
use file_share_p2p.Server.Exchange.{open_handler, wait_for, receive, reply_writes, exchange}

abbrev pub answer : GoString → ℤ → List ℕ → ChunkResponse
answer file_id index content = record { file_id = file_id; chunk = index; content = content }

-- gob: a message that is encoded is decoded as it was.
abbrev pub IsCodec : (Message → Option (List ℕ)) → (List ℕ → Option Message) → Type 0
IsCodec encode decode_message =
    (msg : Message) (payload : List ℕ)
    → encode msg ≡ some payload
    → decode_message payload ≡ some msg

module _ (encode : Message → Option (List ℕ)) (decode_message : List ℕ → Option Message)
    (disk : ℕ → Files) (write : ℕ → Writer) where
  -- A message of a peer that is connected reaches the switch.
  handle_rpc_message_lem :
      (remote : GoString) (payload : List ℕ) (msg : Message) (s : Server)
      → decode_message payload ≡ some msg
      → get (normalize_address remote) s.peers ≡ some remote
      → handle_rpc_message encode decode_message disk write
          (record empty_rpc { payload = payload; sender = normalize_address remote })
          s
        ≡ dispatch encode decode_message disk write remote msg s
  unfolding handle_rpc_message with_message
  handle_rpc_message_lem remote payload msg s d g =
      let g' : get (normalize_address (normalize_address remote)) s.peers ≡ some remote =
        ap (λ a. get a s.peers) (normalize_address_twice remote) ∙ g in
      rw (d, g', with_message) refl

  -- A request is answered with what handleChunkRequest makes of it.
  consume-request :
      (remote file_id : GoString) (index : ℤ) (payload : List ℕ) (s : Server)
      → decode_message payload ≡ some (new_chunk_request_message file_id index)
      → get (normalize_address remote) s.peers ≡ some remote
      → consume_rpc_messages encode decode_message disk write
          (record empty_rpc { payload = payload; sender = normalize_address remote } ∷ [])
          s
        ≡ (
          s,
          replied remote (
                handle_chunk_request encode disk write s
                  (record { file_id = file_id; chunk = index }))
              ∷ [],
        )
  unfolding consume_rpc_messages dispatch reply_to string_eq bytes_dec
  consume-request remote file_id index payload s d g =
      ap (λ (r : Server × RpcResult). (r.0, r.1 ∷ []))
        (handle_rpc_message_lem remote payload (new_chunk_request_message file_id index) s d g)

  -- A response is passed to every handler.
  consume-response :
      (remote file_id : GoString) (index : ℤ) (content payload : List ℕ) (s : Server)
      → decode_message payload ≡ some (new_chunk_response_message file_id index content)
      → get (normalize_address remote) s.peers ≡ some remote
      → consume_rpc_messages encode decode_message disk write
          (record empty_rpc { payload = payload; sender = normalize_address remote } ∷ [])
          s
        ≡ (run_handlers (new_chunk_response_message file_id index content) s, handled ∷ [])
  unfolding consume_rpc_messages dispatch run_handlers string_eq bytes_dec
  consume-response remote file_id index content payload s d g =
      ap (λ (r : Server × RpcResult). (r.0, r.1 ∷ []))
        (handle_rpc_message_lem remote payload (new_chunk_response_message file_id index content) s
          d g)

open_handler_answered :
    (file_id : GoString) (index : ℤ) (content : List ℕ)
    → on_response (new_chunk_response_message file_id index content) (open_handler file_id index)
      ≡ record (open_handler file_id index) { response = some (answer file_id index content) }
unfolding on_response open_handler
open_handler_answered file_id index content = ground (arith, ==_refl file_id)

run_handlers-wait_for :
    (file_id : GoString) (index : ℤ) (content : List ℕ) (s : Server)
    → run_handlers (new_chunk_response_message file_id index content) (wait_for file_id index s)
      ≡ record s {
        response_handlers =
            map (on_response (new_chunk_response_message file_id index content)) s.response_handlers
            ++ (record (open_handler file_id index) {
              response = some (answer file_id index content);
            }
                ∷ []);
      }
unfolding run_handlers wait_for
run_handlers-wait_for file_id index content s =
    let msg = new_chunk_response_message file_id index content in
    ap (λ (hs : List Handler). record s { response_handlers = hs })
      (map-append (on_response msg) s.response_handlers (open_handler file_id index ∷ [])
        ∙ ap (λ (h : Handler). map (on_response msg) s.response_handlers ++ (h ∷ []))
            (open_handler_answered file_id index content))

-- Where gob decodes what it encodes, two servers are connected, the one serves the file, has fewer than
-- five response handlers and can read the chunk, whose index is below the number of chunks, and request
-- and response are encoded in 1 byte to 17 MB, then after one request and its reply, all writes
-- succeeding, the handler of the
-- question holds exactly the chunk that ReadChunk gives for the index, all other handlers have seen
-- that same response, and nothing else in the server that asked has changed.
pub exchange_lem :
    (encode : Message → Option (List ℕ)) (decode_message : List ℕ → Option Message)
    (disk : ℕ → Files) (write : ℕ → Writer) (file_id : GoString) (index : ℤ)
    (server_remote client_remote : GoString) (asking serving : Server) (meta : Metadata)
    (content request response : List ℕ)
    → IsCodec encode decode_message
    → IsHealthy write
    → get file_id serving.active_files ≡ some meta
    → length serving.response_handlers < max_concurrent_chunks
    → leb_ℤ meta.num_chunks index ≡ false
    → read_chunk (disk 0) meta.original_path index ≡ ok content
    → encode (new_chunk_request_message file_id index) ≡ some request
    → encode (new_chunk_response_message file_id index content) ≡ some response
    → 0 < length request
    → length request ≤ max_message_size
    → 0 < length response
    → length response ≤ max_message_size
    → exchange encode decode_message disk write file_id index server_remote
        (wait_for file_id index (on_peer server_remote asking))
        client_remote
        (on_peer client_remote serving)
      ≡ record (on_peer server_remote asking) {
        response_handlers =
            map
              (on_response (new_chunk_response_message file_id index content))
              asking.response_handlers
            ++ (record (open_handler file_id index) {
              response = some (answer file_id index content);
            }
                ∷ []);
      }
unfolding exchange on_peer wait_for
exchange_lem encode decode_message disk write file_id index server_remote client_remote asking
      serving meta content request response codec healthy active few i r q a pq lq pr lr =
    let asking' = wait_for file_id index (on_peer server_remote asking) in
    let serving' = on_peer client_remote serving in
    let consume = consume_rpc_messages encode decode_message disk write in
    let requests =
      receive-send_request encode decode_message disk write client_remote file_id index request q pq
        lq in
    let answers =
      consume-request encode decode_message disk write client_remote file_id index request serving'
        (codec (new_chunk_request_message file_id index) request q)
        (get-on_peer client_remote serving) in
    let responses =
      receive-reply encode decode_message disk write client_remote server_remote file_id index
        serving' meta content response healthy active few i r a pr lr in
    let heard =
      consume-response encode decode_message disk write server_remote file_id index content response
        asking' (codec (new_chunk_response_message file_id index content) response a)
        (get-on_peer server_remote asking) in
    ap
      (λ (rs : List Rpc).
        (consume (receive server_remote (reply_writes (consume rs serving').1)) asking').0)
      requests
    ∙ ap
        (λ (z : Server × List RpcResult).
          (consume (receive server_remote (reply_writes z.1)) asking').0)
        answers
    ∙ ap (λ (rs : List Rpc). (consume rs asking').0) responses
    ∙ ap (λ (z : Server × List RpcResult). z.0) heard
    ∙ run_handlers-wait_for file_id index content (on_peer server_remote asking)
