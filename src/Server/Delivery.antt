-- ===== src/Server/Delivery.antt =====
-- server.go, store.go and p2p/tcp_transport.go: what Send and handleChunkRequest write is received on
-- the other side as one message.
use file_share_p2p.Prelude.{
  ℕ, ◌≤◌, ◌<◌, true, false, Option, some, List, [], ◌∷◌, ◌++◌, ◌≡◌, refl, ap, ◌∙◌, arith, length,
}
use mathlib.Core.List.{append-nil}
use file_share_p2p.Prelude.Int.{ℤ, leb_ℤ}
use file_share_p2p.Prelude.Maps.{get}
use file_share_p2p.GoString.{GoString, string_eq}
use file_share_p2p.Wire.Frame.{
  eof, Writer, Stream, Decoded, empty_rpc, message, decode, send, frame, max_message_size,
}
use file_share_p2p.Wire.RoundTrip.{after, decode-frame}
use file_share_p2p.Wire.Conn.{read_loop}
use file_share_p2p.Chunks.Defs.{Files, ok, read_chunk}
use file_share_p2p.Metadata.{Metadata}
use file_share_p2p.Server.State.{
  Message, ChunkRequest, Server, new_chunk_request_message, new_chunk_response_message,
  normalize_address,
}
use file_share_p2p.Server.Reply.{handle_chunk_request, max_concurrent_chunks}
use file_share_p2p.Server.Rpc.{replied}
use file_share_p2p.Server.RoundTrip.{joined, IsHealthy, decode-handle_chunk_request}
use file_share_p2p.Server.Exchange.{carrying, receive, reply_writes, send_request}

receive-message :
    (remote : GoString) (writes : List (List ℕ)) (b : List ℕ) (rest : Stream)
    → decode (carrying writes) ≡ (message (record empty_rpc { payload = b }), rest)
    → receive remote writes
      ≡ record empty_rpc { payload = b; sender = normalize_address remote } ∷ []
unfolding receive
receive-message remote writes b rest h =
    ap (λ (d : Decoded × Stream). read_loop (normalize_address remote) 0 ((d.0, true) ∷ [])) h
    ∙ (unfold read_loop in refl)

joined-send :
    (write : Writer) (b : List ℕ)
    → 0 < length b
    → length b ≤ max_message_size
    → joined (send write b).writes ≡ frame b
unfolding send
joined-send write b p l = ground (arith, append-nil (frame b))

module _ (encode : Message → Option (List ℕ)) (decode_message : List ℕ → Option Message)
    (disk : ℕ → Files) (write : ℕ → Writer) where
  -- The frame of a request arrives at the other side.
  pub receive-send_request :
      (remote file_id : GoString) (index : ℤ) (payload : List ℕ)
      → encode (new_chunk_request_message file_id index) ≡ some payload
      → 0 < length payload
      → length payload ≤ max_message_size
      → receive remote (send_request encode decode_message disk write file_id index)
        ≡ record empty_rpc { payload = payload; sender = normalize_address remote } ∷ []
  unfolding send_request
  receive-send_request remote file_id index payload e p l =
      let ended : Stream = record { bytes = []; ending = eof } in
      let d : decode (carrying (send (write 0) payload).writes)
          ≡ (message (record empty_rpc { payload = payload }), ended) =
        ap (λ w. decode (after w ended)) (joined-send (write 0) payload p l)
        ∙ decode-frame payload ended p l in
      rw (e, send_request) (receive-message remote (send (write 0) payload).writes payload ended d)

  -- The reply arrives at the side that asked.
  pub receive-reply :
      (client_remote server_remote file_id : GoString) (index : ℤ) (serving : Server)
      (meta : Metadata) (content response : List ℕ)
      → IsHealthy write
      → get file_id serving.active_files ≡ some meta
      → length serving.response_handlers < max_concurrent_chunks
      → leb_ℤ meta.num_chunks index ≡ false
      → read_chunk (disk 0) meta.original_path index ≡ ok content
      → encode (new_chunk_response_message file_id index content) ≡ some response
      → 0 < length response
      → length response ≤ max_message_size
      → receive server_remote (
          reply_writes (
            replied client_remote (
              handle_chunk_request encode disk write serving
                (record { file_id = file_id; chunk = index }))
            ∷ []))
        ≡ record empty_rpc { payload = response; sender = normalize_address server_remote } ∷ []
  unfolding reply_writes
  receive-reply client_remote server_remote file_id index serving meta content response healthy
        active few i r a p l =
      let req : ChunkRequest = record { file_id = file_id; chunk = index } in
      let ended : Stream = record { bytes = []; ending = eof } in
      let reply = handle_chunk_request encode disk write serving req in
      let (d, fine) =
        decode-handle_chunk_request encode disk write serving req meta content response ended active
          few i r a p l healthy in
      receive-message server_remote (reply.writes ++ []) response ended
        (ap (λ ws. decode (carrying ws)) (append-nil reply.writes) ∙ d)
