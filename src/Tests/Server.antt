-- ===== src/Tests/Server.antt =====
-- store.go and server.go: a server that shares a file of five bytes, and a download of a chunk.
use file_share_p2p.Prelude.{ℕ, Option, some, none, List, [], ◌∷◌, ◌≡◌, ◌≢◌, refl, length, arith}
use file_share_p2p.Prelude.Int.{pos}
use file_share_p2p.Prelude.Maps.{get}
use file_share_p2p.GoString.{GoString, string_eq, bytes_dec, bytes}
use file_share_p2p.Wire.Frame.{eof, Writer, Stream, empty_rpc, message, max_message_size, decode}
use file_share_p2p.Wire.RoundTrip.{after}
use file_share_p2p.Chunks.Defs.{Files, read_chunk, read_from, default_chunk_size}
use file_share_p2p.Server.State.{Message, Payload, chunk_response, ChunkRequest, Server, on_peer}
use file_share_p2p.Metadata.{Metadata}
use file_share_p2p.Server.Reply.{handle_chunk_request, max_concurrent_chunks}
use file_share_p2p.Server.Download.{
  Ending, timed_out, ask_peer, ask_peers, download_chunk, download_rounds,
}
use file_share_p2p.Server.Connect.{Network, v4}
use file_share_p2p.Server.Handlers.{done, by_peer}
use file_share_p2p.Server.Limit.{handle_chunk_request-full}
use file_share_p2p.Server.RoundTrip.{joined, decode-handle_chunk_request}

abbrev shared_file : Metadata
shared_file = record {
  file_id = bytes "x";
  num_chunks = pos 1;
  chunk_size = pos 16777216;
  file_extension = bytes ".txt";
  original_path = bytes "notes.txt";
  chunk_hashes = bytes "00" ∷ [];
  total_hash = bytes "00";
  total_size = pos 5;
}

abbrev server : Server
server = record {
  peers = (bytes "1.2.3.4:3000", bytes "1.2.3.4:3000") ∷ [];
  response_handlers = [];
  active_files = (bytes "x", shared_file) ∷ [];
}

abbrev request : ChunkRequest
request = record { file_id = bytes "x"; chunk = pos 0 }

abbrev disk : ℕ → Files
disk = λ attempt. (bytes "notes.txt", bytes "hello") ∷ []

abbrev connection : ℕ → Writer
connection = λ i b. (length b, none)

-- The response's bytes behind one byte.
abbrev encode_payload : Payload → Option (List ℕ)
encode_payload (chunk_response resp) = some (1 ∷ resp.content)
encode_payload _ = none

abbrev encode : Message → Option (List ℕ)
encode msg = encode_payload msg.payload

abbrev ended : Stream
ended = record { bytes = []; ending = eof }

decode-handle_chunk_request_example :
    (decode
        (after (joined (handle_chunk_request encode disk connection server request).writes) ended)
      ≡ (message (record empty_rpc { payload = 1 ∷ bytes "hello" }), ended))
    × ((handle_chunk_request encode disk connection server request).error ≡ none)
unfolding get string_eq bytes_dec read_chunk read_from default_chunk_size max_message_size
    max_concurrent_chunks
decode-handle_chunk_request_example =
    decode-handle_chunk_request encode disk connection server request shared_file (bytes "hello")
      (1 ∷ bytes "hello") ended refl (omega arith) refl refl refl (omega arith) (omega arith)
      (λ i b. refl)

-- One peer, which does not answer in time.
abbrev silent : ℕ → Server → List (GoString × Ending)
silent = λ attempt s. (bytes "1.2.3.4:3000", timed_out) ∷ []

-- The tracker does not answer.
abbrev alone : Network
alone = record {
  split_host_port = λ addr. some (bytes "1.2.3.4", bytes "3000");
  parse_ip = λ host. some (v4 1 2 3 4);
  listen = bytes ":3000";
  answer = λ attempt. none;
  dial = λ attempt addr. some addr;
}

-- A chunk asked twice of the silent peer: six attempts.
abbrev busy : Server
busy =
    (download_chunk (bytes "y") (pos 0) (pos 16777216) silent alone
      (download_chunk (bytes "y") (pos 0) (pos 16777216) silent alone server []).server []).server

handle_chunk_request-full_example :
    ((handle_chunk_request encode disk connection
        (on_peer (bytes "5.6.7.8:3000") busy)
        request).writes
      ≡ [])
    × ((handle_chunk_request encode disk connection
          (on_peer (bytes "5.6.7.8:3000") busy)
          request).error
        ≢ none)
unfolding download_chunk download_rounds ask_peers ask_peer max_concurrent_chunks
handle_chunk_request-full_example =
    handle_chunk_request-full encode disk connection busy (on_peer (bytes "5.6.7.8:3000") busy)
      request (by_peer (bytes "5.6.7.8:3000") busy busy (done busy)) (omega arith)
