-- ===== src/Server/State.antt =====
-- server.go: the state of FileServer, onPeer and the handler of a response. p2p/message.go: the
-- messages. p2p/tcp_transport.go: NormalizeAddress.
use file_share_p2p.Prelude.{
  ℕ, ◌+◌, Bool, true, ◌&&◌, Option, none, some, List, ◌++◌, ltb, if◌then◌else◌, drop, ◌==◌,
}
use file_share_p2p.Prelude.Int.{ℤ, eqb_ℤ}
use file_share_p2p.Prelude.Maps.{Map, put, delete}
use file_share_p2p.Metadata.{Metadata}
use file_share_p2p.GoString.{GoString, string_eq, bytes, has_prefix, last_index}

pub record ChunkRequest : Type 0 where
  pub file_id : GoString
  pub chunk : ℤ

pub record ChunkResponse : Type 0 where
  pub file_id : GoString
  pub chunk : ℤ
  pub content : List ℕ

-- What a decoded message can hold. A pointer to a payload is treated as the payload.
pub data Payload : Type 0 where
  chunk_request : ChunkRequest → Payload
  chunk_response : ChunkResponse → Payload
  metadata_request : GoString → Payload
  other_payload : Payload

pub record Message : Type 0 where
  pub kind : GoString
  pub payload : Payload

abbrev pub message_type_chunk_request : GoString
message_type_chunk_request = bytes "chunk_request"

abbrev pub message_type_chunk_response : GoString
message_type_chunk_response = bytes "chunk_response"

abbrev pub message_type_metadata_request : GoString
message_type_metadata_request = bytes "metadata_request"

-- NewChunkRequestMessage
abbrev pub new_chunk_request_message : GoString → ℤ → Message
new_chunk_request_message file_id chunk = record {
  kind = message_type_chunk_request;
  payload = chunk_request (record { file_id = file_id; chunk = chunk });
}

-- NewChunkResponseMessage
abbrev pub new_chunk_response_message : GoString → ℤ → List ℕ → Message
new_chunk_response_message file_id chunk content = record {
  kind = message_type_chunk_response;
  payload = chunk_response (record { file_id = file_id; chunk = chunk; content = content });
}

-- A function in `responseHandlers`: the chunk it waits for, whether `done` is closed, and what its
-- two channels hold, which have room for one value each.
pub record Handler : Type 0 where
  pub file_id : GoString
  pub chunk : ℤ
  pub is_done : Bool
  pub response : Option ChunkResponse
  pub is_failed : Bool

-- A value is put in a channel that has room, and is dropped otherwise.
abbrev pub offer : ChunkResponse → Option ChunkResponse → Option ChunkResponse
offer resp none = some resp
offer resp (some first) = some first

unfoldable pub take_payload : Handler → Payload → Handler
take_payload h (chunk_response resp) =
    if resp.file_id == h.file_id && eqb_ℤ resp.chunk h.chunk
    then record h { response = offer resp h.response }
    else h
take_payload h _ = record h { is_failed = true }

-- The function that downloadChunk appends to `responseHandlers`.
unfoldable pub on_response : Message → Handler → Handler
unfolding take_payload
on_response msg h =
    if h.is_done
    then h
    else if msg.kind == message_type_chunk_response
    then take_payload h msg.payload
    else h

-- A peer is the text of its remote address.
pub record Server : Type 0 where
  pub peers : Map GoString GoString
  pub response_handlers : List Handler
  pub active_files : Map GoString Metadata

-- NormalizeAddress, with the index of the last colon
unfoldable pub after_port : GoString → Option ℕ → GoString
after_port addr none = addr
after_port addr (some i) = if ltb 0 i then bytes "localhost:" ++ drop (i + 1) addr else addr

unfoldable pub normalize_address : GoString → GoString
unfolding after_port
normalize_address addr =
    if has_prefix addr (bytes "[::1]:") then after_port addr (last_index b':' addr) else addr

-- onPeer
unfoldable pub on_peer : GoString → Server → Server
on_peer remote s = record s { peers = put (normalize_address remote) remote s.peers }

-- ShareFile, before it announces the file
unfoldable pub start_seeding : GoString → Metadata → Server → Server
start_seeding file_id meta s = record s { active_files = put file_id meta s.active_files }

-- StopSeedingFile
unfoldable pub stop_seeding : GoString → Server → Server
stop_seeding file_id s = record s { active_files = delete file_id s.active_files }
