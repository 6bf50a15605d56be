-- ===== src/Server/Reply.antt =====
-- store.go: handleChunkRequest.
-- `encode` stands for gob.NewEncoder(...).Encode, `disk` for the files at each attempt to read, and
-- `write` for what each call of Write on the connection returns.
use file_share_p2p.Prelude.{
  ℕ, zero, suc, ◌*◌, Option, none, some, List, [], ◌∷◌, leb, eqb, if◌then◌else◌, length, take, drop,
}
use file_share_p2p.Prelude.Int.{ℤ, leb_ℤ}
use file_share_p2p.Prelude.Maps.{get}
use file_share_p2p.GoString.{GoString, string_eq}
use file_share_p2p.Wire.Bytes.{uint32, put_uint32}
use file_share_p2p.Wire.Frame.{NetError, Writer}
use file_share_p2p.Chunks.Defs.{Files, ok, err, read_chunk}
use file_share_p2p.Server.State.{ChunkRequest, Message, Server, new_chunk_response_message}
use file_share_p2p.Metadata.{Metadata}

pub data ReplyError : Type 0 where
  not_seeded too_many invalid_index not_read not_encoded : ReplyError
  length_failed : NetError → ReplyError
  payload_failed : NetError → ReplyError
  incomplete_write : ReplyError

-- What is handed to the connection, in order, and the error that is returned.
pub record Reply : Type 0 where
  pub writes : List (List ℕ)
  pub error : Option ReplyError

abbrev pub refuse : ReplyError → Reply
refuse e = record { writes = []; error = some e }

abbrev pub write_first : List ℕ → Reply → Reply
write_first bytes reply = record reply { writes = bytes ∷ reply.writes }

-- `maxConcurrentChunks`
unfoldable pub max_concurrent_chunks : ℕ
max_concurrent_chunks = 5

-- `maxChunkSize`
unfoldable pub max_slice : ℕ
max_slice = 1024 * 1024

-- The loop that reads a chunk, with `left` attempts to go.
unfoldable pub read_retries : (ℕ → Files) → GoString → ℤ → ℕ → ℕ → Option (List ℕ)
read_retries disk path index zero retries = none
read_retries disk path index (suc left) retries =
    let rest = read_retries disk path index left (suc retries) in
    elim (read_chunk (disk retries) path index) [ ok content ↦ some content | err e ↦ rest ]

-- After a write of one slice.
unfoldable pub after_slice : List ℕ → ℕ × Option NetError → Reply → Reply
after_slice slice (n, some e) rest = record { writes = slice ∷ []; error = some (payload_failed e) }
after_slice slice (n, none) rest =
    if eqb n (length slice)
    then write_first slice rest
    else record { writes = slice ∷ []; error = some incomplete_write }

-- The loop that sends the data in slices, from the i-th call of Write on. The first number bounds the
-- rounds; the length of the data is enough.
unfoldable pub send_slices : (ℕ → Writer) → ℕ → ℕ → List ℕ → Reply
send_slices write zero i payload = record { writes = []; error = none }
send_slices write (suc rounds) i payload =
    let rest = send_slices write rounds (suc i) (drop max_slice payload) in
    if eqb (length payload) 0
    then record { writes = []; error = none }
    else after_slice (take max_slice payload) (write i (take max_slice payload)) rest

abbrev pub after_length : List ℕ → ℕ × Option NetError → Reply → Reply
after_length prefix (n, some e) rest = record {
  writes = prefix ∷ [];
  error = some (length_failed e);
}
after_length prefix (n, none) rest = write_first prefix rest

-- The reply, once the message is encoded.
unfoldable pub send_reply : (ℕ → Writer) → List ℕ → Reply
send_reply write payload =
    let prefix = put_uint32 (uint32 (length payload)) in
    after_length prefix (write 0 prefix) (send_slices write (length payload) 1 payload)

unfoldable pub reply_encoded : (ℕ → Writer) → Option (List ℕ) → Reply
reply_encoded write none = refuse not_encoded
reply_encoded write (some payload) = send_reply write payload

unfoldable pub reply_read :
    (Message → Option (List ℕ)) → (ℕ → Writer) → ChunkRequest → Option (List ℕ) → Reply
reply_read encode write req none = refuse not_read
reply_read encode write req (some content) =
    reply_encoded write (encode (new_chunk_response_message req.file_id req.chunk content))

-- handleChunkRequest, for a file that is shared
unfoldable pub reply_active :
    (Message → Option (List ℕ))
    → (ℕ → Files)
    → (ℕ → Writer)
    → Server
    → ChunkRequest
    → Metadata
    → Reply
unfolding max_concurrent_chunks
reply_active encode disk write s req meta =
    if leb max_concurrent_chunks (length s.response_handlers)
    then refuse too_many
    else if leb_ℤ meta.num_chunks req.chunk
    then refuse invalid_index
    else reply_read encode write req (read_retries disk meta.original_path req.chunk 3 0)

unfoldable pub handle_chunk_request :
    (Message → Option (List ℕ)) → (ℕ → Files) → (ℕ → Writer) → Server → ChunkRequest → Reply
handle_chunk_request encode disk write s req = elim (get req.file_id s.active_files) [
  | none ↦ refuse not_seeded
  | some meta ↦ reply_active encode disk write s req meta
]
