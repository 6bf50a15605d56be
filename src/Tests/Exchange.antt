-- ===== src/Tests/Exchange.antt =====
-- server.go and store.go: a request for the first chunk of a file of five bytes and its answer, with
-- a small codec.
use file_share_p2p.Prelude.{
  ℕ, zero, suc, ◌≡◌, refl, sym, ap, ◌∙◌, Option, some, none, List, [], ◌∷◌, ◌++◌, length, take,
  drop, take_exact, drop_exact, arith, if◌then◌else◌, ◌==◌, ==_iff, Bool-cases, inl, inr, map,
}
use mathlib.Core.Option.{some-injective}
use file_share_p2p.Prelude.Int.{ℤ, pos, negsuc}
use file_share_p2p.Prelude.Maps.{get}
use file_share_p2p.GoString.{GoString, string_eq, bytes_dec, bytes}
use file_share_p2p.Wire.Frame.{Writer, max_message_size}
use file_share_p2p.Chunks.Defs.{Files, read_chunk, read_from, default_chunk_size}
use file_share_p2p.Metadata.{Metadata}
use file_share_p2p.Server.State.{
  Message, Payload, chunk_request, chunk_response, metadata_request, other_payload, ChunkRequest,
  ChunkResponse, Server, on_peer, on_response, message_type_chunk_request,
  message_type_chunk_response, new_chunk_request_message, new_chunk_response_message,
}
use file_share_p2p.Server.Reply.{max_concurrent_chunks}
use file_share_p2p.Server.Exchange.{open_handler, wait_for, exchange}
use file_share_p2p.Server.Answered.{IsCodec, answer, exchange_lem}

abbrev sign : ℤ → ℕ
sign (pos n) = 0
sign (negsuc n) = 1

abbrev magnitude : ℤ → ℕ
magnitude (pos n) = n
magnitude (negsuc n) = n

abbrev to_ℤ : ℕ → ℕ → ℤ
to_ℤ zero n = pos n
to_ℤ (suc k) n = negsuc n

abbrev encode_payload : GoString → Payload → Option (List ℕ)
encode_payload kind (chunk_request req) =
    if kind == message_type_chunk_request
    then some (0 ∷ sign req.chunk ∷ magnitude req.chunk ∷ req.file_id)
    else none
encode_payload kind (chunk_response resp) =
    if kind == message_type_chunk_response
    then some (
        1
        ∷ sign resp.chunk
        ∷ magnitude resp.chunk
        ∷ length resp.file_id
        ∷ (resp.file_id ++ resp.content))
    else none
encode_payload kind _ = none

abbrev encode : Message → Option (List ℕ)
encode msg = encode_payload msg.kind msg.payload

abbrev decode_message : List ℕ → Option Message
decode_message (zero ∷ s ∷ m ∷ file_id) = some (new_chunk_request_message file_id (to_ℤ s m))
decode_message (suc k ∷ s ∷ m ∷ n ∷ rest) =
    some (new_chunk_response_message (take n rest) (to_ℤ s m) (drop n rest))
decode_message _ = none

to_ℤ-sign : (z : ℤ) → to_ℤ (sign z) (magnitude z) ≡ z
to_ℤ-sign (pos n) = refl
to_ℤ-sign (negsuc n) = refl

none_some : {b : List ℕ} {A : Type 0} → none ≡ some b → A
none_some h = cc

request_decodes :
    (kind : GoString) (req : ChunkRequest) (payload : List ℕ)
    → encode_payload kind (chunk_request req) ≡ some payload
    → decode_message payload ≡ some (record { kind = kind; payload = chunk_request req })
request_decodes kind req payload e = elim (Bool-cases (kind == message_type_chunk_request)) [
  | inl t ↦
      ap decode_message (sym (some-injective _ _ (rw t at e)))
      ∙ ap (λ z. some (new_chunk_request_message req.file_id z)) (to_ℤ-sign req.chunk)
      ∙ ap (λ (k : GoString). some (record { kind = k; payload = chunk_request req }))
          (sym ((==_iff kind message_type_chunk_request).0 t))
  | inr t ↦ none_some (rw t at e)
]

response_decodes :
    (kind : GoString) (resp : ChunkResponse) (payload : List ℕ)
    → encode_payload kind (chunk_response resp) ≡ some payload
    → decode_message payload ≡ some (record { kind = kind; payload = chunk_response resp })
response_decodes kind resp payload e =
    let rest = resp.file_id ++ resp.content in
    let n = length resp.file_id in
    elim (Bool-cases (kind == message_type_chunk_response)) [
      | inl t ↦
          ap decode_message (sym (some-injective _ _ (rw t at e)))
          ∙ ap (λ z. some (new_chunk_response_message (take n rest) z (drop n rest)))
              (to_ℤ-sign resp.chunk)
          ∙ ap (λ f. some (new_chunk_response_message f resp.chunk (drop n rest)))
              (take_exact resp.file_id resp.content)
          ∙ ap (λ c. some (new_chunk_response_message resp.file_id resp.chunk c))
              (drop_exact resp.file_id resp.content)
          ∙ ap (λ (k : GoString). some (record { kind = k; payload = chunk_response resp }))
              (sym ((==_iff kind message_type_chunk_response).0 t))
      | inr t ↦ none_some (rw t at e)
    ]

payload_decodes :
    (kind : GoString) (p : Payload) (payload : List ℕ)
    → encode_payload kind p ≡ some payload
    → decode_message payload ≡ some (record { kind = kind; payload = p })
payload_decodes kind (chunk_request req) payload e = request_decodes kind req payload e
payload_decodes kind (chunk_response resp) payload e = response_decodes kind resp payload e
payload_decodes kind (metadata_request file_id) payload e = none_some e
payload_decodes kind other_payload payload e = none_some e

encode-IsCodec : IsCodec encode decode_message
encode-IsCodec msg payload h = payload_decodes msg.kind msg.payload payload h

abbrev shared_file : Metadata
shared_file = record {
  file_id = bytes "x";
  num_chunks = pos 1;
  chunk_size = pos 16777216;
  file_extension = bytes ".txt";
  original_path = bytes "notes.txt";
  chunk_hashes = bytes "00" ∷ [];
  total_hash = bytes "00";
  total_size = pos 5;
}

abbrev serving : Server
serving = record {
  peers = [];
  response_handlers = [];
  active_files = (bytes "x", shared_file) ∷ [];
}

-- A server that waits for another chunk already.
abbrev asking : Server
asking = record {
  peers = [];
  response_handlers = open_handler (bytes "x") (pos 1) ∷ [];
  active_files = [];
}

abbrev disk : ℕ → Files
disk = λ attempt. (bytes "notes.txt", bytes "hello") ∷ []

abbrev connection : ℕ → Writer
connection = λ i b. (length b, none)

abbrev hello : Message
hello = new_chunk_response_message (bytes "x") (pos 0) (bytes "hello")

exchange_lem_example :
    exchange encode decode_message disk connection
      (bytes "x")
      (pos 0)
      (bytes "[::1]:3000")
      (wait_for (bytes "x") (pos 0) (on_peer (bytes "[::1]:3000") asking))
      (bytes "1.2.3.4:4000")
      (on_peer (bytes "1.2.3.4:4000") serving)
    ≡ record (on_peer (bytes "[::1]:3000") asking) {
      response_handlers =
          map (on_response hello) asking.response_handlers
          ++ (record (open_handler (bytes "x") (pos 0)) {
            response = some (answer (bytes "x") (pos 0) (bytes "hello"));
          }
              ∷ []);
    }
unfolding get string_eq bytes_dec read_chunk read_from default_chunk_size max_message_size
    max_concurrent_chunks
exchange_lem_example =
    exchange_lem encode decode_message disk connection (bytes "x") (pos 0) (bytes "[::1]:3000")
      (bytes "1.2.3.4:4000") asking serving shared_file (bytes "hello") (0 ∷ 0 ∷ 0 ∷ bytes "x")
      (1 ∷ 0 ∷ 0 ∷ 1 ∷ bytes "xhello") encode-IsCodec (λ i b. refl) refl (omega arith) refl refl
      refl refl (omega arith) (omega arith) (omega arith) (omega arith)
