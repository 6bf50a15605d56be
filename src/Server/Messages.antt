-- ===== src/Server/Messages.antt =====
-- server.go: handleMessage and handleMetadataRequest, which nothing calls.
-- `encode` and `encode_metadata` stand for gob's Encode on a message and on the answer to a request for
-- metadata, `decode_metadata` for the JSON decoder of the store.
use file_share_p2p.Prelude.{ℕ, Option, none, some, List, [], ◌∷◌, if◌then◌else◌, ◌==◌}
use file_share_p2p.GoString.{GoString, string_eq}
use file_share_p2p.Metadata.{Metadata}
use file_share_p2p.Wire.Frame.{NetError, Writer}
use file_share_p2p.Chunks.Defs.{Files}
use file_share_p2p.Store.Defs.{get_metadata}
use file_share_p2p.Server.State.{
  Payload, chunk_request, metadata_request, Message, Server, message_type_chunk_request,
  message_type_metadata_request,
}
use file_share_p2p.Server.Reply.{ReplyError, Reply, handle_chunk_request}

pub data MessageError : Type 0 where
  invalid_payload not_found not_encoded : MessageError
  not_written : NetError → MessageError
  not_replied : ReplyError → MessageError

-- What is handed to the connection, in order, and the error that is returned.
pub record Handling : Type 0 where
  pub writes : List (List ℕ)
  pub error : Option MessageError

abbrev pub refusal : MessageError → Handling
refusal e = record { writes = []; error = some e }

abbrev pub reply_error : Option ReplyError → Option MessageError
reply_error none = none
reply_error (some e) = some (not_replied e)

abbrev pub of_reply : Reply → Handling
of_reply reply = record { writes = reply.writes; error = reply_error reply.error }

-- After the write, whose count is not looked at.
abbrev pub after_write : List ℕ → ℕ × Option NetError → Handling
after_write payload (n, none) = record { writes = payload ∷ []; error = none }
after_write payload (n, some e) = record { writes = payload ∷ []; error = some (not_written e) }

module _ (encode : Message → Option (List ℕ)) (encode_metadata : Metadata → Option (List ℕ))
    (decode_metadata : List ℕ → Option Metadata) (root : GoString) (files : Files)
    (disk : ℕ → Files) (write : ℕ → Writer) where
  abbrev pub send_metadata : Option (List ℕ) → Handling
  send_metadata none = refusal not_encoded
  send_metadata (some payload) = after_write payload (write 0 payload)

  abbrev pub answer_metadata : Option Metadata → Handling
  answer_metadata none = refusal not_found
  answer_metadata (some meta) = send_metadata (encode_metadata meta)

  -- handleMetadataRequest; the answer has no length in front.
  unfoldable pub handle_metadata_request : GoString → Handling
  handle_metadata_request file_id =
      answer_metadata (get_metadata decode_metadata root file_id files)

  abbrev pub on_chunk_request : Server → Payload → Handling
  on_chunk_request s (chunk_request req) = of_reply (handle_chunk_request encode disk write s req)
  on_chunk_request s _ = refusal invalid_payload

  abbrev pub on_metadata_request : Payload → Handling
  on_metadata_request (metadata_request file_id) = handle_metadata_request file_id
  on_metadata_request _ = refusal invalid_payload

  -- handleMessage; a message of another type is only logged.
  unfoldable pub handle_message : Server → Message → Handling
  handle_message s msg =
      if msg.kind == message_type_chunk_request
      then on_chunk_request s msg.payload
      else if msg.kind == message_type_metadata_request
      then on_metadata_request msg.payload
      else record { writes = []; error = none }
