-- ===== src/Wire/Frame.antt =====
-- TCPPeer.Send, DefaultDecoder.Decode, and the framing of handleChunkRequest in store.go.
use file_share_p2p.Prelude.{
  ℕ, zero, suc, ◌*◌, Bool, false, Option, none, some, List, [], ◌∷◌, ◌++◌, ltb, leb, eqb,
  if◌then◌else◌, length, take, drop,
}
use file_share_p2p.GoString.{GoString}
use file_share_p2p.Wire.Bytes.{uint32, put_uint32, get_uint32}

-- The errors of a connection that the program tells apart.
pub data NetError : Type 0 where
  eof unexpected_eof closed timeout other : NetError

-- `17*1024*1024`, the limit of Send and of Decode
unfoldable pub max_message_size : ℕ
max_message_size = 17 * 1024 * 1024

-- `conn.Write`: the number of bytes written, and an error.
abbrev pub Writer : Type 0
Writer = List ℕ → ℕ × Option NetError

pub data SendError : Type 0 where
  message_too_large : ℕ → SendError
  write_failed : NetError → SendError
  incomplete_write : ℕ → ℕ → SendError

-- What a call hands to the connection, in order, and the error that it returns.
pub record Sent : Type 0 where
  pub writes : List (List ℕ)
  pub error : Option SendError

-- The message with its length in front: what Send builds in `data`.
abbrev pub frame : List ℕ → List ℕ
frame b = put_uint32 (uint32 (length b)) ++ b

abbrev pub write_error : ℕ → ℕ × Option NetError → Option SendError
write_error total (n, some e) = some (write_failed e)
write_error total (n, none) = if eqb n total then none else some (incomplete_write n total)

-- TCPPeer.Send
unfoldable pub send : Writer → List ℕ → Sent
unfolding max_message_size
send write b =
    if eqb (length b) 0
    then record { writes = []; error = none }
    else if ltb max_message_size (length b)
    then record { writes = []; error = some (message_too_large (length b)) }
    else record { writes = frame b ∷ []; error = write_error (length (frame b)) (write (frame b)) }

-- A connection to read from: the bytes that arrive, and the error that comes after them.
pub record Stream : Type 0 where
  pub bytes : List ℕ
  pub ending : NetError

pub data Read : Type 0 where
  full : List ℕ → Read
  failed : NetError → Read

-- `io.EOF` after some bytes is `io.ErrUnexpectedEOF`.
abbrev pub short_read : ℕ → NetError → NetError
short_read zero e = e
short_read (suc n) eof = unexpected_eof
short_read (suc n) e = e

-- `io.ReadFull`
unfoldable pub read_full : ℕ → Stream → Read × Stream
read_full n s =
    if leb n (length s.bytes)
    then (full (take n s.bytes), record s { bytes = drop n s.bytes })
    else (failed (short_read (length s.bytes) s.ending), record s { bytes = [] })

-- `fmt.Errorf("…: %v", err)` keeps the text of the error and not the error.
pub data DecodeError : Type 0 where
  bare : NetError → DecodeError
  formatted : NetError → DecodeError
  too_large : ℕ → DecodeError

-- `RPC`; Decode fills in the payload.
pub record Rpc : Type 0 where
  pub sender : GoString
  pub payload : List ℕ
  pub stream : Bool

abbrev pub empty_rpc : Rpc
empty_rpc = record { sender = []; payload = []; stream = false }

pub data Decoded : Type 0 where
  message : Rpc → Decoded
  error : DecodeError → Decoded

-- Decode, after the second read
unfoldable pub decode_payload : Read × Stream → Decoded × Stream
decode_payload (full payload, s) = (message (record empty_rpc { payload = payload }), s)
decode_payload (failed e, s) = (error (formatted e), s)

-- Decode, after the length has been converted
unfoldable pub decode_body : ℕ → Stream → Decoded × Stream
decode_body len s =
    if eqb len 0
    then (message empty_rpc, s)
    else if ltb max_message_size len
    then (error (too_large len), s)
    else decode_payload (read_full len s)

-- Decode, after the first read
unfoldable pub decode_prefix : Read × Stream → Decoded × Stream
decode_prefix (full prefix, s) = decode_body (get_uint32 prefix) s
decode_prefix (failed e, s) = (error (formatted e), s)

-- DefaultDecoder.Decode
unfoldable pub decode : Stream → Decoded × Stream
unfolding decode_prefix
decode s = decode_prefix (read_full 4 s)
