-- ===== src/Tests/Wire.antt =====
-- encoding.go and tcp_transport.go: two messages with an empty one between them.
use file_share_p2p.Prelude.{ℕ, ◌^◌, true, some, none, List, [], ◌∷◌, ◌≡◌, refl, length, arith}
use file_share_p2p.GoString.{bytes}
use file_share_p2p.Wire.Bytes.{put_uint32}
use file_share_p2p.Wire.Frame.{
  eof, other, Writer, Stream, error, too_large, formatted, max_message_size, decode, decode_prefix,
  read_full,
}
use file_share_p2p.Wire.RoundTrip.{
  after, wire, spoken, decode_all, decode_all-wire, decode_oversized,
}
use file_share_p2p.Wire.Conn.{read_loop, read_loop-decode_error}

abbrev messages : List (List ℕ)
messages = bytes "hi" ∷ [] ∷ bytes "you" ∷ []

-- A connection that takes everything.
abbrev healthy : Writer
healthy = λ b. (length b, none)

-- A connection that takes nothing.
abbrev broken : Writer
broken = λ b. (0, some other)

abbrev ended : Stream
ended = record { bytes = []; ending = eof }

decode_all-wire_example :
    decode_all (length (spoken messages)) (after (wire healthy messages) ended)
    ≡ (bytes "hi" ∷ bytes "you" ∷ [], ended)
unfolding max_message_size
decode_all-wire_example =
    decode_all-wire healthy messages ended (omega arith, (omega arith, (omega arith, tt)))

oversized_is_refused :
    decode (after (put_uint32 (2 ^ 31)) ended) ≡ (error (too_large (2 ^ 31)), ended)
unfolding max_message_size
oversized_is_refused = decode_oversized (2 ^ 31) ended (omega arith) (omega arith)

read_loop-decode_error_example :
    read_loop (bytes "a:1") 0 ((error (formatted eof), true) ∷ (error (formatted eof), true) ∷ [])
    ≡ []
unfolding decode decode_prefix read_full
read_loop-decode_error_example =
    read_loop-decode_error (bytes "a:1") 0 ended (formatted eof) true
      ((error (formatted eof), true) ∷ []) refl
