-- ===== src/Wire/Conn.antt =====
-- p2p/tcp_transport.go: the heartbeat goroutine and the read loop of handleConn.
use file_share_p2p.Prelude.{
  ℕ, ◌+◌, Bool, true, false, ◌||◌, Option, none, some, List, [], ◌∷◌, ◌≡◌, refl, arith, ltb,
  if◌then◌else◌, Bool-cases, inl, inr, subst, eqb,
}
use file_share_p2p.GoString.{GoString}
use file_share_p2p.Wire.Bytes.{get_uint32}
use file_share_p2p.Wire.Frame.{
  eof, closed, timeout, Writer, send, Stream, Read, full, failed, read_full, Rpc, Decoded, message,
  error, DecodeError, bare, formatted, decode, decode_body, decode_payload, decode_prefix,
  max_message_size,
}

-- One tick of the heartbeat goroutine: the count of failures, or nothing where it closes the
-- connection.
unfoldable pub heartbeat_tick : Writer → ℕ → Option ℕ
heartbeat_tick write failures = elim (send write []).error [
  | none ↦ some 0
  | some e ↦ if ltb 3 (failures + 1) then none else some (failures + 1)
]

-- The ticks, each with what a write on the connection would return at that time.
unfoldable pub heartbeats : List Writer → ℕ → Option ℕ
heartbeats [] failures = some failures
heartbeats (write ∷ ticks) failures = elim (heartbeat_tick write failures) [
  | none ↦ none
  | some failures' ↦ heartbeats ticks failures'
]

-- `err == io.EOF`
abbrev pub is_eof : DecodeError → Bool
is_eof (bare eof) = true
is_eof _ = false

-- `strings.Contains(err.Error(), "use of closed network connection")`
abbrev pub is_closed : DecodeError → Bool
is_closed (bare closed) = true
is_closed (formatted closed) = true
is_closed _ = false

-- `ne, ok := err.(net.Error); ok && ne.Timeout()`
abbrev pub is_timeout : DecodeError → Bool
is_timeout (bare timeout) = true
is_timeout _ = false

-- The read loop after an error: the new count of retries, or nothing where the loop ends.
unfoldable pub on_error : ℕ → DecodeError → Option ℕ
on_error retries e =
    if is_eof e || is_closed e
    then none
    else if is_timeout e
    then if ltb 3 (retries + 1) then none else some (retries + 1)
    else none

-- The read loop over what the decoder returns, each with whether the channel takes the message
-- within a second. The result is what is forwarded.
unfoldable pub read_loop : GoString → ℕ → List (Decoded × Bool) → List Rpc
read_loop from retries [] = []
read_loop from retries ((message rpc, taken) ∷ events) =
    let rest = read_loop from 0 events in
    if taken then record rpc { sender = from } ∷ rest else rest
read_loop from retries ((error e, taken) ∷ events) = elim (on_error retries e) [
  | none ↦ []
  | some retries' ↦ read_loop from retries' events
]

-- A heartbeat writes nothing, so it never fails: after any number of ticks, even where every write
-- would fail, the connection is open, the count is zero, and nothing has been sent.
pub heartbeats_never_close :
    (ticks : List Writer) (write : Writer)
    → (heartbeats ticks 0 ≡ some 0) × ((send write []).writes ≡ [])
unfolding heartbeats heartbeat_tick send
heartbeats_never_close [] write = (refl, refl)
heartbeats_never_close (w ∷ ticks) write = ((heartbeats_never_close ticks write).0, refl)

error_injective : {a b : DecodeError} → error a ≡ error b → a ≡ b
error_injective h = cc

-- The errors of DefaultDecoder hide what they were made from.
abbrev Hides : Decoded × Stream → Type 0
Hides (message rpc, s) = Unit
Hides (error e, s) = (is_eof e ≡ false) × (is_timeout e ≡ false)

decode_payload-Hides : (r : Read × Stream) → Hides (decode_payload r)
unfolding decode_payload
decode_payload-Hides (full b, s) = tt
decode_payload-Hides (failed e, s) = (refl, refl)

decode_body-Hides : (len : ℕ) (s : Stream) → Hides (decode_body len s)
unfolding decode_body
decode_body-Hides len s = elim (Bool-cases (eqb len 0)) [
  | inl e ↦ rw e tt
  | inr e ↦ elim (Bool-cases (ltb max_message_size len)) [
    | inl f ↦ rw (e, f) (refl, refl)
    | inr f ↦ rw (e, f) (decode_payload-Hides (read_full len s))
  ]
]

decode_prefix-Hides : (r : Read × Stream) → Hides (decode_prefix r)
unfolding decode_prefix
decode_prefix-Hides (full b, s) = decode_body-Hides (get_uint32 b) s
decode_prefix-Hides (failed e, s) = (refl, refl)

decode-Hides : (s : Stream) → Hides (decode s)
unfolding decode
decode-Hides s = decode_prefix-Hides (read_full 4 s)

decoded_error :
    (d : Decoded × Stream) (e : DecodeError)
    → Hides d
    → d.0 ≡ error e
    → (is_eof e ≡ false) × (is_timeout e ≡ false)
decoded_error (message rpc, s) e hides h = cc
decoded_error (error e', s) e hides h =
    subst (λ x. (is_eof x ≡ false) × (is_timeout x ≡ false)) (error_injective h) hides

-- With DefaultDecoder the first error of any kind ends the read loop: no read is retried, neither
-- after a timeout nor otherwise, and what arrives later is not forwarded.
pub read_loop-decode_error :
    (from : GoString) (retries : ℕ) (s : Stream) (e : DecodeError) (taken : Bool)
    (events : List (Decoded × Bool))
    → (decode s).0 ≡ error e
    → read_loop from retries ((error e, taken) ∷ events) ≡ []
unfolding read_loop on_error
read_loop-decode_error from retries s e taken events h =
    ground (arith, decoded_error (decode s) e (decode-Hides s) h)
