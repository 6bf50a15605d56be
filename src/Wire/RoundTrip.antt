-- ===== src/Wire/RoundTrip.antt =====
-- What Send puts on the wire, Decode takes off it.
use file_share_p2p.Prelude.{
  ℕ, zero, suc, ◌^◌, ◌≤◌, ◌<◌, true, List, [], ◌∷◌, ◌++◌, ◌≡◌, refl, ap, ◌∙◌, arith, eqb,
  if◌then◌else◌, length, length-append, take_exact, drop_exact, All, subst, Bool-cases, inl, inr,
}
use mathlib.Core.List.{append_assoc, append-nil}
use file_share_p2p.Wire.Bytes.{uint32, put_uint32, get-put_uint32, length-put_uint32}
use file_share_p2p.Wire.Frame.{
  max_message_size, Writer, frame, send, Stream, full, read_full, empty_rpc, message, error,
  too_large, decode_payload, decode_body, decode_prefix, decode,
}

-- The bytes of a stream after the given ones.
abbrev pub after : List ℕ → Stream → Stream
after bytes s = record s { bytes = bytes ++ s.bytes }

read_full_lem :
    (n : ℕ) (xs : List ℕ) (s : Stream) → length xs ≡ n → read_full n (after xs s) ≡ (full xs, s)
unfolding read_full
read_full_lem n xs s h =
    subst (λ k. read_full k (after xs s) ≡ (full xs, s)) h
      (ground (arith, length-append xs s.bytes, take_exact xs s.bytes, drop_exact xs s.bytes))

-- A length in range is followed by that many bytes.
decode_body_lem :
    (b : List ℕ) (s : Stream)
    → 0 < length b
    → length b ≤ max_message_size
    → decode_body (length b) (after b s) ≡ (message (record empty_rpc { payload = b }), s)
unfolding decode_body decode_payload
decode_body_lem b s p h = ground (arith, read_full_lem (length b) b s refl)

small : (b : List ℕ) → length b ≤ max_message_size → length b < 2 ^ 32
unfolding max_message_size
small b h = omega arith

uint32_small : (n : ℕ) → n < 2 ^ 32 → uint32 n ≡ n
uint32_small n h = omega arith

-- The prefix alone: whatever follows four bytes of length is read as the body.
decode-put_uint32 :
    (v : ℕ) (s : Stream) → v < 2 ^ 32 → decode (after (put_uint32 v) s) ≡ decode_body v s
unfolding decode
decode-put_uint32 v s h =
    ap decode_prefix (read_full_lem 4 (put_uint32 v) s (length-put_uint32 v))
    ∙ ap (λ k. decode_body k s) (get-put_uint32 v h)

-- Four bytes of length and the message, as Send and handleChunkRequest put them on the wire.
pub decode-message :
    (b : List ℕ) (s : Stream)
    → 0 < length b
    → length b ≤ max_message_size
    → decode (after (put_uint32 (length b)) (after b s))
      ≡ (message (record empty_rpc { payload = b }), s)
decode-message b s p h =
    decode-put_uint32 (length b) (after b s) (small b h) ∙ decode_body_lem b s p h

-- Decode takes a frame of a message of at most 17 MB off the stream, and leaves the rest.
pub decode-frame :
    (b : List ℕ) (s : Stream)
    → 0 < length b
    → length b ≤ max_message_size
    → decode (after (frame b) s) ≡ (message (record empty_rpc { payload = b }), s)
decode-frame b s p h =
    rw
      (append_assoc (put_uint32 (uint32 (length b))) b s.bytes, uint32_small (length b) (small b h))
      (decode-message b s p h)

-- A frame whose length is out of range is refused, and its body is left on the stream.
pub decode_oversized :
    (v : ℕ) (s : Stream)
    → max_message_size < v
    → v < 2 ^ 32
    → decode (after (put_uint32 v) s) ≡ (error (too_large v), s)
decode_oversized v s h k = decode-put_uint32 v s k ∙ (unfold decode_body in ground arith)

after-append : (xs ys : List ℕ) (s : Stream) → after (xs ++ ys) s ≡ after xs (after ys s)
after-append xs ys s = ap (λ (z : List ℕ). record s { bytes = z }) (append_assoc xs ys s.bytes)

-- What is written, in order, when the messages of a list are sent one after the other.
concat : List (List ℕ) → List ℕ
concat [] = []
concat (w ∷ ws) = w ++ concat ws

pub wire : Writer → List (List ℕ) → List ℕ
unfolding concat
wire write [] = []
wire write (b ∷ bs) = concat (send write b).writes ++ wire write bs

-- The messages that have a byte.
abbrev pub spoken : List (List ℕ) → List (List ℕ)
spoken [] = []
spoken (b ∷ bs) = let rest = spoken bs in if eqb (length b) 0 then rest else b ∷ rest

wire-cons :
    (write : Writer) (b : List ℕ) (bs : List (List ℕ))
    → 0 < length b
    → length b ≤ max_message_size
    → wire write (b ∷ bs) ≡ frame b ++ wire write bs
unfolding wire send
wire-cons write b bs p h = ground (arith, append-nil (frame b))

wire_silent :
    (write : Writer) (b : List ℕ) (bs : List (List ℕ))
    → eqb (length b) 0 ≡ true
    → wire write (b ∷ bs) ≡ wire write bs
unfolding wire send
wire_silent write b bs e = rw e refl

-- The calls of Decode, up to the first error; the number bounds the messages.
pub decode_all : ℕ → Stream → List (List ℕ) × Stream
decode_all zero s = ([], s)
decode_all (suc n) s =
    let (d, s') = decode s in
    let (rest, s'') = decode_all n s' in
    elim d [ message rpc ↦ (rpc.payload ∷ rest, s'') | error e ↦ ([], s') ]

decode_all-cons :
    (n : ℕ) (b bytes : List ℕ) (rest : List (List ℕ)) (s : Stream)
    → 0 < length b
    → length b ≤ max_message_size
    → decode_all n (after bytes s) ≡ (rest, s)
    → decode_all (suc n) (after (frame b ++ bytes) s) ≡ (b ∷ rest, s)
unfolding decode_all
decode_all-cons n b bytes rest s p h ih =
    let step : decode (after (frame b ++ bytes) s)
        ≡ (message (record empty_rpc { payload = b }), after bytes s) =
      ap decode (after-append (frame b) bytes s) ∙ decode-frame b (after bytes s) p h in
    ground (arith, step, ih)

-- Messages of at most 17 MB arrive in order and unchanged, whatever the writes return, except that
-- an empty message leaves nothing on the wire and does not arrive.
pub decode_all-wire :
    (write : Writer) (bs : List (List ℕ)) (s : Stream)
    → All (λ b. length b ≤ max_message_size) bs
    → decode_all (length (spoken bs)) (after (wire write bs) s) ≡ (spoken bs, s)
decode_all-wire write [] s h = unfold decode_all wire in refl
decode_all-wire write (b ∷ bs) s (l, h) = elim (Bool-cases (eqb (length b) 0)) [
  | inl e ↦ rw (e, wire_silent write b bs e) (decode_all-wire write bs s h)
  | inr e ↦
      let p : 0 < length b = ground arith in
      rw (e, wire-cons write b bs p l)
        (decode_all-cons (length (spoken bs)) b (wire write bs) (spoken bs) s p l
          (decode_all-wire write bs s h))
]
