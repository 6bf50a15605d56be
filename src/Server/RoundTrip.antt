-- ===== src/Server/RoundTrip.antt =====
-- store.go and p2p/encoding.go: a reply of handleChunkRequest as the other side decodes it.
use file_share_p2p.Prelude.{
  ℕ, zero, suc, ◌*◌, ◌≤◌, ◌<◌, false, Option, none, some, List, [], ◌∷◌, ◌++◌, ◌≡◌, refl, sym, ap,
  ◌∙◌, subst, arith, eqb, leb, length, take, drop, take-append-drop, length-drop,
}
use file_share_p2p.Prelude.Int.{ℤ, leb_ℤ}
use file_share_p2p.Prelude.Maps.{get}
use file_share_p2p.GoString.{GoString, string_eq}
use file_share_p2p.Wire.Bytes.{uint32, put_uint32}
use file_share_p2p.Wire.Frame.{
  NetError, Writer, Stream, empty_rpc, message, max_message_size, decode, frame,
}
use file_share_p2p.Wire.RoundTrip.{after, decode-frame}
use file_share_p2p.Chunks.Defs.{Files, ok, read_chunk}
use file_share_p2p.Server.State.{Message, ChunkRequest, Server, new_chunk_response_message}
use file_share_p2p.Metadata.{Metadata}
use file_share_p2p.Server.Reply.{
  Reply, write_first, after_length, max_slice, max_concurrent_chunks, after_slice, send_slices,
  send_reply, reply_encoded, reply_read, read_retries, reply_active, handle_chunk_request,
}

-- The bytes of all writes, in order.
abbrev pub joined : List (List ℕ) → List ℕ
joined [] = []
joined (w ∷ ws) = w ++ joined ws

-- A connection on which every write succeeds.
abbrev pub IsHealthy : (ℕ → Writer) → Type 0
IsHealthy write = (i : ℕ) (b : List ℕ) → write i b ≡ (length b, none)

after_slice_lem :
    (slice : List ℕ) (rest : Reply)
    → after_slice slice (length slice, none) rest ≡ write_first slice rest
unfolding after_slice
after_slice_lem slice rest = ground arith

-- One round of the loop.
send_slices-cons :
    (write : ℕ → Writer) (rounds i x : ℕ) (xs : List ℕ)
    → IsHealthy write
    → send_slices write (suc rounds) i (x ∷ xs)
      ≡ write_first
          (take max_slice (x ∷ xs))
          (send_slices write rounds (suc i) (drop max_slice (x ∷ xs)))
unfolding send_slices
send_slices-cons write rounds i x xs healthy =
    let slice = take max_slice (x ∷ xs) in
    let rest = send_slices write rounds (suc i) (drop max_slice (x ∷ xs)) in
    let f : eqb (length (x ∷ xs)) 0 ≡ false = ground arith in
    rw (f, send_slices)
      (ap (λ (r : ℕ × Option NetError). after_slice slice r rest) (healthy i slice)
        ∙ after_slice_lem slice rest)

length-drop_slice : (x : ℕ) (xs : List ℕ) → length (drop max_slice (x ∷ xs)) ≤ length xs
unfolding max_slice
length-drop_slice x xs = omega (arith, length-drop (1024 * 1024) (x ∷ xs))

-- What the slices hold is the data, if there are as many rounds as bytes.
send_slices_lem :
    (write : ℕ → Writer) (rounds i : ℕ) (payload : List ℕ)
    → IsHealthy write
    → length payload ≤ rounds
    → (joined (send_slices write rounds i payload).writes ≡ payload)
      × ((send_slices write rounds i payload).error ≡ none)
send_slices_lem write zero i [] healthy h = (unfold send_slices in (refl, refl))
send_slices_lem write zero i (x ∷ xs) healthy h = absurd (omega arith)
send_slices_lem write (suc rounds) i [] healthy h = (unfold send_slices in (refl, refl))
send_slices_lem write (suc rounds) i (x ∷ xs) healthy h =
    let rest = drop max_slice (x ∷ xs) in
    let (same, fine) =
      send_slices_lem write rounds (suc i) rest healthy (omega (arith, length-drop_slice x xs)) in
    subst (λ (r : Reply). (joined r.writes ≡ x ∷ xs) × (r.error ≡ none))
      (sym (send_slices-cons write rounds i x xs healthy))
      (ap (◌++◌ (take max_slice (x ∷ xs))) same ∙ take-append-drop max_slice (x ∷ xs), fine)

send_reply_lem :
    (write : ℕ → Writer) (payload : List ℕ)
    → IsHealthy write
    → (joined (send_reply write payload).writes ≡ frame payload)
      × ((send_reply write payload).error ≡ none)
unfolding send_reply
send_reply_lem write payload healthy =
    let prefix = put_uint32 (uint32 (length payload)) in
    let slices = send_slices write (length payload) 1 payload in
    let (same, fine) = send_slices_lem write (length payload) 1 payload healthy (omega arith) in
    subst
      (λ (r : ℕ × Option NetError).
        (joined (after_length prefix r slices).writes ≡ frame payload)
        × ((after_length prefix r slices).error ≡ none))
      (sym (healthy 0 prefix)) (ap (◌++◌ prefix) same, fine)

-- The first attempt to read is enough.
read_retries_lem :
    (disk : ℕ → Files) (path : GoString) (index : ℤ) (content : List ℕ)
    → read_chunk (disk 0) path index ≡ ok content
    → read_retries disk path index 3 0 ≡ some content
unfolding read_retries
read_retries_lem disk path index content e = rw (e, read_retries) refl

reply_active_lem :
    (encode : Message → Option (List ℕ)) (disk : ℕ → Files) (write : ℕ → Writer) (s : Server)
    (req : ChunkRequest) (meta : Metadata) (content payload : List ℕ)
    → length s.response_handlers < max_concurrent_chunks
    → leb_ℤ meta.num_chunks req.chunk ≡ false
    → read_chunk (disk 0) meta.original_path req.chunk ≡ ok content
    → encode (new_chunk_response_message req.file_id req.chunk content) ≡ some payload
    → reply_active encode disk write s req meta ≡ send_reply write payload
unfolding reply_active max_concurrent_chunks reply_read reply_encoded
reply_active_lem encode disk write s req meta content payload few i r e =
    let f : leb 5 (length s.response_handlers) ≡ false = ground arith in
    let q = read_retries_lem disk meta.original_path req.chunk content r in
    rw (f, i, reply_active) (ap (reply_read encode write req) q ∙ ap (reply_encoded write) e)

-- Where the file is seeded, there are fewer than five response handlers, the chunk index is in range,
-- the chunk can be read and encoded in at most 17 MB, and every write succeeds, handleChunkRequest
-- returns no error, and what it writes is decoded as one message that holds the encoded response.
pub decode-handle_chunk_request :
    (encode : Message → Option (List ℕ)) (disk : ℕ → Files) (write : ℕ → Writer) (s : Server)
    (req : ChunkRequest) (meta : Metadata) (content payload : List ℕ) (rest : Stream)
    → get req.file_id s.active_files ≡ some meta
    → length s.response_handlers < max_concurrent_chunks
    → leb_ℤ meta.num_chunks req.chunk ≡ false
    → read_chunk (disk 0) meta.original_path req.chunk ≡ ok content
    → encode (new_chunk_response_message req.file_id req.chunk content) ≡ some payload
    → 0 < length payload
    → length payload ≤ max_message_size
    → IsHealthy write
    → (decode (after (joined (handle_chunk_request encode disk write s req).writes) rest)
        ≡ (message (record empty_rpc { payload = payload }), rest))
      × ((handle_chunk_request encode disk write s req).error ≡ none)
unfolding handle_chunk_request
decode-handle_chunk_request encode disk write s req meta content payload rest a few i r e p h
      healthy =
    let (same, fine) = send_reply_lem write payload healthy in
    let reply = reply_active_lem encode disk write s req meta content payload few i r e in
    rw (a, handle_chunk_request)
      (subst
        (λ (r : Reply).
          (decode (after (joined r.writes) rest)
            ≡ (message (record empty_rpc { payload = payload }), rest))
          × (r.error ≡ none))
        (sym reply) (ap (λ w. decode (after w rest)) same ∙ decode-frame payload rest p h, fine))
