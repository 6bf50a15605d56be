-- ===== src/Transport/Known.antt =====
-- p2p/tcp_transport.go and server.go: a connection that handleConn serves, and what the server makes
-- of its messages.
use file_share_p2p.Prelude.{
  ℕ, Bool, true, false, Option, none, some, List, [], ◌∷◌, ◌≡◌, refl, ap, ◌∙◌, All, option_cases,
  Bool-cases, inl, inr, ◌==◌,
}
use file_share_p2p.Prelude.Maps.{get}
use file_share_p2p.GoString.{GoString, string_eq}
use file_share_p2p.Wire.Frame.{Rpc, Writer, Decoded, message, error}
use file_share_p2p.Wire.Conn.{read_loop, on_error}
use file_share_p2p.Chunks.Defs.{Files}
use file_share_p2p.Server.State.{
  Message, Payload, chunk_request, chunk_response, metadata_request, other_payload, Server,
  normalize_address, on_peer, message_type_chunk_request, message_type_chunk_response,
}
use file_share_p2p.Server.Rpc.{
  RpcResult, unknown_peer, handle_rpc_message, with_message, dispatch, reply_to, run_handlers,
  consume_rpc_messages,
}
use file_share_p2p.Server.Normal.{normalize_address_twice, get-on_peer}
use file_share_p2p.Transport.Listen.{
  handle_conn, after_handshake, serve_known, nop_handshake_func, server_on_peer,
}

read_loop-sender :
    (from : GoString) (retries : ℕ) (events : List (Decoded × Bool))
    → All (λ (rpc : Rpc). rpc.sender ≡ from) (read_loop from retries events)
unfolding read_loop
read_loop-sender from retries [] = tt
read_loop-sender from retries ((message rpc, true) ∷ events) =
    (refl, read_loop-sender from 0 events)
read_loop-sender from retries ((message rpc, false) ∷ events) = read_loop-sender from 0 events
read_loop-sender from retries ((error e, taken) ∷ events) =
    elim (option_cases (on_error retries e)) [
      | inl p ↦ rw (p, read_loop) tt
      | inr (n, p) ↦ rw (p, read_loop) (read_loop-sender from n events)
    ]

abbrev pub is_unknown_peer : RpcResult → Bool
is_unknown_peer unknown_peer = true
is_unknown_peer _ = false

module _ (encode : Message → Option (List ℕ)) (decode_message : List ℕ → Option Message)
    (disk : ℕ → Files) (write : ℕ → Writer) where
  reply_to-known :
      (peer : GoString) (payload : Payload) (s : Server)
      → is_unknown_peer (reply_to encode decode_message disk write peer payload s) ≡ false
  unfolding reply_to
  reply_to-known peer (chunk_request req) s = refl
  reply_to-known peer (chunk_response resp) s = refl
  reply_to-known peer (metadata_request file_id) s = refl
  reply_to-known peer other_payload s = refl

  dispatch-known :
      (peer : GoString) (msg : Message) (s : Server)
      → (is_unknown_peer (dispatch encode decode_message disk write peer msg s).1 ≡ false)
        × ((dispatch encode decode_message disk write peer msg s).0.peers ≡ s.peers)
  unfolding run_handlers dispatch
  dispatch-known peer msg s = elim (Bool-cases (msg.kind == message_type_chunk_request)) [
    | inl e ↦ rw (e, dispatch) (reply_to-known peer msg.payload s, refl)
    | inr e ↦ elim (Bool-cases (msg.kind == message_type_chunk_response)) [
      | inl f ↦ rw (e, f, dispatch) (refl, refl)
      | inr f ↦ rw (e, f, dispatch) (refl, refl)
    ]
  ]

  with_message-known :
      (rpc : Rpc) (remote : GoString) (msg : Option Message) (s : Server)
      → get (normalize_address rpc.sender) s.peers ≡ some remote
      → (is_unknown_peer (with_message encode decode_message disk write rpc msg s).1 ≡ false)
        × ((with_message encode decode_message disk write rpc msg s).0.peers ≡ s.peers)
  unfolding with_message
  with_message-known rpc remote none s g = (refl, refl)
  with_message-known rpc remote (some msg) s g = rw (g, with_message) (dispatch-known remote msg s)

  consume-known :
      (remote : GoString) (rpcs : List Rpc) (s : Server)
      → All (λ (rpc : Rpc). rpc.sender ≡ normalize_address remote) rpcs
      → get (normalize_address remote) s.peers ≡ some remote
      → All
          (λ r. is_unknown_peer r ≡ false)
          (consume_rpc_messages encode decode_message disk write rpcs s).1
  unfolding consume_rpc_messages handle_rpc_message
  consume-known remote [] s h g = tt
  consume-known remote (rpc ∷ rpcs) s (e, h) g =
      let same : get (normalize_address rpc.sender) s.peers ≡ some remote =
        ap (λ a. get (normalize_address a) s.peers) e
        ∙ ap (λ a. get a s.peers) (normalize_address_twice remote)
        ∙ g in
      let (known, kept) = with_message-known rpc remote (decode_message rpc.payload) s same in
      (known, consume-known remote rpcs _ h (ap (get (normalize_address remote)) kept ∙ g))

-- Every message that handleConn forwards of a connection, with the handshake and the OnPeer of
-- makeServer, is from a peer that handleRPCMessage knows, if only these messages are handled after the
-- connection is made; and the peer is still in the table when handleConn has ended and closed the
-- connection.
pub consume-handle_conn :
    (encode : Message → Option (List ℕ)) (decode_message : List ℕ → Option Message)
    (disk : ℕ → Files) (write : ℕ → Writer) (remote : GoString) (events : List (Decoded × Bool))
    (s : Server)
    → let served = handle_conn nop_handshake_func (some server_on_peer) remote events s in
      All
        (λ r. is_unknown_peer r ≡ false)
        (consume_rpc_messages encode decode_message disk write served.forwarded served.server).1
      × (get (normalize_address remote) served.server.peers ≡ some remote)
unfolding handle_conn after_handshake serve_known nop_handshake_func server_on_peer
consume-handle_conn encode decode_message disk write remote events s = (
  consume-known encode decode_message disk write remote
      (read_loop (normalize_address remote) 0 events) (on_peer remote s)
      (read_loop-sender (normalize_address remote) 0 events) (get-on_peer remote s),
  get-on_peer remote s,
)
