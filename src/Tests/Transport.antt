-- ===== src/Tests/Transport.antt =====
-- p2p/tcp_transport.go: a dial of two addresses, both of which answer, and a connection over which one
-- message comes.
use file_share_p2p.Prelude.{
  ℕ, Bool, true, false, Option, some, none, List, [], ◌∷◌, ◌≡◌, refl, All, length, ltb,
  if◌then◌else◌, arith, nat_eq, ℕ_discrete,
}
use file_share_p2p.Prelude.Int.{ℤ, pos}
use file_share_p2p.Prelude.Maps.{get}
use file_share_p2p.GoString.{GoString, string_eq, bytes, has_byte, split}
use file_share_p2p.Wire.Frame.{Writer, Decoded, message, empty_rpc}
use file_share_p2p.Chunks.Defs.{Files}
use file_share_p2p.Server.State.{Message, Server, normalize_address, new_chunk_request_message}
use file_share_p2p.Server.Connect.{targets}
use file_share_p2p.Server.Rpc.{consume_rpc_messages}
use file_share_p2p.Transport.Dial.{dial}
use file_share_p2p.Transport.Waiting.{durations, expected, dial-returned, IsAddress}
use file_share_p2p.Transport.Panics.{targets-safe}
use file_share_p2p.Transport.Twice.{dial-panics}
use file_share_p2p.Transport.Listen.{handle_conn, nop_handshake_func, server_on_peer}
use file_share_p2p.Transport.Known.{is_unknown_peer, consume-handle_conn}

abbrev split_host_port : GoString → Option (GoString × GoString)
split_host_port addr = if has_byte b':' addr then some (bytes "1.2.3.4", bytes "3000") else none

abbrev atoi : GoString → Option ℤ
atoi text = some (pos 3000)

-- A connection takes as many milliseconds as the address has bytes.
abbrev tcp : GoString → ℕ × Option GoString
tcp addr = (5, some addr)

abbrev two : GoString
two = bytes "1.2.3.4:3000|5.6.7.8:3000"

two_addresses : All (IsAddress split_host_port atoi tcp (bytes ":4000")) (split b'|' two)
unfolding split has_byte nat_eq ℕ_discrete
two_addresses =
    let first : IsAddress split_host_port atoi tcp (bytes ":4000") (bytes "1.2.3.4:3000") =
      (bytes "1.2.3.4", bytes "3000", pos 3000, refl, refl) in
    let rest : All (IsAddress split_host_port atoi tcp (bytes ":4000"))
        (bytes "5.6.7.8:3000" ∷ []) =
      ((bytes "1.2.3.4", bytes "3000", pos 3000, refl, refl), tt) in
    (first, rest)

dial-returned_example :
    (dial split_host_port atoi tcp (bytes ":4000") (λ i. true) none true two).returned
    ≡ expected (durations split_host_port atoi tcp (bytes ":4000") (split b'|' two))
dial-returned_example =
    dial-returned split_host_port atoi tcp (bytes ":4000") (λ i. true) two (λ part. omega arith)
      two_addresses

dial-panics_example :
    (dial split_host_port atoi tcp (bytes ":4000") (λ i. true) none true two).panics
    ≡ ltb 1 (length (durations split_host_port atoi tcp (bytes ":4000") (split b'|' two)))
dial-panics_example =
    dial-panics split_host_port atoi tcp (bytes ":4000") (λ i. true) none two two_addresses

abbrev server : Server
server = record { peers = []; response_handlers = []; active_files = [] }

targets-safe_example :
    All
      (λ a. (dial split_host_port atoi tcp (bytes ":4000") (λ i. true) none true a).panics ≡ false)
      (targets (bytes "localhost:4000") server (two ∷ []))
targets-safe_example =
    targets-safe split_host_port atoi tcp (bytes ":4000") (λ i. true) none true
      (bytes "localhost:4000") server (two ∷ [])

abbrev decode_message : List ℕ → Option Message
decode_message payload = some (new_chunk_request_message payload (pos 0))

abbrev encode : Message → Option (List ℕ)
encode msg = some msg.kind

abbrev disk : ℕ → Files
disk = λ attempt. []

abbrev connection : ℕ → Writer
connection = λ i b. (length b, none)

abbrev events : List (Decoded × Bool)
events = (message (record empty_rpc { payload = bytes "x" }), true) ∷ []

consume-handle_conn_example :
    let served =
      handle_conn nop_handshake_func (some server_on_peer) (bytes "[::1]:5000") events server in
    All
      (λ r. is_unknown_peer r ≡ false)
      (consume_rpc_messages encode decode_message disk connection served.forwarded served.server).1
    × (get (normalize_address (bytes "[::1]:5000")) served.server.peers ≡ some (bytes "[::1]:5000"))
consume-handle_conn_example =
    consume-handle_conn encode decode_message disk connection (bytes "[::1]:5000") events server
