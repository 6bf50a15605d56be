-- ===== src/Tests/Punch.antt =====
-- udp_hole.go: the messages of a peer that listens on :3000.
use file_share_p2p.Punch.Loop.{
  UdpState, UdpRead, read_failed, received, handle_udp_messages, handle_udp_messages-acks,
  handle_udp_messages-own,
}
use file_share_p2p.Prelude.{
  Bool, true, List, [], ◌∷◌, inl, inr, Option, none, some, ◌≡◌, refl, if◌then◌else◌,
}
use file_share_p2p.Prelude.Int.{ℤ, pos}
use file_share_p2p.GoString.{GoString, bytes, has_byte}
use file_share_p2p.Punch.{punch_message, ack_message}

-- Any address with a colon has a host and a port.
abbrev split_host_port : GoString → Option (GoString × GoString)
split_host_port addr = if has_byte b':' addr then some (bytes "1.2.3.4", bytes "3000") else none

abbrev atoi : GoString → Option ℤ
atoi text = some (pos 3000)

abbrev can_write : GoString → ℤ → Bool
can_write host port = true

abbrev tcp : GoString → Option GoString
tcp addr = some addr

abbrev quiet : UdpState
quiet = record { connected_ch = none; acks = []; connections = [] }

-- A PUNCH and an ACK of the program, and between them an error.
abbrev reads : List UdpRead
reads =
    received (bytes "5.6.7.8") (punch_message (bytes ":3000"))
    ∷ read_failed
    ∷ received (bytes "5.6.7.8") (ack_message (bytes ":3000"))
    ∷ []

handle_udp_messages-acks_example :
    ((handle_udp_messages split_host_port atoi can_write tcp (bytes ":4000") reads quiet).acks ≡ [])
    × ((handle_udp_messages split_host_port atoi can_write tcp
          (bytes ":4000")
          reads
          quiet).connections
        ≡ [])
handle_udp_messages-acks_example =
    handle_udp_messages-acks split_host_port atoi can_write tcp (bytes ":4000") reads quiet
      (λ addr h. rw h refl)

handle_udp_messages-own_example :
    handle_udp_messages split_host_port atoi can_write tcp (bytes ":4000") reads quiet ≡ quiet
unfolding has_byte
handle_udp_messages-own_example =
    handle_udp_messages-own split_host_port atoi can_write tcp (bytes ":4000") reads quiet
      ((bytes ":3000", refl, inl refl), (tt, ((bytes ":3000", refl, inr refl), tt)))
