-- ===== src/Punch.antt =====
-- p2p/udp_hole.go: what handleUDPMessages does with one message, and the messages that Dial and the
-- handler send.
-- `split_host_port` stands for net.SplitHostPort and `atoi` for strconv.Atoi.
pub mod Loop
use file_share_p2p.Prelude.{
  Bool, true, false, Option, none, some, List, [], ◌∷◌, ◌++◌, ◌≡◌, refl, arith, length,
  if◌then◌else◌, ◌==◌, ◌<◌, All, ap,
}
use file_share_p2p.Prelude.Int.{ℤ}
use file_share_p2p.GoString.{
  GoString, string_eq, bytes, split, has_byte, split-All, split-append, length-split_two,
}

-- `ack`: answer at this port of the sender, and then dial the address. `connected`: tell Dial.
pub data UdpAction : Type 0 where
  ignored : UdpAction
  ack : ℤ → GoString → UdpAction
  connected : GoString → UdpAction

abbrev pub punch_word : GoString
punch_word = bytes "PUNCH"

abbrev pub ack_word : GoString
ack_word = bytes "ACK"

-- `fmt.Sprintf("PUNCH:%s", t.ListenAddr)`, and the same with ACK
unfoldable pub punch_message : GoString → GoString
punch_message listen = punch_word ++ (b':' ∷ listen)

unfoldable pub ack_message : GoString → GoString
ack_message listen = ack_word ++ (b':' ∷ listen)

module _ (split_host_port : GoString → Option (GoString × GoString))
    (atoi : GoString → Option ℤ) where
  unfoldable pub on_port : GoString → Option ℤ → UdpAction
  on_port addr none = ignored
  on_port addr (some port) = ack port addr

  unfoldable pub on_host_port : GoString → Option (GoString × GoString) → UdpAction
  unfolding on_port
  on_host_port addr none = ignored
  on_host_port addr (some (host, port)) = on_port addr (atoi port)

  -- The two parts of a message.
  unfoldable pub on_parts : GoString → GoString → UdpAction
  on_parts kind addr =
      if kind == punch_word
      then on_host_port addr (split_host_port addr)
      else if kind == ack_word
      then connected addr
      else ignored

  unfoldable pub on_split : List GoString → UdpAction
  on_split (kind ∷ addr ∷ []) = on_parts kind addr
  on_split _ = ignored

  -- handleUDPMessages, one message
  unfoldable pub handle_udp_message : GoString → UdpAction
  unfolding on_split
  handle_udp_message text = on_split (split b':' text)

  -- net.SplitHostPort reports an address without a colon as one whose port is missing.
  abbrev pub NeedsColon : Type 0
  NeedsColon = (addr : GoString) → has_byte b':' addr ≡ false → split_host_port addr ≡ none

  abbrev pub is_ack : UdpAction → Bool
  is_ack (ack port addr) = true
  is_ack _ = false

  on_split_ignores :
      (parts : List GoString)
      → NeedsColon
      → All (λ w. has_byte b':' w ≡ false) parts
      → is_ack (on_split parts) ≡ false
  unfolding on_split on_parts on_host_port
  on_split_ignores [] law h = refl
  on_split_ignores (kind ∷ []) law h = refl
  on_split_ignores (kind ∷ addr ∷ []) law h = ground (arith, law addr)
  on_split_ignores (kind ∷ addr ∷ x ∷ r) law h = refl

  -- No message at all, so no PUNCH, is ever acknowledged: the address of a message with two parts
  -- holds no colon, and an address without a colon has no port.
  pub handle_udp_message_never_acks :
      (text : GoString) → NeedsColon → is_ack (handle_udp_message text) ≡ false
  unfolding handle_udp_message
  handle_udp_message_never_acks text law =
      on_split_ignores (split b':' text) law (split-All b':' text)

  on_split_long : (parts : List GoString) → 2 < length parts → on_split parts ≡ ignored
  unfolding on_split
  on_split_long [] h = refl
  on_split_long (kind ∷ []) h = refl
  on_split_long (kind ∷ addr ∷ []) h = absurd (omega arith)
  on_split_long (kind ∷ addr ∷ x ∷ r) h = refl

  -- The messages that the program itself sends are ignored by every receiver, since a listen address
  -- has a colon before its port.
  pub handle_udp_message_own :
      (listen : GoString)
      → has_byte b':' listen ≡ true
      → (handle_udp_message (punch_message listen) ≡ ignored)
        × (handle_udp_message (ack_message listen) ≡ ignored)
  unfolding handle_udp_message punch_message ack_message
  handle_udp_message_own listen h = (
    on_split_long _ (
        unfold has_byte in
        omega (
          arith,
          ap length (split-append b':' punch_word listen refl),
          length-split_two b':' listen h,
        )),
    on_split_long _ (
        unfold has_byte in
        omega (
          arith,
          ap length (split-append b':' ack_word listen refl),
          length-split_two b':' listen h,
        )),
  )
