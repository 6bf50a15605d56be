-- ===== src/Punch/Loop.antt =====
-- p2p/udp_hole.go: the loop of handleUDPMessages, and what it does for a message.
-- `can_write` tells whether WriteToUDP succeeds, `tcp` is the remote address of the connection that
-- net.DialTimeout makes.
use file_share_p2p.Prelude.{
  Bool, true, false, Option, none, some, List, [], ◌∷◌, ◌++◌, ◌≡◌, refl, ap, ◌∙◌, All,
  if◌then◌else◌, ◌⊎◌, inl, inr,
}
use file_share_p2p.Prelude.Int.{ℤ}
use file_share_p2p.GoString.{GoString, has_byte}
use file_share_p2p.Punch.{
  UdpAction, ignored, ack, connected, is_ack, punch_message, ack_message, handle_udp_message,
  NeedsColon, handle_udp_message_never_acks, handle_udp_message_own,
}

-- An ACK: the host and the port it goes to, and its text.
pub record Ack : Type 0 where
  pub host : GoString
  pub port : ℤ
  pub text : GoString

-- What is in `connectedCh`, which has room for one address, the ACKs that were sent, and the
-- connections that were given to handleConn.
pub record UdpState : Type 0 where
  pub connected_ch : Option GoString
  pub acks : List Ack
  pub connections : List GoString

-- One call of ReadFromUDP: an error, or a message from a host.
pub data UdpRead : Type 0 where
  read_failed : UdpRead
  received : GoString → GoString → UdpRead

-- A send that does not wait.
abbrev pub notify : GoString → Option GoString → Option GoString
notify addr none = some addr
notify addr (some first) = some first

-- The goroutine after an ACK.
abbrev pub connect_back : Option GoString → UdpState → UdpState
connect_back none u = u
connect_back (some remote) u = record u { connections = u.connections ++ (remote ∷ []) }

module _ (split_host_port : GoString → Option (GoString × GoString)) (atoi : GoString → Option ℤ)
    (can_write : GoString → ℤ → Bool) (tcp : GoString → Option GoString) (listen : GoString) where
  unfoldable pub perform : GoString → UdpAction → UdpState → UdpState
  perform host ignored u = u
  perform host (connected addr) u = record u { connected_ch = notify addr u.connected_ch }
  perform host (ack port addr) u =
      if can_write host port
      then connect_back (tcp addr) (record u {
        acks = u.acks ++ (record { host = host; port = port; text = ack_message listen } ∷ []);
      })
      else u

  unfoldable pub on_udp_read : UdpRead → UdpState → UdpState
  on_udp_read read_failed u = u
  on_udp_read (received host text) u = perform host (handle_udp_message split_host_port atoi text) u

  -- handleUDPMessages, over what its reads return.
  unfoldable pub handle_udp_messages : List UdpRead → UdpState → UdpState
  handle_udp_messages [] u = u
  handle_udp_messages (r ∷ reads) u = handle_udp_messages reads (on_udp_read r u)

  perform-acks :
      (host : GoString) (action : UdpAction) (u : UdpState)
      → is_ack split_host_port atoi action ≡ false
      → ((perform host action u).acks ≡ u.acks)
        × ((perform host action u).connections ≡ u.connections)
  unfolding perform
  perform-acks host ignored u h = (refl, refl)
  perform-acks host (connected addr) u h = (refl, refl)
  perform-acks host (ack port addr) u h = cc

  on_udp_read-acks :
      (r : UdpRead) (u : UdpState)
      → NeedsColon split_host_port atoi
      → ((on_udp_read r u).acks ≡ u.acks) × ((on_udp_read r u).connections ≡ u.connections)
  unfolding on_udp_read
  on_udp_read-acks read_failed u law = (refl, refl)
  on_udp_read-acks (received host text) u law =
      perform-acks host (handle_udp_message split_host_port atoi text) u
        (handle_udp_message_never_acks split_host_port atoi text law)

  -- Whatever messages come in, in whatever order and between whatever errors, no ACK is sent and no
  -- connection is made, if an address without a colon has no host and port.
  pub handle_udp_messages-acks :
      (reads : List UdpRead) (u : UdpState)
      → NeedsColon split_host_port atoi
      → ((handle_udp_messages reads u).acks ≡ u.acks)
        × ((handle_udp_messages reads u).connections ≡ u.connections)
  unfolding handle_udp_messages
  handle_udp_messages-acks [] u law = (refl, refl)
  handle_udp_messages-acks (r ∷ reads) u law =
      let (a, b) = handle_udp_messages-acks reads (on_udp_read r u) law in
      let (c, d) = on_udp_read-acks r u law in (a ∙ c, b ∙ d)

  -- A message of the program itself, of a peer whose listen address has a colon.
  abbrev pub IsOwn : UdpRead → Type 0
  IsOwn read_failed = Unit
  IsOwn (received host text) =
      (peer : GoString) × (has_byte b':' peer ≡ true)
      × (text ≡ punch_message peer ⊎ text ≡ ack_message peer)

  on_udp_read-own : (r : UdpRead) (u : UdpState) → IsOwn r → on_udp_read r u ≡ u
  unfolding on_udp_read perform
  on_udp_read-own read_failed u h = refl
  on_udp_read-own (received host text) u (peer, c, inl e) =
      ap (λ t. perform host (handle_udp_message split_host_port atoi t) u) e
      ∙ ap (λ a. perform host a u) (handle_udp_message_own split_host_port atoi peer c).0
  on_udp_read-own (received host text) u (peer, c, inr e) =
      ap (λ t. perform host (handle_udp_message split_host_port atoi t) u) e
      ∙ ap (λ a. perform host a u) (handle_udp_message_own split_host_port atoi peer c).1

  -- However many PUNCH and ACK messages come from peers whose listen address has a colon, and from
  -- whatever hosts, nothing at all happens: no ACK, no connection, and nothing to wake a Dial.
  pub handle_udp_messages-own :
      (reads : List UdpRead) (u : UdpState) → All IsOwn reads → handle_udp_messages reads u ≡ u
  unfolding handle_udp_messages
  handle_udp_messages-own [] u h = refl
  handle_udp_messages-own (r ∷ reads) u (own, h) =
      ap (handle_udp_messages reads) (on_udp_read-own r u own) ∙ handle_udp_messages-own reads u h
