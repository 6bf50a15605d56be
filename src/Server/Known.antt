-- ===== src/Server/Known.antt =====
-- server.go: which addresses filterPeerList keeps and connectToAllPeers dials.
use file_share_p2p.Prelude.{
  Bool, true, false, not, ◌&&◌, ◌||◌, Option, some, List, [], ◌∷◌, ◌++◌, ◌≡◌, refl, ap, arith, eqb,
  if◌then◌else◌, length, contains, contains-append, length-append, ◌==◌, ==_iff, Bool-cases, inl,
  inr, All,
}
use file_share_p2p.Prelude.Maps.{get, is_some}
use file_share_p2p.GoString.{GoString, string_eq, split}
use file_share_p2p.Server.State.{Server}
use file_share_p2p.Server.Connect.{
  Ip, is_public_host, public_of, public_addresses, filter_peer_list, own_address, targets_of,
  targets, dial_all, connections_made, connect_to_all_peers,
}

-- The addresses of all entries of the tracker's list.
unfoldable pub all_addresses : List GoString → List GoString
all_addresses [] = []
all_addresses (peer ∷ peers) = split b'|' peer ++ all_addresses peers

module _ (split_host_port : GoString → Option (GoString × GoString))
    (parse_ip : GoString → Option Ip) where
  abbrev pub is_public : GoString → Bool
  is_public addr = is_public_host split_host_port parse_ip (split_host_port addr)

  -- Some address is public.
  unfoldable pub any_public : List GoString → Bool
  any_public [] = false
  any_public (addr ∷ addresses) = is_public addr || any_public addresses

  contains-public_of :
      (x : GoString) (addresses : List GoString)
      → contains x (public_of split_host_port parse_ip addresses)
        ≡ (is_public x && contains x addresses)
  unfolding public_of contains
  contains-public_of x [] = ground arith
  contains-public_of x (addr ∷ addresses) = elim (Bool-cases (x == addr)) [
    | inl e ↦
        let same = ap is_public ((==_iff x addr).0 e) in
        ground (arith, e, same, contains-public_of x addresses)
    | inr e ↦ ground (arith, e, contains-public_of x addresses)
  ]

  contains-public_addresses :
      (x : GoString) (peers : List GoString)
      → contains x (public_addresses split_host_port parse_ip peers)
        ≡ (is_public x && contains x (all_addresses peers))
  unfolding public_addresses all_addresses contains
  contains-public_addresses x [] = ground arith
  contains-public_addresses x (peer ∷ peers) = ground (
    arith,
    contains-append x (public_of split_host_port parse_ip (split b'|' peer))
        (public_addresses split_host_port parse_ip peers),
    contains-append x (split b'|' peer) (all_addresses peers),
    contains-public_of x (split b'|' peer),
    contains-public_addresses x peers,
  )

  no_public_of :
      (addresses : List GoString)
      → eqb (length (public_of split_host_port parse_ip addresses)) 0 ≡ not (any_public addresses)
  unfolding public_of any_public
  no_public_of [] = refl
  no_public_of (addr ∷ addresses) = ground (arith, no_public_of addresses)

  any_public-append :
      (xs ys : List GoString) → any_public (xs ++ ys) ≡ (any_public xs || any_public ys)
  unfolding any_public
  any_public-append [] ys = refl
  any_public-append (x ∷ xs) ys = ground (arith, any_public-append xs ys)

  no_public_addresses :
      (peers : List GoString)
      → eqb (length (public_addresses split_host_port parse_ip peers)) 0
        ≡ not (any_public (all_addresses peers))
  unfolding public_addresses all_addresses any_public
  no_public_addresses [] = refl
  no_public_addresses (peer ∷ peers) = ground (
    arith,
    length-append (public_of split_host_port parse_ip (split b'|' peer))
        (public_addresses split_host_port parse_ip peers),
    any_public-append (split b'|' peer) (all_addresses peers),
    no_public_of (split b'|' peer),
    no_public_addresses peers,
  )

  -- filterPeerList returns exactly the public addresses of all entries if there is one, and the
  -- entries as they are if there is none.
  pub contains-filter_peer_list :
      (x : GoString) (peers : List GoString)
      → contains x (filter_peer_list split_host_port parse_ip peers) ≡ (
          if any_public (all_addresses peers)
          then is_public x && contains x (all_addresses peers)
          else contains x peers)
  unfolding filter_peer_list
  contains-filter_peer_list x peers =
      ground (arith, no_public_addresses peers, contains-public_addresses x peers)

-- An address that connectToAllPeers does not dial.
abbrev pub is_known : GoString → Server → GoString → Bool
is_known listen s addr = addr == own_address listen || is_some (get addr s.peers)

targets_of-known :
    (listen : GoString) (s : Server) (addresses : List GoString)
    → All (λ addr. is_known listen s addr ≡ true) addresses
    → targets_of (own_address listen) s addresses ≡ []
unfolding targets_of
targets_of-known listen s [] h = refl
targets_of-known listen s (addr ∷ addresses) (e, h) =
    ground (arith, e, targets_of-known listen s addresses h)

All-append :
    (P : GoString → Type 0) (xs ys : List GoString) → All P (xs ++ ys) → All P xs × All P ys
All-append P [] ys h = (tt, h)
All-append P (x ∷ xs) ys (p, h) = let (a, b) = All-append P xs ys h in ((p, a), b)

targets-known :
    (listen : GoString) (s : Server) (peers : List GoString)
    → All (λ addr. is_known listen s addr ≡ true) (all_addresses peers)
    → targets (own_address listen) s peers ≡ []
unfolding targets all_addresses
targets-known listen s [] h = refl
targets-known listen s (peer ∷ peers) h =
    let (a, b) =
      All-append (λ addr. is_known listen s addr ≡ true) (split b'|' peer) (all_addresses peers)
        h in
    ground (arith, targets_of-known listen s (split b'|' peer) a, targets-known listen s peers b)

-- Where every address that is left after the filter is the own one or is connected already,
-- connectToAllPeers changes nothing and returns an error, although there are connections.
pub connect_to_all_peers-known :
    (split_host_port : GoString → Option (GoString × GoString)) (parse_ip : GoString → Option Ip)
    (dial : GoString → Option GoString) (listen : GoString) (answer : List GoString) (s : Server)
    → All
        (λ addr. is_known listen s addr ≡ true)
        (all_addresses (filter_peer_list split_host_port parse_ip answer))
    → connect_to_all_peers split_host_port parse_ip dial listen (some answer) s ≡ (s, false)
unfolding connect_to_all_peers dial_all connections_made
connect_to_all_peers-known split_host_port parse_ip dial listen answer s h =
    let e = targets-known listen s (filter_peer_list split_host_port parse_ip answer) h in
    ground (arith, e)
