-- ===== src/Server/Connect.antt =====
-- server.go: isPrivateIP, filterPeerList and connectToAllPeers.
-- `split_host_port` stands for net.SplitHostPort, `parse_ip` for net.ParseIP, and `dial` for the
-- transport: the remote address of the connection that Dial makes, or none where it fails.
use file_share_p2p.Prelude.{
  ℕ, ◌+◌, Bool, false, not, ◌&&◌, ◌||◌, Option, none, some, List, [], ◌∷◌, ◌++◌, eqb, leb, ltb,
  if◌then◌else◌, length, ◌==◌,
}
use file_share_p2p.Prelude.Maps.{get, is_some}
use file_share_p2p.GoString.{GoString, string_eq, bytes, has_prefix, split}
use file_share_p2p.Server.State.{Server, on_peer}

-- An address by its bytes; one that stands for an address of four bytes is `v4`.
pub data Ip : Type 0 where
  v4 : (a b c d : ℕ) → Ip
  v6 : List ℕ → Ip

-- `::1`
abbrev pub loopback_v6 : List ℕ
loopback_v6 = 0 ∷ 0 ∷ 0 ∷ 0 ∷ 0 ∷ 0 ∷ 0 ∷ 0 ∷ 0 ∷ 0 ∷ 0 ∷ 0 ∷ 0 ∷ 0 ∷ 0 ∷ 1 ∷ []

-- isPrivateIP: 10.0.0.0/8, 172.16.0.0/12, 192.168.0.0/16, or a loopback address.
unfoldable pub is_private_ip : Ip → Bool
is_private_ip (v4 a b c d) =
    eqb a 10 || (eqb a 172 && leb 16 b && ltb b 32) || (eqb a 192 && eqb b 168) || eqb a 127
is_private_ip (v6 address) = address == loopback_v6

module _ (split_host_port : GoString → Option (GoString × GoString))
    (parse_ip : GoString → Option Ip) where
  abbrev pub is_public_ip : Option Ip → Bool
  is_public_ip none = false
  is_public_ip (some ip) = not (is_private_ip ip)

  abbrev pub is_public_host : Option (GoString × GoString) → Bool
  is_public_host none = false
  is_public_host (some (host, port)) = is_public_ip (parse_ip host)

  -- The inner loop of filterPeerList over the addresses of one peer.
  unfoldable pub public_of : List GoString → List GoString
  public_of [] = []
  public_of (addr ∷ addresses) =
      let rest = public_of addresses in
      if is_public_host (split_host_port addr) then addr ∷ rest else rest

  unfoldable pub public_addresses : List GoString → List GoString
  public_addresses [] = []
  public_addresses (peer ∷ peers) = public_of (split b'|' peer) ++ public_addresses peers

  -- filterPeerList
  unfoldable pub filter_peer_list : List GoString → List GoString
  filter_peer_list peers =
      let filtered = public_addresses peers in if eqb (length filtered) 0 then peers else filtered

-- `myAddr`
abbrev pub own_address : GoString → GoString
own_address listen = if has_prefix listen (bytes ":") then bytes "localhost" ++ listen else listen

-- The addresses of one peer that are dialled: not the own one, and none that is connected.
unfoldable pub targets_of : GoString → Server → List GoString → List GoString
targets_of own s [] = []
targets_of own s (addr ∷ addresses) =
    let rest = targets_of own s addresses in
    if addr == own || is_some (get addr s.peers) then rest else addr ∷ rest

unfoldable pub targets : GoString → Server → List GoString → List GoString
targets own s [] = []
targets own s (peer ∷ peers) = targets_of own s (split b'|' peer) ++ targets own s peers

module _ (dial : GoString → Option GoString) where
  -- The dials, each of which passes the connection it makes to onPeer.
  abbrev pub connect : Option GoString → Server → Server
  connect none s = s
  connect (some remote) s = on_peer remote s

  unfoldable pub dial_all : List GoString → Server → Server
  dial_all [] s = s
  dial_all (addr ∷ addresses) s = dial_all addresses (connect (dial addr) s)

  -- `connectionsMade`: the dials that succeed and whose address is then in the table.
  unfoldable pub connections_made : List GoString → Server → ℕ
  connections_made [] s = 0
  connections_made (addr ∷ addresses) s =
      let rest = connections_made addresses s in
      if is_some (dial addr) && is_some (get addr s.peers) then rest + 1 else rest

-- connectToAllPeers; `answer` is the list the tracker returns, or none for any error on the way.
-- The second result tells whether there is no error. The tests for known peers come before the
-- first dial ends, and the counts after the last.
unfoldable pub connect_to_all_peers :
    (GoString → Option (GoString × GoString))
    → (GoString → Option Ip)
    → (GoString → Option GoString)
    → GoString
    → Option (List GoString)
    → Server
    → Server × Bool
connect_to_all_peers split_host_port parse_ip dial listen none s = (s, false)
connect_to_all_peers split_host_port parse_ip dial listen (some answer) s =
    let addresses =
      targets (own_address listen) s (filter_peer_list split_host_port parse_ip answer) in
    let s' = dial_all dial addresses s in
    if eqb (length answer) 0 then (s, false) else (s', ltb 0 (connections_made dial addresses s'))

-- What the server finds around it: the functions above, its own listen address, and at each attempt
-- the tracker's answer and the dials.
pub record Network : Type 0 where
  pub split_host_port : GoString → Option (GoString × GoString)
  pub parse_ip : GoString → Option Ip
  pub listen : GoString
  pub answer : ℕ → Option (List GoString)
  pub dial : ℕ → GoString → Option GoString

-- refreshPeers
unfoldable pub refresh_peers : Network → ℕ → Server → Server × Bool
refresh_peers net attempt s =
    connect_to_all_peers net.split_host_port net.parse_ip (net.dial attempt) net.listen
      (net.answer attempt) s
