-- ===== src/Server/Discovery.antt =====
-- server.go: a peer that the tracker's answer lists is connected to by connectToAllPeers.
use file_share_p2p.Prelude.{
  true, false, not, ◌&&◌, Option, none, some, List, [], ◌∷◌, ◌≡◌, ap, ◌∙◌, sym, arith, eqb, ltb,
  length, contains, contains-append, pos_of_contains, ◌==◌, ==_iff, ==_refl, Bool-cases, inl, inr,
}
use mathlib.Core.Option.{some-injective}
use file_share_p2p.Prelude.Maps.{get, get-put, is_some}
use file_share_p2p.GoString.{GoString, string_eq, split, split_none, has_byte}
use file_share_p2p.Client.Address.{address, address_plain, get_peer_address, split-get_peer_address}
use file_share_p2p.Server.State.{Server, on_peer, normalize_address}
use file_share_p2p.Server.Connect.{
  Ip, filter_peer_list, own_address, targets_of, targets, connect, dial_all, connections_made,
  connect_to_all_peers,
}
use file_share_p2p.Server.Normal.{get-on_peer}
use file_share_p2p.Server.Known.{
  all_addresses, is_known, is_public, any_public, contains-filter_peer_list,
}

contains-all_addresses :
    (x peer : GoString) (peers : List GoString)
    → contains peer peers ≡ true
    → contains x (split b'|' peer) ≡ true
    → contains x (all_addresses peers) ≡ true
unfolding all_addresses contains
contains-all_addresses x peer [] h h' = h
contains-all_addresses x peer (p ∷ peers) h h' = elim (Bool-cases (peer == p)) [
  | inl e ↦
      let same = ap (λ q. contains x (split b'|' q)) ((==_iff peer p).0 e) in
      ground (arith, contains-append x (split b'|' p) (all_addresses peers), same)
  | inr e ↦
      let rest = contains-all_addresses x peer peers (ground (arith, e)) h' in
      ground (arith, contains-append x (split b'|' p) (all_addresses peers), rest)
]

contains-targets_of :
    (x listen : GoString) (s : Server) (addresses : List GoString)
    → contains x (targets_of (own_address listen) s addresses)
      ≡ (not (is_known listen s x) && contains x addresses)
unfolding targets_of contains
contains-targets_of x listen s [] = ground arith
contains-targets_of x listen s (addr ∷ addresses) = elim (Bool-cases (x == addr)) [
  | inl e ↦
      let same = ap (is_known listen s) ((==_iff x addr).0 e) in
      ground (arith, e, same, contains-targets_of x listen s addresses)
  | inr e ↦ ground (arith, e, contains-targets_of x listen s addresses)
]

contains-targets :
    (x listen : GoString) (s : Server) (peers : List GoString)
    → contains x (targets (own_address listen) s peers)
      ≡ (not (is_known listen s x) && contains x (all_addresses peers))
unfolding targets all_addresses contains
contains-targets x listen s [] = ground arith
contains-targets x listen s (peer ∷ peers) = ground (
  arith,
  contains-append x (targets_of (own_address listen) s (split b'|' peer))
      (targets (own_address listen) s peers),
  contains-append x (split b'|' peer) (all_addresses peers),
  contains-targets_of x listen s (split b'|' peer),
  contains-targets x listen s peers,
)

module _ (dial : GoString → Option GoString) where
  -- A peer in the table stays there.
  connect_keeps :
      (r : Option GoString) (x : GoString) (s : Server)
      → is_some (get x s.peers) ≡ true
      → is_some (get x (connect dial r s).peers) ≡ true
  unfolding on_peer
  connect_keeps none x s h = h
  connect_keeps (some remote) x s h =
      ground (arith, get-put (normalize_address remote) remote s.peers x, h)

  dial_all_keeps :
      (x : GoString) (addresses : List GoString) (s : Server)
      → is_some (get x s.peers) ≡ true
      → is_some (get x (dial_all dial addresses s).peers) ≡ true
  unfolding dial_all
  dial_all_keeps x [] s h = h
  dial_all_keeps x (addr ∷ addresses) s h =
      dial_all_keeps x addresses (connect dial (dial addr) s) (connect_keeps (dial addr) x s h)

  peer_known :
      (x remote : GoString) (s : Server)
      → normalize_address remote ≡ x
      → is_some (get x (on_peer remote s).peers) ≡ true
  peer_known x remote s n =
      ap is_some (ap (λ a. get a (on_peer remote s).peers) (sym n) ∙ get-on_peer remote s)

  dial_all-contains :
      (x remote : GoString) (addresses : List GoString) (s : Server)
      → contains x addresses ≡ true
      → dial x ≡ some remote
      → normalize_address remote ≡ x
      → is_some (get x (dial_all dial addresses s).peers) ≡ true
  unfolding dial_all contains on_peer
  dial_all-contains x remote [] s h d n = absurd (ground arith)
  dial_all-contains x remote (addr ∷ addresses) s h d n = elim (Bool-cases (x == addr)) [
    | inl e ↦
        let made = ap dial (sym ((==_iff x addr).0 e)) ∙ d in
        dial_all_keeps x addresses (connect dial (dial addr) s)
          (ap (λ r. is_some (get x (connect dial r s).peers)) made ∙ peer_known x remote s n)
    | inr e ↦
        dial_all-contains x remote addresses (connect dial (dial addr) s) (ground (arith, e)) d n
  ]

  connections_made-contains :
      (x : GoString) (addresses : List GoString) (s : Server)
      → contains x addresses ≡ true
      → is_some (dial x) ≡ true
      → is_some (get x s.peers) ≡ true
      → ltb 0 (connections_made dial addresses s) ≡ true
  unfolding connections_made contains
  connections_made-contains x [] s h d n = h
  connections_made-contains x (addr ∷ addresses) s h d n = elim (Bool-cases (x == addr)) [
    | inl e ↦
        let same = (==_iff x addr).0 e in
        ground (arith, ap (λ a. is_some (dial a)) same, ap (λ a. is_some (get a s.peers)) same)
    | inr e ↦ ground (arith, e, connections_made-contains x addresses s (ground (arith, e)) d n)
  ]

any_public-contains :
    (split_host_port : GoString → Option (GoString × GoString)) (parse_ip : GoString → Option Ip)
    (x : GoString) (addresses : List GoString)
    → contains x addresses ≡ true
    → is_public split_host_port parse_ip x ≡ true
    → any_public split_host_port parse_ip addresses ≡ true
unfolding any_public contains
any_public-contains split_host_port parse_ip x [] h p = h
any_public-contains split_host_port parse_ip x (addr ∷ addresses) h p =
    elim (Bool-cases (x == addr)) [
      | inl e ↦
          let same = ap (is_public split_host_port parse_ip) ((==_iff x addr).0 e) in
          ground (arith, same)
      | inr e ↦
          ground
            (arith, any_public-contains split_host_port parse_ip x addresses (ground (arith, e)) p)
    ]

-- A public address in a list of the tracker is one that is dialled.
contains-filtered :
    (split_host_port : GoString → Option (GoString × GoString)) (parse_ip : GoString → Option Ip)
    (x peer listen : GoString) (answer : List GoString) (s : Server)
    → contains peer answer ≡ true
    → contains x (split b'|' peer) ≡ true
    → split b'|' x ≡ x ∷ []
    → is_public split_host_port parse_ip x ≡ true
    → is_known listen s x ≡ false
    → contains x (targets (own_address listen) s (filter_peer_list split_host_port parse_ip answer))
      ≡ true
contains-filtered split_host_port parse_ip x peer listen answer s h h' one p k =
    let filtered = filter_peer_list split_host_port parse_ip answer in
    let listed = contains-all_addresses x peer answer h h' in
    let any = any_public-contains split_host_port parse_ip x (all_addresses answer) listed p in
    let kept : contains x filtered ≡ true =
      ground (arith, contains-filter_peer_list split_host_port parse_ip x answer, any, listed, p) in
    let single : contains x (split b'|' x) ≡ true =
      ap (contains x) one ∙ (unfold contains in ground (arith, ==_refl x)) in
    ground (
      arith,
      contains-targets x listen s filtered,
      contains-all_addresses x x filtered kept single,
      k,
    )

-- Where a peer has announced the address of getPeerAddress, its public address is not private and
-- none of the addresses has a bar, the tracker's answer has it, it is neither the own address nor
-- connected, and its dial makes a connection whose remote address is the one that was dialled,
-- connectToAllPeers returns no error and has the peer in its table.
pub connect_to_all_peers-announced :
    (split_host_port : GoString → Option (GoString × GoString)) (parse_ip : GoString → Option Ip)
    (dial : GoString → Option GoString) (own announcer public_ip local_ip peer remote : GoString)
    (answer : List GoString) (s : Server)
    → has_byte b'|' public_ip ≡ false
    → has_byte b'|' local_ip ≡ false
    → has_byte b'|' announcer ≡ false
    → get_peer_address (some public_ip) (some local_ip) announcer ≡ some peer
    → contains peer answer ≡ true
    → is_public split_host_port parse_ip (address public_ip announcer) ≡ true
    → is_known own s (address public_ip announcer) ≡ false
    → dial (address public_ip announcer) ≡ some remote
    → normalize_address remote ≡ address public_ip announcer
    → let made = connect_to_all_peers split_host_port parse_ip dial own (some answer) s in
      (made.1 ≡ true) × (is_some (get (address public_ip announcer) made.0.peers) ≡ true)
unfolding connect_to_all_peers
connect_to_all_peers-announced split_host_port parse_ip dial own announcer public_ip local_ip peer
      remote answer s p l n a h public new d same =
    let x = address public_ip announcer in
    let one = split_none b'|' x (address_plain public_ip announcer p n) in
    let (addr, e, parts) = split-get_peer_address public_ip local_ip announcer p l n in
    let peer_parts : contains x (split b'|' peer) ≡ true =
      ap (λ q. contains x (split b'|' q)) (some-injective _ _ (sym a ∙ e))
      ∙ ap (contains x) parts
      ∙ (unfold contains in ground (arith, ==_refl x)) in
    let asked = targets (own_address own) s (filter_peer_list split_host_port parse_ip answer) in
    let dialled =
      contains-filtered split_host_port parse_ip x peer own answer s h peer_parts one public new in
    let known = dial_all-contains dial x remote asked s dialled d same in
    let some_answer : eqb (length answer) 0 ≡ false =
      ground (arith, pos_of_contains peer answer h) in
    rw some_answer (
      connections_made-contains dial x asked (dial_all dial asked s) dialled (ap is_some d) known,
      known,
    )
