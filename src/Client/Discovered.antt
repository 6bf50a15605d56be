-- ===== src/Client/Discovered.antt =====
-- server.go: connectToAllPeers with the answer that the tracker gives.
-- `decode_peers` stands for the JSON decoder on the body of the answer.
use file_share_p2p.Prelude.{
  ℕ, true, false, Option, none, some, List, ◌≡◌, ◌≢◌, refl, sym, ap, ◌∙◌, subst, arith, eqb,
  if◌then◌else◌, contains,
}
use file_share_p2p.Prelude.Maps.{get, is_some}
use file_share_p2p.GoString.{GoString, string_eq, bytes, has_byte}
use file_share_p2p.Tracker.State.{Tracker, Response, Body, no_body, message, file_json, peers_json}
use file_share_p2p.Tracker.Cleanup.{Orders, is_stale, stale_after, handle_get_peers}
use file_share_p2p.Tracker.Entries.{Covers}
use file_share_p2p.Tracker.Membership.{has}
use file_share_p2p.Tracker.Freshness.{seen, CoverFiles, names, names-handle_get_peers}
use file_share_p2p.Client.Address.{address, get_peer_address}
use file_share_p2p.Server.State.{Server, normalize_address}
use file_share_p2p.Server.Connect.{Ip, connect_to_all_peers}
use file_share_p2p.Server.Known.{is_known, is_public}
use file_share_p2p.Server.Discovery.{connect_to_all_peers-announced}

-- The list that connectToAllPeers takes from the answer; none for an error on the way.
unfoldable pub peers_answer :
    (Body → Option (List GoString)) → Option Response → Option (List GoString)
peers_answer decode_peers none = none
peers_answer decode_peers (some r) = if eqb r.status 200 then decode_peers r.body else none

-- A body that names a peer is a list with that peer.
named :
    (o : Orders) (now : ℕ) (body : Body) (q : GoString)
    → names o now body q ≡ true
    → (xs : List GoString) × (body ≡ peers_json xs) × (contains q xs ≡ true)
named o now no_body q h = cc
named o now (message text) q h = cc
named o now (file_json info) q h = cc
named o now (peers_json xs) q h = (xs, refl, h)

-- Where the tracker lists a peer under a file with the address of getPeerAddress and saw it within two
-- minutes, and its loops leave out no key, JSON carries its answer, the public address of the peer is
-- not private, not the own one and not connected yet, none of the addresses has a bar, and the dial of
-- the public address makes a connection with that remote address, then connectToAllPeers with what GET
-- /peers answers returns no error and has the peer in its table.
pub connect_to_all_peers-handle_get_peers :
    (decode_peers : Body → Option (List GoString))
    (split_host_port : GoString → Option (GoString × GoString)) (parse_ip : GoString → Option Ip)
    (dial : GoString → Option GoString) (own announcer public_ip local_ip peer remote : GoString)
    (o : Orders) (now : ℕ) (file : GoString) (t : Tracker) (s : Server)
    → file ≢ bytes ""
    → CoverFiles o t
    → Covers o.peers t.peer_last_seen
    → has t file peer ≡ true
    → is_stale stale_after now (seen t peer) ≡ false
    → ((peers : List GoString) → decode_peers (peers_json peers) ≡ some peers)
    → has_byte b'|' public_ip ≡ false
    → has_byte b'|' local_ip ≡ false
    → has_byte b'|' announcer ≡ false
    → get_peer_address (some public_ip) (some local_ip) announcer ≡ some peer
    → is_public split_host_port parse_ip (address public_ip announcer) ≡ true
    → is_known own s (address public_ip announcer) ≡ false
    → dial (address public_ip announcer) ≡ some remote
    → normalize_address remote ≡ address public_ip announcer
    → let answer = peers_answer decode_peers (some (handle_get_peers o now file t).1) in
      let made = connect_to_all_peers split_host_port parse_ip dial own answer s in
      (made.1 ≡ true) × (is_some (get (address public_ip announcer) made.0.peers) ≡ true)
unfolding peers_answer
connect_to_all_peers-handle_get_peers decode_peers split_host_port parse_ip dial own announcer
      public_ip local_ip peer remote o now file t s given files peers listed fresh json p l n a
      public new d same =
    let r = (handle_get_peers o now file t).1 in
    let (status, body) = names-handle_get_peers o now t file peer given files peers in
    let (xs, e, c) = named o now r.body peer (ground (arith, body, listed, fresh)) in
    let answered : peers_answer decode_peers (some r) ≡ some xs =
      ground (arith, status, ap decode_peers e ∙ json xs) in
    subst
      (λ (z : Option (List GoString)).
        ((connect_to_all_peers split_host_port parse_ip dial own z s).1 ≡ true)
        × (is_some (
              get (address public_ip announcer)
                (connect_to_all_peers split_host_port parse_ip dial own z s).0.peers)
            ≡ true))
      (sym answered)
      (connect_to_all_peers-announced split_host_port parse_ip dial own announcer public_ip local_ip
        peer remote xs s p l n a c public new d same)
