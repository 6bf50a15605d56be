-- ===== src/Tests/Connect.antt =====
-- server.go: a tracker's list with a private address and a peer that is connected.
use file_share_p2p.Prelude.{
  ◌||◌, arith, insert, true, false, ◌&&◌, Option, some, none, List, [], ◌∷◌, ◌≡◌, refl,
  if◌then◌else◌, nat_eq, ◌==◌, contains, ℕ_discrete,
}
use file_share_p2p.Prelude.Maps.{get, put, is_some}
use file_share_p2p.GoString.{GoString, string_eq, bytes_dec, bytes, split, has_prefix, has_byte}
use file_share_p2p.Server.State.{Server, normalize_address, after_port}
use file_share_p2p.Client.Address.{address, get_peer_address}
use file_share_p2p.Client.Discovered.{peers_answer, connect_to_all_peers-handle_get_peers}
use file_share_p2p.Server.Private.{in_subnet, number_of, is_private_ip-v4}
use file_share_p2p.Tracker.State.{Tracker, new_tracker, Body, peers_json}
use file_share_p2p.Tracker.Handlers.{announce}
use file_share_p2p.Tracker.Cleanup.{handle_get_peers, is_stale, stale_after}
use file_share_p2p.Tracker.Entries.{Covers-keys}
use file_share_p2p.Tracker.Membership.{has}
use file_share_p2p.Tracker.Freshness.{seen}
use file_share_p2p.Tests.Tracker.{announcement, file_x, file_x_given, orders}
use file_share_p2p.Server.Connect.{
  Ip, v4, is_private_ip, public_of, public_addresses, filter_peer_list, connect_to_all_peers,
}
use file_share_p2p.Server.Known.{
  all_addresses, is_public, any_public, contains-filter_peer_list, connect_to_all_peers-known,
}

-- Every address has the host of its first digit.
abbrev first_host : GoString → Option (GoString × GoString)
first_host [] = none
first_host (c ∷ text) = some (c ∷ [], bytes "3000")

-- A host of one digit, as the first byte of an address.
abbrev parse_digit : GoString → Option Ip
parse_digit (c ∷ []) = if c == b'1' then some (v4 10 0 0 1) else some (v4 5 6 7 8)
parse_digit _ = none

abbrev listed : List GoString
listed = bytes "10.0.0.1:3000|5.6.7.8:3000" ∷ []

contains-filter_peer_list_example :
    contains (bytes "10.0.0.1:3000") (filter_peer_list first_host parse_digit listed) ≡ (
      if any_public first_host parse_digit (all_addresses listed)
      then is_public first_host parse_digit (bytes "10.0.0.1:3000")
        && contains (bytes "10.0.0.1:3000") (all_addresses listed)
      else contains (bytes "10.0.0.1:3000") listed)
contains-filter_peer_list_example =
    contains-filter_peer_list first_host parse_digit (bytes "10.0.0.1:3000") listed

abbrev connected : Server
connected = record {
  peers = (bytes "5.6.7.8:3000", bytes "5.6.7.8:3000") ∷ [];
  response_handlers = [];
  active_files = [];
}

filter_runs : filter_peer_list first_host parse_digit listed ≡ bytes "5.6.7.8:3000" ∷ []
unfolding filter_peer_list public_addresses public_of is_private_ip split nat_eq ℕ_discrete
filter_runs = refl

connect_to_all_peers-known_example :
    connect_to_all_peers first_host parse_digit
      (λ addr. some addr)
      (bytes ":3000")
      (some listed)
      connected
    ≡ (connected, false)
unfolding filter_peer_list public_addresses public_of is_private_ip split nat_eq ℕ_discrete
    all_addresses get string_eq bytes_dec has_prefix
connect_to_all_peers-known_example =
    connect_to_all_peers-known first_host parse_digit (λ addr. some addr) (bytes ":3000") listed
      connected (refl, tt)

abbrev alone : Server
alone = record { peers = []; response_handlers = []; active_files = [] }

abbrev announced : GoString
announced = bytes "5.6.7.8:3000|10.0.0.2:3000"

abbrev decode_peers : Body → Option (List GoString)
decode_peers (peers_json peers) = some peers
decode_peers _ = none

-- A tracker to which the peer has announced the file.
abbrev told : Tracker
told = announce 0 0 (announcement announced) new_tracker

told_runs :
    (has told file_x announced ≡ true) × (is_stale stale_after 5 (seen told announced) ≡ false)
unfolding announce get put insert contains string_eq bytes_dec nat_eq ℕ_discrete new_tracker
told_runs = (refl, refl)

connect_to_all_peers-handle_get_peers_example :
    let answer =
      peers_answer decode_peers (some (handle_get_peers (orders told) 5 file_x told).1) in
    let made =
      connect_to_all_peers first_host parse_digit
        (λ addr. some addr)
        (bytes ":4000")
        answer
        alone in
    (made.1 ≡ true)
    × (is_some (get (address (bytes "5.6.7.8") (bytes ":3000")) made.0.peers) ≡ true)
unfolding has_byte get_peer_address contains string_eq bytes_dec is_private_ip get has_prefix
    normalize_address after_port nat_eq ℕ_discrete
connect_to_all_peers-handle_get_peers_example =
    connect_to_all_peers-handle_get_peers decode_peers first_host parse_digit (λ addr. some addr)
      (bytes ":4000") (bytes ":3000") (bytes "5.6.7.8") (bytes "10.0.0.2") announced
      (bytes "5.6.7.8:3000") (orders told) 5 file_x told alone file_x_given
      (λ a. Covers-keys told.peer_index) (Covers-keys told.peer_last_seen) told_runs.0 told_runs.1
      (λ peers. refl) refl refl refl refl refl refl refl refl

is_private_ip-v4_example : is_private_ip (v4 172 31 1 2) ≡ (
    in_subnet (number_of 10 0 0 0) 8 (number_of 172 31 1 2)
    || in_subnet (number_of 172 16 0 0) 12 (number_of 172 31 1 2)
    || in_subnet (number_of 192 168 0 0) 16 (number_of 172 31 1 2)
    || in_subnet (number_of 127 0 0 0) 8 (number_of 172 31 1 2))
is_private_ip-v4_example =
    is_private_ip-v4 172 31 1 2 (omega arith) (omega arith) (omega arith) (omega arith)
