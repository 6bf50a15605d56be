-- ===== src/Transport/Panics.antt =====
-- p2p/tcp_transport.go and server.go: which calls of Dial make the program panic.
use file_share_p2p.Prelude.{
  ℕ, suc, ◌≤◌, Bool, false, Option, List, [], ◌∷◌, ◌≡◌, refl, arith, All, All-append, Bool-cases,
  option_cases, inl, inr, ◌||◌, ◌==◌,
}
use file_share_p2p.Prelude.Int.{ℤ}
use file_share_p2p.Prelude.Maps.{get, is_some}
use file_share_p2p.GoString.{GoString, string_eq, split, has_byte, split-All, split_none}
use file_share_p2p.Server.State.{Server}
use file_share_p2p.Server.Connect.{targets_of, targets}
use file_share_p2p.Transport.Dial.{
  Worker, closes, dial_worker, dial_workers, wait_for_workers, dial,
}

connections_bound :
    (w : Worker) (workers : List Worker) → closes (w ∷ workers) ≤ suc (closes workers)
unfolding closes
connections_bound w workers = elim (option_cases w.connection) [
  | inl e ↦ rw (e, closes) (omega arith)
  | inr (remote, e) ↦ rw (e, closes) (omega arith)
]

module _ (split_host_port : GoString → Option (GoString × GoString)) (atoi : GoString → Option ℤ)
    (tcp : GoString → ℕ × Option GoString) (listen : GoString) (coin : ℕ → Bool)
    (ack : Option (ℕ × GoString)) (has_udp : Bool) where
  one_address :
      (addr : GoString)
      → has_byte b'|' addr ≡ false
      → (dial split_host_port atoi tcp listen coin ack has_udp addr).panics ≡ false
  unfolding dial wait_for_workers dial_workers
  one_address addr h =
      let none_left : closes [] ≡ 0 = unfold closes in refl in
      ground (
        arith,
        split_none b'|' addr h,
        none_left,
        connections_bound (dial_worker split_host_port atoi tcp listen addr) [],
      )

  targets_of-safe :
      (own : GoString) (s : Server) (addresses : List GoString)
      → All (λ a. has_byte b'|' a ≡ false) addresses
      → All
          (λ a. (dial split_host_port atoi tcp listen coin ack has_udp a).panics ≡ false)
          (targets_of own s addresses)
  unfolding targets_of
  targets_of-safe own s [] h = tt
  targets_of-safe own s (addr ∷ addresses) (p, h) =
      elim (Bool-cases (addr == own || is_some (get addr s.peers))) [
        | inl e ↦ rw e (targets_of-safe own s addresses h)
        | inr e ↦ rw e (one_address addr p, targets_of-safe own s addresses h)
      ]

-- Whatever list the tracker sends, and whatever becomes of the dials, no address that
-- connectToAllPeers hands to Dial makes Dial panic.
pub targets-safe :
    (split_host_port : GoString → Option (GoString × GoString)) (atoi : GoString → Option ℤ)
    (tcp : GoString → ℕ × Option GoString) (listen : GoString) (coin : ℕ → Bool)
    (ack : Option (ℕ × GoString)) (has_udp : Bool) (own : GoString) (s : Server)
    (peers : List GoString)
    → All
        (λ a. (dial split_host_port atoi tcp listen coin ack has_udp a).panics ≡ false)
        (targets own s peers)
unfolding targets
targets-safe split_host_port atoi tcp listen coin ack has_udp own s [] = tt
targets-safe split_host_port atoi tcp listen coin ack has_udp own s (peer ∷ peers) =
    All-append (λ a. (dial split_host_port atoi tcp listen coin ack has_udp a).panics ≡ false)
      (targets_of own s (split b'|' peer)) (targets own s peers)
      (targets_of-safe split_host_port atoi tcp listen coin ack has_udp own s (split b'|' peer)
        (split-All b'|' peer))
      (targets-safe split_host_port atoi tcp listen coin ack has_udp own s peers)
