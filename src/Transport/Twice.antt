-- ===== src/Transport/Twice.antt =====
-- p2p/tcp_transport.go: Dial where several of its addresses can be connected to.
use file_share_p2p.Prelude.{
  ℕ, suc, Bool, true, Option, none, some, List, [], ◌∷◌, ◌≡◌, refl, ap, ltb, length, All,
}
use file_share_p2p.Prelude.Int.{ℤ}
use file_share_p2p.GoString.{GoString, split}
use file_share_p2p.Punch.{punch_message}
use file_share_p2p.Transport.Dial.{
  Punch, Worker, closes, dial_tcp, with_port, with_host_port, dial_worker, dial_workers,
  send_punches, wait_for_workers, dial,
}
use file_share_p2p.Transport.Waiting.{durations_of, durations, IsAddress}

module _ (split_host_port : GoString → Option (GoString × GoString)) (atoi : GoString → Option ℤ)
    (tcp : GoString → ℕ × Option GoString) (listen : GoString) where
  closes-dial_tcp :
      (r : ℕ × Option GoString) (p : List Punch × ℕ) (workers : List Worker) (ds : List ℕ)
      → closes workers ≡ length ds
      → closes (dial_tcp split_host_port atoi tcp listen r p ∷ workers) ≡ length (durations_of r ds)
  unfolding closes dial_tcp
  closes-dial_tcp (took, none) (punches, now) workers ds h = h
  closes-dial_tcp (took, some remote) (punches, now) workers ds h = ap suc h

  closes-dial_workers :
      (addrs : List GoString)
      → All (IsAddress split_host_port atoi tcp listen) addrs
      → closes (dial_workers split_host_port atoi tcp listen addrs)
        ≡ length (durations split_host_port atoi tcp listen addrs)
  unfolding dial_workers dial_worker with_host_port with_port
  closes-dial_workers [] h = unfold closes in refl
  closes-dial_workers (addr ∷ addrs) ((host, text, port, e, f), h) =
      rw (e, with_host_port, f, with_port)
        (closes-dial_tcp (tcp addr) (send_punches host port (punch_message listen) 5 0 0)
          (dial_workers split_host_port atoi tcp listen addrs)
          (durations split_host_port atoi tcp listen addrs) (closes-dial_workers addrs h))

-- Where every part of the text has a host and a numeric port, and there is a UDP socket, Dial makes
-- the program panic exactly if at least two of the parts can be connected to.
pub dial-panics :
    (split_host_port : GoString → Option (GoString × GoString)) (atoi : GoString → Option ℤ)
    (tcp : GoString → ℕ × Option GoString) (listen : GoString) (coin : ℕ → Bool)
    (ack : Option (ℕ × GoString)) (addr : GoString)
    → All (IsAddress split_host_port atoi tcp listen) (split b'|' addr)
    → (dial split_host_port atoi tcp listen coin ack true addr).panics
      ≡ ltb 1 (length (durations split_host_port atoi tcp listen (split b'|' addr)))
unfolding dial wait_for_workers
dial-panics split_host_port atoi tcp listen coin ack addr h =
    ap (ltb 1) (closes-dial_workers split_host_port atoi tcp listen (split b'|' addr) h)
