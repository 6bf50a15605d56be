-- ===== src/Transport/Waiting.antt =====
-- p2p/tcp_transport.go: when Dial returns, and what.
use file_share_p2p.Prelude.{
  ℕ, ◌+◌, ◌≤◌, Bool, true, Option, none, some, List, [], ◌∷◌, ◌≡◌, refl, ap, ◌∙◌, arith, min,
  length, All,
}
use file_share_p2p.Prelude.Int.{ℤ}
use file_share_p2p.GoString.{GoString, split}
use file_share_p2p.Punch.{punch_message}
use file_share_p2p.Transport.Dial.{
  DialResult, over_tcp, failed, connection_timeout, Worker, signals, earlier, select, dial_timeout,
  dial_worker, dial_workers, wait_for_workers, dial, with_host_port, with_port, dial_tcp,
  send_punches,
}

-- The times of the TCP connections that are made.
abbrev pub durations_of : ℕ × Option GoString → List ℕ → List ℕ
durations_of (took, none) rest = rest
durations_of (took, some remote) rest = took ∷ rest

abbrev pub least : ℕ → List ℕ → ℕ
least m [] = m
least m (d ∷ ds) = least (min m d) ds

-- Five punches take 3.1 seconds.
abbrev pub expected : List ℕ → ℕ × DialResult
expected [] = (20000, failed connection_timeout)
expected (d ∷ ds) = (3100 + least d ds, over_tcp)

abbrev connected_at : List ℕ → List (ℕ × DialResult)
connected_at [] = []
connected_at (d ∷ ds) = (3100 + d, over_tcp) ∷ connected_at ds

earlier_over_tcp :
    (coin : Bool) (t u : ℕ)
    → earlier coin (3100 + t, over_tcp) (3100 + u, over_tcp) ≡ (3100 + min t u, over_tcp)
unfolding earlier
earlier_over_tcp coin t u = ground arith

select_over_tcp :
    (coin : ℕ → Bool) (d : ℕ) (ds : List ℕ)
    → select coin (3100 + d, over_tcp) (connected_at ds) ≡ (3100 + least d ds, over_tcp)
unfolding select
select_over_tcp coin d [] = refl
select_over_tcp coin d (u ∷ ds) =
    ap (λ (s : ℕ × DialResult). select coin s (connected_at ds))
      (earlier_over_tcp (coin (length (connected_at ds))) d u)
    ∙ select_over_tcp coin (min d u) ds

-- A connection is made long before the timeout.
select-expected :
    (coin : ℕ → Bool) (ds : List ℕ)
    → All (λ d. d ≤ 5000) ds
    → select coin (dial_timeout, failed connection_timeout) (connected_at ds) ≡ expected ds
unfolding select
select-expected coin [] h = refl
select-expected coin (d ∷ ds) (l, h) =
    let first : earlier (coin (length (connected_at ds))) (dial_timeout, failed connection_timeout)
          (3100 + d, over_tcp)
        ≡ (3100 + d, over_tcp) =
      unfold earlier in ground arith in
    ap (λ (s : ℕ × DialResult). select coin s (connected_at ds)) first ∙ select_over_tcp coin d ds

module _ (split_host_port : GoString → Option (GoString × GoString)) (atoi : GoString → Option ℤ)
    (tcp : GoString → ℕ × Option GoString) (listen : GoString) where
  abbrev pub durations : List GoString → List ℕ
  durations [] = []
  durations (addr ∷ addrs) = durations_of (tcp addr) (durations addrs)

  -- An address with a host and a port that is a number.
  abbrev pub IsAddress : GoString → Type 0
  IsAddress addr =
      (host : GoString) × (text : GoString) × (port : ℤ) × (split_host_port addr
        ≡ some (host, text))
      × (atoi text ≡ some port)

  signals-dial_tcp :
      (r : ℕ × Option GoString) (host text : GoString) (port : ℤ) (workers : List Worker)
      (ds : List ℕ)
      → signals workers ≡ connected_at ds
      → signals
          (dial_tcp split_host_port atoi tcp listen r (send_punches host port text 5 0 0) ∷ workers)
        ≡ connected_at (durations_of r ds)
  unfolding signals dial_tcp send_punches
  signals-dial_tcp (took, none) host text port workers ds h = h
  signals-dial_tcp (took, some remote) host text port workers ds h =
      ap (◌∷◌ (3100 + took, over_tcp)) h

  signals-dial_workers :
      (addrs : List GoString)
      → All IsAddress addrs
      → signals (dial_workers split_host_port atoi tcp listen addrs)
        ≡ connected_at (durations addrs)
  unfolding dial_workers dial_worker with_host_port with_port
  signals-dial_workers [] h = unfold signals in refl
  signals-dial_workers (addr ∷ addrs) ((host, text, port, e, f), h) =
      rw (e, with_host_port, f, with_port)
        (signals-dial_tcp (tcp addr) host (punch_message listen) port
          (dial_workers split_host_port atoi tcp listen addrs) (durations addrs)
          (signals-dial_workers addrs h))

  quick :
      (addrs : List GoString)
      → ((addr : GoString) → (tcp addr).0 ≤ 5000)
      → All (λ d. d ≤ 5000) (durations addrs)
  quick [] h = tt
  quick (addr ∷ addrs) h = quick_one (tcp addr) (durations addrs) (h addr) (quick addrs h)
    where
      quick_one :
          (r : ℕ × Option GoString) (ds : List ℕ)
          → r.0 ≤ 5000
          → All (λ d. d ≤ 5000) ds
          → All (λ d. d ≤ 5000) (durations_of r ds)
      quick_one (took, none) ds l h = h
      quick_one (took, some remote) ds l h = (l, h)

-- Where there is a UDP socket, every part of the address has a host and a numeric port, no ACK arrives
-- and a TCP dial takes at most 5 seconds, Dial returns nil as soon as the first connection is made, 3.1 seconds of punches
-- and the time of the quickest successful dial after its start, and if none is made it returns a
-- timeout after exactly 20 seconds.
pub dial-returned :
    (split_host_port : GoString → Option (GoString × GoString)) (atoi : GoString → Option ℤ)
    (tcp : GoString → ℕ × Option GoString) (listen : GoString) (coin : ℕ → Bool) (addr : GoString)
    → ((part : GoString) → (tcp part).0 ≤ 5000)
    → All (IsAddress split_host_port atoi tcp listen) (split b'|' addr)
    → (dial split_host_port atoi tcp listen coin none true addr).returned
      ≡ expected (durations split_host_port atoi tcp listen (split b'|' addr))
unfolding dial wait_for_workers
dial-returned split_host_port atoi tcp listen coin addr h a =
    ap (select coin (dial_timeout, failed connection_timeout))
      (signals-dial_workers split_host_port atoi tcp listen (split b'|' addr) a)
    ∙ select-expected coin (durations split_host_port atoi tcp listen (split b'|' addr))
        (quick split_host_port atoi tcp listen (split b'|' addr) h)
