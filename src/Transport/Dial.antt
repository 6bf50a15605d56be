-- ===== src/Transport/Dial.antt =====
-- p2p/tcp_transport.go: Dial, and setupUDPListener of p2p/udp_hole.go before it.
-- Times are in milliseconds from the start of the goroutines; a sleep takes as long as it says, and
-- what neither sleeps nor waits for the network takes no time. `split_host_port` stands for
-- net.SplitHostPort, `atoi` for strconv.Atoi, and `tcp` for net.DialTimeout: how long it takes, and the
-- remote address of the connection that it makes.
use file_share_p2p.Prelude.{
  ℕ, zero, suc, ◌+◌, ◌*◌, ◌^◌, Bool, false, Option, none, some, List, [], ◌∷◌, ◌++◌, ltb,
  if◌then◌else◌, length,
}
use file_share_p2p.Prelude.Int.{ℤ}
use file_share_p2p.GoString.{GoString, split}
use file_share_p2p.Punch.{punch_message}

pub data DialError : Type 0 where
  udp_setup_failed connection_timeout : DialError
  invalid_address invalid_port : GoString → DialError

-- How the wait of Dial ends: a TCP connection closes `doneCh`, an address comes out of `connectedCh`,
-- or there is an error.
pub data DialResult : Type 0 where
  over_tcp : DialResult
  hole_punched : GoString → DialResult
  failed : DialError → DialResult

-- One call of WriteToUDP: its time, host and port, and the message.
pub record Punch : Type 0 where
  pub time : ℕ
  pub host : GoString
  pub port : ℤ
  pub text : GoString

-- The goroutine of one address: the punches, what it does to `errCh` or `doneCh` and when, and the
-- connection that it gives to handleConn.
pub record Worker : Type 0 where
  pub punches : List Punch
  pub signal : Option (ℕ × DialResult)
  pub connection : Option GoString

-- `100*(1<<uint(i))`
abbrev pub backoff : ℕ → ℕ
backoff i = 100 * 2 ^ i

-- The loop from the i-th punch on, with `left` to go: the punches, and the time it ends. An error of
-- WriteToUDP is only logged.
unfoldable pub send_punches : GoString → ℤ → GoString → ℕ → ℕ → ℕ → List Punch × ℕ
send_punches host port text zero i now = ([], now)
send_punches host port text (suc left) i now =
    let (punches, ended) = send_punches host port text left (suc i) (now + backoff i) in
    (record { time = now; host = host; port = port; text = text } ∷ punches, ended)

abbrev pub refused : DialError → Worker
refused e = record { punches = []; signal = some (0, failed e); connection = none }

module _ (split_host_port : GoString → Option (GoString × GoString)) (atoi : GoString → Option ℤ)
    (tcp : GoString → ℕ × Option GoString) (listen : GoString) where
  -- After the punches.
  unfoldable pub dial_tcp : ℕ × Option GoString → List Punch × ℕ → Worker
  dial_tcp (took, none) (punches, now) = record {
    punches = punches;
    signal = none;
    connection = none;
  }
  dial_tcp (took, some remote) (punches, now) = record {
    punches = punches;
    signal = some (now + took, over_tcp);
    connection = some remote;
  }

  unfoldable pub with_port : GoString → GoString → Option ℤ → Worker
  with_port addr host none = refused (invalid_port addr)
  with_port addr host (some port) =
      dial_tcp (tcp addr) (send_punches host port (punch_message listen) 5 0 0)

  unfoldable pub with_host_port : GoString → Option (GoString × GoString) → Worker
  with_host_port addr none = refused (invalid_address addr)
  with_host_port addr (some (host, port)) = with_port addr host (atoi port)

  -- The goroutine of one address
  unfoldable pub dial_worker : GoString → Worker
  dial_worker addr = with_host_port addr (split_host_port addr)

  unfoldable pub dial_workers : List GoString → List Worker
  dial_workers [] = []
  dial_workers (addr ∷ addrs) = dial_worker addr ∷ dial_workers addrs

-- The cases of the select that become ready.
unfoldable pub signals : List Worker → List (ℕ × DialResult)
signals [] = []
signals (w ∷ workers) = elim w.signal [ none ↦ signals workers | some s ↦ s ∷ signals workers ]

-- The address in `connectedCh`, if one is put there, and when.
abbrev pub acked : Option (ℕ × GoString) → List (ℕ × DialResult)
acked none = []
acked (some (time, addr)) = (time, hole_punched addr) ∷ []

-- The case that is ready first; of two at the same time, `coin` tells which is chosen.
unfoldable pub earlier : Bool → ℕ × DialResult → ℕ × DialResult → ℕ × DialResult
earlier coin (t, r) (u, q) =
    if ltb t u then (t, r) else if ltb u t then (u, q) else if coin then (t, r) else (u, q)

unfoldable pub select : (ℕ → Bool) → ℕ × DialResult → List (ℕ × DialResult) → ℕ × DialResult
select coin best [] = best
select coin best (s ∷ rest) = select coin (earlier (coin (length rest)) best s) rest

-- `20 * time.Second`
abbrev pub dial_timeout : ℕ
dial_timeout = 20000

-- The number of calls of close(doneCh); the second one panics.
unfoldable pub closes : List Worker → ℕ
closes [] = 0
closes (w ∷ workers) =
    let rest = closes workers in elim w.connection [ none ↦ rest | some remote ↦ suc rest ]

-- What a call of Dial comes to: when it returns and what, the connections for handleConn, and whether
-- some goroutine panics, then or later.
pub record Dialed : Type 0 where
  pub returned : ℕ × DialResult
  pub connections : List GoString
  pub panics : Bool

unfoldable pub connections : List Worker → List GoString
connections [] = []
connections (w ∷ workers) = elim w.connection [
  | none ↦ connections workers
  | some remote ↦ remote ∷ connections workers
]

-- Dial, after the UDP socket is there
unfoldable pub wait_for_workers : (ℕ → Bool) → Option (ℕ × GoString) → List Worker → Dialed
wait_for_workers coin ack workers = record {
  returned = select coin (dial_timeout, failed connection_timeout) (acked ack ++ signals workers);
  connections = connections workers;
  panics = ltb 1 (closes workers);
}

-- Dial; `has_udp` tells whether there is a UDP socket, or it could be set up.
unfoldable pub dial :
    (GoString → Option (GoString × GoString))
    → (GoString → Option ℤ)
    → (GoString → ℕ × Option GoString)
    → GoString
    → (ℕ → Bool)
    → Option (ℕ × GoString)
    → Bool
    → GoString
    → Dialed
dial split_host_port atoi tcp listen coin ack has_udp addr =
    if has_udp
    then wait_for_workers coin ack (dial_workers split_host_port atoi tcp listen (split b'|' addr))
    else record { returned = (0, failed udp_setup_failed); connections = []; panics = false }
