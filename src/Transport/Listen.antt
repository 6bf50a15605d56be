-- ===== src/Transport/Listen.antt =====
-- p2p/tcp_transport.go: getPort, ListenAndAccept, the accept loop, and handleConn as a whole;
-- setupUDPListener of p2p/udp_hole.go; makeServer, Start and bootstrapNetwork of server.go.
-- `atoi` stands for the number that strconv.Atoi returns, 0 where there is none; what the calls on
-- sockets return is an argument.
use file_share_p2p.Prelude.{
  Bool, true, false, Option, none, some, List, [], ◌∷◌, eqb, if◌then◌else◌, length,
}
use file_share_p2p.Prelude.Int.{ℤ, pos}
use file_share_p2p.GoString.{GoString, bytes, split}
use file_share_p2p.Wire.Frame.{NetError, closed, Rpc, Decoded}
use file_share_p2p.Wire.Conn.{read_loop}
use file_share_p2p.Store.Defs.{StoreOpts, new_store, cas_path_transform_func}
use file_share_p2p.Server.State.{Server, normalize_address, on_peer}

abbrev pub second_part : (GoString → ℤ) → List GoString → ℤ
second_part atoi (host ∷ port ∷ []) = atoi port
second_part atoi _ = pos 0

-- getPort
unfoldable pub get_port : (GoString → ℤ) → GoString → ℤ
get_port atoi listen = second_part atoi (split b':' listen)

-- setupUDPListener; `listen_udp` tells for a port whether net.ListenUDP fails.
unfoldable pub setup_udp_listener :
    (GoString → ℤ) → (ℤ → Option NetError) → GoString → Option NetError
setup_udp_listener atoi listen_udp listen = listen_udp (get_port atoi listen)

-- One call of Accept.
pub data Accepted : Type 0 where
  connection : GoString → Accepted
  failed : NetError → Accepted

-- `strings.Contains(err.Error(), "use of closed network connection")`
abbrev pub is_closed_error : NetError → Bool
is_closed_error closed = true
is_closed_error _ = false

-- startAcceptLoop, over what the calls of Accept return: the connections that handleConn gets.
unfoldable pub start_accept_loop : List Accepted → List GoString
start_accept_loop [] = []
start_accept_loop (connection remote ∷ calls) = remote ∷ start_accept_loop calls
start_accept_loop (failed e ∷ calls) =
    let rest = start_accept_loop calls in if is_closed_error e then [] else rest

-- The error of ListenAndAccept, whether the listener is open when it returns, and the connections.
pub record Listening : Type 0 where
  pub error : Option NetError
  pub is_open : Bool
  pub accepted : List GoString

unfoldable pub with_udp : Option NetError → List Accepted → Listening
with_udp (some e) calls = record { error = some e; is_open = false; accepted = [] }
with_udp none calls = record { error = none; is_open = true; accepted = start_accept_loop calls }

-- ListenAndAccept; `listen_tcp` is what net.Listen returns.
unfoldable pub listen_and_accept :
    (GoString → ℤ) → (ℤ → Option NetError) → Option NetError → GoString → List Accepted → Listening
listen_and_accept atoi listen_udp (some e) listen calls = record {
  error = some e;
  is_open = false;
  accepted = [];
}
listen_and_accept atoi listen_udp none listen calls =
    with_udp (setup_udp_listener atoi listen_udp listen) calls

-- The server after handleConn, and the messages that were forwarded. The connection is closed then.
pub record Served : Type 0 where
  pub server : Server
  pub forwarded : List Rpc

-- handleConn after OnPeer
unfoldable pub serve_known : GoString → List (Decoded × Bool) → Server × Option NetError → Served
serve_known remote events (s, some e) = record { server = s; forwarded = [] }
serve_known remote events (s, none) = record {
  server = s;
  forwarded = read_loop (normalize_address remote) 0 events;
}

-- `OnPeer`, if it is set.
abbrev pub call_on_peer :
    Option (GoString → Server → Server × Option NetError)
    → GoString
    → Server
    → Server × Option NetError
call_on_peer none remote s = (s, none)
call_on_peer (some handler) remote s = handler remote s

unfoldable pub after_handshake :
    Option NetError
    → Option (GoString → Server → Server × Option NetError)
    → GoString
    → List (Decoded × Bool)
    → Server
    → Served
after_handshake (some e) handler remote events s = record { server = s; forwarded = [] }
after_handshake none handler remote events s =
    serve_known remote events (call_on_peer handler remote s)

-- handleConn, over what the decoder returns.
unfoldable pub handle_conn :
    (GoString → Option NetError)
    → Option (GoString → Server → Server × Option NetError)
    → GoString
    → List (Decoded × Bool)
    → Server
    → Served
handle_conn handshake handler remote events s =
    after_handshake (handshake remote) handler remote events s

-- NOPHandshakeFunc
unfoldable pub nop_handshake_func : GoString → Option NetError
nop_handshake_func remote = none

-- The handler that makeServer sets, which returns no error.
unfoldable pub server_on_peer : GoString → Server → Server × Option NetError
server_on_peer remote s = (on_peer remote s, none)

-- The options that makeServer and SetTrackerAddress set and that are used.
pub record FileServerOpts : Type 0 where
  pub listen_addr : GoString
  pub storage_root : GoString
  pub tracker_addr : GoString
  pub bootstrap_nodes : List GoString

-- A new server with its options and those of its store.
pub record NewServer : Type 0 where
  pub opts : FileServerOpts
  pub store : StoreOpts
  pub server : Server

-- makeServer; `sum` is the SHA-1 of a text in hexadecimal.
unfoldable pub make_server : (GoString → GoString) → GoString → GoString → NewServer
make_server sum listen_addr bootstrap_node = record {
  opts = record {
    listen_addr = listen_addr;
    storage_root = bytes "shared_files";
    tracker_addr = [];
    bootstrap_nodes = bootstrap_node ∷ [];
  };
  store = new_store sum (record {
    root = bytes "shared_files";
    path_transform_func = some (cas_path_transform_func sum);
  });
  server = record { peers = []; response_handlers = []; active_files = [] };
}

-- SetTrackerAddress
unfoldable pub set_tracker_address : GoString → FileServerOpts → FileServerOpts
set_tracker_address addr opts = record opts { tracker_addr = addr }

-- bootstrapNetwork: the addresses that are dialled, each in a goroutine of its own.
unfoldable pub bootstrap_network : List GoString → List GoString
bootstrap_network [] = []
bootstrap_network (node ∷ nodes) =
    let rest = bootstrap_network nodes in if eqb (length node) 0 then rest else node ∷ rest

-- Start: the error of ListenAndAccept, or the addresses that are then dialled.
unfoldable pub start : FileServerOpts → Listening → Option NetError × List GoString
start opts listening = elim listening.error [
  | some e ↦ (some e, [])
  | none ↦ (none, bootstrap_network opts.bootstrap_nodes)
]
