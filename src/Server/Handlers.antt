-- ===== src/Server/Handlers.antt =====
-- server.go: no step of the server shortens the list of response handlers.
use file_share_p2p.Prelude.{
  ℕ, zero, suc, ◌≤◌, Option, none, some, List, [], ◌∷◌, ◌≡◌, refl, ap, arith, eqb, if◌then◌else◌,
  length, length-map, length-append, Bool-cases, option_cases, inl, inr,
}
use file_share_p2p.Prelude.Int.{ℤ}
use file_share_p2p.Prelude.Maps.{get}
use file_share_p2p.GoString.{GoString, string_eq}
use file_share_p2p.Wire.Frame.{Rpc, Writer}
use file_share_p2p.Chunks.Defs.{Files}
use file_share_p2p.Server.State.{
  normalize_address, Message, Server, Handler, on_response, on_peer, start_seeding, stop_seeding,
}
use file_share_p2p.Metadata.{Metadata}
use file_share_p2p.Server.Rpc.{run_handlers, dispatch, with_message, handle_rpc_message}
use file_share_p2p.Server.Connect.{Ip, Network, dial_all, connect_to_all_peers, refresh_peers}
use file_share_p2p.Server.Download.{
  Ending, unsent, answered, failed, timed_out, ask_peer, ask_peers, prepare, download_rounds,
  download_chunk,
}

abbrev pub num_handlers : Server → ℕ
num_handlers s = length s.response_handlers

pub ask_peer_adds :
    (file_id : GoString) (index size : ℤ) (remote : GoString) (ending : Ending) (s : Server)
    (file : List ℕ)
    → num_handlers (ask_peer file_id index size remote ending s file).server ≡ suc (num_handlers s)
unfolding ask_peer
ask_peer_adds file_id index size remote unsent s file =
    omega (arith, length-append s.response_handlers)
ask_peer_adds file_id index size remote (answered content outcomes) s file =
    omega (arith, length-append s.response_handlers)
ask_peer_adds file_id index size remote failed s file =
    omega (arith, length-append s.response_handlers)
ask_peer_adds file_id index size remote timed_out s file =
    omega (arith, length-append s.response_handlers)

pub ask_peers_grows :
    (file_id : GoString) (index size : ℤ) (peers : List (GoString × Ending)) (s : Server)
    (file : List ℕ)
    → num_handlers s ≤ num_handlers (ask_peers file_id index size peers s file).server
unfolding ask_peers
ask_peers_grows file_id index size [] s file = omega arith
ask_peers_grows file_id index size ((remote, ending) ∷ peers) s file =
    let p = ask_peer file_id index size remote ending s file in
    ground (
      arith,
      ask_peer_adds file_id index size remote ending s file,
      ask_peers_grows file_id index size peers p.server p.file,
    )

dial_all_keeps :
    (dial : GoString → Option GoString) (addresses : List GoString) (s : Server)
    → (dial_all dial addresses s).response_handlers ≡ s.response_handlers
unfolding dial_all on_peer
dial_all_keeps dial [] s = refl
dial_all_keeps dial (addr ∷ addresses) s = elim (option_cases (dial addr)) [
  | inl e ↦ rw (e, dial_all) (dial_all_keeps dial addresses s)
  | inr (remote, e) ↦ rw (e, dial_all) (dial_all_keeps dial addresses (on_peer remote s))
]

connect_to_all_peers_keeps :
    (split_host_port : GoString → Option (GoString × GoString)) (parse_ip : GoString → Option Ip)
    (dial : GoString → Option GoString) (listen : GoString) (answer : Option (List GoString))
    (s : Server)
    → (connect_to_all_peers split_host_port parse_ip dial listen answer s).0.response_handlers
      ≡ s.response_handlers
unfolding connect_to_all_peers
connect_to_all_peers_keeps split_host_port parse_ip dial listen none s = refl
connect_to_all_peers_keeps split_host_port parse_ip dial listen (some answer) s =
    elim (Bool-cases (eqb (length answer) 0)) [
      | inl e ↦ rw (e, connect_to_all_peers) refl
      | inr e ↦ rw (e, connect_to_all_peers) (dial_all_keeps dial _ s)
    ]

pub prepare_keeps :
    (net : Network) (attempt : ℕ) (s : Server)
    → (prepare net attempt s).0.response_handlers ≡ s.response_handlers
unfolding refresh_peers
prepare_keeps net attempt s = elim (Bool-cases (eqb (length s.peers) 0)) [
  | inl e ↦ rw e (
      connect_to_all_peers_keeps net.split_host_port net.parse_ip (net.dial attempt) net.listen
        (net.answer attempt) s)
  | inr e ↦ rw e refl
]

pub download_rounds_grows :
    (file_id : GoString) (index size : ℤ) (peers : ℕ → Server → List (GoString × Ending))
    (net : Network) (left attempt : ℕ) (s : Server) (file : List ℕ)
    → num_handlers s
      ≤ num_handlers (download_rounds file_id index size peers net left attempt s file).server
unfolding download_rounds
download_rounds_grows file_id index size peers net zero attempt s file = omega arith
download_rounds_grows file_id index size peers net (suc left) attempt s file =
    let ready = prepare net attempt s in
    let asked = if ready.1 then peers attempt ready.0 else [] in
    let p = ask_peers file_id index size asked ready.0 file in
    ground (
      arith,
      ap (length {A = Handler}) (prepare_keeps net attempt s),
      ask_peers_grows file_id index size asked ready.0 file,
      download_rounds_grows file_id index size peers net left (suc attempt) p.server p.file,
    )

-- The steps of a server, with any arguments.
pub data Steps : Server → Server → Type 0 where
  done : (s : Server) → Steps s s
  by_peer : (remote : GoString) (s t : Server) → Steps s t → Steps s (on_peer remote t)
  by_start :
      (file_id : GoString) (meta : Metadata) (s t : Server)
      → Steps s t
      → Steps s (start_seeding file_id meta t)
  by_stop : (file_id : GoString) (s t : Server) → Steps s t → Steps s (stop_seeding file_id t)
  by_rpc :
      (encode : Message → Option (List ℕ)) (decode : List ℕ → Option Message) (disk : ℕ → Files)
      (write : ℕ → Writer) (rpc : Rpc) (s t : Server)
      → Steps s t
      → Steps s (handle_rpc_message encode decode disk write rpc t).0
  by_download :
      (file_id : GoString) (index size : ℤ) (peers : ℕ → Server → List (GoString × Ending))
      (net : Network) (file : List ℕ) (s t : Server)
      → Steps s t
      → Steps s (download_chunk file_id index size peers net t file).server

module _ (encode : Message → Option (List ℕ)) (decode : List ℕ → Option Message) (disk : ℕ → Files)
    (write : ℕ → Writer) where
  dispatch_keeps :
      (peer : GoString) (msg : Message) (s : Server)
      → num_handlers (dispatch encode decode disk write peer msg s).0 ≡ num_handlers s
  unfolding dispatch run_handlers
  dispatch_keeps peer msg s = ground (arith, length-map (on_response msg) s.response_handlers)

  with_message_keeps :
      (rpc : Rpc) (msg : Option Message) (s : Server)
      → num_handlers (with_message encode decode disk write rpc msg s).0 ≡ num_handlers s
  unfolding with_message
  with_message_keeps rpc none s = refl
  with_message_keeps rpc (some msg) s =
      elim (option_cases (get (normalize_address rpc.sender) s.peers)) [
        | inl e ↦ rw (e, with_message) refl
        | inr (peer, e) ↦ rw (e, with_message) (dispatch_keeps peer msg s)
      ]

pub Steps-num_handlers : (s t : Server) → Steps s t → num_handlers s ≤ num_handlers t
unfolding on_peer start_seeding stop_seeding handle_rpc_message download_chunk
Steps-num_handlers s _ (done _) = omega arith
Steps-num_handlers s _ (by_peer remote _ t r) = Steps-num_handlers s t r
Steps-num_handlers s _ (by_start file_id meta _ t r) = Steps-num_handlers s t r
Steps-num_handlers s _ (by_stop file_id _ t r) = Steps-num_handlers s t r
Steps-num_handlers s _ (by_rpc encode decode disk write rpc _ t r) = omega (
  arith,
  Steps-num_handlers s t r,
  with_message_keeps encode decode disk write rpc (decode rpc.payload) t,
)
Steps-num_handlers s _ (by_download file_id index size peers net file _ t r) =
    omega (
      arith,
      Steps-num_handlers s t r,
      download_rounds_grows file_id index size peers net 3 0 t file,
    )
