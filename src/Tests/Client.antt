-- ===== src/Tests/Client.antt =====
-- server.go: one peer shares a file of three bytes, another downloads it, and the first stops.
use file_share_p2p.Prelude.{
  ℕ, zero, suc, true, false, not, ◌&&◌, Option, some, none, List, [], ◌∷◌, ◌≡◌, refl, arith, All,
  contains, insert, remove, nat_eq, ℕ_discrete, if◌then◌else◌, ◌==◌,
}
use mathlib.Core.List.Permᴰ
use file_share_p2p.Prelude.Int.{pos}
use file_share_p2p.Prelude.Maps.{get, put, delete, keys}
use file_share_p2p.GoString.{GoString, string_eq, bytes_dec, bytes, has_prefix, last_index}
use file_share_p2p.Metadata.{Metadata, metadata_of}
use file_share_p2p.Chunks.Defs.{
  default_chunk_size, all, read_from, write_and_verify_chunk, write_rounds, write_at, overlay,
}
use file_share_p2p.Hashes.Defs.{
  whole, generate_file_id, generate_file_hashes, hash_chunks, number_of_chunks,
}
use file_share_p2p.Store.Defs.{DiskCalls, save_metadata}
use file_share_p2p.Pieces.Defs.{
  new_piece_manager, fresh_pieces, is_complete, all_verified, update_peer_pieces, add_peer_to,
  update_piece, add_peer, get_next_pieces, candidates, eligible, mark_requested, mark_piece_status,
}
use file_share_p2p.Server.State.{Server, on_peer, normalize_address, after_port, start_seeding}
use file_share_p2p.Server.Connect.{Network, refresh_peers, connect_to_all_peers}
use file_share_p2p.Server.Download.{answered, ask_peer}
use file_share_p2p.Tracker.State.{
  FileInfo, Tracker, new_tracker, Announcement, Body, file_json, Removal,
}
use file_share_p2p.Tracker.Handlers.{
  on_post, handle_announce, announce, announced_file, file_of_announcement, handle_get_metadata,
  peers_or_empty,
}
use file_share_p2p.Download.Defs.{
  Download, Event, plan, leave, launch, attempt, ask, start_download, run_events, apply_event,
  plan_round, launch_worker, worker_at, set_worker, end_worker, remotes, without, add_peers, result,
  ended, output,
}
use file_share_p2p.Download.Answers.{IsHonest}
use file_share_p2p.Client.Address.{get_peer_address}
use file_share_p2p.Client.Announce.{
  Delivery, lost, unanswered, Addresses, announcement_of, post_announcement, announce_rounds,
  announce_to_tracker,
}
use file_share_p2p.Client.Announce
use file_share_p2p.Client.Share
use file_share_p2p.Client.Share.{
  World, shared, ShareCalls, StopCalls, share_file, cleanup, stop_seeding_file,
}
use file_share_p2p.Client.Fetch.{BeginCalls, Begun, begin_download, get_metadata_from_tracker}
use file_share_p2p.Client.Published.{published}
use file_share_p2p.Client.Announced.{get_metadata-announce_to_tracker}
use file_share_p2p.Client.Stopped.{has-cleanup}
use file_share_p2p.Client.EndToEnd.{output-share_file}

abbrev pub content : List ℕ
content = bytes "abc"

-- The bytes stand for their hash.
abbrev pub sum : List ℕ → GoString
sum file = file

abbrev pub keep : GoString → GoString
keep path = path

abbrev pub encode : Metadata → Option (List ℕ)
encode m = some m.file_id

abbrev pub transmit : Announcement → Option Announcement
transmit a = some a

abbrev pub receive : Removal → Option Removal
receive r = some r

abbrev pub decode : Body → Option FileInfo
decode (file_json info) = some info
decode _ = none

abbrev pub addresses : Addresses
addresses = record { public_ip = some (bytes "5.6.7.8"); local_ip = some (bytes "10.0.0.2") }

abbrev pub listen : GoString
listen = bytes ":3000"

abbrev pub own : GoString
own = bytes "5.6.7.8:3000|10.0.0.2:3000"

-- The first announcement is handled and its answer lost, the second does not arrive.
abbrev deliveries : ℕ → Delivery
deliveries zero = unanswered 1 2
deliveries (suc zero) = lost
deliveries (suc (suc i)) = Announce.answered 3 4

abbrev succeeding : DiskCalls
succeeding = record { can_make_dir = true; can_create = true; short_write = none }

abbrev pub calls : ShareCalls
calls = record {
  is_read = true;
  file = record { has_info = true; is_copied = true; reads = λ i. whole };
  disk = succeeding;
  addresses = addresses;
  deliveries = deliveries;
}

abbrev idle : Server
idle = record { peers = []; response_handlers = []; active_files = [] }

abbrev pub world : World
world = record { server = idle; disk = (bytes "f.txt", content) ∷ []; tracker = new_tracker }

abbrev after_sharing : World
after_sharing =
    (share_file sum keep keep encode transmit (bytes "store") (bytes "t") listen calls
      (bytes "f.txt") world).0

abbrev peer : GoString
peer = bytes "5.6.7.8:3000"

abbrev server : Server
server = record { peers = (peer, peer) ∷ []; response_handlers = []; active_files = [] }

abbrev network : Network
network = record {
  split_host_port = λ addr. none;
  parse_ip = λ host. none;
  listen = listen;
  answer = λ attempt. none;
  dial = λ attempt addr. none;
}

abbrev pub begin_calls : BeginCalls
begin_calls = record {
  arrives = true;
  disk = succeeding;
  network = network;
  can_create_output = true;
}

abbrev events : List Event
events =
    plan (λ xs. xs)
    ∷ launch
    ∷ attempt 0 0
    ∷ ask 0 0 peer (answered content (λ attempt. all))
    ∷ leave
    ∷ []

abbrev begins : Option Begun
begins =
    begin_download decode encode (bytes "store") begin_calls content server [] after_sharing.tracker

abbrev empty_download : Download
empty_download = record {
  server = idle;
  manager = record { pieces = []; num_pieces = pos 0 };
  file = [];
  batch = [];
  workers = [];
  sem = 0;
  active = [];
  is_waiting = false;
}

abbrev begun_of : Option Begun → Begun
begun_of (some begun) = begun
begun_of none = record {
  meta = metadata_of (
      file_of_announcement 0 (
        announcement_of keep content own (record {
          file_id = [];
          num_chunks = pos 0;
          chunk_size = pos 0;
          file_extension = [];
          original_path = [];
          chunk_hashes = [];
          total_hash = [];
          total_size = pos 0;
        })));
  disk = [];
  download = empty_download;
}

abbrev begun : Begun
begun = begun_of begins

abbrev download_of : Option Download → Download
download_of (some d) = d
download_of none = empty_download

abbrev finished : Download
finished = download_of (run_events content begun.meta events begun.download)

-- ShareFile returns, the download begins, runs, and ends.
facts :
    ((share_file sum keep keep encode transmit
        (bytes "store")
        (bytes "t")
        listen
        calls
        (bytes "f.txt")
        world).1
      ≡ shared)
    × (begins ≡ some begun)
    × (run_events content begun.meta events begun.download ≡ some finished)
    × (ended false finished ≡ some true)
unfolding share_file generate_file_id generate_file_hashes hash_chunks number_of_chunks
    default_chunk_size save_metadata start_seeding announce_to_tracker announce_rounds
    post_announcement announcement_of get_peer_address handle_announce on_post announce
    announced_file file_of_announcement handle_get_metadata begin_download metadata_of refresh_peers
    connect_to_all_peers start_download result ended run_events apply_event plan_round launch_worker
    worker_at set_worker end_worker remotes without add_peers new_piece_manager fresh_pieces
    is_complete all_verified update_peer_pieces add_peer_to update_piece add_peer get_next_pieces
    candidates eligible mark_requested mark_piece_status keys get put delete nat_eq ℕ_discrete
    contains insert remove string_eq bytes_dec has_prefix last_index ask_peer after_port
    normalize_address on_peer write_and_verify_chunk write_rounds write_at overlay new_tracker
facts = (refl, refl, refl, refl)

honest : All (IsHonest content default_chunk_size) events
unfolding read_from default_chunk_size
honest = (λ xs. Permᴰ.refl xs, (tt, (tt, (refl, (tt, tt)))))

pub own_address :
    get_peer_address (some (bytes "5.6.7.8")) (some (bytes "10.0.0.2")) listen ≡ some own
unfolding get_peer_address
own_address = refl

output-share_file_example : output finished ≡ some content
unfolding get string_eq bytes_dec new_tracker
output-share_file_example =
    output-share_file sum keep keep encode transmit decode (bytes "store") (bytes "t") listen own
      (bytes "f.txt") calls world content begin_calls (bytes "store") server [] begun events
      finished false (λ e. cc) (λ e. cc) (unfold default_chunk_size in omega arith) refl refl
      own_address (λ a. refl) (λ info. refl) refl facts.0 facts.1 honest facts.2 facts.3

abbrev meta : Metadata
meta = record {
  file_id = bytes "x";
  num_chunks = pos 1;
  chunk_size = pos 3;
  file_extension = bytes ".txt";
  original_path = bytes "f.txt";
  chunk_hashes = content ∷ [];
  total_hash = content;
  total_size = pos 3;
}

abbrev after_announcing : Tracker
after_announcing =
    (announce_to_tracker keep transmit addresses deliveries listen (bytes "x") meta new_tracker).0

get_metadata-announce_to_tracker_example :
    (get_metadata_from_tracker decode true (bytes "x") after_announcing ≡ some (published meta))
    × (contains own (peers_or_empty (get (bytes "x") after_announcing.peer_index)) ≡ true)
unfolding get new_tracker
get_metadata-announce_to_tracker_example =
    get_metadata-announce_to_tracker keep transmit decode addresses deliveries listen meta own
      new_tracker own_address refl (λ info. refl) (λ e. cc) (λ info e. cc) refl

abbrev pub stop_calls : GoString → StopCalls
stop_calls file = record { addresses = addresses; delivery = Share.answered }

abbrev seeding : Server
seeding = record { peers = []; response_handlers = []; active_files = (bytes "x", meta) ∷ [] }

abbrev stopped : Server × Tracker
stopped = cleanup receive (bytes "t") listen stop_calls (bytes "x" ∷ []) (seeding, after_announcing)

has-cleanup_example :
    (get (bytes "x") stopped.0.active_files ≡ (
      if contains (bytes "x") (bytes "x" ∷ []) then none else get (bytes "x") seeding.active_files))
    × (contains own (peers_or_empty (get (bytes "x") stopped.1.peer_index)) ≡ (
        not (own == own && contains (bytes "x") (bytes "x" ∷ []))
        && contains own (peers_or_empty (get (bytes "x") after_announcing.peer_index))))
has-cleanup_example =
    has-cleanup receive (bytes "t") listen own stop_calls (λ e. cc) (λ file. own_address)
      (λ file. refl) (λ r. refl) (bytes "x" ∷ []) seeding after_announcing (bytes "x") own

-- The seeding server and another process that stops its file.
abbrev unlisted : Tracker
unlisted =
    (stop_seeding_file receive (bytes "t") listen (stop_calls (bytes "x")) (bytes "x")
      (idle, after_announcing)).0.1
