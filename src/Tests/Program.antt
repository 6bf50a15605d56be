-- ===== src/Tests/Program.antt =====
-- main.go: a process that shares a file of three bytes and is interrupted, and a tracker that is told
-- of a file over HTTP.
use file_share_p2p.Prelude.{
  ℕ, true, false, Option, some, none, List, [], ◌∷◌, ◌≡◌, refl, arith, contains, insert, nat_eq,
  ℕ_discrete, ◌==◌, ◌>>=◌,
}
use file_share_p2p.Prelude.Int.{ℤ, pos}
use file_share_p2p.Prelude.Maps.{get, put, keys}
use file_share_p2p.GoString.{GoString, string_eq, bytes_dec, bytes}
use file_share_p2p.Chunks.Defs.{default_chunk_size}
use file_share_p2p.Hashes.Defs.{
  generate_file_id, generate_file_hashes, hash_chunks, number_of_chunks,
}
use file_share_p2p.Store.Defs.{save_metadata}
use file_share_p2p.Server.State.{start_seeding}
use file_share_p2p.Tracker.State.{FileInfo, Tracker, new_tracker, Announcement, Heartbeat, Removal}
use file_share_p2p.Tracker.Handlers.{peers_or_empty}
use file_share_p2p.Tracker.Entries.{Covers-keys}
use file_share_p2p.Client.Share.{World, share_file}
use file_share_p2p.Program.Main.{
  Flags, default_flags, MainCalls, MainEnding, main, main_started, main_stop, main_share,
  main_download, shut_down,
}
use file_share_p2p.Program.Sharing.{is_running}
use file_share_p2p.Program.Shutdown.{shut_down-main}
use file_share_p2p.Tracker.State.{file_json}
use file_share_p2p.Tracker.Handlers.{
  handle_announce, on_post, announce, announced_file, file_of_announcement, handle_get_metadata,
}
use file_share_p2p.Program.Routes.{
  Mux, HttpRequest, Walk, response, request, handle_func, main_routes, start_tracker_routes, serve,
  serve_route, on_event, run_tracker,
}
use file_share_p2p.Tests.Tracker.{announcement, file_x, peer_a, orders}
use file_share_p2p.Tests.Client.{
  sum, keep, encode, transmit, receive, decode, begin_calls, world, calls, content, stop_calls, own,
  own_address,
}

abbrev flags : Flags
flags = record default_flags { tracker_addr = bytes "t"; file_path = bytes "f.txt" }

abbrev main_calls : MainCalls
main_calls = record {
  start = none;
  stop = stop_calls (bytes "x");
  share = calls;
  begin = begin_calls;
  events = [];
  refreshes = false;
}

abbrev ran : World × MainEnding
ran = main sum keep keep encode transmit receive decode keep flags main_calls world

runs : is_running ran.1 ≡ true
unfolding main main_started main_stop main_share main_download share_file generate_file_id
    generate_file_hashes hash_chunks number_of_chunks default_chunk_size save_metadata start_seeding
    get put string_eq bytes_dec nat_eq ℕ_discrete
runs = refl

shut_down-main_example :
    let final =
      shut_down sum keep keep encode transmit receive decode flags stop_calls
        (keys ran.0.server.active_files)
        ran.0 in
    ((file : GoString) → get file final.server.active_files ≡ none)
    × (contains own (peers_or_empty (get content final.tracker.peer_index)) ≡ false)
    × ((file q : GoString)
        → q == own ≡ false
        → contains q (peers_or_empty (get file final.tracker.peer_index))
          ≡ contains q (peers_or_empty (get file ran.0.tracker.peer_index)))
unfolding get string_eq bytes_dec
shut_down-main_example =
    shut_down-main sum keep keep encode transmit receive decode keep flags main_calls world content
      own stop_calls (keys ran.0.server.active_files) refl (λ e. cc) (ground arith) (ground arith)
      (ground arith) refl (λ file. own_address) (λ file. refl) (λ r. refl) runs
      (Covers-keys ran.0.server.active_files)

-- Every body is the announcement of one peer.
abbrev decode_announcement : List ℕ → Option Announcement
decode_announcement body = some (announcement peer_a)

abbrev decode_heartbeat : List ℕ → Option Heartbeat
decode_heartbeat body = none

abbrev decode_removal : List ℕ → Option Removal
decode_removal body = none

abbrev atoi : GoString → ℤ
atoi text = pos 1

abbrev walk : Tracker → Walk
walk t = record { order = keys t.peer_index; orders = orders t }

abbrev no_mux : Option Mux → Mux
no_mux none = []
no_mux (some mux) = mux

abbrev mux : Mux
mux = no_mux (main_routes [])

-- The routes of StartTracker after those of main: the second registration panics.
start_tracker_panics : (main_routes [] >>= start_tracker_routes) ≡ none
unfolding main_routes start_tracker_routes handle_func get put string_eq bytes_dec ℕ_discrete
start_tracker_panics = refl

abbrev announcing : HttpRequest
announcing = record {
  path = bytes "/announce";
  method = bytes "POST";
  query = λ name. [];
  body = [];
}

abbrev metadata_request : HttpRequest
metadata_request = record {
  path = bytes "/metadata";
  method = bytes "GET";
  query = λ name. file_x;
  body = [];
}

abbrev announced : Tracker
announced =
    run_tracker decode_announcement decode_heartbeat decode_removal atoi (λ s. s) (λ files. files)
      mux (λ i. walk) 0 (request 1 2 announcing ∷ []) new_tracker

abbrev given : FileInfo
given = record (file_of_announcement 1 (announcement peer_a)) { num_peers = 1 }

served :
    (serve decode_announcement decode_heartbeat decode_removal atoi
      (λ s. s)
      (λ files. files)
      mux
      (walk announced)
      3
      4
      metadata_request
      announced).1
    ≡ response (record { status = 200; body = file_json given })
unfolding main_routes handle_func get put string_eq bytes_dec ℕ_discrete serve serve_route
    run_tracker on_event handle_announce on_post announce announced_file file_of_announcement
    handle_get_metadata insert contains nat_eq new_tracker
served = refl
