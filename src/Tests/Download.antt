-- ===== src/Tests/Download.antt =====
-- server.go: a file of five bytes in chunks of two, from one peer.
use mathlib.Core.List.Permᴰ
use file_share_p2p.Prelude.{
  ℕ, ◌≢◌, ◌++◌, ◌*◌, ◌≤◌, ◌<◌, true, false, Option, some, none, List, [], ◌∷◌, ◌≡◌, ◌↔◌, refl,
  length, arith, inl, All, contains, insert, remove, nat_eq, ℕ_discrete,
}
use file_share_p2p.Prelude.Int.{pos}
use file_share_p2p.Prelude.Maps.{get, put, delete, keys}
use file_share_p2p.GoString.{GoString, string_eq, bytes_dec, bytes, has_prefix, last_index}
use file_share_p2p.Metadata.{Metadata}
use file_share_p2p.Chunks.Defs.{
  all, read_from, write_and_verify_chunk, write_rounds, write_at, overlay,
}
use file_share_p2p.Pieces.Defs.{
  verified, PieceInfo, new_piece_manager, fresh_pieces, is_complete, all_verified,
  update_peer_pieces, add_peer_to, update_piece, add_peer, get_next_pieces, candidates, eligible,
  mark_requested, mark_piece_status,
}
use file_share_p2p.Pieces.Invariant.{IsPieces}
use file_share_p2p.Server.State.{Server, on_peer, normalize_address, after_port}
use file_share_p2p.Server.Download.{answered, timed_out, ask_peer}
use file_share_p2p.Download.Defs.{
  Download, Event, connect, plan, leave, launch, attempt, ask, give_up, start_download, run_events,
  apply_event, plan_round, launch_worker, worker_at, set_worker, end_worker, remotes, without,
  add_peers, result, ended, output,
}
use file_share_p2p.Download.Answers.{IsHonest}
use file_share_p2p.Download.Ended.{ended-output}
use file_share_p2p.Download.Alone.{never_ended}
use file_share_p2p.Download.Bounds.{few_workers}
use file_share_p2p.Download.Duplicates.{result-give_up}

abbrev meta : Metadata
meta = record {
  file_id = bytes "x";
  num_chunks = pos 3;
  chunk_size = pos 2;
  file_extension = bytes ".txt";
  original_path = [];
  chunk_hashes = bytes "00" ∷ bytes "11" ∷ bytes "22" ∷ [];
  total_hash = bytes "33";
  total_size = pos 5;
}

abbrev peer : GoString
peer = bytes "1.2.3.4:3000"

abbrev server : Server
server = record { peers = (peer, peer) ∷ []; response_handlers = []; active_files = [] }

abbrev sends : ℕ → ℕ → List ℕ → Event
sends k i text = ask k i peer (answered text (λ attempt. all))

-- Three workers run; the peer does not answer the one for the middle chunk.
abbrev first_events : List Event
first_events =
    plan (λ xs. xs)
    ∷ launch
    ∷ launch
    ∷ launch
    ∷ attempt 0 2
    ∷ attempt 1 1
    ∷ attempt 2 0
    ∷ sends 0 2 (bytes "e")
    ∷ ask 0 1 peer timed_out
    ∷ []

-- That worker gives up after three attempts, and the chunk is asked for again.
abbrev more_events : List Event
more_events =
    sends 1 0 (bytes "ab")
    ∷ attempt 0 1
    ∷ ask 0 1 peer timed_out
    ∷ attempt 0 1
    ∷ ask 0 1 peer timed_out
    ∷ give_up 0 1
    ∷ plan (λ xs. xs)
    ∷ launch
    ∷ attempt 0 1
    ∷ sends 0 1 (bytes "cd")
    ∷ leave
    ∷ []

abbrev events : List Event
events = first_events ++ more_events

abbrev unwrap : Option Download → Download
unwrap (some d) = d
unwrap none = record {
  server = server;
  manager = record { pieces = []; num_pieces = pos 0 };
  file = [];
  batch = [];
  workers = [];
  sem = 0;
  active = [];
  is_waiting = false;
}

abbrev started : Download
started = unwrap (start_download meta server)

abbrev finished : Download
finished = unwrap (run_events (bytes "x") meta events started)

start_runs : start_download meta server ≡ some started
unfolding start_download result run_events apply_event plan_round launch_worker worker_at set_worker
    end_worker remotes without add_peers new_piece_manager fresh_pieces is_complete all_verified
    update_peer_pieces add_peer_to update_piece add_peer get_next_pieces candidates eligible
    mark_requested mark_piece_status keys get put delete nat_eq ℕ_discrete contains insert remove
    string_eq bytes_dec has_prefix last_index ask_peer after_port normalize_address on_peer
    write_and_verify_chunk write_rounds write_at overlay
start_runs = refl

finish_runs : run_events (bytes "x") meta events started ≡ some finished
unfolding start_download result run_events apply_event plan_round launch_worker worker_at set_worker
    end_worker remotes without add_peers new_piece_manager fresh_pieces is_complete all_verified
    update_peer_pieces add_peer_to update_piece add_peer get_next_pieces candidates eligible
    mark_requested mark_piece_status keys get put delete nat_eq ℕ_discrete contains insert remove
    string_eq bytes_dec has_prefix last_index ask_peer after_port normalize_address on_peer
    write_and_verify_chunk write_rounds write_at overlay
finish_runs = refl

finish_ended : ended false finished ≡ some true
unfolding start_download result ended run_events apply_event plan_round launch_worker worker_at
    set_worker end_worker remotes without add_peers new_piece_manager fresh_pieces is_complete
    all_verified update_peer_pieces add_peer_to update_piece add_peer get_next_pieces candidates
    eligible mark_requested mark_piece_status keys get put delete nat_eq ℕ_discrete contains insert
    remove string_eq bytes_dec has_prefix last_index ask_peer after_port normalize_address on_peer
    write_and_verify_chunk write_rounds write_at overlay
finish_ended = refl

honest : All (IsHonest (bytes "abcde") 2) events
unfolding read_from
honest = (
  λ xs. Permᴰ.refl xs,
  (
    tt,
    (
      tt,
      (
        tt,
        (
          tt,
          (
            tt,
            (
              tt,
              (
                refl,
                (
                  tt,
                  (
                    refl,
                    (
                      tt,
                      (tt, (tt, (tt, (tt, (λ xs. Permᴰ.refl xs, (tt, (tt, (refl, (tt, tt))))))))),
                    ),
                  ),
                ),
              ),
            ),
          ),
        ),
      ),
    ),
  ),
)

exact : (i : ℕ) → (i < 3) ↔ (i * 2 < 5)
exact i = (λ h. omega arith, λ h. omega arith)

ended-output_example : output finished ≡ some (bytes "abcde")
ended-output_example =
    ended-output (bytes "abcde") 2 (bytes "x") meta server events started finished false
      (omega arith) (omega arith) (omega arith) refl exact start_runs honest finish_runs
      finish_ended

-- Two workers are left.
abbrev halfway : Download
halfway = unwrap (run_events (bytes "x") meta first_events started)

halfway_runs : run_events (bytes "x") meta first_events started ≡ some halfway
unfolding start_download result run_events apply_event plan_round launch_worker worker_at set_worker
    end_worker remotes without add_peers new_piece_manager fresh_pieces is_complete all_verified
    update_peer_pieces add_peer_to update_piece add_peer get_next_pieces candidates eligible
    mark_requested mark_piece_status keys get put delete nat_eq ℕ_discrete contains insert remove
    string_eq bytes_dec has_prefix last_index ask_peer after_port normalize_address on_peer
    write_and_verify_chunk write_rounds write_at overlay
halfway_runs = refl

few_workers_example : (halfway.sem ≡ length halfway.workers) × (length halfway.workers ≤ 10)
few_workers_example =
    few_workers (bytes "x") meta server first_events started halfway start_runs halfway_runs

-- A worker asks only peers of its attempt, and does not give up before the third.
guards :
    (apply_event (bytes "x") meta (ask 0 1 peer timed_out) halfway ≡ none)
    × (apply_event (bytes "x") meta (ask 1 0 (bytes "9.9.9.9:1") timed_out) halfway ≡ none)
    × (apply_event (bytes "x") meta (give_up 0 1) halfway ≡ none)
unfolding start_download result run_events apply_event plan_round launch_worker worker_at set_worker
    end_worker remotes without add_peers new_piece_manager fresh_pieces is_complete all_verified
    update_peer_pieces add_peer_to update_piece add_peer get_next_pieces candidates eligible
    mark_requested mark_piece_status keys get put delete nat_eq ℕ_discrete contains insert remove
    string_eq bytes_dec has_prefix last_index ask_peer after_port normalize_address on_peer
    write_and_verify_chunk write_rounds write_at overlay
guards = (refl, refl, refl)

-- The last piece is asked for twice. The second worker is done, and the first has no attempt left.
abbrev doubled : Download
doubled = unwrap (
    run_events (bytes "x") meta
      (plan (λ xs. xs)
        ∷ launch
        ∷ launch
        ∷ launch
        ∷ attempt 2 0
        ∷ attempt 1 1
        ∷ sends 2 0 (bytes "ab")
        ∷ sends 1 1 (bytes "cd")
        ∷ plan (λ xs. xs)
        ∷ launch
        ∷ attempt 0 2
        ∷ sends 0 2 (bytes "e")
        ∷ leave
        ∷ attempt 0 2
        ∷ ask 0 2 peer timed_out
        ∷ attempt 0 2
        ∷ ask 0 2 peer timed_out
        ∷ attempt 0 2
        ∷ ask 0 2 peer timed_out
        ∷ [])
      started)

doubled_runs : (doubled.file ≡ bytes "abcde") × (is_complete doubled.manager ≡ true)
unfolding start_download result run_events apply_event plan_round launch_worker worker_at set_worker
    end_worker remotes without add_peers new_piece_manager fresh_pieces is_complete all_verified
    update_peer_pieces add_peer_to update_piece add_peer get_next_pieces candidates eligible
    mark_requested mark_piece_status keys get put delete nat_eq ℕ_discrete contains insert remove
    string_eq bytes_dec has_prefix last_index ask_peer after_port normalize_address on_peer
    write_and_verify_chunk write_rounds write_at overlay
doubled_runs = (refl, refl)

abbrev last_piece : PieceInfo
last_piece = record {
  index = 2;
  size = 0;
  hash = bytes "22";
  status = verified;
  peers = peer ∷ [];
  priority = pos 999;
}

doubled-IsPieces : IsPieces doubled.manager.pieces
unfolding start_download result run_events apply_event plan_round launch_worker worker_at set_worker
    end_worker remotes without add_peers new_piece_manager fresh_pieces is_complete all_verified
    update_peer_pieces add_peer_to update_piece add_peer get_next_pieces candidates eligible
    mark_requested mark_piece_status keys get put delete nat_eq ℕ_discrete contains insert remove
    string_eq bytes_dec has_prefix last_index ask_peer after_port normalize_address on_peer
    write_and_verify_chunk write_rounds write_at overlay
doubled-IsPieces = (
  record { indexed = refl; ranked = inl refl; distinct = (refl, tt) },
  refl,
  (
    record { indexed = refl; ranked = inl refl; distinct = (refl, tt) },
    refl,
    (record { indexed = refl; ranked = inl refl; distinct = (refl, tt) }, refl, tt),
  ),
)

result-give_up_example :
    (d' : Download) × (apply_event (bytes "x") meta (give_up 0 2) doubled ≡ some d')
    × (result d' ≡ some false)
    × (d'.file ≡ doubled.file)
unfolding start_download result run_events apply_event plan_round launch_worker worker_at set_worker
    end_worker remotes without add_peers new_piece_manager fresh_pieces is_complete all_verified
    update_peer_pieces add_peer_to update_piece add_peer get_next_pieces candidates eligible
    mark_requested mark_piece_status keys get put delete nat_eq ℕ_discrete contains insert remove
    string_eq bytes_dec has_prefix last_index ask_peer after_port normalize_address on_peer
    write_and_verify_chunk write_rounds write_at overlay
result-give_up_example =
    result-give_up (bytes "x") meta doubled 2 last_piece doubled-IsPieces refl refl refl

-- A peer connects after the main loop has started.
abbrev lonely : Server
lonely = record { peers = []; response_handlers = []; active_files = [] }

abbrev lonely_started : Download
lonely_started = unwrap (start_download meta lonely)

abbrev lonely_events : List Event
lonely_events = connect peer ∷ plan (λ xs. xs) ∷ leave ∷ []

abbrev lonely_finished : Download
lonely_finished = unwrap (run_events (bytes "x") meta lonely_events lonely_started)

lonely_runs :
    (start_download meta lonely ≡ some lonely_started)
    × (run_events (bytes "x") meta lonely_events lonely_started ≡ some lonely_finished)
    × (ended true lonely_finished ≡ some false)
unfolding start_download result ended run_events apply_event plan_round launch_worker worker_at
    set_worker end_worker remotes without add_peers new_piece_manager fresh_pieces is_complete
    all_verified update_peer_pieces add_peer_to update_piece add_peer get_next_pieces candidates
    eligible mark_requested mark_piece_status keys get put delete nat_eq ℕ_discrete contains insert
    remove string_eq bytes_dec has_prefix last_index ask_peer after_port normalize_address on_peer
    write_and_verify_chunk write_rounds write_at overlay
lonely_runs = (refl, refl, refl)

never_ended_example :
    (lonely_finished.workers ≡ [])
    × (lonely_finished.file ≡ [])
    × (ended true lonely_finished ≢ some true)
never_ended_example =
    never_ended (bytes "x") meta lonely lonely_events lonely_started lonely_finished true refl
      (omega arith) lonely_runs.0 ((tt, ((λ xs. Permᴰ.refl xs), (tt, tt)))) lonely_runs.1
