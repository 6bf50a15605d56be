-- ===== src/Download/Alone.antt =====
-- server.go: a download whose main loop starts without a connected peer.
use mathlib.Core.List.{Permᴰ}
use mathlib.Core.Option.{some-injective}
use file_share_p2p.Prelude.{
  ℕ, ◌*◌, ◌<◌, Bool, true, false, none, some, List, [], ◌∷◌, ◌≡◌, ◌≢◌, inl, inr, refl, ap, ◌∙◌,
  arith, eqb, if◌then◌else◌, length, nat_eq, All, subst, option_cases, contains,
}
use file_share_p2p.Prelude.Int.{ℤ, pos_part}
use file_share_p2p.Prelude.Maps.{Map, get, is_some, keys}
use file_share_p2p.GoString.{GoString}
use file_share_p2p.Metadata.{Metadata}
use file_share_p2p.Pieces.Defs.{
  PieceInfo, PieceManager, eligible, fresh_pieces, new_piece_manager, is_complete,
}
use file_share_p2p.Pieces.Invariant.{IsPieces, new_piece_manager-IsPieces}
use file_share_p2p.Pieces.Candidates.{wanted, IsCandidate, indices}
use file_share_p2p.Pieces.Selection.{get_next_pieces_lem}
use file_share_p2p.Pieces.Progress.{is_complete_iff}
use file_share_p2p.Pieces.Table.{is_done, new_piece_manager_lem}
use file_share_p2p.Server.State.{Server, on_peer}
use file_share_p2p.Download.Defs.{
  Download, Event, connect, plan, leave, launch, attempt, ask, give_up, can_leave, plan_round,
  launch_worker, worker_at, with_batch, max_concurrent, request_multiple, add_peers, start_download,
  apply_event, run_events, result, ended,
}
use file_share_p2p.Download.Ended.{ended-result}
use file_share_p2p.Download.Start.{fresh_missing}

-- The sort in GetNextPieces rearranges.
abbrev pub Rearranges : Event → Type 0
Rearranges (plan arrange) = (pieces : List PieceInfo) → Permᴰ pieces (arrange pieces)
Rearranges _ = Unit

-- No piece has a peer.
abbrev Bare : PieceManager → Type 0
Bare pm = (j : ℕ) (piece : PieceInfo) → get j pm.pieces ≡ some piece → length piece.peers ≡ 0

-- Nothing is asked for, and the first piece is not verified.
record IsAlone (d : Download) : Type 0 where
  pieces : IsPieces d.manager.pieces
  bare : Bare d.manager
  first : is_some (get 0 d.manager.pieces) ≡ true
  open_first : is_done (get 0 d.manager.pieces) ≡ false
  batch : d.batch ≡ []
  workers : d.workers ≡ []
  file : d.file ≡ []

none_chosen :
    (pm : PieceManager) (chosen : List PieceInfo)
    → Bare pm
    → All (IsCandidate (wanted pm.pieces) pm.pieces) chosen
    → chosen ≡ []
none_chosen pm [] h good = refl
none_chosen pm (piece ∷ chosen) h ((found, test, peers), good) =
    absurd (omega (arith, h piece.index piece found, peers))

not_chosen : (j : ℕ) (chosen : List PieceInfo) → chosen ≡ [] → contains j (indices chosen) ≡ false
unfolding contains
not_chosen j chosen e = ap (λ c. contains j (indices c)) e

plan_round-IsAlone :
    (arrange : List PieceInfo → List PieceInfo) (d d' : Download)
    → ((pieces : List PieceInfo) → Permᴰ pieces (arrange pieces))
    → plan_round arrange d ≡ some d'
    → IsAlone d
    → IsAlone d'
plan_round-IsAlone arrange d d' perm e h =
    let m = max_concurrent * request_multiple (length d.server.peers) in
    let (after, chosen, runs, count, good, effect, kept) =
      get_next_pieces_lem arrange m d.manager (perm (eligible d.manager.pieces)) h.pieces in
    let nothing = none_chosen d.manager chosen h.bare good in
    let same : (j : ℕ) → get j after.pieces ≡ get j d.manager.pieces =
      λ j. ground (arith, effect j, not_chosen j chosen nothing) in
    let planned : some (with_batch d (after, chosen)) ≡ some d' =
      unfold plan_round in ground (arith, runs, e) in
    subst IsAlone (some-injective (with_batch d (after, chosen)) d' planned) (record {
      pieces = kept;
      bare = λ j piece f. h.bare j piece (ground (arith, same j, f));
      first = ground (arith, same 0, h.first);
      open_first = ground (arith, same 0, h.open_first);
      batch = ap indices nothing;
      workers = h.workers;
      file = h.file;
    })

-- A change of the server, or of what the main loop waits for.
moved-IsAlone :
    (server : Server) (is_waiting : Bool) (d : Download)
    → IsAlone d
    → IsAlone (record d { server = server; is_waiting = is_waiting })
moved-IsAlone server is_waiting d h = record {
  pieces = h.pieces;
  bare = h.bare;
  first = h.first;
  open_first = h.open_first;
  batch = h.batch;
  workers = h.workers;
  file = h.file;
}

if_some :
    (test : Bool) (next d' : Download) → (if test then some next else none) ≡ some d' → next ≡ d'
if_some true next d' e = some-injective next d' e
if_some false next d' e = cc

not_made : (d' : Download) → none ≡ some d' → IsAlone d'
not_made d' e = cc

module _ (file_id : GoString) (meta : Metadata) where
  apply_event-IsAlone :
      (event : Event) (d d' : Download)
      → Rearranges event
      → apply_event file_id meta event d ≡ some d'
      → IsAlone d
      → IsAlone d'
  unfolding apply_event launch_worker worker_at
  apply_event-IsAlone (connect remote) d d' sorts e h =
      subst IsAlone (some-injective (record d { server = on_peer remote d.server }) d' e)
        (moved-IsAlone (on_peer remote d.server) d.is_waiting d h)
  apply_event-IsAlone (plan arrange) d d' sorts e h = plan_round-IsAlone arrange d d' sorts e h
  apply_event-IsAlone leave d d' sorts e h =
      subst IsAlone (if_some (can_leave d) (record d { is_waiting = true }) d' e)
        (moved-IsAlone d.server true d h)
  apply_event-IsAlone launch d d' sorts e h = let b = h.batch in not_made d' (rw b at e)
  apply_event-IsAlone (attempt k i) d d' sorts e h = let w = h.workers in not_made d' (rw w at e)
  apply_event-IsAlone (ask k i remote ending) d d' sorts e h =
      let w = h.workers in not_made d' (rw w at e)
  apply_event-IsAlone (give_up k i) d d' sorts e h = let w = h.workers in not_made d' (rw w at e)

  run_events-IsAlone :
      (events : List Event) (d d' : Download)
      → All Rearranges events
      → run_events file_id meta events d ≡ some d'
      → IsAlone d
      → IsAlone d'
  unfolding run_events
  run_events-IsAlone [] d d' sorts e h = subst IsAlone (some-injective d d' e) h
  run_events-IsAlone (event ∷ events) d d' (sort, sorts) e h =
      elim (option_cases (apply_event file_id meta event d)) [
        | inl f ↦ absurd (ground (arith, f, e))
        | inr (next, f) ↦
            run_events-IsAlone events next d' sorts (ground (arith, f, e))
              (apply_event-IsAlone event d next sort f h)
      ]

no_keys : (peers : Map GoString GoString) → eqb (length peers) 0 ≡ true → keys peers ≡ []
unfolding keys
no_keys [] h = refl
no_keys (peer ∷ peers) h = absurd (ground (arith, h))

fresh-Bare :
    (n : ℤ) (hashes : List GoString) (pm : PieceManager)
    → new_piece_manager n hashes ≡ some pm
    → Bare pm
unfolding new_piece_manager
fresh-Bare n hashes pm e j piece f = elim (option_cases (fresh_pieces 0 (pos_part n) hashes)) [
  | inl g ↦ absurd (ground (arith, g, e))
  | inr (pieces, g) ↦
      (let made : record { pieces = pieces; num_pieces = n } ≡ pm =
          some-injective (record { pieces = pieces; num_pieces = n }) pm (ground (arith, g, e)) in
        let found = ap (λ (m : PieceManager). get j m.pieces) made ∙ f in
        (fresh_missing 0 (pos_part n) hashes pieces j piece g found).1)
]

start_download-IsAlone :
    (meta : Metadata) (server : Server) (d : Download)
    → eqb (length server.peers) 0 ≡ true
    → 0 < pos_part meta.num_chunks
    → start_download meta server ≡ some d
    → IsAlone d
unfolding start_download add_peers
start_download-IsAlone meta server d h some_chunk e =
    elim (option_cases (new_piece_manager meta.num_chunks meta.chunk_hashes)) [
      | inl f ↦ absurd (ground (arith, f, e))
      | inr (pm, f) ↦
          (let first : Download = record {
            server = server;
            manager = pm;
            file = [];
            batch = [];
            workers = [];
            sem = 0;
            active = [];
            is_waiting = false;
          } in
            let starts : some first ≡ some d = ground (arith, f, no_keys server.peers h, e) in
            let fresh = new_piece_manager_lem meta.num_chunks meta.chunk_hashes pm 0 f in
            subst IsAlone (some-injective first d starts) (record {
              pieces = new_piece_manager-IsPieces meta.num_chunks meta.chunk_hashes pm f;
              bare = fresh-Bare meta.num_chunks meta.chunk_hashes pm f;
              first = ground (arith, fresh.0, some_chunk);
              open_first = fresh.1;
              batch = refl;
              workers = refl;
              file = refl;
            }))
    ]

-- Where no peer is connected when the main loop starts and the file has a chunk, no worker is ever
-- started and nothing is written, whatever peers connect later and however often the main loop asks for
-- pieces, with any sort that rearranges; DownloadFile does not return nil.
pub never_ended :
    (file_id : GoString) (meta : Metadata) (server : Server) (events : List Event) (d d' : Download)
    (refreshes : Bool)
    → eqb (length server.peers) 0 ≡ true
    → 0 < pos_part meta.num_chunks
    → start_download meta server ≡ some d
    → All Rearranges events
    → run_events file_id meta events d ≡ some d'
    → (d'.workers ≡ []) × (d'.file ≡ []) × (ended refreshes d' ≢ some true)
never_ended file_id meta server events d d' refreshes alone some_chunk start sorts runs =
    let h =
      run_events-IsAlone file_id meta events d d' sorts runs
        (start_download-IsAlone meta server d alone some_chunk start) in
    (
      h.workers,
      h.file,
      λ e. elim (option_cases (get 0 d'.manager.pieces)) [
        | inl f ↦ absurd (let g = h.first in ground (arith, f, g))
        | inr (piece, f) ↦
            (let done : is_complete d'.manager ≡ true =
                unfold result in ground (arith, ended-result refreshes d' e) in
              let v = (is_complete_iff d'.manager h.pieces).0 done 0 piece f in
              let g = h.open_first in absurd (ground (arith, f, v, g)))
      ],
    )
