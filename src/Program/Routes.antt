-- ===== src/Program/Routes.antt =====
-- main.go: the tracker's routes; p2p/tracker.go: StartTracker, StartCleanupLoop, and the handlers over
-- HTTP requests.
-- `decode_announcement`, `decode_heartbeat` and `decode_removal` stand for the JSON decoder on a body,
-- `atoi` for the number that strconv.Atoi returns; `to_lower` and `sort` are those of HandleListFiles.
use file_share_p2p.Prelude.{ℕ, suc, Option, none, some, List, [], ◌∷◌, ◌>>=◌}
use file_share_p2p.Prelude.Int.{ℤ}
use file_share_p2p.Prelude.Maps.{Map, get, put}
use file_share_p2p.GoString.{GoString, string_eq, bytes}
use file_share_p2p.Tracker.State.{FileInfo, Tracker, Announcement, Heartbeat, Removal, Response}
use file_share_p2p.Tracker.Handlers.{
  handle_announce, handle_heartbeat, handle_remove, handle_get_metadata,
}
use file_share_p2p.Tracker.Cleanup.{
  Orders, handle_get_peers, cleanup_inactive_peers, inactivity_threshold,
}
use file_share_p2p.Tracker.Listing.{Page, handle_list_files}

-- The handlers that are registered.
pub data Route : Type 0 where
  to_heartbeat to_list_files to_announce to_get_peers to_get_metadata to_remove : Route

-- The patterns of http.DefaultServeMux.
abbrev pub Mux : Type 0
Mux = Map GoString Route

-- http.HandleFunc, which panics if the pattern is there already.
unfoldable pub handle_func : GoString → Route → Mux → Option Mux
handle_func path route mux = elim (get path mux) [
  | none ↦ some (put path route mux)
  | some other ↦ none
]

-- The registrations of main.
unfoldable pub main_routes : Mux → Option Mux
main_routes mux = do
  mux1 ← handle_func (bytes "/heartbeat") to_heartbeat mux
  mux2 ← handle_func (bytes "/files") to_list_files mux1
  mux3 ← handle_func (bytes "/announce") to_announce mux2
  mux4 ← handle_func (bytes "/peers") to_get_peers mux3
  mux5 ← handle_func (bytes "/metadata") to_get_metadata mux4
  handle_func (bytes "/remove") to_remove mux5

-- The registrations of StartTracker, which nothing calls.
unfoldable pub start_tracker_routes : Mux → Option Mux
start_tracker_routes mux = do
  mux1 ← handle_func (bytes "/announce") to_announce mux
  handle_func (bytes "/peers") to_get_peers mux1

-- A request; `query` is `URL.Query().Get`.
pub record HttpRequest : Type 0 where
  pub path : GoString
  pub method : GoString
  pub query : GoString → GoString
  pub body : List ℕ

-- The answer: of a handler, a page of files, a panic in the handler, or 404 where there is no route.
pub data Answer : Type 0 where
  response : Response → Answer
  page : Page → Answer
  panicked no_route : Answer

abbrev pub page_answer : Option Page → Answer
page_answer none = panicked
page_answer (some p) = page p

-- The orders in which one request or one cleanup walks the tracker's maps.
pub record Walk : Type 0 where
  pub order : List GoString
  pub orders : Orders

module _ (decode_announcement : List ℕ → Option Announcement)
    (decode_heartbeat : List ℕ → Option Heartbeat) (decode_removal : List ℕ → Option Removal)
    (atoi : GoString → ℤ) (to_lower : GoString → GoString)
    (sort : List FileInfo → List FileInfo) where
  -- One handler; the first time is that of UploadedAt, the second that of the last sight of a peer.
  unfoldable pub serve_route : Walk → ℕ → ℕ → HttpRequest → Route → Tracker → Tracker × Answer
  serve_route walk uploaded now r to_announce t =
      let a =
        handle_announce uploaded now
          (record { method = r.method; body = decode_announcement r.body }) t in
      (a.0, response a.1)
  serve_route walk uploaded now r to_heartbeat t =
      let a =
        handle_heartbeat walk.order now
          (record { method = r.method; body = decode_heartbeat r.body }) t in
      (a.0, response a.1)
  serve_route walk uploaded now r to_remove t =
      let a = handle_remove (record { method = r.method; body = decode_removal r.body }) t in
      (a.0, response a.1)
  serve_route walk uploaded now r to_get_peers t =
      let a = handle_get_peers walk.orders now (r.query (bytes "file_id")) t in (a.0, response a.1)
  serve_route walk uploaded now r to_get_metadata t =
      (t, response (handle_get_metadata (r.query (bytes "file_id")) t))
  serve_route walk uploaded now r to_list_files t = (
    t,
    page_answer (
        handle_list_files to_lower sort (r.query (bytes "category")) (r.query (bytes "search"))
          (atoi (r.query (bytes "page"))) t),
  )

  unfoldable pub serve : Mux → Walk → ℕ → ℕ → HttpRequest → Tracker → Tracker × Answer
  serve mux walk uploaded now r t = elim (get r.path mux) [
    | none ↦ (t, no_route)
    | some route ↦ serve_route walk uploaded now r route t
  ]

  -- What happens to the tracker's process: a request at its times, or a tick of StartCleanupLoop.
  pub data TrackerEvent : Type 0 where
    request : ℕ → ℕ → HttpRequest → TrackerEvent
    tick : ℕ → TrackerEvent

  unfoldable pub on_event : Mux → Walk → TrackerEvent → Tracker → Tracker
  on_event mux walk (request uploaded now r) t = (serve mux walk uploaded now r t).0
  on_event mux walk (tick now) t = cleanup_inactive_peers walk.orders inactivity_threshold now t

  -- A run; `walks` gives the orders for each event and the state it finds.
  unfoldable pub run_tracker :
      Mux → (ℕ → Tracker → Walk) → ℕ → List TrackerEvent → Tracker → Tracker
  run_tracker mux walks i [] t = t
  run_tracker mux walks i (e ∷ events) t =
      run_tracker mux walks (suc i) events (on_event mux (walks i t) e t)
