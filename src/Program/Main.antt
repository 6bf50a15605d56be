-- ===== src/Program/Main.antt =====
-- main.go: main for a peer, with ShareFile, DownloadFile and StopSeedingFile of server.go in the order
-- it calls them, and its shutdown.
-- The parameters are those of Client/. The server that is started in the background returns an error
-- within the second that main waits, or not at all.
use file_share_p2p.Prelude.{
  ℕ, Bool, true, false, Option, none, some, List, eqb, length, if◌then◌else◌,
}
use file_share_p2p.GoString.{GoString, bytes}
use file_share_p2p.Metadata.{Metadata}
use file_share_p2p.Wire.Frame.{NetError}
use file_share_p2p.Tracker.State.{FileInfo, Announcement, Removal, Body}
use file_share_p2p.Server.State.{Server}
use file_share_p2p.Client.Share.{
  World, ShareEnding, shared, failed, panicked, ShareCalls, StopCalls, share_file,
  stop_seeding_file, cleanup,
}
use file_share_p2p.Client.Fetch.{BeginCalls, Begun, begin_download}
use file_share_p2p.Download.Defs.{Event, Download, run_events, ended}
use file_share_p2p.Transport.Listen.{make_server}

-- The flags; `tracker_addr` is also that of SetTrackerAddress.
pub record Flags : Type 0 where
  pub listen_addr : GoString
  pub tracker_addr : GoString
  pub bootstrap_node : GoString
  pub file_path : GoString
  pub download_file_id : GoString
  pub start_tracker : Bool
  pub stop_seeding_id : GoString

-- The values of flags that are not given.
abbrev pub default_flags : Flags
default_flags = record {
  listen_addr = bytes ":3000";
  tracker_addr = bytes "";
  bootstrap_node = bytes "";
  file_path = bytes "";
  download_file_id = bytes "";
  start_tracker = false;
  stop_seeding_id = bytes "";
}

-- What main comes to: it runs the tracker until that fails, ends with a message, returns after
-- StopSeedingFile, panics in ShareFile, or keeps the server running, with whether a download goes on.
pub data MainEnding : Type 0 where
  tracker_ran tracker_required server_failed seeding_stopped : MainEnding
  sharing_failed sharing_panicked download_failed downloading running : MainEnding

-- How what main calls goes.
pub record MainCalls : Type 0 where
  pub start : Option NetError
  pub stop : StopCalls
  pub share : ShareCalls
  pub begin : BeginCalls
  pub events : List Event
  pub refreshes : Bool

-- DownloadFile as a whole: the server and how it ends.
abbrev pub downloaded : Download → Option Bool → Server × MainEnding
downloaded d none = (d.server, downloading)
downloaded d (some true) = (d.server, running)
downloaded d (some false) = (d.server, download_failed)

abbrev pub after_events : Server → Bool → Option Download → Server × MainEnding
after_events s refreshes none = (s, downloading)
after_events s refreshes (some d) = downloaded d (ended refreshes d)

module _ (sum : List ℕ → GoString) (ext base : GoString → GoString)
    (encode : Metadata → Option (List ℕ)) (transmit : Announcement → Option Announcement)
    (receive : Removal → Option Removal) (decode : Body → Option FileInfo) where
  abbrev pub download_begun :
      GoString → List Event → Bool → World → Option Begun → World × MainEnding
  download_begun file_id events refreshes w none = (w, download_failed)
  download_begun file_id events refreshes w (some begun) =
      let (s, ending) =
        after_events begun.download.server refreshes
          (run_events file_id begun.meta events begun.download) in
      (record w { server = s; disk = begun.disk }, ending)

  -- The part of main behind -download.
  unfoldable pub main_download : Flags → MainCalls → World → World × MainEnding
  main_download flags calls w =
      if eqb (length flags.download_file_id) 0
      then (w, running)
      else download_begun flags.download_file_id calls.events calls.refreshes w (
          begin_download decode encode (bytes "shared_files") calls.begin flags.download_file_id
            w.server w.disk w.tracker)

  abbrev pub after_share : Flags → MainCalls → World × ShareEnding → World × MainEnding
  after_share flags calls (w, shared) = main_download flags calls w
  after_share flags calls (w, failed) = (w, sharing_failed)
  after_share flags calls (w, panicked) = (w, sharing_panicked)

  -- The part of main behind -file.
  unfoldable pub main_share : Flags → MainCalls → World → World × MainEnding
  main_share flags calls w =
      if eqb (length flags.file_path) 0
      then main_download flags calls w
      else after_share flags calls (
          share_file sum ext base encode transmit (bytes "shared_files") flags.tracker_addr
            flags.listen_addr calls.share flags.file_path w)

  -- The part of main behind -stop-seeding, whose error is not looked at.
  unfoldable pub main_stop : Flags → MainCalls → World → World × MainEnding
  main_stop flags calls w =
      if eqb (length flags.stop_seeding_id) 0
      then main_share flags calls w
      else (let stopped =
            (stop_seeding_file receive flags.tracker_addr flags.listen_addr calls.stop
              flags.stop_seeding_id (w.server, w.tracker)).0 in
          (record w { server = stopped.0; tracker = stopped.1 }, seeding_stopped))

  unfoldable pub main_started : Flags → MainCalls → World → Option NetError → World × MainEnding
  main_started flags calls w (some e) = (w, server_failed)
  main_started flags calls w none = main_stop flags calls w

  -- main. `path_sum` is the SHA-1 of a text, for the store of makeServer.
  unfoldable pub main : (GoString → GoString) → Flags → MainCalls → World → World × MainEnding
  main path_sum flags calls w =
      if flags.start_tracker
      then (w, tracker_ran)
      else if eqb (length flags.tracker_addr) 0
      then (w, tracker_required)
      else main_started flags calls
          (record w {
            server = (make_server path_sum flags.listen_addr flags.bootstrap_node).server;
          })
          calls.start

  -- The goroutine that waits for a signal; `order` is the list of active files that Cleanup makes.
  unfoldable pub shut_down : Flags → (GoString → StopCalls) → List GoString → World → World
  shut_down flags calls order w =
      let stopped =
        cleanup receive flags.tracker_addr flags.listen_addr calls order (w.server, w.tracker) in
      record w { server = stopped.0; tracker = stopped.1 }
