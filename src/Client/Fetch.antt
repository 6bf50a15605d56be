-- ===== src/Client/Fetch.antt =====
-- server.go: getMetadataFromTracker, and DownloadFile up to its main loop.
-- `decode` stands for the JSON decoder on the body of a response, `encode` for that of the store.
use file_share_p2p.Prelude.{
  ℕ, Bool, true, false, Option, none, some, List, eqb, if◌then◌else◌, ◌>>=◌,
}
use file_share_p2p.GoString.{GoString}
use file_share_p2p.Metadata.{Metadata, metadata_of}
use file_share_p2p.Chunks.Defs.{Files}
use file_share_p2p.Tracker.State.{FileInfo, Tracker, Response, Body}
use file_share_p2p.Tracker.Handlers.{handle_get_metadata}
use file_share_p2p.Store.Defs.{DiskCalls, save_metadata}
use file_share_p2p.Server.State.{Server}
use file_share_p2p.Server.Connect.{Network, refresh_peers}
use file_share_p2p.Download.Defs.{Download, start_download}

-- GET /metadata, where the request and the answer arrive.
abbrev pub query_metadata : Bool → GoString → Tracker → Option Response
query_metadata arrives file_id t = if arrives then some (handle_get_metadata file_id t) else none

module _ (decode : Body → Option FileInfo) where
  -- getMetadataFromTracker
  unfoldable pub get_metadata_from_tracker : Bool → GoString → Tracker → Option Metadata
  get_metadata_from_tracker arrives file_id t = do
    response ← query_metadata arrives file_id t
    info ← (if eqb response.status 200 then decode response.body else none)
    some (metadata_of info)

-- How the calls of DownloadFile before its main loop go.
pub record BeginCalls : Type 0 where
  pub arrives : Bool
  pub disk : DiskCalls
  pub network : Network
  pub can_create_output : Bool

-- What the main loop of DownloadFile starts from.
pub record Begun : Type 0 where
  pub meta : Metadata
  pub disk : Files
  pub download : Download

module _ (decode : Body → Option FileInfo) (encode : Metadata → Option (List ℕ))
    (root : GoString) where
  -- DownloadFile from connectToAllPeers to the creation of the output file.
  abbrev pub begin_connected : BeginCalls → Metadata → Server × Files → Option Begun
  begin_connected calls meta (s, disk) = do
    download ← start_download meta (refresh_peers calls.network 0 s).0
    (if calls.can_create_output
        then some (record { meta = meta; disk = disk; download = download })
        else none)

  abbrev pub begin_saved : BeginCalls → Metadata → Server → Files × Bool → Option Begun
  begin_saved calls meta s (disk, false) = none
  begin_saved calls meta s (disk, true) = begin_connected calls meta (s, disk)

  -- DownloadFile up to its main loop; none for an error or a panic.
  unfoldable pub begin_download : BeginCalls → GoString → Server → Files → Tracker → Option Begun
  begin_download calls file_id s disk t = do
    response ← query_metadata calls.arrives file_id t
    info ← (if eqb response.status 404 then none else decode response.body)
    (if eqb info.num_peers 0
        then none
        else begin_saved calls (metadata_of info) s
            (save_metadata encode calls.disk root (metadata_of info) disk))
