-- ===== src/Program/Shutdown.antt =====
-- main.go and server.go: a peer that shares a file, and is then interrupted.
use file_share_p2p.Prelude.{
  ℕ, true, false, Option, none, some, List, ◌≡◌, ◌≢◌, refl, ap, ◌∙◌, arith, eqb, length,
  if◌then◌else◌, contains, ◌==◌, ==_refl, option_cases, inl, inr,
}
use file_share_p2p.Prelude.Maps.{Map, get, is_some}
use file_share_p2p.GoString.{GoString, string_eq, bytes}
use file_share_p2p.Metadata.{Metadata}
use file_share_p2p.Tracker.State.{FileInfo, Announcement, Removal, Body}
use file_share_p2p.Tracker.Handlers.{peers_or_empty}
use file_share_p2p.Tracker.Entries.{Covers}
use file_share_p2p.Client.Address.{get_peer_address}
use file_share_p2p.Client.Share.{World, StopCalls}
use file_share_p2p.Client.Stopped.{is_delivered, has-cleanup}
use file_share_p2p.Transport.Listen.{make_server}
use file_share_p2p.Program.Main.{Flags, MainCalls, main, shut_down}
use file_share_p2p.Program.Sharing.{active-share_file, is_running, main-share_file}

covered_none :
    (active : Map GoString Metadata) (order : List GoString) (file : GoString)
    → Covers order active
    → (if contains file order then none else get file active) ≡ none
covered_none active order file cover = elim (option_cases (get file active)) [
  | inl e ↦ ground (arith, e)
  | inr (meta, e) ↦ let c : contains file order ≡ true = cover file (ap is_some e) in rw c refl
]

-- A process that main starts with a tracker, -file and neither -download nor -stop-seeding keeps
-- running, its address is found each time, and each request to /remove arrives and is decoded as it
-- was sent: then a signal, in whatever order Cleanup walks all its active files, leaves none of them active, takes
-- this peer from under the file it has shared, and changes under no file what other peers are listed.
pub shut_down-main :
    (sum : List ℕ → GoString) (ext base : GoString → GoString) (encode : Metadata → Option (List ℕ))
    (transmit : Announcement → Option Announcement) (receive : Removal → Option Removal)
    (decode : Body → Option FileInfo) (path_sum : GoString → GoString) (flags : Flags)
    (calls : MainCalls) (w : World) (content : List ℕ) (addr : GoString)
    (stops : GoString → StopCalls) (order : List GoString)
    → flags.start_tracker ≡ false
    → flags.tracker_addr ≢ bytes ""
    → eqb (length flags.stop_seeding_id) 0 ≡ true
    → eqb (length flags.file_path) 0 ≡ false
    → eqb (length flags.download_file_id) 0 ≡ true
    → get flags.file_path w.disk ≡ some content
    → ((file : GoString)
        → get_peer_address
            (stops file).addresses.public_ip
            (stops file).addresses.local_ip
            flags.listen_addr
          ≡ some addr)
    → ((file : GoString) → is_delivered (stops file).delivery ≡ true)
    → ((r : Removal) → receive r ≡ some r)
    → let ran = main sum ext base encode transmit receive decode path_sum flags calls w in
      let final = shut_down sum ext base encode transmit receive decode flags stops order ran.0 in
      is_running ran.1 ≡ true
      → Covers order ran.0.server.active_files
      → ((file : GoString) → get file final.server.active_files ≡ none)
        × (contains addr (peers_or_empty (get (sum content) final.tracker.peer_index)) ≡ false)
        × ((file q : GoString)
            → q == addr ≡ false
            → contains q (peers_or_empty (get file final.tracker.peer_index))
              ≡ contains q (peers_or_empty (get file ran.0.tracker.peer_index)))
unfolding shut_down
shut_down-main sum ext base encode transmit receive decode path_sum flags calls w content addr stops
      order t a s f d file here sent received runs cover =
    let ran = main sum ext base encode transmit receive decode path_sum flags calls w in
    let (returned, left) =
      main-share_file sum ext base encode transmit receive decode path_sum flags calls w t a s f d
        runs in
    let w' : World = record w {
      server = (make_server path_sum flags.listen_addr flags.bootstrap_node).server;
    } in
    let active : is_some (get (sum content) ran.0.server.active_files) ≡ true =
      ap (λ (v : World). is_some (get (sum content) v.server.active_files)) left
      ∙ active-share_file sum ext base encode transmit (bytes "shared_files") flags.tracker_addr
          flags.listen_addr calls.share flags.file_path w' content file returned in
    let stopped =
      has-cleanup receive flags.tracker_addr flags.listen_addr addr stops a here sent received order
        ran.0.server ran.0.tracker in
    (
      λ g. (stopped g addr).0 ∙ covered_none ran.0.server.active_files order g cover,
      (stopped (sum content) addr).1 ∙ ground (arith, ==_refl addr, cover (sum content) active),
      λ g q other. (stopped g q).1 ∙ ground (arith, other),
    )
