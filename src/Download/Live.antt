-- ===== src/Download/Live.antt =====
-- server.go: DownloadFile from any state before its main loop is left.
use file_share_p2p.Prelude.{nat_eq}
use file_share_p2p.GoString.{GoString}
use file_share_p2p.Metadata.{Metadata}
use file_share_p2p.Server.State.{Server}
use file_share_p2p.Download.Defs.{Download}
use file_share_p2p.Download.Peered.{Peered}
