-- ===== src/Client/Relisted.antt =====
-- server.go and main.go: StopSeedingFile in a process of its own, and the next announcement of the
-- process that seeds the file.
use file_share_p2p.GoString.{GoString, string_eq}
use file_share_p2p.Metadata.{Metadata}
use file_share_p2p.Server.State.{Server}
use file_share_p2p.Tracker.State.{Tracker}
