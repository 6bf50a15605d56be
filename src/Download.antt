-- ===== src/Download.antt =====
-- The loop of DownloadFile in server.go, over the piece manager and downloadChunk.
pub mod Defs
pub mod Invariant
pub mod Answers
pub mod Steps
pub mod Complete
pub mod Ended
pub mod Bounds
pub mod Duplicates
pub mod Work
pub mod Rounds
pub mod Peered
pub mod Drain
pub mod Live
pub mod Finish
pub mod Start
pub mod Alone
