-- ===== src/Tracker.antt =====
-- p2p/tracker.go: the tracker's index of files and peers, and its HTTP handlers.
pub mod State
pub mod Handlers
pub mod Cleanup
pub mod Entries
pub mod Membership
pub mod Freshness
pub mod Inactive
pub mod Invariant
pub mod Reach
pub mod Listing
pub mod Upnp
pub mod Metadata
pub mod Directory
pub mod Refinement
