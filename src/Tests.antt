-- ===== src/Tests.antt =====
-- Runs of the definitions on small inputs, and the theorems at inputs that meet their hypotheses.
mod Tracker
mod Listing
mod Pieces
mod Wire
mod Punch
mod Chunks
mod Server
mod Exchange
mod Transport
mod Connect
mod Crypto
mod Download
mod Hashes
mod Store
mod Client
mod Program
