-- ===== src/Server.antt =====
-- The file server of server.go: its peers, its messages, and the chunks it sends and asks for.
pub mod State
pub mod Reply
pub mod Rpc
pub mod Messages
pub mod Download
pub mod Connect
pub mod Known
pub mod Discovery
pub mod Handlers
pub mod Limit
pub mod Peers
pub mod RoundTrip
pub mod Exchange
pub mod Normal
pub mod Delivery
pub mod Answered
pub mod Private
