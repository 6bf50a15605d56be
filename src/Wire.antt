-- ===== src/Wire.antt =====
-- p2p/encoding.go and p2p/tcp_transport.go: length-prefixed messages on a connection.
pub mod Bytes
pub mod Frame
pub mod RoundTrip
pub mod Conn
