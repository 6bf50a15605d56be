-- ===== src/Lib.antt =====
-- A peer-to-peer file sharing program in Go. A tracker (p2p/tracker.go) keeps, over HTTP, which peers
-- offer which files. A server (server.go, store.go) offers files to other peers and fetches files from
-- them: it asks the tracker for peers, connects to them over TCP (p2p/tcp_transport.go, with
-- p2p/udp_hole.go to open a way through a router), sends messages with a length in front
-- (p2p/encoding.go), and a piece manager (piece_manager.go) chooses which chunks to ask for. Chunks are
-- read from the file on one side and written at their offset on the other.
--
-- Prelude/: shared types and lemmas: native numbers, lists, sets and maps as association lists, Go's
-- signed integers (Int). GoString.antt: a string is its bytes; strings.Split, HasPrefix and the like.
--
-- Tracker/: p2p/tracker.go. State is the Tracker struct and the requests, Handlers has
-- HandleAnnounce (announce, handle_announce), HandleHeartbeat (heartbeat), HandleRemove
-- (remove_listing), RemovePeer and HandleGetMetadata, Cleanup has HandleGetPeers with
-- cleanupStalePeers and the periodic cleanupInactivePeers, Listing has HandleListFiles, Upnp
-- setupUPnP. A handler runs under the tracker's lock, so it is a function of the state, but for
-- HandleGetMetadata, which encodes the entry after it has released the lock: metadata_answer has
-- what became of the entry as an argument, and handle_get_metadata, which the rest of the model
-- calls, is the case without another handler in between; the time is an argument in nanoseconds, and
-- the order in which Go walks a map is an argument that must cover its keys. Directory is the
-- abstract view: who offers what, and when each peer was last seen. Entries, Membership, Freshness,
-- Inactive, Invariant, Reach, Refinement and Metadata hold the proofs.
-- Pieces/: piece_manager.go. Defs has the data and all methods; sort.Slice with its random comparison
-- is a function that rearranges the candidates. Reach has the states of a piece manager.
-- Wire/: Bytes and Frame are TCPPeer.Send and DefaultDecoder.Decode over the bytes of a connection;
-- Conn is the heartbeat goroutine and the read loop of handleConn over the sequence of what each tick
-- and each read returns.
-- Punch.antt and Punch/: p2p/udp_hole.go. Punch.antt is what handleUDPMessages does with one message,
-- and the messages sent; Loop is its loop over what the reads return. net.SplitHostPort and
-- strconv.Atoi are parameters.
-- Chunks/: ReadChunk of store.go and writeAndVerifyChunk of server.go over a file as a list of bytes;
-- what each call of WriteAt manages to write is an argument. Offsets are computed in 64 bits.
-- Server/: State has FileServer's peers, response handlers and active files, onPeer,
-- NormalizeAddress and the closure that downloadChunk registers; Reply is handleChunkRequest of
-- store.go, Rpc is handleRPCMessage and consumeRPCMessages, Messages is handleMessage, Connect is
-- filterPeerList and connectToAllPeers, Download is downloadChunk. The gob encoding, the disk, the
-- connection's writes and the way each wait for a peer ends are arguments. Exchange puts them
-- together: one request for a chunk from the peer that asks to the one that serves, and its answer
-- back; Delivery, Normal and Answered follow it. Discovery is about connectToAllPeers on an address
-- that a peer has announced. Private is about the networks of isPrivateIP.
-- Transport/: p2p/tcp_transport.go around the connections. Dial has its goroutines with their punches,
-- and the select over what they signal; times are in milliseconds, of the sleeps and of TCP dials.
-- Listen has getPort, setupUDPListener, ListenAndAccept, the accept loop and handleConn as a whole, and
-- makeServer, Start and bootstrapNetwork of server.go. Select, Waiting, Panics, Twice and
-- Known hold the proofs.
-- Program/: main.go. Routes is the tracker's process: its routes, HTTP requests, and the ticks of
-- StartCleanupLoop; Main is the process of a peer, over Client/ and Download/, up to its shutdown.
-- What a download that could not begin leaves on the disk is not kept, since main ends with it; the
-- output file of a download is not put on the model's disk.
-- Metadata.antt: the Metadata record of shared/types.go.
-- Hashes/: piece_verification.go, and generateFileID and verifyDownloadedFile of server.go. SHA-1 in
-- hexadecimal is a parameter; what each call of Read gives is an argument.
-- Store/: NewStore, saveMetadata, GetMetadata, writeChunk and ChunkAndStore of store.go. The disk is a
-- map from paths to bytes; JSON and the printing of numbers are parameters.
-- Client/: the tracker client in server.go, against Tracker/. Address is getPeerAddress, Machine is
-- shared/functions.go, Announce is announceToTracker with its three attempts, Share is ShareFile,
-- its periodic announcement, StopSeedingFile and Cleanup, Fetch is getMetadataFromTracker and
-- DownloadFile before its main loop. What becomes of each HTTP request (lost, handled but not
-- answered, answered) is an argument. EndToEnd joins the parts: a file shared by one peer and
-- downloaded by another. Discovered joins the tracker's answer with connectToAllPeers.
-- Download/: DownloadFile of server.go from the creation of the output file on. Defs has the state
-- of its loop, the workers, the semaphore and the output file; an event is a step that the other
-- goroutines see as a whole, and a run is any sequence of events. A worker is at a point of
-- downloadChunk: the attempts it has left, and the peers it has still to ask of those that were
-- connected when its attempt began. Answers, Steps, Invariant and Complete follow the file, Bounds
-- the semaphore, Start and Peered the peers of the pieces, Alone a download that starts without a
-- peer; Work, Rounds and Finish build a run that ends from a state without workers, Drain and Live
-- from any state; Ended is about both returns of DownloadFile.
-- Crypto.antt: crypto.go, over the calls of Read and Write; the cipher, MD5 and random bytes are
-- parameters.
-- Tests/: runs on small inputs.
--
-- Bounds: loops over slices and maps are recursions on their lists. Loops with a fixed number of
-- rounds (three attempts to read, to write and to download, five punches) count down from it. The
-- loop that sends a reply in slices of 1 MB has as many rounds as the data has bytes, which is enough
-- since each round takes at least one. Sizes of messages are at most 17 MB, so 32 bits hold them.
-- Dial waits for 20 seconds at most, and each of its goroutines for 3.1 seconds and one TCP dial.
--
-- Not modelled: sockets, timers and goroutines as such, the reports of progress in DownloadFile, which
-- only log, GOBDecoder, which nothing uses, and the interfaces of p2p/transport.go.

pub mod Prelude
pub mod GoString
pub mod Tracker
pub mod Pieces
pub mod Wire
pub mod Punch
pub mod Chunks
pub mod Hashes
pub mod Metadata
pub mod Store
pub mod Client
pub mod Server
pub mod Transport
pub mod Download
pub mod Program
pub mod Crypto
pub mod Tests
