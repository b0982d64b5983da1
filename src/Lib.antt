-- ===== src/Lib.antt =====
-- The core of JustDrop, a file transfer between nearby devices: how devices are found, how a
-- connection is made secret, how a file is cut into chunks, sent, received in any order, resumed, and
-- named at its destination.
--
-- The parts, and how they interact. A sender (`SendTransfer` in crates/justdrop-protocol) describes
-- its files in a manifest (crates/justdrop-core), reads them chunk by chunk (`FileChunker` in
-- crates/justdrop-storage) and sends each chunk as a message; a receiver (`RecvTransfer`) decides on
-- the request, writes the chunks (`ChunkWriter`), answers each with its hash, and at the end says
-- whether all files are complete. An interrupted transfer is described by a bitmap of chunks that
-- are received already (`ResumeManager`).
--
-- Base has the shared helpers: tests and wrapping arithmetic on the native numbers, lists, sets of
-- offsets as lists without repetition, and actions, which take a state and give a result with the
-- new state, also when they fail (`?` in the code is `←` here).
--
-- - Core.Types: types.rs. Core.Trust: trust.rs. Core.Database: db.rs, over interfaces of its SQL
--   statements. Core.Config: config.rs, with the TOML parser and the directories of the user as an
--   interface. Core.Identity: identity.rs, over Core.KeyFiles, an interface for `std::fs` and
--   `serde_json` with the laws `IsKeeping`. All of crates/justdrop-core/src.
-- - Storage.Files: an interface for `tokio::fs`, `std::path` and `sha2`, which are not in the
--   repository, with its documented effects as the laws `IsLawful`, `IsReadable`, `HasLengths`,
--   `IsSeparate` (a call changes no other file), `IsCreating` and `IsRenaming`, and with `IsReliable`,
--   that no call fails; Storage.Files.Memory is an instance of all of them.
-- - Storage.Writer: writer.rs, Storage.Chunker: chunker.rs, Storage.Resume: resume.rs,
--   Storage.Hashing: hash.rs, integrity.rs and `hash_file` of chunker.rs, with the hash functions as an
--   interface, Storage.Compress: compress.rs, with `zstd` as one; all of crates/justdrop-storage/src.
-- - Protocol.State: state.rs, Protocol.Messages: messages.rs, Protocol.MessagesV2: messages_v2.rs,
--   Protocol.Codec: codec.rs over the frames, Protocol.Link: codec.rs as a transfer sees it,
--   Protocol.Offsets, Protocol.Prepare, Protocol.Send, Protocol.Receive and Protocol.Handshake:
--   transfer.rs, all of crates/justdrop-protocol/src. Protocol.Receive has the receiver, and, in
--   Receive.Delivered, all that it does with a whole transfer; Protocol.Transfer has a sender whose
--   messages are the arrivals of a receiver.
-- - Security.Session: session.rs, Security.Handshake: handshake.rs, both over an interface for the
--   `snow` crate, Security.Crypto: crypto.rs, over one for `ring`, Security.Keys: keys.rs, over
--   Core.KeyFiles; all of crates/justdrop-security/src.
-- - Discovery.Browser: browser.rs, Discovery.Registrar: registrar.rs, Discovery.Hex: its module `hex`,
--   all of crates/justdrop-discovery/src; a panic on a cut character is an error of its own.
-- - Ble.Advertisement: advertisement.rs, Ble.Handshake: handshake.rs, Ble.Hotspot: hotspot.rs, of
--   crates/justdrop-ble/src.
-- - Engine: engine.rs and events.rs of crates/justdrop-engine/src, one function for each method;
--   Engine.Device: peer.rs; Engine.Session: session.rs.
-- - Network.Frames: `SecureTransport` of crates/justdrop-network/src/transport.rs. A stream is the
--   segments in which its bytes arrive, and the bytes written to it. Network.Connector: connector.rs,
--   and Network.Listener: listener.rs, whose calls have their outcomes as an argument.
--   Network.Sendfile: sendfile.rs, over an interface for the system calls of Linux with the laws
--   `IsSending`; Network.Sendfile.Macos has the loop for macOS, for any outcomes of its calls.
-- - Transport: the frames of crates/justdrop-transport/src/lib.rs, over the same streams.
-- - Ffi.Types, Ffi.Bridge, Ffi.Engine: crates/justdrop-ffi/src/lib.rs, what applications call and are
--   called with, over Engine. Ffi.Legacy: legacy_c_abi.rs, the functions for C over one global state.
-- - Daemon: crates/justdrop-daemon/src/main.rs, the commands over Discovery.Browser and the decisions
--   for Protocol.Receive.
-- - Tests has concrete inputs for the theorems.
--
-- How the code is modelled. `u32` and `u64` arithmetic wraps where the code can overflow
-- (`add_u64`, `mul_u64`); a panic is an error of its own (`divide_by_zero`), but for a file that the
-- sender cuts by a chunk size of 0, which its theorems exclude. A `HashSet` is a list
-- without repetition. The connection is a state: the arrivals still to come, the messages sent, how
-- many more messages it takes before it breaks, and the events handed out; after the last arrival the
-- peer has closed it. Clocks, UUIDs and hashes are arguments. A method that changes `self` gives the
-- new value.
--
-- Loops are structural: over the arrivals, over the files, over the offsets of a file. The loop that
-- fills the buffer of a chunk takes as many rounds as the chunk has bytes, and each round but the
-- last reads a byte or more. The loop that hashes a file has fuel, and says when it does not suffice;
-- one round more than the file has bytes is enough; so it is for the loop of `sendfile`.
--
-- Not modelled: the cryptographic primitives, mDNS, the file formats of `bincode`, `postcard`, JSON and
-- TOML (all of them interfaces); the endpoints and TLS of QUIC (endpoint.rs and tls.rs of
-- crates/justdrop-transport/src), which set up types of `quinn` and `rustls`; android.rs and macos.rs
-- of crates/justdrop-ffi/src, which convert pointers and texts for the functions of Ffi.Legacy; the
-- parser of the command line, printed texts and log messages; and the user interfaces of the
-- applications.
pub mod Base
pub mod Ble
pub mod Core
pub mod Daemon
pub mod Discovery
pub mod Engine
pub mod Ffi
pub mod Network
pub mod Protocol
pub mod Security
pub mod Storage
pub mod Tests
pub mod Transport
