-- ===== src/Lib.antt =====
-- The relay network Goxic: a client runs a SOCKS5 proxy, chooses an exit server among the peers that
-- it has discovered, and opens a libp2p stream to it whose protocol name says which peers the stream
-- passes; the last of them reads the target's address from the stream and connects to it.
--
-- Parts and files:
--   Prelude    shared helpers: Boolean tests, lists and text over the native numbers (text is a list
--              of bytes), Go's int as an integer with its wrap-around at 64 bits (Prelude/Int), and
--              Go's maps as association lists (Prelude/Dict).
--   Peer       libp2p's peer names: their text form and its decoding, a parameter.
--   Wire       a connection: segments that arrive, bytes that were written, and whether writes work.
--              `Read`, `io.ReadFull` and `Write` of Go's standard library are functions of it, so a
--              handler is a function from a connection to a result and the connection after it.
--   Files      the calls of Go's os package that the program makes, on a disk: directories and files
--              with their modes, an ordinary user or the superuser, and the space that is left.
--   Relay      server/handlers/relay.go. Protocol is the regular expression of `NewRelayHandler`;
--              Hop is `OpenRelay` and what `Handle` and `forwardToNextPeer` decide, the peer to dial
--              and the protocol to ask for; Target is `sendTargetAddr` and `readTargetAddr`; Exit is
--              the whole of `Handle`, with `handleProxyTraffic`, on a stream; Closure says which errors
--              count as the normal end of a connection.
--   Discovery  server/handlers/discovery.go. State has its records, Loads the tracked connections,
--              Failures the blacklist, Select the four strategies (with Select/Shared for several
--              callers at a time), Refresh the two refreshes, Available the calls that the rest of the
--              program makes, Periodic the goroutine of `StartPeriodicDiscovery`, and Calls any
--              sequence of calls on one discovery.
--   Socks5     server/handlers/socks5.go. Handshake is `handleAuthentication`, `handleRequest` and
--              `sendConnectResponse`; Address has the standard library's text forms of addresses;
--              Connection is `handleConnection`, with Connection/Sessions for many clients at a time,
--              and Limit its counter of connections; Server is `Start`, `Stop` and
--              `acceptConnections`, and Listen the address that `Start` prints.
--   Bridge     `bridgeTraffic` of server/handlers/socks5.go, `bridgeExitTraffic` and the end of
--              `forwardToNextPeer` of server/handlers/relay.go: two goroutines, their channel and the
--              handler as a step relation (Step), with the steps of the two peers between theirs.
--   Config     server/model/config.go. Record has the records and the default configuration, Defaults
--              is `ApplyDefaults`, Validate is `Validate`, Load is `LoadConfig` with the -mode flag of
--              main.go, and Save is `SaveConfig`.
--   Node       server/handlers/registry.go (Registry), server/node/node.go and server/node/setup.go:
--              Run is `Run` as the list of the calls that it makes, with its goroutines in Run (the peer
--              source) and Run/Advertise, Setup is `SetupNode` behind `Run`, with the choice of the
--              node's type in main.go, and Shutdown is `ShutdownNode`.
--   Key        server/utils/key.go, on the disk of Files.
--   Session    a client's request, from the client's handler to the one of the exit node.
--   Main       main.go: the flags, `generateDefaultConfig`, `initializeLogging`, and `main` up to
--              `SetupNode`.
--   Life       the whole of `main`: `Run`, the handlers, the notices, the wait for a signal and
--              `ShutdownNode` as one list of calls. Opened says what is open after some calls,
--              Assembled is about `Run`, Rounds about the loops that start and close.
--   Tests      the theorems at concrete inputs.
-- Socks5 and Relay meet in the bytes of the target address, Relay and Discovery in the prefix of the
-- relay protocol, by which discovery tells a server from a client, and Socks5 and Discovery in the
-- connections that are tracked for a selected server. Session puts Socks5, Discovery and Relay
-- together; Main puts Config, Files and Node together, and Life puts Main and Node together.
--
-- Correspondence: names are those of the Go code in lower case with underscores. A method that changes
-- its receiver takes the record and returns it; the time that it reads from the clock is an argument,
-- and libp2p's host is a record of functions on a state of the network (Discovery/State). A `for`
-- loop over a slice or a channel is a recursive function on the list of its elements. Where the order
-- of goroutines matters, a component is a relation of single steps (Bridge, Socks5/Server,
-- Socks5/Connection/Sessions). A path of Files is a list of names with the innermost first; the text
-- of a path is resolved by the caller.
--
-- Bounds: `travel` follows a stream through the network on fuel, and a theorem says how much is
-- enough. `decimal` divides by ten and takes the number itself as fuel, `hex` prints at most four
-- digits. A port is computed with the wrap-around of uint16, the length byte with that of byte.
--
-- Not modelled: logging, but for the choices of Relay/Closure and the notices of Life; deadlines
-- and keep-alive settings; in Bridge, a write that blocks for ever at a peer that does not read,
-- and one that fails after it has written a part of its bytes; in Life, the panics of
-- `time.NewTicker` in server discovery and in the advertisement, which are in Discovery/Available
-- with Periodic and in Node/Run/Advertise; locks, but for Discovery/Select/Shared (elsewhere an
-- operation is one step); the options of libp2p that no configuration changes; the texts that
-- main.go prints, with `printHelp`. `net.ParseIP`, `net.ParseCIDR`, `filepath.Abs` and the JSON
-- package are parameters of Config, keys of libp2p a parameter of Key, and `Close` of a local file
-- gives no error.
pub mod Prelude
pub mod Peer
pub mod Wire
pub mod Files
pub mod Relay
pub mod Discovery
pub mod Bridge
pub mod Socks5
pub mod Config
pub mod Node
pub mod Key
pub mod Session
pub mod Main
pub mod Life
mod Tests
