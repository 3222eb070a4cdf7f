-- ===== src/Lib.antt =====
-- Verification of sercon, a daemon that holds serial ports open and shares each among one writer and
-- many observers, and of the protocol that it speaks with its clients.
--
-- A client's bytes reach the daemon as frames (Proto). The read loop of the client's connection gives
-- each frame to a handler (Hub/Session), which attaches the connection to a port, writes to the port's
-- device or answers. A port's worker (Hub/Loop) opens the device, reads it, and publishes what it read
-- to the backlog (Hub/Ring), to the log and to the queue of each attached connection (Hub/Queue), which
-- the connection's write loop empties. The manager (Hub/Manager) keeps the ports and the connections.
--
-- The client (Client) starts a session by a command on the jump host, waits for the daemon's replies, and
-- turns keys or a script into frames. A relay (Relay) pairs a published console with those who attach. A port's
-- device is opened, listed and written by Serial, and its log is kept by Portlog. Config holds the settings, Auth
-- the keys that may log in, which the window's key panel (Gui) edits.
--
-- Which file models what:
--   Prelude and below: tests, lists, byte strings, integers, association lists (maps), sorting
--   Proto/Frame, Proto/Write: internal/proto/proto.go, `Reader.Next` (`next`) and `Writer` (`write`)
--   Hub/Ring: internal/hub/hub.go, `ring`
--   Hub/Types: internal/proto/message.go, internal/audit/audit.go's events, and the records
--     `Options`, `Manager`, `Port` and `Conn` of internal/hub
--   Hub/Queue: internal/hub/conn.go, `enqueue`, `send`, `notice` (`notify`), `kill`, `writeLoop`
--   Hub/Ports: internal/hub/hub.go, the operations of `Port`
--   Hub/Manager: internal/hub/hub.go, `New`, `Sync`, `newPort`, `Ports`, `Resolve`, `Close`
--   Hub/Session: internal/hub/conn.go, `handle` and the handlers, `detach`
--   Hub/Loop: the goroutines, `ServeConn`, `readLoop`, `shutdown` and `worker`, as steps
--   Hub/Links and below: the pointers between ports and connections; Hub/Input: who may type;
--     Hub/AutoOpen: ports that are not opened at once
--   Client/Quote: cmd/sercon/main.go, `shellQuote`, `quoteToken`, `remoteCommand`; Client/Shell is a
--     reader of POSIX shell words, written independently of them
--   Client/Keys: cmd/sercon/attach.go, `handleKeys` and `escape`
--   Relay/Server: internal/relay/server.go, `register`, `unregister` and the checks of `ServeConn`, as steps
--     of arrival and departure; Relay/Lines: `readLine` and `trimCR`; Relay/Pairing and below: the pairs
--   Client/Replies: cmd/sercon/main.go, `readUntil`; Client/Collector: cmd/sercon/run.go, `collector`
--   Hub/Listing: the listing of `Ports`
--   Client/Escapes: cmd/sercon/run.go, `unescape`
--   Proto/Ends: `Reader.Next` on any stream
--   Auth/Keys: internal/sshauth/sshauth.go, `ParseKey`, `checkBlobHeader`, `Key.Text` and the labels; Auth/File:
--     `AddAll`, `Remove` and the lines of the file
--   Portlog/Names: internal/portlog/portlog.go, `safeName`; Portlog/Writer: `Writer`
--   Serial/Names: internal/serialport/comname.go and the listing of serialport_windows.go; Serial/Linux:
--     internal/serialport/serialport_linux.go, `Open`, `Close` and `Write`; Serial/Linux/Reading: `Read` and `Discover`
--   Client/Args: cmd/sercon/main.go, `reorderArgs`, `sshCommand`; Client/Args/Flags is a reader of package flag's
--     syntax, written independently of it; Client/Script: cmd/sercon/run.go, `parseScript` and `buildSteps`
--   Relay/Serve: internal/relay/server.go, `ServeConn`, and internal/relay/publish.go, `serve`
--   Relay/Tickets: internal/relay/relay.go, `Ticket`, `DecodeTicket`, `LoadToken`, and internal/relay/publish.go,
--     `slot`, `expectState`, `Attach`
--   Client/Link: cmd/sercon/attach.go, `pumpOutput`, `handleMessage`, `heartbeat`, `localLog` and the loop of
--     `cmdAttach`
--   Config: internal/config/config.go
--   Gui/KeyPanel: cmd/sercon-gui/keys_windows.go and keys_job_logic.go, the panel's commands and workers
--   Gui/Layout: cmd/sercon-gui/layout_windows.go, `buildLayout` and the hit tests
--   Audit: internal/audit/audit.go, `Logger`
--   Version: internal/version/version.go
--   Serial/Windows: internal/serialport/serialport_windows.go, `Read`, `drain` and `Write`;
--     Serial/Windows/Opening: `Open`, `configure`, `SendBreak` and `Close`
--   Auth/Windows: internal/sshauth/platform_windows.go, whose key file it is and whether an account is an
--     administrator; Auth/Windows/Elevated, reading and writing behind the prompt
--   Relay/Splice: internal/relay/server.go, `splice` and `closeBoth` for one direction
--   Gui/Anim: cmd/sercon-gui/anim_windows.go and the animation timer
--   Hub/Conns: what holds of each connection by itself, through every handler and step of internal/hub
--   Daemon: internal/daemon/ensure.go, `Ensure`, and internal/ipc/ipc.go; Daemon/Listen, `Listen` by several processes
--   Daemon/Commands: cmd/sercond/main.go
--   Gui/Hover: cmd/sercon-gui/main_windows.go, `pointerMoved` and `onMouseLeave`
--   Gui/Rows: cmd/sercon-gui/paint_windows.go, `syncRows`, `pruneRows`, `beginRowFade`, `tally`
--
-- How state corresponds: `*Manager`, `*Port` and `*Conn` are one record `Manager` that holds the ports by
-- reference and the connections by number, so that a pointer is a key; a Go map is an association list,
-- and its iteration order the list's order. A handler or one round of a loop runs as one step; the steps
-- of the goroutines come in any order. A text that `fmt.Sprintf` builds is kept as what it is built
-- from, and a control frame stands for its JSON. Strings are lists of bytes, and the mapping of cases is
-- ASCII's. `int64` counters are taken modulo 2^64. `send` on a full queue waits for one round of the
-- write loop, and where both branches of its `select` are ready it takes `done`. The fields `tx`,
-- `archive`, `phase` and `backoff` of a port and `sent` and `wire_ok` of a connection record what
-- happened or where a goroutine stands. What the machine answers (devices, environment variables, clock,
-- `portlog.New`, `serialport.Discover`) is an input of the step that asks.
--
-- Fuel: `read_all` takes one unit for each frame and one for the failure that ends it, so one more than
-- the number of frames is enough, and the results on it say what it returns.
--
-- Relay: a `*peer` is a number, and the arrivals and departures of peers are steps; what the others do while a
-- connection waits is a list of these. Client: what
-- `json.Unmarshal` and `regexp` give are parameters, and `escape` only records that the local log was toggled.
--
-- Keys: base64 and SHA-256 are parameters. Port log: the clock and the file system answer each call, and a
-- disk is the sequence of what was appended to it. Serial ports: each system call's answer is an input; the
-- write loop ends with the calls that it is given, and that of a kernel which takes bytes needs as many calls
-- as there are bytes.
--
-- Key panel: the panel, the workers that run and the file are one world; a command, the end of a worker, the
-- timer and the end of the window are its events, in any order.
--
-- Not modelled: the calls of Windows that package sshauth makes for access lists and the registry, certificates and TLS
-- of the relay, the printing of the command line; system calls of terminals, sockets and
-- processes, the other windows of the interface, the two windows in which a handler
-- releases one lock before it takes another.
pub mod Audit
pub mod Auth
pub mod Client
pub mod Config
pub mod Daemon
pub mod Gui
pub mod Hub
pub mod Portlog
pub mod Prelude
pub mod Proto
pub mod Relay
pub mod Serial
pub mod Version
