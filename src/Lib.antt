-- ===== src/Lib.antt =====
-- A model of the package index server, with the theorems that make it correct.
--
-- The program is a TCP server, go/src/package-index, that keeps track of packages and what they
-- depend on. Clients send lines `command|package|dependencies`; the server answers OK, FAIL or ERROR.
--
-- Base: names shared by all modules. Base.Sets and Base.Maps are Go's maps, as lists of keys and as
--   association lists; Base.Choice picks an element, as a scheduler does; Base.Int64 is `int64` with
--   its wrap-around; Base.Text has what the program uses of package strings.
-- Index: go/src/package-index/index/index.go. `index`, `remove` and `query` are the methods of those
--   names on `struct index`, whose map is the state. A method holds the lock from its first line to
--   its return, so a call is one step, and concurrent calls are a `history` in the order in which
--   they get the lock. Index.Graph is the specification, Index.Api the interface that the server
--   uses, with the promise that its implementation keeps.
-- Server.WireFormat: go/src/package-index/server/wire_format.go. `parse_message` is parseMessage.
--   Server.WireFormat.Grammar says which lines are messages, and Server.WireFormat.Reference is a second
--   parser, by parts.
-- Server.Bufio, Server.Pool: what the server uses of net.Conn and bufio.Reader, and
--   go/src/package-index/server/bufio_reader_pool.go. What the network delivers is a list of pieces
--   of bytes and failures; what sync.Pool gives back is an argument.
-- Server.ReadMessage, Server.Serve: readMessage, respond and serve of
--   go/src/package-index/server/server.go. `turn` is one round of serve's loop; it calls the index
--   through Index.Api.
-- Server.Accept: Serve of the same file. A state has the channel's elements, the connections that are
--   served and the shared index and pool; a step accepts, or is one round of one goroutine.
--   Server.Accept.Protocol is the machine that it is compared with: a dependency graph, and of each
--   connection what has yet to arrive and what has been sent.
-- Server.Main: ListenAndServe of the same file and go/src/package-index/main.go. A process runs the
--   loop of Serve, or has ended with a status.
-- Suite: go/src/test-suite, the client side. Suite.Packages is packages.go there, with a `*Package` as
--   its position in the registry, and Suite.Segments its SegmentListPackages; Suite.WireFormat is
--   wire_format.go there, and its Answers are the server's. Suite.Client is client.go there, and
--   Suite.Run has the loops of test_run.go there for one client; `answer` is a server that keeps
--   the protocol. Suite.Served is the same client on a connection to the server here, and
--   Suite.Run.Simulation carries what holds with the one over to the other. Suite.Run.OneClient is Run of
--   the same file with one client, whose five steps follow each other, Suite.Phases is Run with its
--   goroutines and their wait group, where the end of a goroutine's work is open, and Suite.Concurrent
--   is the same with the goroutines' loops: a move is one message of one of them. Suite.Main is
--   main.go there, up to the first step of the run.
-- Tests: the repository's tests that run on the models, and each theorem at an input.
--
-- Bounds and fuel. A count is an `int64`; an index of fewer than 2 ^ 63 entries cannot overflow one,
-- and a history of at most 2 ^ 63 calls makes no larger index. `discard` takes as fuel the bytes
-- that have yet to arrive and two more, `serve` and the loops of the test run any number: the theorems
-- say how much is enough for `serve` and for the loops that index and remove.
--
-- Not modelled: logging, the lengths of sleeps and of the server's deadlines, which leave no trace in
-- the state (that a deadline runs out is a failure that arrives); what package flag makes of a command
-- line, and whether listening and dialling succeed, which are arguments; the profiling server of the
-- test suite's debug mode; the capacity of maps and the memory that a buffer takes; the go-bindata table
-- of the test suite, data.go, which is generated; the regular expression of a valid line, which is a
-- parameter; that the Go runtime ends a process whose goroutines all wait, and the width of a wait
-- group's counter.
pub mod Base
pub mod Index
pub mod Server
pub mod Suite
pub mod Tests
