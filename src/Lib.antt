-- ===== src/Lib.antt =====
-- An FTP server in Go whose files lie behind a file system interface (S3 in production, a map in
-- tests), modelled part by part.
--
-- The program. A server (ftp/server.go) accepts control connections. A connection (ftp/conn.go)
-- reads lines through a telnet layer (ftp/telnet.go), parses each into a command and runs the
-- command's handler (ftp/command.go). Handlers ask an authorizer (ftp/authorizer.go), change the
-- state of the connection, work on a file system (vfs, with an S3 bucket behind it in vfs/s3fs),
-- set up data connections (ftp/transfer.go), for which the server keeps a pool of ports, and start
-- goroutines that move data. The program itself (s3ftpgateway.go) reads a configuration
-- (config.go), opens the listeners, makes the S3 file system and the authorizer of the user list
-- (authorizer.go), and shuts the server down on a signal.
--
-- The files.
--   Base and its children: Boolean tests, lists over the native numbers, results, Go's int,
--     strings.
--   Text, GoPath, GoMap: what the program uses of the packages strings, strconv, sort and path, and
--     of Go maps. Text/Order has the order of strings. GoPath/Clean says what path.Clean does to
--     absolute paths, GoPath/Parts what it does to any path.
--   Status: ftp/status.go.
--   Ports: choosePassivePort and releasePassivePort of ftp/server.go. A panic is a result.
--     Ports/Shape has the shape of the three slices, Ports/Release and Ports/Lease relate them to
--     the set of leased ports, Ports/Runs is about any sequence of calls.
--   Passive: newPassiveDataTransfer and listen of ftp/transfer.go, over the pool of ports;
--     Passive/Opens and Passive/Leak have the theorems. Passive/Channel has listen, Conn and Close
--     as a step relation over the channels of a transfer.
--   Reply: writeReply of ftp/conn.go over Telnet; Reply/Read has a client's reader, Reply/Sent the
--     theorems.
--   Telnet: ftp/telnet.go. Telnet/Wire has an independent description of what clients send,
--     Telnet/Total is about termination, Telnet/Write, Telnet/Flush and Telnet/Input about output.
--   Vfs: vfs/vfs.go. A file system is a record of operations on a store S; Vfs/Null is vfs/null.go,
--     Vfs/ReadOnly vfs/readonly.go, Vfs/Mode the mask of the write bits.
--   MapFs: vfs/mapfs/mapfs.go, with lemmas on keys in MapFs/Names and MapFs/Maps and the theorems
--     in MapFs/Files.
--   S3: vfs/s3fs/s3vfs.go over the record S3Client; S3/Operations has the operations, S3/Bucket
--     what is relied on of a bucket. S3/Lazy makes the clients, S3/Methods has the operations with
--     this, a panic included. S3/Keys is about filekey and dirkey, S3/Files about Create, Open and
--     Remove, S3/Directories about directories, S3/Merge about ReadDir.
--   UserList: authorizer.go. UserList/Search is about the bisection of sort.Search, UserList/Users
--     about Authorize; UserList/Sample has two users and a sort for the tests.
--   LifeCycle: serve, Close and Shutdown of ftp/server.go; LifeCycle/Run has their goroutines as a
--     step relation, which takes the steps of the connections from Session/Run. LifeCycle/Tracked,
--     LifeCycle/Drain and LifeCycle/Delay have the theorems, LifeCycle/Conns and LifeCycle/Shutting
--     lemmas for them.
--   Scanner: the bufio.Scanner of a connection over Telnet, with its buffer. Scanner/Fuel is about
--     termination, Scanner/Rounds and Scanner/Lines about the lines of a client, with Telnet/Chunk
--     for a line that comes in several reads.
--   Serve: serve and upgradeToTLS of ftp/conn.go, from bytes to bytes, over Scanner, Command,
--     Session and Reply. Serve/Total is about termination, Serve/Reached leads back to the step
--     relation of Session/Run, Serve/Script to a reference without bytes, Serve/Texts and
--     Serve/Sent are about the bytes that are sent, Serve/Late is about a shutdown.
--   Logging: ftp/logger.go, logger.go, and what ftp/conn.go logs of commands and replies;
--     Logging/Masked is about passwords.
--   Tls: the TLS configurations of ServeTLS and ServeExplicitTLS of ftp/server.go and of
--     ftp/conn.go, and the addresses of ListenAndServe.
--   Gateway: s3ftpgateway.go and config.go. Gateway/Listeners is listeners, Gateway/Start is Serve
--     up to its loop, with the S3 file system and the user list, Gateway/Loop is the loop, and
--     Gateway/Main is main.go and version.go.
--   Net: what ftp/transfer.go, ftp/server.go and s3ftpgateway.go put around listeners, and the
--     session id of newConn.
--   Ftptest: ftp/ftptest/server.go.
--   Random: ftp/random.go.
--   Command: Command, ParseCommand and the table of handlers of ftp/command.go.
--   Session: the state ServerConn of ftp/conn.go and what handlers share. Session/File,
--     Session/Transfer, Session/Connect and Session/Account have the handlers, exec_X for
--     commandX.Execute; Session/Run has execCommand, the loop of serve as a step relation, shutdown
--     and close. The theorems are in Session/Guard (no login), Session/Invariant and
--     Session/Reached (reachable states), Session/Guests (anonymous users), Session/Panics,
--     Session/Rename, Session/Answers (replies), Session/Bounce (active mode), Session/Extends
--     (replies are only added), Session/Closed (a closed connection stays closed) and
--     Session/Stored (an upload and a download). Session/Shutdown is Shutdown and Close of a
--     connection; Session/Sample is a server for the tests.
--
-- How code becomes definitions. State is passed explicitly and errors are values of a result type.
-- A goroutine that a handler starts is a task in the state of the connection, which finishes at any
-- later step. Replies are the calls of WriteReply in order; what is written to a connection that
-- is closed is lost. A nil dereference and an index out of range are the value none or the flag
-- panicked. What the network, the clock and the libraries answer is the record Env, a parameter of
-- each command, with the outcome of newPassiveDataTransfer (which Passive models) and that of the
-- TLS handshake, panics included; the random number of the pool is a parameter. Text is ASCII: case
-- folding and white space of other code points are not modelled.
--
-- Bounds and fuel. The loop of Read runs on fuel, the length of its input plus one, as each round
-- takes a byte or more. The loop of Scan runs on the length of the input plus two, as a read without
-- an error takes a byte, and so does the loop of serve on the length plus one. A line that fills the
-- buffer of the scanner, 65536 bytes, ends the connection. The walk of readDir to the root runs on
-- the length of the path plus one, as each step shortens it. The rounds of newPassiveDataTransfer
-- count down from five. The bisection of a search runs on the length of the list plus one. Go's
-- int is 64 bits wide where a client chooses numbers (PORT); counts of replies, bytes and logins
-- are not bounded by 2 ^ 63.
--
-- Not modelled. The client of S3, its paginator and its uploader are parameters, and so are bcrypt,
-- sort.Sort of the users, the YAML decoder, HTTP, the network's Listen, and certificates.
-- Sessions use S3 with a client that exists, and file systems and authorizers whose calls return.
-- The texts of Printf in the logs, timeouts of contexts and the certificate for tests (ftp/internal)
-- are left out: I/O, calls of libraries and constants.
mod Base
pub mod Ports
pub mod Passive
pub mod UserList
pub mod Reply
pub mod Telnet
pub mod Vfs
pub mod Gateway
pub mod Tls
pub mod LifeCycle
pub mod Random
pub mod MapFs
pub mod Scanner
pub mod Text
pub mod GoPath
pub mod GoMap
pub mod Status
pub mod Command
pub mod S3
pub mod Session
pub mod Net
pub mod Ftptest
pub mod Logging
pub mod Serve
