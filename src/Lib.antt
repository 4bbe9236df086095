-- ===== src/Lib.antt =====
-- mongonet: the wire protocol of a MongoDB proxy, its connections and its connection pool.
--
-- The program reads a message from a client, parses it, lets interceptors look at it, and
-- serializes it for a server on a pooled connection; replies go back the same way. Modelled are
-- the codecs of the messages, reading and sending them on a connection, namespaces, the pool, the
-- sessions of the proxy with the answers they give themselves, connections with deadlines, the
-- life of the server, and the interceptor of sni_tester.
--
-- Files:
-- - Base (Tests, Lists, Errors): shared names, Boolean tests, lists over the native numbers, and
--   `Outcome`, what a Go function comes back with: a value, an error value or a run-time panic.
--   `hang` stands for a loop that ran out of the model's fuel.
-- - Word (Bits, Shifts): int32, int64 and int as their bit patterns, with wrap-around written out.
-- - Bytes: wireutil.go. Bytes/Writer is a buffer that is written in place (`make`, `copy`, index
--   assignment, with the panics of each), Bytes/Layout says what a writer leaves in the buffer,
--   Bytes/Read what the readers give.
-- - Bson (Parse, Docs, Write): the part of bsonutil.go that the wire code uses: `SimpleBSON`,
--   `parseSimpleBSON`, `Copy`, and the loops over documents.
-- - Wire: wire.go, the header, the messages and their op codes.
-- - Serialize (Layout, Writes, Queries, Commands): the methods `Serialize` of wire_query.go,
--   wire_update.go, wire_delete.go, wire_get_more.go, wire_insert.go, wire_kill_cursors.go,
--   wire_reply.go, wire_command.go and wire_command_reply.go. Since `Serialize` sets the size in
--   the message's header, it gives the message after the call too.
-- - Parse (Rules, Writes, Queries, Cursors, Commands): the parsers of the same files.
-- - Msg (Serialize, Frame, Texts, Docs, Sections, Parsed): wire_message.go, OP_MSG.
-- - Forward: a body that is parsed and serialized again, as the proxy does it.
-- - Relay (Heads, Kinds, Passing): any message that comes in on one connection and goes out on
--   another.
-- - RoundTrip (Legacy, Writes, Queries, Replies, Commands, Sequences, Sections, Message; Connection,
--   Fields, Bodies, Any): a message that is serialized and parsed again, or sent and read.
-- - Socket (Body, Read, Send, Deliver): sock.go. io.Reader and io.Writer are parameters with the
--   documented bounds on what a call reads or takes.
-- - Namespace (Parts): namespace.go.
-- - Pool (Lending, Opening, Returning, Reach): connpool.go. The clock, the dialer and the hook are
--   parameters.
-- - Document (Lookup, Walk, Path): the part of bsonutil.go on bson.D, the driver's documents:
--   `BSONIndexOf`, the getters, and `BSONWalkAll`, `BSONWalk` and `BSONWalkHelp`, which change a
--   document in place: what its slice holds afterwards is a result of the model. The visitor is a
--   parameter. A document that the code makes contain itself is no tree, and an error of the
--   model.
-- - Respond (Answers, Reading, Fields): session.go, `RespondToCommand`, `RespondToCommandMakeBSON`
--   and `RespondWithError`; `MongoError` and `respondWithError` of proxy.go; `SimpleBSONConvert`.
--   The driver's bson.Marshal is a parameter.
-- - Proxy (Keeping, Turns, Answering, Sending, Ending): proxy.go, `doLoop` and `DoLoopTemp`, on
--   Socket, Pool and Respond. A session's connections, the clock, the dialer and the interceptor
--   act on one state of the world, which a record of operations (Network) has as a parameter.
-- - Checked (Reading, Writing, Connection, Timeouts): connchecker.go, and messages of sock.go on such a
--   connection. net.Conn and the checker are parameters.
-- - Server (Sessions, Lifecycle, Tls): server.go and `Session.Run` of session.go. Goroutines are
--   steps on a record; how the calls of the listener, TLS and the worker factory went is an
--   argument of a step.
-- - Sni (Passing, Answering): cmd/sni_tester/sni_tester.go, its interceptor, in sessions of Proxy.
--   The driver's bson.Marshal and bson.Unmarshal and the text of an error are parameters.
-- - Util (Stripping, Tracing): util.go, `StackError`, `stacktrace` and `stripDirectories`.
--   runtime.Caller is a parameter.
-- - Config (Certificates): config.go, `ServerConfig` and `OnSSLConfig` of server.go, and the
--   configurations of the programs under cmd/. The loaders of certificates are parameters.
-- - Tests: the theorems at concrete messages, connections and pools.
--
-- Fuel: the loops over documents and sections get one round more than the buffer has bytes, and
-- each round takes a byte at least; the loop of `ReadMessage` gets one more than the bytes it asks
-- for, that of `sendBytes` one more than the bytes to send, that of `Get` one more than the pool
-- has connections. Buffers are taken to be shorter than 2 ^ 62 bytes, so that an int that counts
-- bytes does not wrap. The loop over responses in `doLoop` and the loop of `DoLoopTemp` are not
-- bounded in the program; their fuel counts responses and turns: one response is enough outside of
-- the exhaust mode, and one turn more than the client has messages. The loops of CheckedConn get
-- one round more than the connection has timeouts in a row, and that of `stacktrace` one more than
-- there are frames.
--
-- Not modelled: what is the driver's alone (bson.Unmarshal); constructors and getters that pass
-- values on, and the loggers; and of the two main functions under cmd/ the flags and the calls
-- that start a server.
pub mod Base
pub mod Word
pub mod Bytes
pub mod Bson
pub mod Wire
pub mod Serialize
pub mod Parse
pub mod RoundTrip
pub mod Forward
pub mod Relay
pub mod Msg
pub mod Socket
pub mod Namespace
pub mod Document
pub mod Respond
pub mod Pool
pub mod Proxy
pub mod Checked
pub mod Server
pub mod Sni
pub mod Util
pub mod Config
mod Tests
