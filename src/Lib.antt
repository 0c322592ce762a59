-- ===== src/Lib.antt =====
-- This library models GraduationServer, the servers of a small two-player game: a login server, a
-- chatting server, a game server and a database agent, all built on the framework of StaticLib1. Bytes
-- become packets, packets become calls of handlers, and handlers change the server's tables and
-- send packets to sessions and to other servers.
--
-- Files and the code they are about:
-- - Common.antt, Common/: shared names; lists and their lengths, maps as association lists, bytes and
--   little-endian words.
-- - Stream.antt, Stream/: StaticLib1/Stream.h and Stream.cpp. A stream is its two positions and a
--   function from positions to bytes. Bytes the source never wrote are 0.
-- - Packet.antt, Packet/: StaticLib1/PacketHeader.h, PacketClass.h, PacketFactory.h. The classes stand in
--   five groups in the order of the header, one constructor each; floats and numbers are their bit
--   patterns, texts the lists of their bytes.
-- - Analyzer.antt, Analyzer/: StaticLib1/PacketAnalyzer.cpp.
-- - JobQueue.antt: StaticLib1/ThreadJobQueue.h.
-- - Sessions.antt, Sessions/: StaticLib1/Session.h, Session.cpp, SessionManager.h, SessionManager.cpp, and
--   onAccept of IOCPServer.cpp. Pointers are numbers into an explicit heap.
-- - Config.antt, Config/: what the parts read from the configuration. tinyxml and the conversions of texts are a
--   record of operations, Xml; a part that is missing makes the source use a null pointer. Config/Terminals.antt
--   is StaticLib1/TerminalManager.cpp, and Config/Startup.antt the start of StaticLib1/Server.cpp, IOCPServer.cpp
--   and ContentsProcess.cpp.
-- - World.antt: what handlers share: the sessions, StaticLib1/Terminal.cpp and TerminalManager.cpp, the
--   clock, and the packets sent. A handler is a function of the world that may be undefined.
-- - Framing.antt, Framing/: StaticLib1/IOCPSession.cpp, sending and (Framing/Receiving.antt) receiving, and
--   StaticLib1/TerminalSession.cpp (Framing/Between.antt).
-- - Contents.antt, Contents/: StaticLib1/ContentsProcess.cpp, the table of handlers; Contents/Workers.antt
--   joins workerThread of IOCPServer.cpp, the queue of packages and the threads that run the handlers;
--   Contents/Keeping.antt carries a property of the sessions through the actions of a handler.
-- - Login.antt, Login/: LoginServer/LoginProcess.cpp.
-- - Chatting.antt, Chatting/: ChattingServer/LobbyValue.h, LobbyValue.cpp, User.h, UserManager.h and
--   ChattingProcess.cpp. What the Windows conversions of a name give is a parameter.
-- - InGame.antt, InGame/: InGameServer/RoomManager.h, RoomManager.cpp and InGameProcess.cpp.
-- - SignIn.antt, SignIn/: a sign-in that goes from the login server to the database agent, back, to the
--   chatting server, to the agent, back, and to the login server. A packet between servers arrives whole.
-- - Servers.antt: the four servers, each with its table of handlers, and the states they reach.
-- - Database.antt, Database/: StaticLib1/QueryStatement.cpp and QueryRecord.cpp. ADO and the conversions of
--   texts are a record of operations, Platform, of which the theorems assume documented behaviour.
-- - DbAgent.antt, DbAgent/: DBAgent/DBAgentProcess.cpp, QI_DB_REQ_ID_PW.h, QI_DB_REQ_LOAD_DATA.h, the query
--   pool of StaticLib1/DBManager.cpp and execute and process of ADODatabase.cpp; DbAgent/Connect.antt is how
--   the workers connect. Whether the database opens for a connection string is a parameter.
-- - Threads.antt, Threads/: StaticLib1/Thread.cpp and the search for a cycle in Lock.cpp; Threads/Scopes.antt has its
--   scopes and their recursive mutexes.
-- - Tasks.antt, Tasks/: StaticLib1/Task.cpp.
-- - Util.antt: the small numeric functions of StaticLib1/Util.h.
-- - Connecting.antt: the thread of StaticLib1/Terminal.cpp.
-- - Tests.antt, Tests/: runs at concrete inputs.
--
-- Undefined behaviour, and an exception that nothing catches, is the value none: a null pointer or a deleted
-- session that is used, a buffer of a negative size, a copy that
-- leaves an array, an uninitialised length. In the start of a server it is broken, beside exits for an end of
-- the process. Numbers are natural numbers with the wrap-around of their
-- width written out.
--
-- Bounds: closing a session re-enters closeSession through the destructor; the model counts that depth,
-- and two levels are enough for a session that is alive. The loop that waits for both users of a match
-- has the three rounds of the source; what other threads do between rounds is a parameter. The loop that
-- tells both users of a room where the game server is has two passes; where no session has the id 0,
-- as in a valid manager, it ends within them.
--
-- The dead lock check adds an element to its trace in each pass; how many there is memory for is a parameter, and
-- adding one more throws. The count of nodes of a task
-- manager goes round from the greatest int to the least.
--
-- The loops of the receiving sides and of the database agent count their passes:
-- running is a loop that has not ended after so many. A sign-in counts the packets that arrive between
-- servers. The loop over a receiver's buffer gets one pass more than it has bytes, which is enough; where a loop never ends, it is running after any number. Where two
-- areas overlap, memcpy is taken to move them. The array of a terminal's session holds unknown bytes.
--
-- A job is queued or taken out as one step, which the source does under a lock; a scope is opened and closed as
-- one step each, and a thread that waits for its mutex takes none. A package and its handler are one step of a
-- single thread of handlers. ContentsProcess::run holds no lock, and a server runs as many of these threads as
-- its configuration asks for; what handlers of several threads do at once is not modelled, except where a match
-- waits for its users.
--
-- Not modelled: sockets and completion ports as such (what their calls answer comes from outside), logging, the
-- monitor, the texts of the clock, how a database is disconnected, the end of tasks and of the terminal
-- manager, the console commands of the session manager, and tinyxml, a third-party library. What a command
-- changed is only logged, and the check of a connection only reports. For the handlers a packet that is sent is an
-- event; its bytes are in Framing.antt.
pub mod Common
pub mod Stream
pub mod Packet
pub mod Analyzer
pub mod Sessions
pub mod World
pub mod Contents
pub mod InGame
pub mod JobQueue
pub mod Framing
pub mod Login
pub mod Chatting
pub mod Database
pub mod DbAgent
pub mod Threads
pub mod Tasks
pub mod Util
pub mod Servers
pub mod SignIn
pub mod Config
pub mod Connecting
pub mod Tests
