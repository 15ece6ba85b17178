-- ===== src/Lib.antt =====
-- NetChat's server: a chat service over TCP sockets, protobuf packets and SQLite.
--
-- `Server` (src/Server/Server.h, src/Server/Server.cpp) waits on epoll and gives each socket that can
-- be read to a worker thread, which runs `processRecvSocket`: it receives one packet, answers it by a
-- switch on the packet's type, sends the reply and runs the callback that the case left. The cases call
-- `DataAccess` (users, files and messages in SQLite), `UM` (the pools of challenges, tokens, senders
-- and file messages that the threads share), `FileStorage` (uploaded files on the disk) and the
-- functions of include/utils/crypto.h. A user who has set up a channel has a `KeepAliveMsgSender`, whose
-- queue the callbacks of other users' requests fill.
--
-- How the files correspond to the code:
-- - Exec: code that may throw or end the process, as functions on an explicit state. Inversion, Returns
--   and Preserves below it are the rules by which the proofs take such code apart.
-- - Proto: the messages of proto/messages.proto and `PacketType` of include/message.h.
-- - Entities: `User`, `Group` and the fields of `FileStorage` (include/user.h, include/group.h,
--   include/file_storage.h). Constructors that take `data()` of a string stop at a zero byte.
-- - Sql: the statements that the program makes and its schema (include/db_access.h). SQLite itself is
--   the interface `Sqlite`, whose laws are the documented behaviour of SELECT, INSERT and UPDATE;
--   Sql/Memory is an engine that meets them.
-- - DataAccess: `class DataAccess` (src/db/db_access.cpp), an operation for each method.
-- - UserManager: `class UM` (include/user_manager.h) over the pools that `Server` keeps. Each method holds
--   the mutex of its pool and is one step. Dict is std::unordered_map.
-- - PacketQueue: the interface of `ThreadsafeQueue`; include/threadsafe_queue.h is a copy of a file of
--   ps-lite, so the queue is a parameter.
-- - FileStorage: its methods that touch the disk (src/file/file_storage.cpp), over a file system that is
--   a parameter.
-- - Crypto: include/utils/crypto.h. libsodium and `rand` are parameters.
-- - Van: src/van.cpp and `SendMesg`, `RecvMesg`, `Control` of src/Server/server_van.h. The system calls,
--   numbered in order, and protobuf's wire format are the parameter `Network`.
-- - Server/State: the server's state (`Server`), what it runs on (`Env`), the packets and callbacks of
--   the cases. Server/Account, Server/Messaging and Server/Transfer: the cases of the switch with their
--   callbacks. Server/Process: the switch and `processRecvSocket`. The modules below each hold the proofs.
-- - Server/KeepAlive: the thread of a sender beside those that fill its queue, as a step relation.
-- - Server/EventLoop: `Accepting` and the workers of src/Server/server_van.h, a call of `processRecvSocket`
--   in one step.
-- - Server/Threads: `processRecvSocket` as a sequence of atomic steps (calls that hold a mutex of `UM`,
--   statements of SQLite, file operations, the receiving or sending of a packet), one module for each group
--   of packets. Server/Workers: any number of workers in such steps beside `Accepting` and the threads
--   of the senders. What a worker has learnt by its questions (getUser, getAllMessages, getUserIdByToken)
--   stands in the type of the rest of its run, and Server/Workers/Knowledge is the interface by which a
--   property of the server follows from it. Server/Workers/Traffic is what an interleaving pushes to a
--   user and tries to send, and Server/Workers/Delivery finds in it a run of the user's sender as
--   Server/KeepAlive has it. Server/Workers/Schedule runs an interleaving, given whose turn it is.
-- - Server/Start: `main` (src/main.cpp), the constructors of `Van`, `ServerVan` and `Server`, `Bind`;
--   DataAccess/Opening: the constructor of `DataAccess` with `checkAndCreateTables`.
-- - Tests: concrete surroundings, and the model run in them.
--
-- Numbers: an `int` is an integer that is cut to 32 bits where the code converts to it (to_int), and
-- the counters of `Van` wrap at 2^64. A string is the list of its bytes.
--
-- Fuel: the loop of `RecvMesg` runs on 2^20 + 1 rounds, one more than the buffer has bytes, and each
-- round that goes on brings a byte; the loop of `SendMesg` runs on the length of the packet, and each
-- round that goes on sends a byte.
--
-- The callbacks capture `uid` and `receiver_id` by reference and run after these variables are gone;
-- the model gives them the values that the variables had. Where `SendMesg` would read past its buffer
-- (a packet over 1 MiB) the model ends with `overread`.
--
-- Not modelled: the options of sockets; steps finer than those of Server/Threads, so that a receive, a send
-- or a round of a sender's thread is one step there; `KeepAliveQueue_`, which nothing reads; the
-- destructors, which join threads that never end; foreign keys, which SQLite does not check here; logging
-- and the build.
pub mod Prelude
pub mod Exec
pub mod Proto
pub mod Sql
pub mod Entities
pub mod DataAccess
pub mod Crypto
pub mod Dict
pub mod PacketQueue
pub mod FileStorage
pub mod UserManager
pub mod Van
pub mod Server
pub mod Tests
