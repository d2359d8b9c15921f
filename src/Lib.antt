-- ===== src/Lib.antt =====
-- Verification library of TransferUDT, which sends files in chunks from agents to a server.
--
-- The program. An agent (AgentUDTC++_v7.2) waits until a watched file no longer grows
-- (FileStabilityChecker.cpp), finds the directory of the file below its watched root
-- (WatchedPathMapper.cpp), cuts the file into chunks whose size follows the acknowledgements
-- (AdaptiveChunkController.cpp), takes a connection from its pool (UDTConnectionPool.cpp) whose ends
-- have agreed on a session secret (TransferCore/SecurityHandshake.cpp), writes each chunk as a packet
-- (serializeChunkMessage of NetworkManager.cpp) and seals it (TransferCore/SecurePacket.cpp). The server (ServerUDTC++_v3) opens
-- the packet within the session of its connection (ClientHandler.cpp), parses it
-- (TransferCore/ChunkPacketParser.cpp), writes its bytes to the output file and its row to the
-- database (FileReceiver.cpp, Database.cpp), and lets the thread pool (TransferCore/ThreadPool.cpp)
-- finalize a file that has all of its chunks. Circuit breakers (TransferCore/CircuitBreaker.cpp) hold
-- back a peer that fails.
--
-- The files. A module has the name of the source file that it models, its definitions the names of
-- the functions in snake_case, and its records the fields of the classes:
--   Common                    bytes, words, the C++ int, lists
--   ChunkMetadata             TransferCore/ChunkMetadata.h
--   ChunkPacketParser         TransferCore/ChunkPacketParser.cpp: Reads and Paths hold its helpers;
--                             Words to Packet lead to RoundTrip and Safety
--   NetworkManager.Serialize  serializeChunkMessage of AgentUDTC++_v7.2/NetworkManager.cpp
--   NetworkManager.SendChunk  the sealing of a chunk in the same file, with the session of
--                             AgentUDTC++_v7.2/UDTConnection.cpp
--   Channel                   chunks that the agent seals and the server opens and parses
--   SecurePacket              TransferCore/SecurePacket.cpp: Crypto, Hex, Envelope, Seal, Unseal, Control
--   SecurityHandshake         TransferCore/SecurityHandshake.cpp: Texts, Ops, Bundles, Psk, Signed,
--                             Certificate; Dialogue has the two ends of a connection
--   Handshake                 the agent's and the server's end of a handshake with each other, in
--                             Steps to Agreement; Authentic has the server with any peer
--   ThreadPool                TransferCore/ThreadPool.cpp; Runs has the interleavings of callers and
--                             workers as a step relation
--   CircuitBreaker            TransferCore/CircuitBreaker.cpp
--   AdaptiveChunkController, FileStabilityChecker, WatchedPathMapper
--                             the files of these names in AgentUDTC++_v7.2
--   UdtConnectionPool         AgentUDTC++_v7.2/UDTConnectionPool.cpp; Runs has the interleavings of
--                             clients, keep-alive thread and shutdown as a step relation,
--                             CreateConnection the agent's end of the handshake
--   Server.Database           ServerUDTC++_v3/Database.cpp: tables as lists of rows, a transaction as
--                             the tables to go back to
--   Server.FileReceiver       ServerUDTC++_v3/FileReceiver.cpp: Names, Output, Receive and its child
--                             Store, Finalize; Checked, Ready, Placed and Recorded follow
--                             receiveChunk to Durable, Sound, Preserved and Freed to Kept
--   Server.ClientHandler      ServerUDTC++_v3/ClientHandler.cpp: the secure session and the client
--                             names; Handshake has the start of handleClient
--   Server.ServerConfig       ServerUDTC++_v3/ServerConfig.h: client identities and keys
-- The modules named Tests have concrete runs and the theorems applied to them.
--
-- The models. An exception is a value of a result type, or the outcome `throws` of a part of
-- receiveChunk; a part that returns early ends the call. What the program takes from elsewhere is a
-- parameter: OpenSSL (CryptoOps and OpenSsl, with records of laws where a theorem needs them),
-- std::filesystem (PathOps, FsOps), the averages of type double (DoubleOps), clocks, random bytes,
-- and in Host all that the operating system, the hash and the disk do during a call of FileReceiver,
-- where every call of the database and of the file system can fail by itself. The file receiver uses
-- the model of the thread pool for its tasks, and that of the chunk metadata for what the parser
-- gives it. Each end of a handshake is a tree of the messages that it sends and waits for.
--
-- Bounds and fuel. Numbers of 32 and 64 bits are natural numbers with the wrap-around written out,
-- except for the failure count of a circuit breaker, which is taken to stay below 2^31.
-- The wait for a stable file takes fuel: once the size has settled, each reading counts towards the
-- required ones, so that as many more are enough.
-- The groups of rows take as fuel the number of rows, since each group has at least one. A chunk is
-- written in at most five attempts, as in the program. All other recursion is structural.
--
-- Not modelled: sockets and the UDT library, the SQLite library, logging, configuration files, the
-- agent's queue, database and retries, the service and installer, and the dashboard. Calls of the
-- file receiver are taken one at a time, so that its mutexes are left out. Paths are byte strings,
-- without their spelling for Windows.
pub mod Common
pub mod AdaptiveChunkController
pub mod Channel
pub mod ChunkMetadata
pub mod ChunkPacketParser
pub mod CircuitBreaker
pub mod FileStabilityChecker
pub mod Handshake
pub mod NetworkManager
pub mod SecurePacket
pub mod SecurityHandshake
pub mod Server
pub mod ThreadPool
pub mod UdtConnectionPool
pub mod WatchedPathMapper
