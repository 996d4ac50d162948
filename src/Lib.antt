-- ===== src/Lib.antt =====
-- The field server of MyMMOProject and the receiving side of its client, as a library of definitions
-- translated from the C++ sources and of theorems about them. Paths are from the repository's root.
--
-- The program. Clients send framed packets over TCP. The network library
-- (_lib/AcceptEx_IOCP_NetworkLib) collects their bytes in a ring buffer, cuts them into messages and
-- hands these to the field server (FieldServer), which keeps players, monsters and items on a grid of
-- sectors, runs their state machines every 20 ms and tells the players around a sector what happened
-- there.
--
-- The files.
-- - Base, Fault, Bytes: lists and integers over native numbers; the ways a call can fail; the bytes of a
--   number. A result `err debug_break` is the __debugbreak behind an assertion.
-- - Ring: utility/MyRingBuffer.cpp. A pointer is its offset from mBegin. Ring.Geometry has the offset
--   arithmetic, Ring.Refine the abstract view, a bounded queue of bytes, and Ring.Spsc one producer and
--   one consumer thread without a lock: a step is one access to an offset that the other thread writes,
--   or the store or the load of one byte, in program order; a thread reads its own offset together with
--   the access behind it.
-- - Message: utility/Message.h and Message.cpp. Message.Fields has the `<<` and `>>` of several fields.
-- - Framing: NetworkLib::completeRecv. The loop runs on fuel, as many turns as the ring has cells; each
--   turn that goes on takes at least four bytes, so the fuel does not end before the loop does.
-- - Packet: the packets that FieldServer/FieldServer.cpp sends (_Shared/Protocol.h) and their bytes.
-- - Batch: sendSpawnBatch, sendMonsterSpawnBatch and sendItemSpawnBatch.
-- - Sector: the grid of FieldServer/MapConfig.h, nearSectorInitalization, getAroundSectors and
--   calcDespawnAndSpawnSector.
-- - Actor: positions, directions, calcSector, getDirectionTo (_Shared/AttackConfig.h). Floats, sqrt and
--   rand are a parameter, the record Platform; Actor.Naturals is an instance for concrete runs.
-- - Monster, Player: FieldServer/Contents/Monster.cpp and Player.cpp.
-- - Field: the state of a field, its broadcast functions (Field.Broadcast) and the handlers of
--   MOVE_START, MOVE_STOP, PLAYER_ATTACK_REQ and LOOT_REQ (Field.Handlers), and monsterProc
--   (Field.Report).
--   Field.Update has fieldUpdate with its hits and drops; the players that stand in a sector and the
--   players' own sectors are tied together in Field.Update.Passes.Placed, and
--   Field.Update.Frame has what a whole frame needs. Field.Leave has handleRegisterPlayer,
--   checkDisConnectedAndLeavePlayer on a field's thread and dbResultPacketProc; Field.Serve has playerProc,
--   fieldContentsPacketProc and spawnMonsters.
-- - Session: a session slot of AcceptEx_IOCP_NetworkLib.cpp and Session.cpp under all threads. A step is one
--   interlocked operation, one queue operation under its lock, or one call of the system, in any
--   interleaving; a thread may be a worker or a user of the library at any time. Session.Threads has the
--   steps, Count what each place in the code accounts for, Lifetime the theorems.
-- - Auth: escapeSqlString and isValidId; isalnum is a parameter. Auth.Thread has authThread with
--   handleAuthReq, authNotifyPacketProc, enterField and checkDisConnectedAndLeavePlayer on that thread, and
--   onAccept and onRelease, which feed it; the queries to MySQL are a parameter, the record Database.
--   Auth.Thread.Steps has the thread's parts, the network's callbacks and the fields as steps in any
--   order that authThread's loop allows; a session id is that of one player at a time.
-- - Db: dbThread's jobs; MySQL and Redis are a parameter, the record Store.
-- - Player.Queue: Player::EnQueueMsg, DeQueueMsgOrNull and FieldServer::onRecv, on Ring.
-- - Client: what the game client (ClientProject) does with what it receives. Client.Network has Unmarshal and
--   PopPacket of Network/Network.cpp, Client.Scene packetProc of Scene/FieldScene.cpp and its handlers, and
--   Client.World the actors that they change (Actors).
-- The Tests modules hold runs on concrete inputs.
--
-- Bounds. Numbers are natural numbers, with the source's w-bit wrap-around written out where a client
-- can drive a value; frame counters, hit points and the counts of a batch (int16_t, so fewer than 2^15
-- records) are taken not to overflow. The references in mIOcnt, or the locks that are refused between a
-- release and the slot's next life, are fewer than 2^14, so that they do not carry into the release bit.
-- The loop of rollDrop runs on fuel for 1,000 draws: each is thrown away with probability 68 / 32768, and
-- the one theorem that rests on it names the run in which all of them are. mSenqQSize wraps around as a
-- short. The completion of AcceptEx is taken after mIOcnt is set; Session.Tests has a run where it is not. A
-- signed or floating-point field of a packet is its bit pattern. On the authentication thread fewer than a thousand
-- players (CONFIG_DISCONNECT_AND_LEAVE_CAP) are there at a check, so it looks at all of them, and a
-- callback is one step; enterField's wait for room in the queue (THREADQ_FULL) is over. A
-- message is counted in mSendMsgCnt before it is taken out. At most 3,749
-- messages wait in the client's packet queue, a ring of 30,000 cells with eight for each. Unmarshal's
-- loop runs on fuel, as many turns as its ring has cells; a turn that goes on takes three bytes at least.
--
-- Not modelled: the order in which an unordered container is walked (a list stands for it); the
-- reordering of memory accesses by the hardware; socket options, and the start and stop of the network
-- library; counters and console output; the client's rendering, key input, user interface and
-- requests; the test bots; the wrappers of MySQL's client library; and the copies of cpp_redis and
-- tacopie, which are third-party code.
pub mod Base
pub mod Fault
pub mod Ring
pub mod Bytes
pub mod Message
pub mod Sector
pub mod Actor
pub mod Monster
pub mod Player
pub mod Packet
pub mod Framing
pub mod Batch
pub mod Session
pub mod Field
pub mod Auth
pub mod Db
pub mod Client
