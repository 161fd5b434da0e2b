-- ===== src/Lib.antt =====
-- Verification library for the game server: the path of a message between the game and the
-- socket, the two gates that a client passes before it is in the game, the coins of accounts, the
-- tree of the names of players, parties, items that decay, how players
-- advance, and the deferred work.
--
-- The program. A client opens a connection. `Ban::acceptConnection` throttles the attempts of its
-- address. `Connection` reads frames: a header of two bytes with the size of the body, then the
-- body. The first frame selects a protocol by its identifier; every later one goes to
-- `Protocol::onRecvMessage`, which decrypts it and calls `parsePacket`. What the game answers is
-- written to a `NetworkMessage`, framed and encrypted by `Protocol::onSendMessage`, and put in the
-- queue of messages of the connection, of which one at a time is on its way. A player who logs in
-- passes the `WaitingList` of a full server. Whatever has to happen later is a task: `Scheduler`
-- keeps the timed ones and hands them over to `Dispatcher`, whose thread runs the game.
--
-- Base: shared names, Boolean tests, lists measured by native numbers, words, bits.
-- Network: src/server/network, and the codes that it uses.
--   Network.Message: NetworkMessage (message/networkmessage.h and .cpp). The array of
--     NETWORKMESSAGE_MAXSIZE = 24590 bytes is a function of the index; `info` is the length, the
--     position and the overrun; `add<T>` and `get<T>` take the width of T in bytes, and words are
--     little endian, as on every machine that the server is built for. Each method is a function
--     from the message to the message. Bytes has loads and stores, Access what one store changes,
--     Fields the single fields, RoundTrip and Bounds sequences of calls.
--   Network.Output: OutputMessage (message/outputmessage.h): the headers are written in front of
--     the body, from the position 8 down. A failed assertion is `none`.
--   Network.Xtea: src/security/xtea.cpp. Blocks are pairs of words; the two templated loops are
--     recursions on the number of rounds, which is 32. Data that is no whole number of blocks is
--     `none`, as it fails the assertion.
--   Network.Adler: adlerChecksum of src/utils/tools.cpp. The outer loop, which takes up to 5552
--     bytes a turn, is a recursion on the number of bytes, which is enough since each turn takes
--     at least one. Reference has the sums by remainder.
--   Network.Protocol: Protocol (protocol/protocol.h and .cpp) with its key, its sequence number
--     and its settings. Memory, Frame and Unframe have what sending writes and receiving reads.
--   Network.Connection: Connection (connection/connection.h and .cpp) and make_protocol of
--     src/server/server.cpp. A handler returns the new state and the requests that it makes of
--     boost::asio (read so many bytes, write, close), in their order.
-- Login: src/creatures/players/management.
--   Login.Ban: Ban::acceptConnection (ban.cpp). The map of addresses is an association list; the
--     times are 64-bit words, compared with sign where the code does.
--   Login.WaitingList: waitlist.cpp, with both lists, the cleanup and the login of a client. Undefined
--     behaviour, the erasure of an iterator of another list, is `none`.
-- Grouping: Party (src/creatures/players/grouping/party.cpp), the handlers of src/game/game.cpp that
--   reach it, and the pointers of src/creatures/players/player.cpp. Players are their numbers, parties
--   their addresses; `World` has the parties that live and the pointers of the players, and a
--   pointer to a deleted party that is followed is `none`. State has the objects, Experience the
--   shared experience, Party the methods, Handlers the calls from outside, Invariant what they
--   keep, Preserved and Disband the methods' proofs, Histories sequences of calls.
-- Accounts: Account (src/creatures/players/account/account.cpp) and the tasks of
--   src/database/databasetasks.cpp. The database is an interface with the answers to queries; a task
--   is an update that waits in the list `pending`, and `settle` carries all of them out; `running` is
--   whether the thread of the database runs, without which a task is dropped.
--   Accounts.Coins compares sequences of deposits and withdrawals with a ledger.
-- NameTree: WildcardTreeNode (src/utils/wildcardtree.cpp), the tree of the names of players. The loops
--   along a name are recursions on it, and the loop down a branch is one on the tree. Names has the
--   set of names that a tree holds, Shape how its nodes look, Removal the names
--   after a removal, Search what a query finds.
-- Decay: Decay (src/items/decay/decay.cpp), the attributes of src/items/item.h that it uses, and
--   Game::startDecay, Game::stopDecay, Game::ReleaseItem and the items of Game::cleanup
--   (src/game/game.cpp). The map is a list of entries that ascends; time stamps are milliseconds far
--   below 2 ^ 63, and an operation takes place at one time. What Game::internalDecayItem does to items
--   is a list of calls, which depends on the item and on the state of all items: to start and stop a
--   decay, to change an item, and to take and release references; an iterator whose entry they erase is
--   `none`. ToReleaseItems is two lists, of what decay released and of what the rest of the game did,
--   and `game_references`, which no operation reads, counts the references of the latter. The scheduler
--   is that of Scheduling, with the checks as its only events, and `dispatched` counts those that it
--   has handed over. Items has the attributes, Entries the map, Timetable the operations,
--   Places, Checks and Order what they change, Histories and Keeping sequences of calls and what they
--   keep, Counting and References the counted references, Ascending the order of the map, Due what a check
--   does, Pending, Awaiting and Vigil the next check.
-- Advancing: levels by experience, skills and magic levels (src/creatures/players/player.cpp), and
--   what a vocation requires (src/creatures/players/vocations/vocation.cpp). Powers and shares in
--   floating point are parameters; percentages, which are only shown, are left out. Every round of the
--   loops over levels takes at least one try or one point of experience, which is their fuel.
--   Vocation has the caches, Requirements what they answer, Tries the loops, Sums, Totals and Losses
--   what gains and losses come to, Ledger histories; Experience has the level by experience, ExpTable
--   the table, Levels the loops, Careers histories.
-- Loading: src/io/fileloader.cpp and fileloader.h.
--   Loading.FileLoader: the nodes of a file. A file is a list of bytes, an iterator the list of those
--     that are left; the loop has the bytes left as its fuel, since a round takes one at least.
--     Encoding has the format from a writer's side, Runs the loop without its fuel, Placed and
--     RoundTrip the nodes of a tree.
--   Loading.PropStream: both streams of properties; Streams has what is read of written bytes.
-- Items: the attributes of an item (src/items/item.h and item.cpp) that are saved with it. Attributes
--   has the maps of numbers, strings and custom attributes, Serialize the loading, Saving the
--   saving. A case of the switch of readAttr is what is read and where it goes; the loop has the bytes
--   left as its fuel, since a round takes one at least. `taken` is where Game::addUniqueItem refuses an
--   identifier, as another item has it. Effects has what an attribute makes of the
--   item that is loaded, Loaded, Fields and Customs the loading of each that was saved, RoundTrip that of
--   all, Choices and Restored what the item has then.
-- Scheduling: src/game/scheduling.
--   Scheduling.Queue: TaskComparator, and what the scheduler relies on of std::priority_queue with
--     it, as an interface;
--     Scheduling.ListQueue meets it.
--   Scheduling.Scheduler: Scheduler (scheduler.cpp); since each call holds the lock, an interleaving
--     of threads is a list of whole calls (Events), and the rounds of the thread at one time are
--     a loop of as many rounds as there are tasks (Progress).
--   Scheduling.Dispatcher: Dispatcher and Task (tasks.cpp); Order has sequences of rounds.
-- Tests: runs on concrete inputs.
--
-- Not modelled: addDouble (floating point); the RSA step of a login and the exceptions of
-- boost::asio (outside libraries); the pool of output messages, which sends by a timer; the
-- queries of bans, and those that save an account (a database);
-- the waiting on condition variables; the rules of the game itself (map, creatures, items,
-- combat), what an item does when it has decayed, the loading of maps and settings, and the script engine.
mod Base
pub mod Network
pub mod Login
pub mod Grouping
pub mod NameTree
pub mod Accounts
pub mod Decay
pub mod Advancing
pub mod Loading
pub mod Items
pub mod Scheduling
mod Tests
