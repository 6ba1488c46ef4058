-- ===== src/Lib.antt =====
-- A verification library beside the game server: models of its components, and theorems on them.
--
-- Common holds what the others share: tests on numbers, lists, `std::map` as an association list,
-- machine words, byte buffers with `memcpy`, fields of many objects as functions from their numbers,
-- integers with their sums, products and indexes, and the doubles of the library as an interface.
--
-- Net is the network side.
-- * Net/Throttle models `Ban::acceptConnection` (src/ban.cpp): the table of addresses is an
--   association list, `OTSYS_TIME()` is an argument, and all arithmetic of `uint64_t` is written out.
-- * Net/Message models `NetworkMessage` (src/networkmessage.h, src/networkmessage.cpp): the buffer is
--   a function from places to bytes, a text is a list of bytes, and `add<T>` and `get<T>` take the
--   size of T. The host is little-endian. `addItem` and `addDouble` (item tables, floats) are left out.
-- * Net/Xtea models the cipher loops of src/protocol.cpp, Net/Checksum `adlerChecksum` (src/tools.cpp).
--   The `while` loops over a buffer recur on the rounds that the length gives.
-- * Net/Protocol models `OutputMessage` (src/outputmessage.h), the encryption and decryption of
--   messages in src/protocol.cpp, and how src/connection.cpp reads a message from the socket's bytes.
--   RSA is done by a library and is an argument.
-- * Net/Connection models src/connection.h and src/connection.cpp: a connection's state with what its
--   socket and timers were asked, and one function per handler. A run is a list of steps in any
--   order, each with the errors and refusals of the library as arguments, except that a write ends
--   only when one is in flight. The manager's set is a field of each connection.
-- * Net/Server models the port of a service in src/server.h and src/server.cpp: which accept waits,
--   what an error schedules, whether the library throws before the acceptor is open or after, and how a
--   new connection goes through the throttle.
--
-- Files/Otb models the loader of src/fileloader.cpp: the parser's loop is a function from states and
-- bytes to states, a throw is `none`. Files/Streams models the two streams of src/fileloader.h.
--
-- Login/WaitList models the queue of src/waitlist.cpp. The clock's readings, the configured number of
-- players and the number online are arguments. `Login` has a third outcome where the code erases an
-- entry from a list that does not hold it.
--
-- Names/WildcardTree models src/wildcardtree.h and src/wildcardtree.cpp, the tree that finds an
-- online player by the start of a name. The tree's recursion takes the place of the loops.
--
-- Tasks holds the two threads that run the server's work.
-- * Tasks/Scheduler models src/scheduler.cpp: its heap is the list of its tasks, from which any task
--   that is due first may be popped. Tasks/Scheduler/Threads has the runs of its thread among the
--   calls of other threads, as steps in any order.
--   A timeout with an emptied heap, where the code has no meaning, ends the thread's part of a run.
-- * Tasks/Dispatcher models src/tasks.cpp and the stop of src/thread_holder_base.h: a run is a list of
--   calls and of rounds of the thread.
--
-- Social/Party models src/party.h and src/party.cpp, with what src/player.cpp and src/game.cpp add:
-- a player's invitations, and the requests that players make. Players and parties are numbers, for
-- their addresses; one record holds the pointers from players to parties and the parties, since
-- an operation of a party changes other players too. Levels, positions, the clock and the answers of
-- scripts are a record of arguments, `Context`; rates are in hundredths in place of floats.
--
-- Social/Trade models the trades of src/game.cpp: the states, partners and offers of players, the
-- table of items on offer, and which player has an item, on it or in a container. What the requests ask
-- of the map, of items and of scripts, what lies in an item, how the moves of items end, and which calls
-- try to close the trade meanwhile, are records of arguments, `Request` and `Transfer`.
--
-- Social/Chat models the channels of src/chat.h and src/chat.cpp, and the requests about them in
-- src/game.cpp. Each map of channels is an association list, a pointer to a channel is the map and the
-- key, and a player's pointer its id and guid. What scripts answer is an argument, `Scripts`. The loop
-- over the numbers of private channels has fuel for all 9900 of them. Left out: the file of channels.
--
-- Combat/Area models the areas of spells in src/combat.h and src/combat.cpp: matrices as functions from
-- rows and columns, with `none` for a write outside; the copies that `copyArea` makes; and the areas of
-- the directions. The code turns offsets with doubles: `Doubles` (Common/Doubles) has the library's
-- operations as an argument, with how close a sine or a cosine of a right angle and its product with a
-- 32-bit integer are to integers, and that a sum of two such products rounds to the integers' sum. The
-- lists for a spread and for a radius are made of their rows. Left out: getList, which looks at the map.
--
-- Not modelled: players, creatures, items, tiles, houses, conditions, spells, monsters and the rest of
-- src/game.cpp, which these models touch only where a file above says so; the game protocols, which lay
-- out messages with the calls of Net/Message; the pool of src/outputmessage.cpp; SQL, XML, Lua, sockets
-- and threads of libraries, whose answers are arguments; and formulas on floats or random numbers.
pub mod Common
pub mod Combat
pub mod Files
pub mod Login
pub mod Names
pub mod Net
pub mod Social
pub mod Tasks
