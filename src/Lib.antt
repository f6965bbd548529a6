-- ===== src/Lib.antt =====
-- A verification of linuxPrograms, a collection of small C libraries and demonstration programs for
-- Linux: data structures, checksums, socket helpers, servers and daemons. The parts are independent of
-- each other. Each modelled part is a module:
--
--   Crc         crc/crc16.c and crc/crc32.c: `CRC16` and `CRC32` with their tables. Crc/Serial has the
--               bit-serial register that both are compared with.
--   DataStruct  dataStruct: the queue in a circular array (ArrayQueue, queue/src/queueArray.c), the
--               queue as a chain of nodes (LinkQueue, queue/src/queueLinkList.c), the list
--               (SingleList, list/src/list.c) and the binary search
--               tree (BinaryTree, bitree/bitree.c). Fifo is what a queue promises, Heap the memory
--               that the nodes stand on.
--   Sockets     sockapi/libsrc/etcp.c: `readn`, `writen` and `readvrec` over a source and a sink
--               (Sockets/Stream) that cut data up and interrupt calls, in Sockets/Text `readline`, in
--               Sockets/Setup the clients and servers, and in Sockets/Connect the loops
--               of `inetConnect` and `inetPassiveSocket` over the addresses of `getaddrinfo`.
--   Epoll       IOModels/epoll/epollTcpServer/src/op_epoll.c: the table of clients of the server, and
--               `op_read` and `op_write`, which delete a client that is gone from it. Epoll/Serve is the
--               loop of `start_server`, which queues tasks on a pool that is an argument, and the handler of
--               epollTcpServer/test/test.c.
--   Poll        IOModels/poll/serverModel.c: `TransmitPending`, which sends what is pending on a
--               connection (Poll), the tables of connections and watched descriptors with the functions
--               that open and close a connection (Poll/Tables), the listening socket (Poll/Listen), and
--               the loops of a round of the server with its state machine (Poll/Turn).
--   Select      IOModels/select/serverModel.c: the table of connections (Select), `TransmitPending`
--               (Select/Send), the loops over the ready connections (Select/Turn), the state machine and
--               the hooks of `ServerRun` (Select/Run), and a round of `ServerModelMain` (Select/Round). It
--               has the shape of the server with `poll`, whose loop over the listening addresses it
--               shares. Its misspelt names are read as those that are declared,
--               but for `maxSocket`, which is a variable of its own.
--   Heartbeat   sockapi/demo: the loops of the clients and servers of heartBeat1 (Heartbeat) and of
--               heartBeat2 (Heartbeat/Channel).
--   Serial      serialPortapi/uart.c: `set_uart_attr` as a function on the flags of `struct termios`.
--   Common      shared names and lemmas: lists indexed by numbers, `int`, bit operations, rings.
--
-- A C function is the function of the same name in snake case. A call of the C library or of the
-- kernel is an argument that holds what the call returned: the block of `malloc`, whether a pthread
-- call succeeded. `none` of a result stands for undefined behaviour, an access through NULL or out of
-- range. An `int` whose sign or range matters is an integer, a count or an index a natural number; the
-- bounds under which nothing wraps are hypotheses of the theorems or follow from the checks of the
-- code. The loops of the code go over a list, a tree or a count, and need no fuel, but for those
-- named below and the loops over `read` and `write`: there a unit of fuel is one call, and the interruptions still to come
-- and the bytes asked for are enough, and `none` also stands for a loop that the fuel does not end; the
-- rounds that discard a long record are bounded by its length.
--
-- The loops of `TransmitPending` and of the state machines have fuel that counts their rounds, the
-- deletion of a tree fuel that is its depth. The state machine of a connection of the poll server needs one round, that of the select
-- server two.
--
-- What the select server calls and does not have, its hooks and the states whose functions are declared
-- nowhere, are arguments of its functions.
--
-- Not modelled: printing, what other threads do while a handler of the
-- epoll server runs, the parts of the repository that only chain system calls, and copies of other
-- projects: the thread pool and the programs of The Linux Programming Interface.
pub mod Common
pub mod Crc
pub mod DataStruct
pub mod Sockets
pub mod Epoll
pub mod Poll
pub mod Select
pub mod Heartbeat
pub mod Serial
