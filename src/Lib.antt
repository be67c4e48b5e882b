-- ===== src/Lib.antt =====
-- A verification library for the C parts of coding-demo.
--
-- The parts and the files that model them:
--   C/container/list.h, circular doubly linked lists: Container. The memory holds the link fields of
--     every address, an access through NULL is a fault; Container.Ring says what a list is.
--   C/logging, the logger: log.c is Logging.Record, log_file.c is Logging.File, log_async.c is
--     Logging.Async. log_log composes a line and gives it to an output function; in the
--     asynchronous setting that is log_async_get_log, which fills buffers; the back end takes the
--     buffers under the lock and writes them by log_file_append. The two threads are one state
--     (System) and a sequence of actions in any order, each of them one critical section or one
--     stretch of code between two of them. Logging.Async.Startup is the handshake in which
--     log_async_init waits for the back end, thread by thread and step by step.
--   C/hash/cuckoohash, a hash table of two tables with eviction: Hash.Cuckoo. C/hash/simplehash,
--     one table with linear probing: Hash.Simple.
--   C/process, a tool that shows the processor time of a process and its threads: Process (the files
--     under /proc, by the paths that the code builds), Process.Report (what is printed, as values),
--     Process.Options (the command line, lps.c). The file system is an argument that answers by path
--     and by the number of the reading, and it may answer differently after a longer sleep; what
--     getopt_long gives is an argument as well.
--   C/net, servers and a client: epoll/server.c is Net.Epoll, poll/server.c is Net.Poll,
--     poll/client.c is Net.Poll.Client, select/server.c is Net.Select. What the kernel reports and
--     answers is an argument of each step.
--   C/net/raw socket, packets that are built by hand: Net.Raw (the checksums), Net.Raw.Icmp,
--     Net.Raw.Udp (client_udp_with_raw_socket.c), Net.Raw.Udp.Server (server_udp_with_raw_socket.c),
--     Net.Raw.Udp.Query (test_raw_socket_upd.c), Net.Raw.Tcp (test_raw_socket_ip.c), Net.Raw.Frame
--     (cli_raw_socket.c and srv_raw_socket.c), Net.Raw.Arp (test_raw_socket_mac_send.c and
--     test_raw_socket_mac_recv.c). A packet is the list of its bytes, on a little-endian machine.
--     Net.Raw.Layout has the headers as the RFCs describe them.
--   C/dpdk/int2str, numbers and short strings into a buffer: Dpdk.Int2str. C/dpdk/get_ids.c, lists
--     of ids such as 1,3-5: Dpdk.Ids.
--   Libc: what the code uses of the C library, written from its documentation: snprintf into a
--     buffer with its size, strncat, decimal and hexadecimal numbers, strtol, strtok, sscanf, gmtime
--     and strftime.
--   Base: lists, options and C's int for all of them.
--
-- Conventions. Functions keep the names of the source, in snake case. `none` is undefined behaviour
-- (a NULL pointer, an index out of bounds) or an abort; `Returns r P` says that a run ends without
-- it, in a value with P. Static and thread variables are records that the functions take and give
-- back; what the system answers (times, ids, results of fwrite) is an argument. A byte is a number.
-- size_t wraps at 2 ^ 64 where the source lets it.
--
-- Bounds and fuel. AYSNC_BUF_SIZE is a parameter of Logging.Async. The loops over a list of nodes
-- and over the candidates for a prime run on fuel; the theorems on them say which fuel is enough.
-- The search for a divisor of n runs on n. MAX_LOOP is 1000, as in the source, and
-- MAX_THREAD_SUPPORT is 256, as in the Makefile. A range of get_ids runs on one more than the room
-- in the array, since every turn takes a place there or ends the loop; the digits of Int2Hex run on
-- the 16 of its array.
--
-- Not modelled: the attributes of threads, and the timed wait of the back end, since the model
-- allows every order of steps; signal handlers; malloc, which succeeds; sockets being opened,
-- which is system calls only; printing for debugging; measurements; C/net/epoll/client.c, which
-- does not compile; and the parts of the repository that are copies of other projects.
pub mod Base
pub mod Container
pub mod Dpdk
pub mod Libc
pub mod Logging
pub mod Hash
pub mod Process
pub mod Net
