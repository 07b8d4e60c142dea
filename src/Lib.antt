-- ===== src/Lib.antt =====
-- A model of the core of dn_server, a game server built on skynet: services are actors that a C
-- kernel schedules. All paths below are from the root of the repository.
--
-- How the parts interact. A service is a context (dn/skynet-src/skynet_server.c) with a message
-- queue of its own (skynet_mq.c). Every message to it is pushed to that queue; a queue that is
-- not empty waits in the one global queue, from which the worker threads take queues and dispatch
-- a message of each. Services are addressed by handles and by names, which the handle storage
-- (skynet_handle.c) resolves; a context lives as long as references to it are held. The timer
-- thread (skynet_timer.c) turns the timing wheel and pushes a message to a service whose time has
-- come.  A message to many services is shared by them and counted (skynet_multicast.c). A monitor
-- per worker (skynet_monitor.c) finds a dispatch that does not end. A message to another node
-- goes to the harbor service (dn/service-src/service_harbor.c), which knows the handles of global
-- names and writes it to the socket of that node, whose own harbor service sends it on.
--
-- Which file models which part:
-- - Common: numbers, Booleans, options and arrays, shared by all parts. An array of a fixed size
--   is a function of the index, one that grows is a list.
-- - Mq: dn/skynet-src/skynet_mq.c and skynet_mq.h. `MessageQueue` and `GlobalQueue` are the two
--   structs, and each function of the file has its name without `skynet_`. Mq/Contents reads the
--   ring as a list of messages, Mq/Refine relates push and pop to that list with Mq/Tail and
--   Mq/Head, Mq/Wakes says which push brings a queue to the global queue, Mq/Global reads
--   that one as a list, Mq/Drop is about the release of a
--   queue, and Mq/Schedule is the step relation of senders, workers and the lock of a session
--   around one queue, with `skynet_context_message_dispatch` of dn/skynet-src/skynet_server.c for
--   the worker's part.
-- - Names: the sorted table of names of dn/skynet-src/skynet_handle.c (`skynet_handle_findname`,
--   `skynet_handle_namehandle`, the loop of `skynet_handle_retire`). Names/Compare is the order
--   of `strcmp`, Names/Arrays the loops on the array.
-- - Context: `struct skynet_context` of dn/skynet-src/skynet_server.c, its references and its
--   sessions.
-- - Handle: the slots of dn/skynet-src/skynet_handle.c: `skynet_handle_register`, `_grab`,
--   `_retire`, `_retireall` and `_init`.
-- - Timer: dn/skynet-src/skynet_timer.c. Timer/Places says where a timer stands in the wheel,
--   Timer/Due what a well-placed wheel is, Timer/Wheel what adding does, Timer/Shift and
--   Timer/Update what a tick does, Timer/Fire when a timer fires, and Timer/Past what becomes of a
--   negative delay.
-- - Multicast: the counted message of dn/skynet-src/skynet_multicast.c. Multicast/Count is
--   `skynet_multicast_cast`, Multicast/Race the end of `skynet_multicast_castgroup`, and
--   Multicast/Group `combine_queue`, which merges sorted queues in the array of the members.
-- - Rwlock: dn/skynet-src/rwlock.h, access by access; Rwlock/Exclusion is what it keeps apart.
-- - Server: how a message gets to a service, in dn/skynet-src/skynet_server.c with
--   dn/skynet-src/skynet_harbor.c: `skynet_send`, `skynet_context_push`, `skynet_context_new`,
--   `_send_message`, `_forwarding` and `skynet_harbor_send` on a node that joins the handle
--   storage, the contexts and their queues. Server/Tags is about the type in the size of a
--   message and the harbor in a handle, Server/Delivery about a push to a handle, Server/Routing
--   about `skynet_send`, Server/Remote about a message to another node, and Server/Launch about
--   `skynet_context_new`.
-- - Monitor: dn/skynet-src/skynet_monitor.c with `skynet_context_endless` of
--   dn/skynet-src/skynet_server.c; Monitor/Alarm says when a check raises the alarm.
-- - Seri: messages of Lua values, dn/lualib-src/lua-seri.c: `_pack_one` and `_pack_from` in Seri,
--   `struct write_block`, `wb_push` and `_seri` in Seri/Blocks, `_push_value` and
--   `_luaseri_unpack` in Seri/Read. What the Lua interpreter gives is in the values.
-- - Ringbuffer: dn/gate/ringbuffer.c, the buffer of what the sockets of the gate receive, and the
--   loop of `mread_pull` in dn/gate/mread.c that makes room in it (Ringbuffer/Room). Layout says
--   how blocks fill the buffer, Carve, Rounds and Shrink are about new blocks, Collect and Oldest
--   about the connection that is closed, and Links about the linked blocks of a message.
-- - GlobalNames: the table of global names of dn/service-src/service_harbor.c, `_hash_search` and
--   `_hash_insert`; GlobalNames/Find reads it as a map.
-- - Harbor: dn/service-src/service_harbor.c: `struct msg_queue`, `struct harbor` and the headers
--   in Harbor, the functions on sockets and names and the branches of `_mainloop` in
--   Harbor/Remote. What the system does with sockets is the parameter `Network`. Contents reads a
--   queue as a list, Remote/Package is about the packages between two nodes, Dispatch, Waiting
--   and Order about messages to a name that is not known yet, Broken about a socket that fails,
--   Init is `harbor_init`, and Addresses, Mainloop and Run are about the invariant of the service.
--
-- Words of a fixed width are natural numbers with the wrap written out (`% 2 ^ 32`), negative
-- values their bit patterns. Asserts and writes out of bounds are results of their own. What a
-- lock protects is one step.
--
-- Bounds and fuel. The loop of `_drop_queue` has as much fuel as the queue has cells, of which
-- one is always free. `skynet_handle_register` has two rounds: a growth doubles the
-- slots; `skynet_handle_retireall` has two, the second of which finds no context. The loop of
-- `timer_shift` has five levels, four of which are enough while the time is not 0. The binary
-- search has one round more than there are names. A round of `wb_push` copies a byte or
-- more, and an unpacked value takes a byte and two calls at most. A walk over the ring buffer of
-- the gate meets fewer blocks than it has bytes, and so does the making of room. The loop of
-- `_dispatch_queue` has one round more than its queue has cells. A write of the harbor service is
-- retried as often as the code does, which has no bound: `Network` says that the retries end. A round of `combine_queue`
-- handles an entering or leaving handle or a member. Theorems on the global queue hold while
-- fewer than 65535 queues wait, those on the wheel until the 32-bit time wraps.
--
-- Not modelled. Between the read of the head of the global queue and the compare and swap no
-- other thread moves it. The table of multicast groups, the commands of skynet_server.c, the
-- start of the threads, the sockets of the gate and the master service are left out, and of lua-seri.c the reads of a chain of blocks. So are the parts that
-- only call the system or Lua (modules, sockets, the logger), and the libraries of other projects
-- in dn/jemalloc, dn/lua-protobuf and dn/luacompat.
pub mod Common
pub mod Context
pub mod GlobalNames
pub mod Handle
pub mod Harbor
pub mod Monitor
pub mod Mq
pub mod Multicast
pub mod Names
pub mod Ringbuffer
pub mod Rwlock
pub mod Seri
pub mod Server
pub mod Timer
