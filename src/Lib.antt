-- ===== src/Lib.antt =====
-- grt runs Lua tasks on a pool of worker threads. Its core, src/ltask, is four layers of C: a
-- spin-locked queue of pointers, a map from handles to counted pointers, a scheduler that keeps
-- tasks and channels in two such maps and their ids in such queues, and a serializer that turns the
-- arguments of a message into a chain of blocks. Around it are a read-write lock that the handle
-- map uses, a timer (src/timer), sockets and pollers (src/async), and what Lua calls of an HTTP
-- parser (src/http) and of a table of services (src/system).
--
-- Where each part is modelled:
--   Queue       src/ltask/queue.c: queue_create, queue_push, queue_pop, queue_empty, queue_release,
--               under the same names; expand and copy_loop are the branch of queue_push that grows.
--   HandleMap   src/ltask/handlemap.c: handlemap_init, _new, _grab, _release and _list; probe is
--               the loop of handlemap_new and move_loop that of expand_map. HandleMap/Find has the
--               abstract view, a partial function from handles to slots. HandleMap/Sharing has threads
--               that share one handle, in any order of their steps.
--   Schedule    src/ltask/schedule.c: each operation is a step on a record of the two maps, the
--               ready queues and the memory of tasks and channels. Schedule/Views says what a live
--               task and an open channel are, Schedule/Whole what a well-formed state is, and
--               Schedule/Operations has any sequence of operations,
--               Schedule/Choice the channel that schedule_select chooses.
--   Serial      src/ltask/serialize.c: Blocks has write_block and read_block, Pack the writers and
--               Unpack the readers. Format is the byte format as a function of the value.
--   Lock        src/ltask/simplelock.h: the read-write lock. Each atomic access of rwlock_rlock,
--               _wlock, _runlock and _wunlock is one step; Reaches has every order of the steps of
--               any number of threads.
--   Timer       src/timer/timer.c: the heap of events under the names of the source; the events are
--               a memory that the heap points into, and a callback is a parameter. Timer/Order and
--               Timer/Sink have the order of the heap while an event moves up and down, Timer/Tally counts
--               the events; Timer/Up, /Down, /Remove and /Fire have the operations,
--               Timer/Round and Timer/Update the loop of timer_update.
--   SelectPool  src/async/socket_select.h: the table of sockets under sp_create, sp_add, sp_del and
--               sp_write; expand_pool is _expand.
--               SelectPool/Wait is sp_wait: fill_sets and collect are the loops of a round; SelectPool/Sets has
--               the two sets that it fills.
--   Threads     src/ltask/simplethread.h: thread_join on POSIX threads, over a record of the calls of the
--               system; start_loop and wait_all are its loops.
--   Worker      src/ltask/ltask.c: worker_func as steps of any number of workers on the queues, the
--               suspend words and the events of src/ltask/simplethread.h; turn is one step, and a failed
--               assertion ends the program. Worker/Wake has a sleeper through the loop of another worker.
--   Ltask       src/ltask/ltask.c: the Lua functions under their names, over Schedule and Serial;
--               finish_slice is the end of run_slice.
--   Socket      src/async/socket.c: the Lua functions under their names, over a record of system calls;
--               bind_loop, fetch_loop and send_loop are their loops.
--   Epoll       src/async/epoll.c over src/async/socket_epoll.h, over a record of the calls of the kernel.
--               fill_loop is the loop of lepoll_wait, row_at finds or makes the table of an entry;
--               Epoll/Watch has what the calls of epoll.ctl promise, Epoll/Report both together.
--   Kqueue      src/async/socket_kqueue.h, over a record of the calls of the kernel: `change` and `collect`
--               are the two ways in which it calls kevent. Kqueue/Notes has the filters that the calls
--               leave in a kqueue, Kqueue/Report what sp_wait then gives.
--   Http        src/http/http_parser_lua.c: the callbacks under their names, on the Lua table; put_head and
--               get_head are lua_rawset and lua_rawget, HttpParser is the parser.
--   Services    src/system/system.c: lget and lset on the array srv_table.
--   Base        tests, arrays, bit masks, slices of lists, and the type of runs.
--
-- A C function becomes a function to Run, whose outcomes are a value, a failed assertion,
-- undefined behaviour (an access outside an array, of a cell never written or through NULL, an offset
-- of l_write that overflows), an error raised to Lua, and the end of a loop's fuel. So a theorem that
-- a call is `ok` says that none of these happens. State is passed on explicitly. Operations that the
-- code protects by a lock are single steps.
--
-- Numbers are natural numbers; unsigned ints wrap by % 2 ^ 32, and the counts of references are
-- integers. The ints of the code are written out where they can pass 2 ^ 31: the length of
-- write_block (its 32 bits) and the one that rb_init reads (0 for a negative one, for which rb_read
-- gives NULL as well), the capacity of the handle map times 3 and times 2, the offset of l_write.
-- Those of the queue, of the timer's heap and of the tables of sockets stay small.
--
-- Fuel: handlemap_new tries two rounds of ids, seri_unpack has four units a byte, schedule_send as
-- many rounds as its queue has cells, and the two loops of the timer's sifting as many as cells can be
-- passed. Those of handlemap_new, of seri_unpack on any blocks, of schedule_send and schedule_grabtask
-- on a well-formed state, of the timer's loops, of l_write and of sp_wait are proved to be enough.
-- timer_update takes its fuel as an argument, since a callback may add events for ever; Timer/Update
-- says how much is enough for callbacks that leave the timer alone.
--
-- What is a parameter: whether an allocation succeeds, and what malloc leaves in a new block of the
-- serializer (any 128 bytes); what a callback of the timer does; what a Lua state does when it is
-- resumed; the HTTP parser; the system calls of the sockets and of the pollers, and what POSIX and
-- the manuals say of them. A Lua value is what the Lua API shows of it; a table is its values at 1
-- .. rawlen and its other entries in the order of lua_next, and a table that is read back is the
-- sequence of its stores. Numbers and pointers are the bytes that memcpy moves, lowest first.
--
-- Not modelled: the HTTP parser, a copy of another project's library; the Windows variant of threads;
-- the memory order of the atomic builtins, which is taken to be sequentially consistent.
pub mod Base
pub mod Queue
pub mod HandleMap
pub mod Serial
pub mod Schedule
pub mod Lock
pub mod Timer
pub mod SelectPool
pub mod Threads
pub mod Worker
pub mod Ltask
pub mod Socket
pub mod Epoll
pub mod Kqueue
pub mod Http
pub mod Services
