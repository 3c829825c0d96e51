-- ===== src/Lib.antt =====
-- Verification of the Caladan runtime: the parts that the kernel threads and the I/O kernel
-- rest on. Everything below is C code of this repository; paths are from its root.
--
-- The program. An I/O kernel (iokernel/) gives cores to applications; each application links a
-- runtime (runtime/) that multiplexes user threads on kernel threads ("kthreads"), with its own
-- network stack (runtime/net/), on a base library (base/). Kthreads and I/O kernel talk over
-- shared-memory channels; a kthread fires its timers from a softirq; user threads park on the locks
-- of the runtime; packets travel in mbufs that come from pools through caches per thread.
--
-- Which file models which part:
--   Timer (runtime/timer.c, inc/runtime/timer.h): the timers of a kthread, a heap of arity four of
--     (deadline, entry) pairs, with the place of each entry in the heap; start, restart, cancel and
--     the softirq. The children prove what the siftings keep (Places, Inv), the heap order (Order),
--     and each operation (Start, Remove, Softirq, Check).
--   Lrpc (base/lrpc.c, inc/base/lrpc.h): both ends of a single-producer single-consumer channel,
--     the table of messages with their parity bit, and the head that the receiver writes back. Rep
--     relates a channel to the messages in flight, Refine proves it a bounded queue.
--   Sync (runtime/sync.c, inc/runtime/sync.h): mutex, read-write mutex, wait group, barrier and
--     condition variable. Sync/Mutex takes each access to the mutex's word as a step, since its fast
--     paths take no spin lock. Sync/Condvar/Timeout is about a timed wait and its timer's handler.
--   Mbuf, MbufQ (inc/net/mbuf.h, inc/net/mbufq.h): the window of data within a packet buffer, and
--     queues of packets linked through a store of `next` pointers.
--   Mempool (base/mempool.c, inc/base/mempool.h): pools of items of one length.
--   Tcache (base/tcache.c, inc/base/tcache.h): caches of items per thread, by magazines. What backs
--     a cache is an interface of operations and laws; Tcache/Pool fills it with a memory pool.
--   Tcp (runtime/net/tcp.h, tcp.c, tcp_in.c, tcp_out.c): connections. Tcp/Seq compares sequence
--     numbers; Tcp/Text is the acceptance of segments and tcp_rx_text, with the stream (Stream), the
--     out-of-order queue (Queue, Drain) and the FIN (Fins);
--     Tcp/Options parses and puts the options; Tcp/Conn is struct tcpconn with its state, its timer
--     and its failure; Tcp/Segment is __tcp_rx_conn, a chain of parts that go on or jump to the label
--     `done` (Syn, Ack, Handler), and the fast path of tcp_rx_conn (Fast); Tcp/Read is tcp_read, and
--     Tcp/Send the segmenter tcp_tx_send; Tcp/Timeouts is tcp_handle_timeouts.
--   Runq (runtime/sched.c): the run queue of a kthread, a ring with a list behind it. Runq/Ring reads
--     the queue off it, Order is the order of its threads, Refine, Locked and Ready put a thread
--     behind the others, Head and Ahead put one ahead, Next runs the first; Merge is the theft of
--     threads with its merge (Drain, Merged, Steal, Balance), Work the look at another kthread.
--   Simple (iokernel/simple.c): the simple policy of the I/O kernel, with Choose for its choices and
--     events. Simple/Valid and Attach keep its accounts, Guarantee is what a process may take from
--     another, Poll, Idle and Settled are the poll of idle cores, Notify the notice of congestion.
--   Arp (runtime/net/arp.c): the ARP table. Arp/Buckets and Valid are its order, Update the answers,
--     Lookup the cold path of arp_lookup, Age the ageing of entries, with Probe and Tick about it.
--   Common: tests, lists, memory as functions, words of bits, integers.
--
-- How the models stand for the code. State is a record with the fields of the C structure and is
-- passed on explicitly; a pointer is a number and NULL is 0, or an Option where only its presence
-- matters. What runs under one spin lock is one step, but for the mutex, so an interleaving is a
-- sequence of steps. A stop at BUG_ON is `none`; assertions of debug builds are left out. Unsigned
-- arithmetic keeps its wrap-around where a value can reach it; signed counts are integers that do
-- not overflow. The lists of inc/base/list.h are lists.
--
-- Fuel and bounds. The heap loops run on fuel that the number of timers bounds (at most
-- RUNTIME_MAX_TIMERS); the softirq runs on fuel too, and the theorem about it says how much is
-- enough; `mbufq_release` needs one turn more than the queue has mbufs; the parser of TCP options
-- runs on one turn more than there are bytes, and the theorem about it says when that is enough; the
-- segmenter of TCP needs two turns more than there are bytes to send. Buffers lie below 2^63, where
-- user space ends.
--
-- Parameters. The handlers of timers, the clock and the requests to preempt that the softirq sees,
-- the function that frees an mbuf, and the allocator behind a cache are arguments; each theorem names
-- what it asks of them. For a connection, the clock, the memory that holds the options, and what
-- becomes of a packet that is sent come with the segment; a packet is an effect, in order.
--
-- The policy of the I/O kernel asks the layer under it for parked kthreads and for a kthread to run
-- on a core; that is an interface with a state and answers of its own, of which nothing is assumed.
--
-- Not modelled: the rest of the thread scheduler and the context switch (runtime/sched.c and
-- assembly): softirqs, parking and the watchdog of schedule, and the life of threads; the other
-- network protocols, the packets of ARP and, of TCP, retransmissions, the listeners and the worker
-- thread of the timeouts (runtime/net/); the I/O kernel's other policies, the layer under them
-- (iokernel/sched.c) and its kernel module; device drivers, bindings, applications and tests. Memory orderings are taken to be sequentially consistent.
pub mod Common
pub mod Arp
pub mod Lrpc
pub mod Mbuf
pub mod MbufQ
pub mod Mempool
pub mod Runq
pub mod Simple
pub mod Sync
pub mod Tcache
pub mod Tcp
pub mod Timer
