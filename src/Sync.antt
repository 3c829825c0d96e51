-- ===== src/Sync.antt =====
-- runtime/sync.c and inc/runtime/sync.h: locks on which user threads park. Threads are numbers, a
-- list of waiters is a list of threads, oldest first. What runs under the spin lock of an object is
-- one function, but for the mutex; threads handed to `thread_ready` are returned.
pub mod Mutex
pub mod RwMutex
pub mod WaitGroup
pub mod Barrier
pub mod Condvar
mod Tests
