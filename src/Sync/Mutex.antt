-- ===== src/Sync/Mutex.antt =====
-- The mutex (runtime/sync.c, inc/runtime/sync.h). The fast paths are one atomic access to the word
-- and take no spin lock, so they come between any two accesses of a slow path. A slow path that
-- accesses the word twice is two functions here, one for each access. The word is unsigned.
pub mod Safety
mod Tests
use Prim.Native.Nat.{bit_or}
use caladan.Common.{ℕ, Bool, true, false, not, List, [], ◌∷◌, ◌++◌, ◌==◌, if◌then◌else◌}

-- `WAITER_FLAG`, the top bit of the word
abbrev pub waiter_flag : ℕ
waiter_flag = 2147483648

-- `struct mutex`, without its spin lock
pub record Mutex : Type 0 where
  pub held : ℕ
  pub waiters : List ℕ

pub init : Mutex
init = record { held = 0; waiters = [] }

-- `atomic_cmpxchg` on the word
pub cmpxchg : Mutex → ℕ → ℕ → Mutex × Bool
cmpxchg m old new = if m.held == old then (record m { held = new }, true) else (m, false)

-- `mutex_try_lock`, and the fast path of `mutex_lock`
pub try_lock : Mutex → Mutex × Bool
unfolding cmpxchg
try_lock m = cmpxchg m 0 1

-- The fast path of `mutex_unlock`
pub fast_unlock : Mutex → Mutex × Bool
unfolding cmpxchg
fast_unlock m = cmpxchg m 1 0

-- `__mutex_lock` up to the second access: the word was 0, or the thread is on the list and parks.
pub data SlowLock : Type 0 where
  races parks : SlowLock

pub slow_lock : Mutex → ℕ → Mutex × SlowLock
slow_lock m self =
    let old = m.held in
    let flagged = record m { held = bit_or old waiter_flag } in
    if old == 0
    then (flagged, races)
    else (record flagged { waiters = m.waiters ++ self ∷ [] }, parks)

-- The write that follows a race with an unlock
pub slow_lock_write : Mutex → Mutex
slow_lock_write m = record m { held = 1 }

-- `__mutex_unlock` up to the second access: nobody waits, or a thread is readied.
pub data SlowUnlock : Type 0 where
  empties : SlowUnlock
  wakes : ℕ → SlowUnlock

pop_waiter : Mutex → List ℕ → Mutex × SlowUnlock
pop_waiter m [] = (m, empties)
pop_waiter m (th ∷ ths) = (record m { waiters = ths }, wakes th)

pub slow_unlock : Mutex → Mutex × SlowUnlock
slow_unlock m = pop_waiter m m.waiters

-- The write if nobody waits
pub slow_unlock_write : Mutex → Mutex
slow_unlock_write m = record m { held = 0 }

-- `mutex_held`
pub is_held : Mutex → Bool
is_held m = not (m.held == 0)
