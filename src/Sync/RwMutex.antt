-- ===== src/Sync/RwMutex.antt =====
-- The read-write mutex (runtime/sync.c). The count is that of the readers, or -1 for a
-- writer; there are fewer threads than an int can count.
pub mod Safety
mod Tests
use caladan.Common.{
  ℕ, suc, ◌+◌, ◌-◌, Bool, true, false, ◌&&◌, List, [], ◌∷◌, ◌++◌, ltb, if◌then◌else◌,
}
use caladan.Common.Int.{ℤ, pos, negsuc, ◌+ℤ◌, ◌-ℤ◌, ltb_ℤ, leb_ℤ, eqb_ℤ}

-- `struct rwmutex`, without its spin lock
pub record RwMutex : Type 0 where
  pub count : ℤ
  pub read_waiters : List ℕ
  pub write_waiters : List ℕ
  pub read_waiter_count : ℕ

-- Whether the caller has the lock or parks.
pub data Outcome : Type 0 where
  acquired parked : Outcome

-- The threads that an unlock readies.
pub data Woken : Type 0 where
  nobody : Woken
  readers : List ℕ → Woken
  writer : ℕ → Woken

abbrev pub zero_count : ℤ
zero_count = pos 0

abbrev pub one_count : ℤ
one_count = pos 1

abbrev pub write_held : ℤ
write_held = negsuc 0

pub init : RwMutex
init = record { count = zero_count; read_waiters = []; write_waiters = []; read_waiter_count = 0 }

pub rdlock : RwMutex → ℕ → RwMutex × Outcome
rdlock m self =
    if leb_ℤ zero_count m.count then (record m { count = m.count +ℤ one_count }, acquired) else (
      record m {
        read_waiter_count = m.read_waiter_count + 1;
        read_waiters = m.read_waiters ++ self ∷ [];
      },
      parked,
    )

pub try_rdlock : RwMutex → RwMutex × Bool
try_rdlock m =
    if leb_ℤ zero_count m.count
    then (record m { count = m.count +ℤ one_count }, true)
    else (m, false)

pub wrlock : RwMutex → ℕ → RwMutex × Outcome
wrlock m self =
    if eqb_ℤ m.count zero_count
    then (record m { count = write_held }, acquired)
    else (record m { write_waiters = m.write_waiters ++ self ∷ [] }, parked)

pub try_wrlock : RwMutex → RwMutex × Bool
try_wrlock m =
    if eqb_ℤ m.count zero_count then (record m { count = write_held }, true) else (m, false)

-- `list_pop` on the writers that wait, at a count of 0
wake_writer : RwMutex → List ℕ → RwMutex × Woken
wake_writer m [] = (m, nobody)
wake_writer m (th ∷ ths) = (record m { count = write_held; write_waiters = ths }, writer th)

-- Behind the first `if`. The readers are readied off the list that `list_append_list` has emptied.
wake : RwMutex → RwMutex × Woken
unfolding wake_writer
wake m =
    if eqb_ℤ m.count zero_count && ltb 0 m.read_waiter_count
    then (
      record m { count = pos m.read_waiter_count; read_waiter_count = 0; read_waiters = [] },
      readers m.read_waiters,
    )
    else if eqb_ℤ m.count zero_count
    then wake_writer m m.write_waiters
    else (m, nobody)

-- What an unlock does to the count. The assertion that it is not 0 stands in debug builds only.
release : RwMutex → RwMutex
release m = record m {
  count = if ltb_ℤ m.count zero_count then zero_count else m.count -ℤ one_count;
}

pub unlock : RwMutex → RwMutex × Woken
unlock m = wake (release m)

-- `rwmutex_held`
pub held : RwMutex → Bool
held m = if eqb_ℤ m.count zero_count then false else true
