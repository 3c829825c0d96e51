-- ===== src/Sync/Mutex/Tests.antt =====
-- A mutex that one thread holds while two more wait.
use caladan.Common.{◌+◌, ◌≤◌, ◌≡◌, refl, ◌⊎◌, false, [], ◌∷◌, length}
use caladan.Sync.Mutex.{
  waiter_flag, init, cmpxchg, try_lock, fast_unlock, slow_lock, slow_unlock, wakes,
}
use caladan.Sync.Mutex.Safety.{
  free, Use, Reach, start, later, tries_lock, slow_locks, mutex_excludes, slow_unlock_hands_over,
}

abbrev contended : Use
contended = record {
  m = record { held = waiter_flag + 1; waiters = 2 ∷ 3 ∷ [] };
  spin = free;
  holders = 1;
}

contended-Reach : Reach contended
unfolding init try_lock cmpxchg slow_lock
contended-Reach = later (later (later start tries_lock) (slow_locks 2 refl)) (slow_locks 3 refl)

mutex_excludes_example :
    (contended.holders ≤ 1)
    × ((length contended.m.waiters ≡ 0)
        ⊎ ((contended.holders ≡ 1)
            × ((try_lock contended.m).1 ≡ false)
            × ((fast_unlock contended.m).1 ≡ false)))
mutex_excludes_example = mutex_excludes contended-Reach

slow_unlock_hands_over_example :
    (contended.spin ≡ free)
    × (slow_unlock contended.m ≡ (record contended.m { waiters = 3 ∷ [] }, wakes 2))
    × ((try_lock (slow_unlock contended.m).0).1 ≡ false)
slow_unlock_hands_over_example = slow_unlock_hands_over 2 (3 ∷ []) contended-Reach refl
