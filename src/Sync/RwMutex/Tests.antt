-- ===== src/Sync/RwMutex/Tests.antt =====
-- The read-write mutex with threads that use it.
use caladan.Common.{◌+◌, ◌<◌, ◌≡◌, refl, ◌⊎◌, arith, [], ◌∷◌}
use caladan.Sync.RwMutex.{RwMutex, nobody, readers, init, rdlock, wrlock, unlock, wake, release}
use caladan.Sync.RwMutex.Safety.{
  Reach, start, later, IsSafe, Reach-IsSafe, rdlocks, wrlocks, heir, unlock_wakes,
}

-- Thread 1 writes; threads 2 and 3 wait to read, and thread 4 to write.
abbrev contended : RwMutex
contended = (rdlock (wrlock (rdlock (wrlock init 1).0 2).0 4).0 3).0

contended-Reach : Reach (record { m = contended; reading = 0; writing = 1 })
unfolding init rdlock wrlock
contended-Reach =
    later (later (later (later start (wrlocks 1)) (rdlocks 2)) (wrlocks 4)) (rdlocks 3)

contended-unlock : (unlock contended).1 ≡ readers (2 ∷ 3 ∷ [])
unfolding init rdlock wrlock unlock wake release
contended-unlock = refl

contended-IsSafe : IsSafe (record { m = contended; reading = 0; writing = 1 })
contended-IsSafe = Reach-IsSafe contended-Reach

Reach-IsSafe_example : IsSafe (record { m = contended; reading = 0; writing = 1 })
Reach-IsSafe_example = Reach-IsSafe contended-Reach

unlock_wakes_example :
    ((1 < 0) × ((unlock contended).1 ≡ nobody))
    ⊎ ((0 + 1 ≡ 1) × ((unlock contended).1 ≡ heir contended.read_waiters contended.write_waiters))
unlock_wakes_example =
    unlock_wakes (record { m = contended; reading = 0; writing = 1 }) contended-IsSafe (omega arith)
