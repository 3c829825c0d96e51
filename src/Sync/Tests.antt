-- ===== src/Sync/Tests.antt =====
-- The wait group, the barrier and the condition variable on concrete threads.
use caladan.Common.{◌≡◌, refl, inr, false, [], ◌∷◌, arith}
use caladan.Common.Int.{pos}
use caladan.Sync.WaitGroup
use caladan.Sync.Condvar.{waiting, start_wait, park_step}
use caladan.Sync.Condvar.Timeout.{fires, signals, before, early_timeout_lost}

-- Two threads wait for one task.
abbrev joined : WaitGroup.WaitGroup
joined = record { cnt = pos 1; waiters = 7 ∷ 8 ∷ [] }

joined-IsValid : WaitGroup.IsValid joined
joined-IsValid = record { counted = refl; waiting = inr (omega arith) }

early_timeout_lost_example :
    let w = park_step (before (start_wait (4 ∷ [])) 5 (signals ∷ fires ∷ [])) 5 in
    (w.progress ≡ waiting) × (w.timed_out ≡ false) × (w.timer_armed ≡ false)
early_timeout_lost_example =
    early_timeout_lost (4 ∷ []) 5 (signals ∷ fires ∷ []) ((λ e. omega arith), tt) refl
