-- ===== src/Sync/Condvar.antt =====
-- The condition variable (runtime/sync.c). A wait with a timeout meets the timer's handler: both
-- run under the spin lock of the variable, so the handler comes wholly before or wholly after the
-- step in which the waiter looks at `timed_out` and parks.
pub mod Timeout
use caladan.Common.{
  ℕ, zero, suc, ◌+◌, ◌-◌, ◌≤◌, ◌<◌, ◌≡◌, ◌≢◌, refl, ◌⊎◌, inl, inr, Bool, true, false, List, [], ◌∷◌,
  ◌++◌, leb, ◌==◌, not, ◌||◌, if◌then◌else◌, arith, length, length-append, map, Option, some, none,
  Bool-cases,
}

-- `struct condvar`, without its spin lock
abbrev pub Condvar : Type 0
Condvar = List ℕ

pub init : Condvar
init = []

-- `condvar_wait` from taking the spin lock to parking; the mutex is unlocked in it, and locked
-- again by the thread once it runs.
pub enqueue : Condvar → ℕ → Condvar
enqueue cv self = cv ++ self ∷ []

-- The threads that are readied stand second.
pub signal : Condvar → Condvar × List ℕ
signal [] = ([], [])
signal (th ∷ ths) = (ths, th ∷ [])

pub broadcast : Condvar → Condvar × List ℕ
broadcast cv = ([], cv)

-- Whether the loop of `condvar_timeout` meets the thread, and the list without it.
pub meets : Condvar → ℕ → Bool
meets [] th = false
meets (x ∷ xs) th = x == th || meets xs th

pub delete : Condvar → ℕ → Condvar
delete [] th = []
delete (x ∷ xs) th = if x == th then xs else x ∷ delete xs th

-- What the handler does: the waiters, `timed_out` and the threads readied. After a loop with no
-- break `th` is not the thread.
pub timeout : Condvar → ℕ → Bool → Condvar × Bool × List ℕ
unfolding meets delete
timeout cv th timed_out = if meets cv th then (delete cv th, true, th ∷ []) else (cv, timed_out, [])

-- One timed wait: the waiters, its own `timed_out`, whether its timer is armed, and how far it is.
pub data Progress : Type 0 where
  started waiting ready returned : Progress

pub record TimedWait : Type 0 where
  pub waiters : Condvar
  pub timed_out : Bool
  pub timer_armed : Bool
  pub progress : Progress

-- Between `timer_start` and the spin lock.
pub start_wait : Condvar → TimedWait
start_wait cv = record { waiters = cv; timed_out = false; timer_armed = true; progress = started }

-- The step under the spin lock: a wait that has timed out returns false; else the thread parks.
pub park_step : TimedWait → ℕ → TimedWait
unfolding enqueue
park_step w self =
    if w.timed_out
    then record w { progress = returned }
    else record w { waiters = enqueue w.waiters self; progress = waiting }

-- The timer fires, once.
pub timeout_step : TimedWait → ℕ → TimedWait
unfolding timeout
timeout_step w self =
    let (cv, out, woken) = timeout w.waiters self w.timed_out in
    record w {
      waiters = cv;
      timed_out = out;
      timer_armed = false;
      progress = elim woken [ [] ↦ w.progress | _ ∷ _ ↦ ready ];
    }

-- Another thread signals; the waiter is ready if it stood first.
pub signal_step : TimedWait → ℕ → TimedWait
unfolding signal
signal_step w self =
    let (cv, woken) = signal w.waiters in
    record w {
      waiters = cv;
      progress = elim woken [ [] ↦ w.progress | th ∷ _ ↦ if th == self then ready else w.progress ];
    }

-- A thread that runs again cancels its timer, locks the mutex and returns `!timed_out`.
pub wake_step : TimedWait → TimedWait × Bool
wake_step w = (record w { timer_armed = false; progress = returned }, not w.timed_out)
