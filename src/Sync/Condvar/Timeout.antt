-- ===== src/Sync/Condvar/Timeout.antt =====
-- A timed wait on a condition variable and the handler of its timer (runtime/sync.c).
use caladan.Common.{Absent, ℕ, ◌≡◌, refl, Bool, true, false, List, [], ◌∷◌, ◌++◌, arith, ◌∙◌}
use caladan.Sync.Condvar.{
  Condvar, signal, meets, delete, timeout, started, waiting, ready, TimedWait, start_wait,
  park_step, timeout_step, signal_step, wake_step,
}

meets-Absent : (th : ℕ) (cv : Condvar) → Absent th cv → meets cv th ≡ false
unfolding meets
meets-Absent th [] h = refl
meets-Absent th (x ∷ xs) h = ground (arith, meets-Absent th xs h.1)

meets_last : (th : ℕ) (cv : Condvar) → meets (cv ++ th ∷ []) th ≡ true
unfolding meets
meets_last th [] = ground arith
meets_last th (x ∷ xs) = ground (arith, meets_last th xs)

delete_last : (th : ℕ) (cv : Condvar) → Absent th cv → delete (cv ++ th ∷ []) th ≡ cv
unfolding delete
delete_last th [] h = ground arith
delete_last th (x ∷ xs) h = ground (arith, delete_last th xs h.1)

-- A timeout of a thread that is not on the list does nothing.
timeout-Absent :
    (th : ℕ) (cv : Condvar) (out : Bool) → Absent th cv → timeout cv th out ≡ (cv, out, [])
unfolding timeout
timeout-Absent th cv out h = rw (meets-Absent th cv h)

-- What may come between the start of the timer and the parking.
pub data Before : Type 0 where
  fires signals : Before

pub before : TimedWait → ℕ → List Before → TimedWait
before w self [] = w
before w self (fires ∷ bs) = before (timeout_step w self) self bs
before w self (signals ∷ bs) = before (signal_step w self) self bs

abbrev pub fired : List Before → Bool
fired [] = false
fired (fires ∷ bs) = true
fired (signals ∷ bs) = fired bs

-- Until it parks, a waiter has neither timed out nor been woken.
record Untouched (armed : Bool) (self : ℕ) (w : TimedWait) : Type 0 where
  absent : Absent self w.waiters
  not_out : w.timed_out ≡ false
  going : w.progress ≡ started
  timer : w.timer_armed ≡ armed

timeout_step-Untouched :
    (b : Bool) (self : ℕ) (w : TimedWait)
    → Untouched b self w
    → Untouched false self (timeout_step w self)
unfolding timeout_step
timeout_step-Untouched b self w u =
    rw (timeout-Absent self w.waiters w.timed_out u.absent)
      (record { absent = u.absent; not_out = u.not_out; going = u.going; timer = refl })

signal_step-Untouched :
    (b : Bool) (self : ℕ) (w : TimedWait) (cv : Condvar)
    → w.waiters ≡ cv
    → Absent self cv
    → Untouched b self w
    → Untouched b self (signal_step w self)
unfolding signal_step
signal_step-Untouched b self w [] e a u =
    rw e (
      unfold signal in record { absent = a; not_out = u.not_out; going = u.going; timer = u.timer })
signal_step-Untouched b self w (x ∷ xs) e a u = rw e (
    unfold signal in
    record {
      absent = a.1;
      not_out = u.not_out;
      going = ground (arith, u.going, a.0);
      timer = u.timer;
    })

abbrev still_armed : Bool → List Before → Bool
still_armed b [] = b
still_armed b (fires ∷ bs) = still_armed false bs
still_armed b (signals ∷ bs) = still_armed b bs

before-Untouched :
    (b : Bool) (self : ℕ) (w : TimedWait) (bs : List Before)
    → Untouched b self w
    → Untouched (still_armed b bs) self (before w self bs)
unfolding before
before-Untouched b self w [] u = u
before-Untouched b self w (fires ∷ bs) u =
    before-Untouched false self (timeout_step w self) bs (timeout_step-Untouched b self w u)
before-Untouched b self w (signals ∷ bs) u =
    before-Untouched b self (signal_step w self) bs
      (signal_step-Untouched b self w w.waiters refl u.absent u)

still_armed-false : (bs : List Before) → still_armed false bs ≡ false
still_armed-false [] = refl
still_armed-false (fires ∷ bs) = still_armed-false bs
still_armed-false (signals ∷ bs) = still_armed-false bs

still_armed-fired : (b : Bool) (bs : List Before) → fired bs ≡ true → still_armed b bs ≡ false
still_armed-fired b [] h = cc
still_armed-fired b (fires ∷ bs) h = still_armed-false bs
still_armed-fired b (signals ∷ bs) h = still_armed-fired b bs h

-- If the timer of a thread that is not on the list fires before the thread gets there, whatever
-- signals come in between, the timeout is lost: the thread parks, not timed out, with no timer armed.
pub early_timeout_lost :
    (cv : Condvar) (self : ℕ) (bs : List Before)
    → Absent self cv
    → fired bs ≡ true
    → let w = park_step (before (start_wait cv) self bs) self in
      (w.progress ≡ waiting) × (w.timed_out ≡ false) × (w.timer_armed ≡ false)
unfolding park_step
early_timeout_lost cv self bs a f =
    let start : Untouched true self (start_wait cv) =
      unfold start_wait in record { absent = a; not_out = refl; going = refl; timer = refl } in
    let u = before-Untouched true self (start_wait cv) bs start in
    rw u.not_out (refl, refl, u.timer ∙ still_armed-fired true bs f)

-- If the timer fires once the thread has parked, the thread is taken off the list, and it alone; it
-- runs again and its call returns false.
pub timeout_wakes :
    (cv : Condvar) (self : ℕ)
    → Absent self cv
    → let w = timeout_step (park_step (start_wait cv) self) self in
      (w.progress ≡ ready) × (w.waiters ≡ cv) × ((wake_step w).1 ≡ false)
unfolding timeout_step park_step start_wait timeout wake_step
timeout_wakes cv self a = rw (meets_last self cv) (refl, delete_last self cv a, refl)

-- If a signal wakes the waiter that stands first, the handler of its timer does nothing after it, and
-- the call returns true.
pub signal_before_timeout :
    (cv : Condvar) (self : ℕ)
    → Absent self cv
    → let w =
        signal_step
          (record {
            waiters = self ∷ cv;
            timed_out = false;
            timer_armed = true;
            progress = waiting;
          })
          self in
      (w.progress ≡ ready)
      × ((timeout_step w self).waiters ≡ cv)
      × ((timeout_step w self).progress ≡ ready)
      × ((wake_step (timeout_step w self)).1 ≡ true)
unfolding signal_step timeout_step wake_step
signal_before_timeout cv self a =
    rw (timeout-Absent self cv false a) (ground arith, refl, ground arith, refl)
