-- ===== src/Timer/Tests.antt =====
-- Runs of the timer code, and the theorems about it at concrete timers.
use caladan.Common.{
  ℕ, ◌+◌, ◌≤◌, ◌<◌, ◌≡◌, refl, ◌⊎◌, true, false, List, [], ◌∷◌, arith, some, none, update,
}
use mathlib.Core.Option
use caladan.Timer.{
  TimerIdx, TimerEntry, Kthread, max_timers, entry, insert, timer_start, timer_restart,
  timer_cancel,
}
use caladan.Timer.Inv.{IsValid, insert-IsValid}
use caladan.Timer.Start.{Started, timer_start_lem, timer_restart_lem}
use caladan.Timer.Remove.{Removed, timer_cancel_lem}
use caladan.Timer.Check.{OrderedFrom2}
use caladan.Timer.Softirq.{timer_softirq_one}
use caladan.Timer.Softirq.Order.{calm, Fired, timer_softirq_one_lem}

abbrev idle_entry : TimerEntry
idle_entry = record {
  armed = false;
  executing = false;
  cancelling = false;
  idx = 0;
  fn = 1;
  arg = 2;
  localk = some 0;
}

abbrev empty : Kthread
empty = record {
  self = 0;
  timern = 0;
  heap = record { timers = λ j. record { deadline_us = 0; e = 0 }; entries = λ x. idle_entry };
  next_timer_tsc = 0;
  cycles_per_us = 1000;
  start_tsc = 5;
}

empty-IsValid : IsValid empty
empty-IsValid = record {
  order = λ j h0 h1. absurd (omega arith);
  back = λ j lt. absurd (omega arith);
  live = λ j lt. absurd (omega arith);
  listed = λ e h. cc;
  room = omega arith;
}

-- Entry 7 is due at 50, entry 8 at 30 and entry 9 at 40.
abbrev three : Kthread
three = insert (insert (insert empty 7 50) 8 30) 9 40

three-IsValid : IsValid three
unfolding insert
three-IsValid =
    insert-IsValid (insert (insert empty 7 50) 8 30) 9 40
      (insert-IsValid (insert empty 7 50) 8 30
        (insert-IsValid empty 7 50 empty-IsValid refl (omega arith)) refl (omega arith))
      refl (omega arith)

three_slots :
    (three.heap.timers 0 ≡ record { deadline_us = 30; e = 8 })
    × ((entry three 7).idx ≡ 1)
    × ((entry three 9).idx ≡ 2)
unfolding insert
three_slots = (refl, refl, refl)

-- What the softirq fires at time 45, with handlers that do nothing.
abbrev fired_at_45 : List TimerIdx
fired_at_45 = record { deadline_us = 30; e = 8 } ∷ record { deadline_us = 40; e = 9 } ∷ []

softirq_at_45 :
    Option.map
      (λ (r : Kthread × List TimerIdx). r.1)
      (timer_softirq_one (λ fn arg k. k) (calm 4 45) three)
    ≡ some fired_at_45
unfolding timer_softirq_one insert
softirq_at_45 = refl

timer_start_lem_example :
    ((((entry three 4).armed ≡ true) ⊎ (max_timers ≤ three.timern + 1))
      × (timer_start three 4 35 ≡ none))
    ⊎ (((entry three 4).armed ≡ false)
        × (three.timern + 1 < max_timers)
        × (k' : Kthread) × (timer_start three 4 35 ≡ some k')
        × Started three 4 35 k')
timer_start_lem_example = timer_start_lem three 4 35 three-IsValid

three_off : (entry three 4).armed ≡ false
unfolding insert
three_off = refl

three_room : three.timern + 1 < max_timers
unfolding insert
three_room = omega arith

timer_restart_lem_example :
    (((entry three 4).cancelling ≡ true) × (timer_restart three 4 35 ≡ some three))
    ⊎ (((entry three 4).cancelling ≡ false)
        × (k' : Kthread) × (timer_restart three 4 35 ≡ some k')
        × Started three 4 35 k')
timer_restart_lem_example = timer_restart_lem three 4 35 three-IsValid three_off three_room

three_local : (entry three 8).localk ≡ some three.self
unfolding insert
three_local = refl

timer_cancel_lem_example :
    (((entry three 8).armed ≡ true)
      × ((timer_cancel three 8).1 ≡ record { result = true; spins = false })
      × Removed three 8 (timer_cancel three 8).0)
    ⊎ (((entry three 8).armed ≡ false)
        × (timer_cancel three 8
            ≡ (three, record { result = false; spins = (entry three 8).executing })))
timer_cancel_lem_example = timer_cancel_lem three 8 three-IsValid three_local

three_few : three.timern < 4
unfolding insert
three_few = omega arith

timer_softirq_one_lem_example :
    (k' : Kthread) × (fired : List TimerIdx) × (timer_softirq_one (λ fn arg k. k) (calm 4 45) three
      ≡ some (k', fired))
    × Fired 45 three k' fired
timer_softirq_one_lem_example =
    timer_softirq_one_lem (λ fn arg k. k) (λ fn arg k. refl) 4 45 three three-IsValid three_few

abbrev later : Kthread
later = timer_softirq_one_lem_example.0

-- Slot 1 is due before the root.
abbrev late_root : ℕ → TimerIdx
late_root = update (λ j. record { deadline_us = 9; e = j }) 1 (record { deadline_us = 3; e = 1 })

late_root-OrderedFrom2 : OrderedFrom2 late_root 4
late_root-OrderedFrom2 j h0 h1 = ground arith
