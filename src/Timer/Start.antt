-- ===== src/Timer/Start.antt =====
-- `timer_start` and `timer_restart`: when they stop, and what they leave (runtime/timer.c).
use caladan.Common.{
  ℕ, ◌+◌, ◌≤◌, ◌<◌, ◌≡◌, ◌≢◌, refl, ◌⊎◌, inl, inr, true, false, ◌↔◌, arith, leb, ◌==◌, Bool-cases,
  some, none,
}
use caladan.Timer.{
  TimerIdx, TimerEntry, Kthread, max_timers, entry, append_timer, arm, insert, timer_start_locked,
  timer_start, timer_restart, timer_earliest_deadline, first_tsc, update_q_ptrs, set_entry,
}
use caladan.Timer.Inv.{IsValid, Pending, insert-IsValid, insert-Pending, sifted-Swaps}
use caladan.Timer.Check.{root-least}
use caladan.Timer.Places.{Moved, Swaps-Moved}

-- A change of an entry that leaves `armed`, `localk` and `idx` alone keeps the timers valid.
pub set_entry-IsValid :
    (k : Kthread) (e : ℕ) (t : TimerEntry)
    → t.armed ≡ (entry k e).armed
    → t.localk ≡ (entry k e).localk
    → t.idx ≡ (entry k e).idx
    → IsValid k
    → IsValid (record k { heap = set_entry k.heap e t })
set_entry-IsValid k e t a l i v = record {
  order = v.order;
  back = λ j lt. ground (arith, v.back j lt);
  live = λ j lt. ground (arith, v.live j lt);
  listed = λ x h g. ground (arith, v.listed x);
  room = v.room;
}

pub update_q_ptrs-IsValid : (k : Kthread) → IsValid k → IsValid (update_q_ptrs k)
unfolding update_q_ptrs
update_q_ptrs-IsValid k v = record {
  order = v.order;
  back = v.back;
  live = v.live;
  listed = v.listed;
  room = v.room;
}

-- What a start has to leave: valid timers that hold what they held and the new one, the iokernel
-- told of the first deadline, the entry armed, and of all other entries at most `idx` changed.
pub record Started (k : Kthread) (e d : ℕ) (k' : Kthread) : Type 0 where
  pub valid : IsValid k'
  pub pending :
      (t : TimerIdx) → Pending k' t ↔ (Pending k t ⊎ (t ≡ record { deadline_us = d; e = e }))
  pub published : k'.next_timer_tsc ≡ first_tsc k'
  pub armed : (entry k' e).armed ≡ true
  pub handler : ((entry k' e).fn ≡ (entry k e).fn) × ((entry k' e).arg ≡ (entry k e).arg)
  pub others : (x : ℕ) → x ≢ e → Moved (entry k x) (entry k' x)

insert-Started :
    (k : Kthread) (e d : ℕ)
    → IsValid k
    → (entry k e).armed ≡ false
    → k.timern + 1 < max_timers
    → Started k e d (update_q_ptrs (insert k e d))
unfolding update_q_ptrs
insert-Started k e d v off room = record {
  valid = update_q_ptrs-IsValid (insert k e d) (insert-IsValid k e d v off room);
  pending = insert-Pending k e d v off;
  published = refl;
  armed = unfold insert arm in ground arith;
  handler =
      unfold insert arm append_timer in ground (arith, Swaps-Moved (sifted-Swaps k e d v off) e);
  others = λ x ne.
      unfold insert arm append_timer in ground (arith, Swaps-Moved (sifted-Swaps k e d v off) x);
}

abbrev not_cancelling : Kthread → ℕ → Kthread
not_cancelling k e = record k {
  heap = set_entry k.heap e (record (entry k e) { cancelling = false });
}

-- The write of `cancelling` before a start does not show in what the start leaves.
not_cancelling-Started :
    (k k' : Kthread) (e d : ℕ) → Started (not_cancelling k e) e d k' → Started k e d k'
not_cancelling-Started k k' e d s = record {
  valid = s.valid;
  pending = s.pending;
  published = s.published;
  armed = s.armed;
  handler = ground (arith, s.handler);
  others = λ x ne. ground (arith, s.others x ne);
}

-- `timer_start` on valid timers stops exactly if the timer is armed already or the heap is full;
-- otherwise it arms it, and keeps the timers valid.
pub timer_start_lem :
    (k : Kthread) (e d : ℕ)
    → IsValid k
    → ((((entry k e).armed ≡ true) ⊎ (max_timers ≤ k.timern + 1)) × (timer_start k e d ≡ none))
      ⊎ (((entry k e).armed ≡ false)
          × (k.timern + 1 < max_timers)
          × (k' : Kthread) × (timer_start k e d ≡ some k')
          × Started k e d k')
unfolding timer_start timer_start_locked
timer_start_lem k e d v = elim (Bool-cases (entry k e).armed) [
  | inl on ↦ inl (inl on, ground arith)
  | inr off ↦ elim (Bool-cases (leb max_timers (k.timern + 1))) [
    | inl full ↦ inl (inr (ground arith), ground arith)
    | inr room ↦ inr (
      off,
      ground arith,
      update_q_ptrs (insert (not_cancelling k e) e d),
      ground arith,
      not_cancelling-Started k _ e d (
          insert-Started (not_cancelling k e) e d (set_entry-IsValid k e _ refl refl refl v)
            (ground arith) (ground arith)),
    )
  ]
]

-- `timer_restart` does nothing to a timer that is being cancelled; else it is a start.
pub timer_restart_lem :
    (k : Kthread) (e d : ℕ)
    → IsValid k
    → (entry k e).armed ≡ false
    → k.timern + 1 < max_timers
    → (((entry k e).cancelling ≡ true) × (timer_restart k e d ≡ some k))
      ⊎ (((entry k e).cancelling ≡ false)
          × (k' : Kthread) × (timer_restart k e d ≡ some k')
          × Started k e d k')
unfolding timer_restart timer_start_locked
timer_restart_lem k e d v off room = elim (Bool-cases (entry k e).cancelling) [
  | inl c ↦ inl (c, ground arith)
  | inr go ↦ inr (go, update_q_ptrs (insert k e d), ground arith, insert-Started k e d v off room)
]

-- `timer_earliest_deadline` on valid timers is 0 if none is armed, and otherwise the deadline of
-- an armed timer that no armed timer is due before.
pub timer_earliest_deadline_lem :
    (k : Kthread)
    → IsValid k
    → ((k.timern ≡ 0) × (timer_earliest_deadline k ≡ 0))
      ⊎ ((t : TimerIdx) × Pending k t
          × (timer_earliest_deadline k ≡ t.deadline_us)
          × ((u : TimerIdx) → Pending k u → t.deadline_us ≤ u.deadline_us))
unfolding timer_earliest_deadline
timer_earliest_deadline_lem k v = elim (Bool-cases (k.timern == 0)) [
  | inl none_armed ↦ inl (ground arith, ground arith)
  | inr more ↦ inr (
    k.heap.timers 0,
    (0, ground arith, refl),
    ground arith,
    λ u (j, lt, at). ground (arith, root-least k.heap.timers k.timern v.order j lt),
  )
]
