-- ===== src/Timer.antt =====
-- runtime/timer.c and inc/runtime/timer.h: the timers of one kthread, a heap of arity four in
-- which each armed entry knows its place. Pointers to entries are numbers; what runs under the
-- kthread's timer lock is one function from state to state. `none` is a stop at BUG or BUG_ON.
pub mod Order
pub mod Places
pub mod Inv
pub mod Start
pub mod Remove
pub mod Check
pub mod Softirq
mod Tests
use caladan.Common.{
  ℕ, zero, suc, ◌+◌, ◌-◌, ◌*◌, ◌/◌, ◌%◌, ◌^◌, Bool, true, false, ◌||◌, Option, none, some, ltb, leb,
  ◌==◌, if◌then◌else◌, update,
}

-- `struct timer_idx`
pub record TimerIdx : Type 0 where
  pub deadline_us : ℕ
  pub e : ℕ

-- `struct timer_entry`; `none` is the null kthread.
pub record TimerEntry : Type 0 where
  pub armed : Bool
  pub executing : Bool
  pub cancelling : Bool
  pub idx : ℕ
  pub fn : ℕ
  pub arg : ℕ
  pub localk : Option ℕ

-- The memory that the sifts work on: the array `k->timers`, and the entries that it points to.
pub record Heap : Type 0 where
  pub timers : ℕ → TimerIdx
  pub entries : ℕ → TimerEntry

abbrev pub arity : ℕ
arity = 4

abbrev pub int_max : ℕ
int_max = 2 ^ 31 - 1

abbrev pub max_timers : ℕ
max_timers = 4096

abbrev pub deadline : (ℕ → TimerIdx) → ℕ → ℕ
deadline heap i = (heap i).deadline_us

abbrev pub parent : ℕ → ℕ
parent i = (i - 1) / arity

-- The loop `for (i = n-1; i > 1; i--)` of `is_valid_heap`, from `i`.
is_valid_from : (ℕ → TimerIdx) → ℕ → Bool
is_valid_from heap zero = true
is_valid_from heap (suc i) =
    let rest = is_valid_from heap i in
    if leb (suc i) 1
    then true
    else if ltb (deadline heap (suc i)) (deadline heap (parent (suc i)))
    then false
    else rest

-- With `n` of 0 the loop starts at -1, and with 0 here: neither is above 1.
pub is_valid_heap : (ℕ → TimerIdx) → ℕ → Bool
unfolding is_valid_from
is_valid_heap heap n = is_valid_from heap (n - 1)

-- `heap[i] = t; heap[i].e->idx = i;`
pub place : Heap → ℕ → TimerIdx → Heap
place h i t = record {
  timers = update h.timers i t;
  entries = update h.entries t.e (record (h.entries t.e) { idx = i });
}

-- The loop of `sift_up`. The index falls in each round, so `i + 1` rounds are enough.
sift_up_loop : ℕ → Heap → TimerIdx → ℕ → Heap
sift_up_loop zero h tmp i = h
sift_up_loop (suc fuel) h tmp i =
    let p = parent i in
    let rest = sift_up_loop fuel (place (place h i (h.timers p)) p tmp) tmp p in
    if i == 0 then h else if leb (deadline h.timers p) tmp.deadline_us then h else rest

pub sift_up : Heap → ℕ → Heap
unfolding sift_up_loop place
sift_up h i = sift_up_loop (suc i) h (h.timers i) i

-- The inner loop of `sift_down`, with the rounds left, from child `j`. The result is `c`.
pub scan_children : (ℕ → TimerIdx) → ℕ → ℕ → ℕ → ℕ → ℕ → ℕ
scan_children heap n zero j w c = c
scan_children heap n (suc rounds) j w c =
    let less = ltb (deadline heap j) w in
    let rest =
      scan_children heap n rounds (j + 1) (if less then deadline heap j else w)
        (if less then j else c) in
    if leb n j then c else rest

-- The outer loop. The index grows and stays below `n`, so `n` rounds are enough.
sift_down_loop : ℕ → Heap → TimerIdx → ℕ → ℕ → Heap
sift_down_loop zero h tmp i n = h
sift_down_loop (suc fuel) h tmp i n =
    let c = scan_children h.timers n arity (i * arity + 1) tmp.deadline_us int_max in
    let rest = sift_down_loop fuel (place (place h i (h.timers c)) c tmp) tmp c n in
    if c == int_max then h else rest

pub sift_down : Heap → ℕ → ℕ → Heap
unfolding sift_down_loop scan_children place
sift_down h i n = sift_down_loop (suc n) h (h.timers i) i n

-- The timer fields of `struct kthread`, with its own address `self`, and the two clock constants
-- `cycles_per_us` and `start_tsc` that the iokernel sets at start-up.
pub record Kthread : Type 0 where
  pub self : ℕ
  pub timern : ℕ
  pub heap : Heap
  pub next_timer_tsc : ℕ
  pub cycles_per_us : ℕ
  pub start_tsc : ℕ

abbrev pub uint64_max : ℕ
uint64_max = 2 ^ 64 - 1

abbrev pub entry : Kthread → ℕ → TimerEntry
entry k e = k.heap.entries e

abbrev pub set_entry : Heap → ℕ → TimerEntry → Heap
set_entry h e v = record h { entries = update h.entries e v }

abbrev pub first_tsc : Kthread → ℕ
first_tsc k =
    if k.timern == 0
    then uint64_max
    else (deadline k.heap.timers 0 * k.cycles_per_us + k.start_tsc) % 2 ^ 64

pub update_q_ptrs : Kthread → Kthread
update_q_ptrs k = record k { next_timer_tsc = first_tsc k }

pub timer_earliest_deadline : Kthread → ℕ
timer_earliest_deadline k = if k.timern == 0 then 0 else deadline k.heap.timers 0

-- `timer_init` leaves `cancelling` and `idx` as they are.
pub timer_init : TimerEntry → ℕ → ℕ → TimerEntry
timer_init t fn arg = record t {
  armed = false;
  executing = false;
  fn = fn;
  arg = arg;
  localk = none;
}

pub timer_busy : TimerEntry → Bool
timer_busy t = t.armed || t.executing

-- The body of `timer_start_locked` behind its two checks, up to the sift.
pub append_timer : Kthread → ℕ → ℕ → Heap
append_timer k e deadline_us = record {
  timers = update k.heap.timers k.timern (record { deadline_us = deadline_us; e = e });
  entries = update k.heap.entries e (record (entry k e) { idx = k.timern; localk = some k.self });
}

pub arm : Heap → ℕ → Heap
arm h e = set_entry h e (record (h.entries e) { armed = true })

pub insert : Kthread → ℕ → ℕ → Kthread
unfolding append_timer arm sift_up
insert k e deadline_us = record k {
  timern = k.timern + 1;
  heap = arm (sift_up (append_timer k e deadline_us) k.timern) e;
}

pub timer_start_locked : Kthread → ℕ → ℕ → Option Kthread
unfolding insert
timer_start_locked k e deadline_us =
    if (entry k e).armed
    then none
    else if leb max_timers (k.timern + 1)
    then none
    else some (insert k e deadline_us)

pub timer_start : Kthread → ℕ → ℕ → Option Kthread
unfolding timer_start_locked update_q_ptrs
timer_start k e deadline_us =
    let k' = record k { heap = set_entry k.heap e (record (entry k e) { cancelling = false }) } in
    elim (timer_start_locked k' e deadline_us) [ none ↦ none | some k'' ↦ some (update_q_ptrs k'') ]

-- On the kthread that `e->localk` names.
pub timer_restart : Kthread → ℕ → ℕ → Option Kthread
unfolding timer_start_locked update_q_ptrs
timer_restart k e deadline_us =
    if (entry k e).cancelling then some k else elim (timer_start_locked k e deadline_us) [
      | none ↦ none
      | some k' ↦ some (update_q_ptrs k')
    ]

pub timer_remove_armed : Kthread → ℕ → Kthread
unfolding sift_up sift_down place update_q_ptrs
timer_remove_armed k e =
    let i = (entry k e).idx in
    let h = set_entry k.heap e (record (entry k e) { armed = false }) in
    let last = k.timern - 1 in
    update_q_ptrs (record k {
      timern = last;
      heap = if i == last then h else sift_down (sift_up (place h i (h.timers last)) i) i last;
    })

-- What a cancel returns, and whether it first spins until the running handler is done.
pub record Cancelled : Type 0 where
  pub result : Bool
  pub spins : Bool

-- `__timer_cancel`, on the kthread that `e->localk` names
pub timer_cancel_locked : Kthread → ℕ → Kthread × Cancelled
unfolding timer_remove_armed
timer_cancel_locked k e =
    if (entry k e).armed
    then (timer_remove_armed k e, record { result = true; spins = false })
    else (k, record { result = false; spins = (entry k e).executing })

-- The test of `armed` before the lock gives the same answer as the one under it, no other thread
-- coming between.
pub timer_cancel : Kthread → ℕ → Kthread × Cancelled
unfolding timer_cancel_locked
timer_cancel k e =
    if (entry k e).armed
    then timer_cancel_locked k e
    else (k, record { result = false; spins = (entry k e).executing })

-- `!k || e->cancelling` ends the call; `cancelling` is set under the lock.
pub timer_cancel_recurring : Kthread → ℕ → Kthread × Cancelled
unfolding timer_cancel_locked
timer_cancel_recurring k e = elim (entry k e).localk [
  | none ↦ (k, record { result = false; spins = false })
  | some _ ↦
      if (entry k e).cancelling
      then (k, record { result = false; spins = false })
      else timer_cancel_locked
          (record k { heap = set_entry k.heap e (record (entry k e) { cancelling = true }) }) e
]
