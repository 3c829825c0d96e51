-- ===== src/Runq.antt =====
-- The run queue of a kthread (runtime/sched.c): a ring of 32 threads with a list for those that it
-- cannot hold. A thread is a number, and what is stored of the threads is a function of it. What
-- runs under the lock of the kthread is one step; the fields of the queue that are shared with the
-- I/O kernel are part of the state.
pub mod Ring
pub mod Order
pub mod Refine
pub mod Locked
pub mod Ready
pub mod Head
pub mod Ahead
pub mod Next
pub mod Merge
pub mod Merged
pub mod Drain
pub mod Steal
pub mod Balance
pub mod Work
mod Tests
use caladan.Common.{
  ℕ, zero, suc, ◌+◌, ◌-◌, ◌/◌, ◌%◌, Bool, true, false, not, ◌&&◌, ◌||◌, ◌==◌, ltb, leb,
  if◌then◌else◌, List, [], ◌∷◌, ◌++◌, Option, none, some, update,
}
use caladan.Common.Word32.{add32, sub32, wraps_lt}

abbrev pub rq_size : ℕ
rq_size = 32

-- What the scheduler keeps of the threads
pub record Threads : Type 0 where
  pub ready_tsc : ℕ → ℕ
  pub thread_ready : ℕ → Bool

-- The queue of a kthread, with the counters and the time that it shows the I/O kernel (`q_ptrs`).
pub record Runq : Type 0 where
  pub rq : ℕ → ℕ
  pub rq_head : ℕ
  pub rq_tail : ℕ
  pub overflow : List ℕ
  pub shown_head : ℕ
  pub shown_tail : ℕ
  pub oldest_tsc : ℕ

abbrev pub in_ring : Runq → ℕ
in_ring k = sub32 k.rq_head k.rq_tail

abbrev pub is_empty_list : List ℕ → Bool
is_empty_list [] = true
is_empty_list (t ∷ ts) = false

-- A thread is written behind the last one of the ring.
abbrev pub put_slot : Runq → ℕ → Runq
put_slot k th = record k { rq = update k.rq (k.rq_head % rq_size) th; rq_head = add32 k.rq_head 1 }

-- The loop of `drain_overflow`, over the list.
unfoldable pub drain_from : List ℕ → Runq → Runq
drain_from [] k = record k { overflow = [] }
drain_from (th ∷ ths) k =
    let rest = drain_from ths (put_slot k th) in
    if ltb (in_ring k) rq_size then rest else record k { overflow = th ∷ ths }

abbrev pub drain_overflow : Runq → Runq
drain_overflow k = drain_from k.overflow k

-- `update_oldest_tsc`
abbrev pub update_oldest_tsc : Threads → Runq → Runq
update_oldest_tsc s k =
    if k.rq_head == k.rq_tail
    then k
    else record k { oldest_tsc = s.ready_tsc (k.rq (k.rq_tail % rq_size)) }

-- `thread_ready_prepare` at the time `now`; `none` is the stop at the BUG_ON.
abbrev pub thread_ready_prepare : Threads → ℕ → ℕ → Option Threads
thread_ready_prepare s th now =
    if s.thread_ready th
    then none
    else some (record {
      ready_tsc = update s.ready_tsc th now;
      thread_ready = update s.thread_ready th true;
    })

abbrev pub with_prepared : (Threads → Threads × Runq) → Option Threads → Option (Threads × Runq)
with_prepared f none = none
with_prepared f (some s) = some (f s)

abbrev pub show_one : Runq → Runq
show_one k = record k { shown_head = add32 k.shown_head 1 }

-- A thread behind the ring's last, which is the first if the ring was empty.
abbrev pub put_last : Threads → Runq → ℕ → Runq
put_last s k th =
    let k' = put_slot k th in
    show_one (if in_ring k' == 1 then record k' { oldest_tsc = s.ready_tsc th } else k')

-- The queue after `thread_ready_locked`, once the thread is prepared
unfoldable pub ready_locked : Threads → Runq → ℕ → Runq
unfolding drain_from
ready_locked s k th =
    let k' = if is_empty_list k.overflow then k else drain_overflow k in
    if leb rq_size (in_ring k')
    then show_one (record k' { overflow = k'.overflow ++ th ∷ [] })
    else put_last s k' th

-- `thread_ready_locked`
unfoldable pub thread_ready_locked : Threads → Runq → ℕ → ℕ → Option (Threads × Runq)
thread_ready_locked s k th now =
    with_prepared (λ s'. (s', ready_locked s' k th)) (thread_ready_prepare s th now)

-- The queue after `thread_ready`
unfoldable pub ready_tail : Threads → Runq → ℕ → Runq
unfolding drain_from
ready_tail s k th =
    if leb rq_size (in_ring k) || not (is_empty_list k.overflow)
    then show_one (drain_overflow (record k { overflow = k.overflow ++ th ∷ [] }))
    else put_last s k th

unfoldable pub thread_ready : Threads → Runq → ℕ → ℕ → Option (Threads × Runq)
thread_ready s k th now =
    with_prepared (λ s'. (s', ready_tail s' k th)) (thread_ready_prepare s th now)

-- A thread put ahead of the others takes over the time of the first of them.
abbrev pub head_time : Threads → Runq → ℕ → Threads
head_time s k th =
    if k.rq_head == k.rq_tail
    then s
    else record s { ready_tsc = update s.ready_tsc th (s.ready_tsc (k.rq (k.rq_tail % rq_size))) }

-- The queue after `thread_ready_head` and `thread_ready_head_locked`: in a full ring the slot ahead
-- of the first is that of the last, which moves to the front of the list.
unfoldable pub ready_head : Threads → Runq → ℕ → Runq
ready_head s k th =
    let tail = sub32 k.rq_tail 1 in
    let displaced = k.rq (tail % rq_size) in
    let k' = record k {
      rq = update k.rq (tail % rq_size) th;
      rq_tail = tail;
      oldest_tsc = s.ready_tsc th;
      shown_head = add32 k.shown_head 1;
    } in
    if ltb rq_size (in_ring k')
    then record k' { overflow = displaced ∷ k.overflow; rq_head = sub32 k.rq_head 1 }
    else k'

unfoldable pub thread_ready_head : Threads → Runq → ℕ → ℕ → Option (Threads × Runq)
thread_ready_head s k th now =
    with_prepared (λ s'. (head_time s' k th, ready_head (head_time s' k th) k th))
      (thread_ready_prepare s th now)

-- The thread that `schedule` and `enter_schedule` run next, from a ring that is not empty.
unfoldable pub next_thread : Threads → Runq → ℕ × Runq
unfolding drain_from
next_thread s k =
    let k₁ = record k { rq_tail = add32 k.rq_tail 1; shown_tail = add32 k.shown_tail 1 } in
    let k₂ = if is_empty_list k.overflow then k₁ else drain_overflow k₁ in
    (k.rq (k.rq_tail % rq_size), update_oldest_tsc s k₂)

-- `drain_threads`: the threads taken, at most as many as asked for, and the queue without them.
pub record Taken : Type 0 where
  pub threads : List ℕ
  pub tail : ℕ
  pub overflow : List ℕ

unfoldable pub take_threads : ℕ → Runq → ℕ → List ℕ → Taken
take_threads zero k tail ov = record { threads = []; tail = tail; overflow = ov }
take_threads (suc nr) k tail ov = elim (wraps_lt tail k.rq_head) [
  | true ↦
      (let t = take_threads nr k (add32 tail 1) ov in
        record t { threads = k.rq (tail % rq_size) ∷ t.threads })
  | false ↦ elim ov [
    | [] ↦ record { threads = []; tail = tail; overflow = [] }
    | th ∷ ths ↦ (let t = take_threads nr k tail ths in record t { threads = th ∷ t.threads })
  ]
]
