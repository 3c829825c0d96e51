-- ===== src/Timer/Softirq.antt =====
-- `timer_softirq_one` (runtime/timer.c): fires the timers that are due.
pub mod Fire
pub mod Order
use caladan.Common.{
  ℕ, ◌-◌, ◌<◌, Bool, true, false, ◌||◌, Option, none, some, List, [], ◌∷◌, ltb, ◌==◌, if◌then◌else◌,
  update,
}
use caladan.Timer.{
  TimerIdx, Heap, Kthread, deadline, entry, set_entry, place, sift_down, update_q_ptrs,
}

-- One round under the lock, up to `spin_unlock`: the root leaves the heap and is marked as
-- executing. Returned is the pointer `e`.
pub take_first : Kthread → Kthread × ℕ
unfolding place sift_down update_q_ptrs
take_first k =
    let i = k.timern - 1 in
    let e = (k.heap.timers 0).e in
    let h = if ltb 0 i then sift_down (place k.heap 0 (k.heap.timers i)) 0 i else k.heap in
    let k' = update_q_ptrs (record k { timern = i; heap = h }) in
    (
      record k' { heap = set_entry h e (record (h.entries e) { executing = true; armed = false }) },
      e,
    )

-- `store_release(&e->executing, false)`, behind the handler
pub finish : Kthread → ℕ → Kthread
finish k e = record k { heap = set_entry k.heap e (record (entry k e) { executing = false }) }

-- What one evaluation of the loop's test reads: `preempt_needed()`, and the time of the last call
-- of `microtime()`.
pub record Reading : Type 0 where
  pub preempt : Bool
  pub now_us : ℕ

-- `handler fn arg` is what the call `e->fn(e->arg)` does to the timers, which are unlocked then.
module _ (handler : ℕ → ℕ → Kthread → Kthread) where
  -- One round: take the root, run its handler, and mark it as done.
  pub fire_first : Kthread → Kthread
  unfolding take_first finish
  fire_first k =
      let (k', e) = take_first k in finish (handler (entry k' e).fn (entry k' e).arg k') e

  pub stops : Kthread → Reading → Bool
  stops k r = r.preempt || k.timern == 0 || ltb r.now_us (deadline k.heap.timers 0)

  -- The loop, on the readings of its tests: the state behind it and the timers fired, in order.
  -- `none` means that the list of readings is too short.
  unfoldable pub timer_softirq_one : List Reading → Kthread → Option (Kthread × List TimerIdx)
  unfolding fire_first stops
  timer_softirq_one [] k = none
  timer_softirq_one (r ∷ rs) k =
      let rest = timer_softirq_one rs (fire_first k) in
      if stops k r
      then some (k, [])
      else elim rest [ none ↦ none | some (k', fired) ↦ some (k', k.heap.timers 0 ∷ fired) ]
