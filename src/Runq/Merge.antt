-- ===== src/Runq/Merge.antt =====
-- Stealing from the run queue of another kthread (`merge_runqueues` and `steal_work` of
-- runtime/sched.c).
use caladan.Common.{
  ℕ, ◌-◌, ◌/◌, Bool, true, false, not, ◌||◌, ◌==◌, ltb, leb, if◌then◌else◌, List, [], ◌∷◌, ◌++◌,
  length,
}
use caladan.Common.Word32.{add32, sub32}
use caladan.Runq.{rq_size, Threads, Runq, in_ring, put_slot, update_oldest_tsc, take_threads}

-- `drain_threads` of a queue that is stolen from
unfoldable pub drain_threads : Runq → ℕ → List ℕ × Runq
drain_threads k nr =
    let t = take_threads nr k k.rq_tail k.overflow in
    (
      t.threads,
      record k {
        rq_tail = t.tail;
        overflow = t.overflow;
        shown_tail = add32 k.shown_tail (length t.threads);
      },
    )

-- A thread of the merge goes to the ring, or behind it.
abbrev pub push_merged : Runq → ℕ → Runq
push_merged k th =
    if leb rq_size (in_ring k) then record k { overflow = k.overflow ++ th ∷ [] } else put_slot k th

-- The loop of the merge: the thread that is ready for longer goes first, and of two that are ready
-- since the same time the one of our own queue. It ends when both lists have.
unfoldable pub merge_into : Threads → List ℕ → List ℕ → Runq → Runq
merge_into s (x ∷ l) (y ∷ r) k = elim (ltb (s.ready_tsc y) (s.ready_tsc x)) [
  | true ↦ merge_into s (x ∷ l) r (push_merged k y)
  | false ↦ merge_into s l (y ∷ r) (push_merged k x)
]
merge_into s [] [] k = k
merge_into s (x ∷ l) [] k = merge_into s l [] (push_merged k x)
merge_into s [] (y ∷ r) k = merge_into s [] r (push_merged k y)

-- `merge_runqueues`: our queue and the other, behind the theft of up to `rsize` threads.
unfoldable pub merge_runqueues : Threads → Runq → ℕ → Runq → ℕ → Runq × Runq
unfolding drain_threads merge_into
merge_runqueues s l lsize r rsize =
    let (r_ths, r') = drain_threads r rsize in
    let own = take_threads lsize l l.rq_tail l.overflow in
    let l' =
      merge_into s own.threads r_ths
        (record l { rq_head = 0; rq_tail = 0; overflow = own.overflow }) in
    (
      update_oldest_tsc s (record l' { shown_head = add32 l.shown_head (length r_ths) }),
      update_oldest_tsc s r',
    )

abbrev pub shown_size : Runq → ℕ
shown_size k = sub32 k.shown_head k.shown_tail

-- How many threads a thief takes: half of the difference, rounded up on 32 bits, and a ring
-- at most.
abbrev pub num_to_steal : ℕ → ℕ → ℕ
num_to_steal lsize rsize =
    let half = add32 (rsize - lsize) 1 / 2 in
    if ltb lsize rsize then (if ltb half rq_size then half else rq_size) else 0

-- What a look at another kthread comes to: only its packets are polled, or threads are stolen, or
-- its softirqs are run.
pub data Theft : Type 0 where
  polls : Theft
  steals : Runq → Runq → Theft
  runs_softirqs : Theft

-- `steal_work`, of a build with no garbage collector: `busy` is whether softirqs are pending, and
-- `locked` whether the lock of the other is got.
unfoldable pub steal_work : Threads → Runq → Runq → Bool → Bool → Theft
steal_work s l r busy locked =
    let n = num_to_steal (shown_size l) (shown_size r) in
    let (l', r') = merge_runqueues s l (shown_size l) r n in
    if not (not (r.rq_tail == r.rq_head) || busy) || not locked
    then polls
    else if n == 0
    then runs_softirqs
    else steals l' r'
