-- ===== src/Runq/Tests.antt =====
-- The run queues at concrete threads.
use caladan.Common.{◌+◌, ◌%◌, ◌≡◌, refl, inl, true, false, ltb, [], ◌∷◌, ◌++◌, arith}
use caladan.Runq.{Threads, Runq, thread_ready, thread_ready_head, next_thread}
use caladan.Runq.Ring.{queue, slots}
use caladan.Runq.Ready.{IsValid, Readies, thread_ready_refines}
use caladan.Runq.Ahead.{thread_ready_head_refines}
use caladan.Runq.Next.{next_thread_refines}
use caladan.Runq.Merge.{merge_runqueues, steal_work}
use caladan.Runq.Balance.{Merges, merge_runqueues_refines, merge_runqueues-IsValid}
use caladan.Runq.Work.{Balances, steal_work_refines}

-- The threads below 20 are ready, each since a time of its own.
abbrev threads : Threads
threads = record { ready_tsc = λ t. t; thread_ready = λ t. ltb t 20 }

-- Three threads around the end of the ring
abbrev wrapped : Runq
wrapped = record {
  rq = λ i. (i + 1) % 32 + 5;
  rq_head = 2;
  rq_tail = 4294967295;
  overflow = [];
  shown_head = 3;
  shown_tail = 0;
  oldest_tsc = 5;
}

-- Six threads
abbrev long : Runq
long = record {
  rq = λ i. i + 8;
  rq_head = 6;
  rq_tail = 0;
  overflow = [];
  shown_head = 0;
  shown_tail = 4294967290;
  oldest_tsc = 8;
}

wrapped-IsValid : IsValid threads wrapped 15
unfolding queue slots
wrapped-IsValid = record {
  is_shown = record {
    ring = record { head_word = omega arith; tail_word = omega arith; fits = omega arith };
    shown_word = omega arith;
    counted = refl;
    no_gap = inl refl;
    fresh = refl;
  };
  marked = (refl, (refl, (refl, tt)));
  sorted = ((omega arith, (omega arith, tt)), ((omega arith, tt), (tt, tt)));
  past = (omega arith, (omega arith, (omega arith, tt)));
}

long-IsValid : IsValid threads long 15
unfolding queue slots
long-IsValid = record {
  is_shown = record {
    ring = record { head_word = omega arith; tail_word = omega arith; fits = omega arith };
    shown_word = omega arith;
    counted = refl;
    no_gap = inl refl;
    fresh = refl;
  };
  marked = (refl, (refl, (refl, (refl, (refl, (refl, tt))))));
  sorted = (
    (omega arith, (omega arith, (omega arith, (omega arith, (omega arith, tt))))),
    (
      (omega arith, (omega arith, (omega arith, (omega arith, tt)))),
      (
        (omega arith, (omega arith, (omega arith, tt))),
        ((omega arith, (omega arith, tt)), ((omega arith, tt), (tt, tt))),
      ),
    ),
  );
  past =
      (omega arith, (omega arith, (omega arith, (omega arith, (omega arith, (omega arith, tt))))));
}

thread_ready_refines_example :
    Readies (queue wrapped ++ 30 ∷ []) 30 16 false (thread_ready threads wrapped 30 16)
thread_ready_refines_example =
    thread_ready_refines threads wrapped 30 15 16 wrapped-IsValid (omega arith)

thread_ready_head_refines_example :
    Readies (30 ∷ queue wrapped) 30 16 false (thread_ready_head threads wrapped 30 16)
thread_ready_head_refines_example =
    thread_ready_head_refines threads wrapped 30 15 16 wrapped-IsValid (omega arith)

next_thread_refines_example :
    (queue wrapped ≡ (next_thread threads wrapped).0 ∷ queue (next_thread threads wrapped).1)
    × IsValid threads (next_thread threads wrapped).1 15
next_thread_refines_example = next_thread_refines threads wrapped 15 wrapped-IsValid (omega arith)

merge_runqueues_refines_example :
    Merges threads wrapped long 3 15 (merge_runqueues threads wrapped 3 long 3)
unfolding queue slots
merge_runqueues_refines_example =
    merge_runqueues_refines threads wrapped long 3 15 wrapped-IsValid long-IsValid (omega arith)
      (omega arith)

merge_runqueues-IsValid_example : IsValid threads (merge_runqueues threads wrapped 3 long 3).1 15
merge_runqueues-IsValid_example =
    merge_runqueues-IsValid threads wrapped long 3 3 15 long-IsValid (inl refl)

steal_work_refines_example :
    Balances threads wrapped long 15 false true (steal_work threads wrapped long false true)
unfolding queue slots
steal_work_refines_example =
    steal_work_refines threads wrapped long false true 15 wrapped-IsValid long-IsValid (omega arith)
      (omega arith)
