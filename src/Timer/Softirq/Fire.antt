-- ===== src/Timer/Softirq/Fire.antt =====
-- `timer_softirq_one` fires every timer that is due, in the order of the deadlines
-- (runtime/timer.c).
use caladan.Common.{
  ℕ, ◌-◌, ◌<◌, ◌≡◌, ◌≢◌, refl, inl, inr, true, false, ◌↔◌, List, [], ◌∷◌, arith, ltb, ◌==◌,
  if◌then◌else◌, Bool-cases, some, Option-cases,
}
use caladan.Timer.{TimerIdx, Heap, Kthread, place, sift_down, entry, update_q_ptrs, set_entry}
use caladan.Timer.Softirq.{take_first, finish, Reading, fire_first, stops, timer_softirq_one}
use caladan.Timer.Order.{IsHeap, DownAt, sift_down-IsHeap}
use caladan.Timer.Places.{
  Back, Holds, Moved, Swaps, none_left, sift_down-Swaps, Swaps-Back, Swaps-Moved, Swaps-Holds,
}
use caladan.Timer.Inv.{IsValid, Pending}
use caladan.Timer.Start.{set_entry-IsValid}
use caladan.Timer.Remove.{Removed, rest-IsValid}

module _ (k : Kthread) (v : IsValid k) (some_left : 0 < k.timern) where
  abbrev first : ℕ
  first = (k.heap.timers 0).e

  abbrev last : ℕ
  last = k.timern - 1

  abbrev filled : Heap
  filled = if ltb 0 last then place k.heap 0 (k.heap.timers last) else k.heap

  abbrev sifted : Heap
  sifted = if ltb 0 last then sift_down (place k.heap 0 (k.heap.timers last)) 0 last else k.heap

  filled-Back : Back last filled
  unfolding place
  filled-Back j lt = ground (arith, v.back j, v.back last)

  filled-Holds : (t : TimerIdx) → Holds last filled.timers t ↔ (Pending k t × (t.e ≢ first))
  unfolding place
  filled-Holds t = (
    λ (j, lt, at). (
      ((if j == 0 then last else j), ground arith, ground arith),
      ground (arith, v.back j, v.back last, v.back 0),
    ),
    λ ((j, lt, at), ne). ((if j == last then 0 else j), ground arith, ground arith),
  )

  filled-DownAt : 0 < last → DownAt filled.timers last 0
  unfolding place
  filled-DownAt more = record {
    others = λ j h0 h1 h2. ground (arith, v.order j h0);
    above = λ j h0 h1 h2 h3. absurd (omega arith);
  }

  filled-Moved : (x : ℕ) → Moved (entry k x) (filled.entries x)
  unfolding place
  filled-Moved x = ground arith

  sifted-Swaps : Swaps last filled sifted
  sifted-Swaps = elim (Bool-cases (ltb 0 last)) [
    | inl more ↦ rw more (sift_down-Swaps _ 0 last (ground arith))
    | inr one ↦ rw one (none_left k.heap)
  ]

  sifted-IsHeap : IsHeap sifted.timers last
  sifted-IsHeap = elim (Bool-cases (ltb 0 last)) [
    | inl more ↦ rw more (
        sift_down-IsHeap _ 0 last (ground arith) (omega (arith, v.room))
          (rw more at (filled-DownAt (ground arith))))
    | inr one ↦ λ j h0 h1. absurd (ground arith)
  ]

  sifted-Holds : (t : TimerIdx) → Holds last sifted.timers t ↔ (Pending k t × (t.e ≢ first))
  sifted-Holds t = (
    λ h. (filled-Holds t).0 ((Swaps-Holds t sifted-Swaps).1 h),
    λ h. (Swaps-Holds t sifted-Swaps).0 ((filled-Holds t).1 h),
  )

  sifted-Moved : (x : ℕ) → Moved (entry k x) (sifted.entries x)
  sifted-Moved x = ground (arith, filled-Moved x, Swaps-Moved sifted-Swaps x)

  abbrev taken : Heap
  taken = set_entry sifted first (record (sifted.entries first) { executing = true; armed = false })

  taken-Back : Back last taken
  taken-Back j lt = ground (
    arith,
    Swaps-Back sifted-Swaps filled-Back j lt,
    (sifted-Holds (sifted.timers j)).0 (j, lt, refl),
  )

  -- The root leaves the heap, and it alone; nothing that stays is due before it.
  pub take_first-Removed : Removed k first (take_first k).0
  unfolding take_first update_q_ptrs
  take_first-Removed = record {
    valid =
        rest-IsValid k first v taken _ sifted-IsHeap taken-Back sifted-Holds
          (λ x. ground (arith, sifted-Moved x)) (λ x. ground (arith, sifted-Moved x));
    pending = sifted-Holds;
    published = refl;
    armed = ground arith;
    cancelling = ground (arith, sifted-Moved first);
    others = λ x ne. ground (arith, sifted-Moved x);
  }

pub finish-IsValid : (k : Kthread) (e : ℕ) → IsValid k → IsValid (finish k e)
unfolding finish
finish-IsValid k e v = set_entry-IsValid k e _ refl refl refl v

module _ (handler : ℕ → ℕ → Kthread → Kthread)
    (sound : (fn arg : ℕ) (k : Kthread) → IsValid k → IsValid (handler fn arg k)) where
  fire_first-IsValid : (k : Kthread) → 0 < k.timern → IsValid k → IsValid (fire_first handler k)
  unfolding fire_first
  fire_first-IsValid k more v = finish-IsValid _ _ (sound _ _ _ (take_first-Removed k v more).valid)

  -- Whatever the readings are, the loop keeps the timers valid if each handler does.
  pub timer_softirq_one-IsValid :
      (rs : List Reading) (k k' : Kthread) (fired : List TimerIdx)
      → IsValid k
      → timer_softirq_one handler rs k ≡ some (k', fired)
      → IsValid k'
  unfolding timer_softirq_one
  timer_softirq_one-IsValid [] k k' fired v h = cc
  timer_softirq_one-IsValid (r ∷ rs) k k' fired v h = elim (Bool-cases (stops handler k r)) [
    | inl end ↦ let same : k ≡ k' = ground arith in rw same at v
    | inr go ↦ elim (Option-cases (timer_softirq_one handler rs (fire_first handler k))) [
      | inl out ↦ absurd (ground arith)
      | inr ((k'', rest), e) ↦
          let same : k'' ≡ k' = ground arith in
          rw same at (
            timer_softirq_one-IsValid rs (fire_first handler k) k'' rest
              (fire_first-IsValid k (unfold stops in ground arith) v) e)
    ]
  ]
