-- ===== src/Timer/Softirq/Order.antt =====
-- With handlers that leave the timers alone, `timer_softirq_one` fires exactly the timers that
-- are due, first deadline first (runtime/timer.c).
use caladan.Common.{
  ℕ, zero, suc, ◌+◌, ◌-◌, ◌≤◌, ◌<◌, ◌≡◌, ◌≢◌, refl, ◌⊎◌, inl, inr, false, ◌↔◌, List, [], ◌∷◌, arith,
  sym, length, ◌==◌, Bool-cases, some,
}
use caladan.Timer.{TimerIdx, Kthread, deadline}
use caladan.Timer.Softirq.{take_first, finish, Reading, fire_first, stops, timer_softirq_one}
use caladan.Timer.Softirq.Fire.{take_first-Removed, finish-IsValid}
use caladan.Timer.Inv.{IsValid, Pending}
use caladan.Timer.Check.{root-least}

-- Readings at one time with no preemption.
abbrev pub calm : ℕ → ℕ → List Reading
calm zero now = []
calm (suc n) now = record { preempt = false; now_us = now } ∷ calm n now

abbrev pub In : TimerIdx → List TimerIdx → Type 0
In t [] = ⊥
In t (x ∷ xs) = (t ≡ x) ⊎ In t xs

abbrev pub IsSorted : List TimerIdx → Type 0
IsSorted [] = Unit {0}
IsSorted (x ∷ xs) = ((t : TimerIdx) → In t xs → x.deadline_us ≤ t.deadline_us) × IsSorted xs

-- The run at time `now` from `k` to `k'`: which timers it fired, and which are left.
pub record Fired (now : ℕ) (k k' : Kthread) (fired : List TimerIdx) : Type 0 where
  pub valid : IsValid k'
  pub left : (t : TimerIdx) → Pending k' t ↔ (Pending k t × (now < t.deadline_us))
  pub due : (t : TimerIdx) → In t fired ↔ (Pending k t × (t.deadline_us ≤ now))
  pub sorted : IsSorted fired
  pub count : length fired + k'.timern ≡ k.timern

root_unique :
    (k : Kthread) (t : TimerIdx)
    → IsValid k
    → Pending k t
    → (t ≡ k.heap.timers 0) ⊎ (t.e ≢ (k.heap.timers 0).e)
root_unique k t v (j, lt, at) = elim (Bool-cases (j == 0)) [
  | inl z ↦ inl (ground arith)
  | inr nz ↦ inr (λ e. ground (arith, v.back j lt, v.back 0))
]

pending_late :
    (k : Kthread) (t : TimerIdx)
    → IsValid k
    → Pending k t
    → deadline k.heap.timers 0 ≤ t.deadline_us
pending_late k t v (j, lt, at) = ground (arith, root-least k.heap.timers k.timern v.order j lt)

pending_some : (k : Kthread) (t : TimerIdx) → Pending k t → 0 < k.timern
pending_some k t (j, lt, at) = omega arith

idle-Fired :
    (now : ℕ) (k : Kthread)
    → IsValid k
    → (k.timern ≡ 0) ⊎ (now < deadline k.heap.timers 0)
    → Fired now k k []
idle-Fired now k v h = record {
  valid = v;
  left = λ t. (λ p. (p, omega (arith, pending_late k t v p, pending_some k t p)), λ p. p.0);
  due = λ t.
      (λ i. absurd i, λ p. absurd (omega (arith, pending_late k t v p.0, pending_some k t p.0)));
  sorted = tt;
  count = omega arith;
}

module _ (handler : ℕ → ℕ → Kthread → Kthread)
    (quiet : (fn arg : ℕ) (k : Kthread) → handler fn arg k ≡ k) where
  abbrev rest : Kthread → Kthread
  rest k = fire_first handler k

  rest_eq : (k : Kthread) → rest k ≡ finish (take_first k).0 (take_first k).1
  unfolding fire_first
  rest_eq k = rw (quiet _ _ (take_first k).0)

  rest_facts :
      (k : Kthread)
      → IsValid k
      → 0 < k.timern
      → IsValid (rest k)
        × ((rest k).timern ≡ k.timern - 1)
        × ((t : TimerIdx) → Pending (rest k) t ↔ (Pending k t × (t.e ≢ (k.heap.timers 0).e)))
  rest_facts k v more = rw (rest_eq k) (
      let gone = take_first-Removed k v more in
      (
        finish-IsValid _ _ gone.valid,
        unfold finish take_first in refl,
        unfold finish in gone.pending,
      ))

  module _ (now : ℕ) (k k' : Kthread) (fired : List TimerIdx) (v : IsValid k) (more : 0 < k.timern)
      (late : deadline k.heap.timers 0 ≤ now) (f : Fired now (rest k) k' fired) where
    stays : (t : TimerIdx) → Pending (rest k) t ↔ (Pending k t × (t.e ≢ (k.heap.timers 0).e))
    stays = (rest_facts k v more).2

    due_first :
        (t : TimerIdx) → In t (k.heap.timers 0 ∷ fired) → Pending k t × (t.deadline_us ≤ now)
    due_first t (inl e) = ((0, more, sym e), ground arith)
    due_first t (inr i) = let (q, l) = (f.due t).0 i in (((stays t).0 q).0, l)

    fired_first :
        (t : TimerIdx) → Pending k t → t.deadline_us ≤ now → In t (k.heap.timers 0 ∷ fired)
    fired_first t p l = elim (root_unique k t v p) [
      | inl e ↦ inl e
      | inr ne ↦ inr ((f.due t).1 ((stays t).1 (p, ne), l))
    ]

    left_behind :
        (t : TimerIdx) → Pending k t → now < t.deadline_us → Pending k' t × (now < t.deadline_us)
    left_behind t p l = elim (root_unique k t v p) [
      | inl e ↦ absurd (ground arith)
      | inr ne ↦ ((f.left t).1 ((stays t).1 (p, ne), l), l)
    ]

    step-Fired : Fired now k k' (k.heap.timers 0 ∷ fired)
    step-Fired = record {
      valid = f.valid;
      left = λ t. (
        λ p. let (q, l) = (f.left t).0 p in (((stays t).0 q).0, l),
        λ (p, l). (left_behind t p l).0,
      );
      due = λ t. (due_first t, λ (p, l). fired_first t p l);
      sorted = (λ t i. pending_late k t v (due_first t (inr i)).0, f.sorted);
      count = omega (arith, f.count, (rest_facts k v more).1);
    }

  -- With handlers that leave the timers alone and no preemption, the loop at time `now` ends
  -- within one round for each timer and one more: it has fired every timer due by `now`, once
  -- and in the order of the deadlines, and left the others.
  pub timer_softirq_one_lem :
      (n now : ℕ) (k : Kthread)
      → IsValid k
      → k.timern < n
      → (k' : Kthread) × (fired : List TimerIdx) × (timer_softirq_one handler (calm n now) k
          ≡ some (k', fired))
        × Fired now k k' fired
  unfolding timer_softirq_one
  timer_softirq_one_lem zero now k v enough = absurd (omega arith)
  timer_softirq_one_lem (suc n) now k v enough =
      elim (Bool-cases (stops handler k (record { preempt = false; now_us = now }))) [
        | inl end ↦ (k, [], rw end, idle-Fired now k v (unfold stops in ground arith))
        | inr go ↦
            let more : 0 < k.timern = unfold stops in ground arith in
            let late : deadline k.heap.timers 0 ≤ now = unfold stops in ground arith in
            let (v', count, stay) = rest_facts k v more in
            let (k', fired, e, f) = timer_softirq_one_lem n now (rest k) v' (omega arith) in
            (k', k.heap.timers 0 ∷ fired, rw (go, e), step-Fired now k k' fired v more late f)
      ]
