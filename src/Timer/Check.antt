-- ===== src/Timer/Check.antt =====
-- What `is_valid_heap` checks (runtime/timer.c): its loop ends above slot 1, so slot 1 is never
-- compared with the root.
use caladan.Common.{
  ℕ, zero, suc, ◌+◌, ◌-◌, ◌≤◌, ◌<◌, ◌≡◌, refl, inl, inr, true, ◌↔◌, arith, ◌==◌, Bool-cases,
}
use caladan.Timer.{TimerIdx, deadline, parent, is_valid_from, is_valid_heap}
use caladan.Timer.Order.{IsHeap}

-- Slots 2 to `i` are in order.
abbrev pub OrderedFrom2 : (ℕ → TimerIdx) → ℕ → Type 0
OrderedFrom2 f n = (j : ℕ) → 1 < j → j < n → deadline f (parent j) ≤ deadline f j

is_valid_from_step :
    (f : ℕ → TimerIdx) (i : ℕ)
    → is_valid_from f (suc i) ≡ true
    → 1 < suc i
    → (deadline f (parent (suc i)) ≤ deadline f (suc i)) × (is_valid_from f i ≡ true)
unfolding is_valid_from
is_valid_from_step f i h two = ground arith

is_valid_from_sound : (f : ℕ → TimerIdx) (i : ℕ) → is_valid_from f i ≡ true → OrderedFrom2 f (i + 1)
is_valid_from_sound f zero h j h0 h1 = absurd (omega arith)
is_valid_from_sound f (suc i) h j h0 h1 =
    let (last, rest) = is_valid_from_step f i h (omega arith) in
    elim (Bool-cases (j == suc i)) [
      | inl e ↦ let e' : j ≡ suc i = ground arith in rw e' last
      | inr ne ↦ is_valid_from_sound f i rest j h0 (ground arith)
    ]

is_valid_from_complete :
    (f : ℕ → TimerIdx) (i : ℕ) → OrderedFrom2 f (i + 1) → is_valid_from f i ≡ true
unfolding is_valid_from
is_valid_from_complete f zero h = refl
is_valid_from_complete f (suc i) h =
    ground (arith, h (suc i), is_valid_from_complete f i (λ j h0 h1. h j h0 (omega arith)))

-- `is_valid_heap` accepts exactly the arrays in which each slot from 2 on is not due before its
-- parent.
pub is_valid_heap_iff : (f : ℕ → TimerIdx) (n : ℕ) → (is_valid_heap f n ≡ true) ↔ OrderedFrom2 f n
unfolding is_valid_heap
is_valid_heap_iff f n = (
  λ h j h0 h1. is_valid_from_sound f (n - 1) h j h0 (omega arith),
  λ h. is_valid_from_complete f (n - 1) (λ j h0 h1. h j h0 (omega arith)),
)

-- An array whose only fault is that slot 1 is due before the root is no heap, and is accepted.
pub is_valid_heap_misses_slot_one :
    (f : ℕ → TimerIdx) (n : ℕ)
    → 1 < n
    → OrderedFrom2 f n
    → deadline f 1 < deadline f 0
    → (is_valid_heap f n ≡ true) × ¬ IsHeap f n
is_valid_heap_misses_slot_one f n two ok late =
    ((is_valid_heap_iff f n).1 ok, λ h. absurd (omega (arith, h 1 (omega arith) two)))

-- No timer of a heap is due before the root.
pub root-least :
    (f : ℕ → TimerIdx) (n : ℕ) → IsHeap f n → (j : ℕ) → j < n → deadline f 0 ≤ deadline f j
root-least f n h j lt = go (suc j) j (omega arith) lt
  where
    go : (fuel j : ℕ) → j < fuel → j < n → deadline f 0 ≤ deadline f j
    go zero j enough lt = absurd (omega arith)
    go (suc fuel) zero enough lt = omega arith
    go (suc fuel) (suc j) enough lt =
        omega
          (arith, go fuel (parent (suc j)) (omega arith) (omega arith), h (suc j) (omega arith) lt)
