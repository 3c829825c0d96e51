-- ===== src/Timer/Order.antt =====
-- `sift_up` and `sift_down` restore the order of the heap (runtime/timer.c).
use caladan.Common.{
  ℕ, zero, suc, ◌+◌, ◌*◌, ◌≤◌, ◌<◌, ◌≡◌, ◌≢◌, refl, ◌⊎◌, inl, inr, arith, ltb, leb, ◌==◌,
  Bool-cases, update,
}
use caladan.Timer.{
  TimerIdx, Heap, arity, int_max, deadline, parent, place, sift_up_loop, sift_up, scan_children,
  sift_down_loop, sift_down,
}

-- No timer is due before its parent.
abbrev pub IsHeap : (ℕ → TimerIdx) → ℕ → Type 0
IsHeap f n = (j : ℕ) → 0 < j → j < n → deadline f (parent j) ≤ deadline f j

-- Slot `i` may be due before its parent.
pub record UpAt (f : ℕ → TimerIdx) (n i : ℕ) : Type 0 where
  pub others : (j : ℕ) → 0 < j → j < n → j ≢ i → deadline f (parent j) ≤ deadline f j
  pub above : (j : ℕ) → 0 < j → j < n → parent j ≡ i → 0 < i → deadline f (parent i) ≤ deadline f j

-- Slot `i` may be due after its children.
pub record DownAt (f : ℕ → TimerIdx) (n i : ℕ) : Type 0 where
  pub others : (j : ℕ) → 0 < j → j < n → parent j ≢ i → deadline f (parent j) ≤ deadline f j
  pub above : (j : ℕ) → 0 < j → j < n → parent j ≡ i → 0 < i → deadline f (parent i) ≤ deadline f j

-- Slot `i` may hold anything.
pub record HoleAt (f : ℕ → TimerIdx) (n i : ℕ) : Type 0 where
  pub others : (j : ℕ) → 0 < j → j < n → j ≢ i → parent j ≢ i → deadline f (parent j) ≤ deadline f j
  pub above : (j : ℕ) → 0 < j → j < n → parent j ≡ i → 0 < i → deadline f (parent i) ≤ deadline f j

abbrev swapped : (ℕ → TimerIdx) → ℕ → ℕ → TimerIdx → ℕ → TimerIdx
swapped f i p tmp = update (update f i (f p)) p tmp

module _ (f : ℕ → TimerIdx) (n i : ℕ) (tmp : TimerIdx) (at_i : f i ≡ tmp) (pos : 0 < i)
    (lt : i < n) where
  swap_up :
      UpAt f n i
      → tmp.deadline_us ≤ deadline f (parent i)
      → UpAt (swapped f i (parent i) tmp) n (parent i)
  swap_up v less = record {
    others =
        λ j h0 h1 h2. ground (arith, v.others j h0 h1, v.above j h0 h1, v.others (parent i), at_i);
    above = λ j h0 h1 h2 h3. ground (arith, v.others j h0 h1, v.others (parent i) h3, at_i);
  }

  -- A hole that is not filled too low is a place to sift up from; a swap repairs it below.
  swap_hole :
      HoleAt f n i
      → tmp.deadline_us < deadline f (parent i)
      → UpAt (swapped f i (parent i) tmp) n (parent i)
  swap_hole v less = record {
    others =
        λ j h0 h1 h2. ground (arith, v.others j h0 h1, v.above j h0 h1, v.others (parent i), at_i);
    above = λ j h0 h1 h2 h3.
        ground (arith, v.others j h0 h1, v.above j h0 h1, v.others (parent i) h3, at_i);
  }

  UpAt-IsHeap : UpAt f n i → deadline f (parent i) ≤ tmp.deadline_us → IsHeap f n
  UpAt-IsHeap v le j h0 h1 = ground (arith, v.others j h0 h1, at_i)

  HoleAt-DownAt : HoleAt f n i → deadline f (parent i) ≤ tmp.deadline_us → DownAt f n i
  HoleAt-DownAt v le = record {
    others = λ j h0 h1 h2. ground (arith, v.others j h0 h1, at_i);
    above = v.above;
  }

UpAt-zero : (f : ℕ → TimerIdx) (n : ℕ) → UpAt f n 0 → IsHeap f n
UpAt-zero f n v j h0 h1 = v.others j h0 h1 (omega arith)

HoleAt-zero : (f : ℕ → TimerIdx) (n : ℕ) → HoleAt f n 0 → DownAt f n 0
HoleAt-zero f n v = record {
  others = λ j h0 h1 h2. v.others j h0 h1 (omega arith) h2;
  above = v.above;
}

IsHeap-DownAt : (f : ℕ → TimerIdx) (n i : ℕ) → IsHeap f n → DownAt f n i
IsHeap-DownAt f n i v = record {
  others = λ j h0 h1 h2. v j h0 h1;
  above = λ j h0 h1 h2 h3. ground (arith, v j h0 h1, v i h3);
}

sift_up_loop-IsHeap :
    (fuel : ℕ) (h : Heap) (tmp : TimerIdx) (i n : ℕ)
    → i < fuel
    → i < n
    → h.timers i ≡ tmp
    → UpAt h.timers n i
    → IsHeap (sift_up_loop fuel h tmp i).timers n
unfolding sift_up_loop place
sift_up_loop-IsHeap zero h tmp i n enough lt e v = absurd (omega arith)
sift_up_loop-IsHeap (suc fuel) h tmp i n enough lt e v = elim (Bool-cases (i == 0)) [
  | inl z ↦ rw z (let z' : i ≡ 0 = ground arith in UpAt-zero _ n (rw z' at v))
  | inr nz ↦ elim (Bool-cases (leb (deadline h.timers (parent i)) tmp.deadline_us)) [
    | inl le ↦ rw (nz, le) (UpAt-IsHeap h.timers n i tmp e (ground arith) lt v (ground arith))
    | inr gt ↦
        rw (nz, gt)
          (sift_up_loop-IsHeap fuel (place (place h i (h.timers (parent i))) (parent i) tmp) tmp
            (parent i) n (ground arith) (ground arith) (ground arith)
            (swap_up h.timers n i tmp e (ground arith) lt v (ground arith)))
  ]
]

-- The heap is in order after a sift up from the one slot that may be due before its parent.
pub sift_up-IsHeap :
    (h : Heap) (i n : ℕ) → i < n → UpAt h.timers n i → IsHeap (sift_up h i).timers n
unfolding sift_up
sift_up-IsHeap h i n lt v = sift_up_loop-IsHeap (suc i) h (h.timers i) i n (omega arith) lt refl v

-- From a slot that may hold anything, a sift up leaves a slot from which to sift down.
pub sift_up-DownAt :
    (h : Heap) (i n : ℕ) → i < n → HoleAt h.timers n i → DownAt (sift_up h i).timers n i
unfolding sift_up sift_up_loop place
sift_up-DownAt h i n lt v = elim (Bool-cases (i == 0)) [
  | inl z ↦ rw z (let z' : i ≡ 0 = ground arith in rw z' (HoleAt-zero _ n (rw z' at v)))
  | inr nz ↦ elim (Bool-cases (leb (deadline h.timers (parent i)) (deadline h.timers i))) [
    | inl le ↦
        rw (nz, le)
          (HoleAt-DownAt h.timers n i (h.timers i) refl (ground arith) lt v (ground arith))
    | inr gt ↦
        rw (nz, gt)
          (IsHeap-DownAt _ n i (
            sift_up_loop-IsHeap i (place (place h i (h.timers (parent i))) (parent i) (h.timers i))
              (h.timers i) (parent i) n (ground arith) (ground arith) (ground arith)
              (swap_hole h.timers n i (h.timers i) refl (ground arith) lt v (ground arith))))
  ]
]

-- What the scan of the children finds: none due before `w`, or the child that is due first.
abbrev pub Kept : (ℕ → TimerIdx) → ℕ → ℕ → ℕ → ℕ → Type 0
Kept f n rounds j w = (x : ℕ) → j ≤ x → x < j + rounds → x < n → w ≤ deadline f x

abbrev pub Found : (ℕ → TimerIdx) → ℕ → ℕ → ℕ → ℕ → ℕ → Type 0
Found f n rounds j w r =
    (j ≤ r) × (r < j + rounds) × (r < n) × (deadline f r < w) × Kept f n rounds j (deadline f r)

pub scan_children_lem :
    (f : ℕ → TimerIdx) (n rounds j w c : ℕ)
    → let r = scan_children f n rounds j w c in
      ((r ≡ c) × Kept f n rounds j w) ⊎ Found f n rounds j w r
unfolding scan_children
scan_children_lem f n zero j w c = inl (refl, λ x h0 h1 h2. omega arith)
scan_children_lem f n (suc rounds) j w c = elim (Bool-cases (leb n j)) [
  | inl out ↦ rw out (inl (refl, λ x h0 h1 h2. ground arith))
  | inr inside ↦ elim (Bool-cases (ltb (deadline f j) w)) [
    | inl less ↦
        rw (inside, less)
          (elim (scan_children_lem f n rounds (j + 1) (deadline f j) j) [
            | inl (e, k) ↦ inr (
              ground arith,
              ground arith,
              ground arith,
              ground arith,
              λ x h0 h1 h2. ground (arith, k x),
            )
            | inr (a, b, c', d, k) ↦
                inr (omega arith, omega arith, c', ground arith, λ x h0 h1 h2. ground (arith, k x))
          ])
    | inr more ↦
        rw (inside, more)
          (elim (scan_children_lem f n rounds (j + 1) w c) [
            | inl (e, k) ↦ inl (e, λ x h0 h1 h2. ground (arith, k x))
            | inr (a, b, c', d, k) ↦
                inr (omega arith, omega arith, c', d, λ x h0 h1 h2. ground (arith, k x))
          ])
  ]
]

module _ (f : ℕ → TimerIdx) (n i c : ℕ) (tmp : TimerIdx) (at_i : f i ≡ tmp) where
  swap_down :
      DownAt f n i
      → Found f n arity (i * arity + 1) tmp.deadline_us c
      → DownAt (swapped f i c tmp) n c
  swap_down v (a, b, lt, less, least) = record {
    others = λ j h0 h1 h2. ground (arith, v.others j h0 h1, v.above c, least j, at_i);
    above = λ j h0 h1 h2 h3. ground (arith, v.others j h0 h1, at_i);
  }

  DownAt-IsHeap : DownAt f n i → Kept f n arity (i * arity + 1) tmp.deadline_us → IsHeap f n
  DownAt-IsHeap v k j h0 h1 = ground (arith, v.others j h0 h1, k j, at_i)

sift_down_loop-IsHeap :
    (fuel : ℕ) (h : Heap) (tmp : TimerIdx) (i n : ℕ)
    → i < n
    → n < fuel + i
    → n ≤ int_max
    → h.timers i ≡ tmp
    → DownAt h.timers n i
    → IsHeap (sift_down_loop fuel h tmp i n).timers n
unfolding sift_down_loop place
sift_down_loop-IsHeap zero h tmp i n lt enough small e v = absurd (omega arith)
sift_down_loop-IsHeap (suc fuel) h tmp i n lt enough small e v = elim (Bool-cases (c == int_max)) [
  | inl last ↦ elim (scan_children_lem h.timers n arity (i * arity + 1) tmp.deadline_us int_max) [
    | inl (r, k) ↦ rw last (DownAt-IsHeap h.timers n i c tmp e v k)
    | inr (a, b, c', d, k) ↦ absurd (ground arith)
  ]
  | inr more ↦ elim (scan_children_lem h.timers n arity (i * arity + 1) tmp.deadline_us int_max) [
    | inl (r, k) ↦ absurd (ground arith)
    | inr found ↦ rw more (
        sift_down_loop-IsHeap fuel (place (place h i (h.timers c)) c tmp) tmp c n found.2
          (omega arith) small (ground arith) (swap_down h.timers n i c tmp e v found))
  ]
]
  where
    c : ℕ
    c = scan_children h.timers n arity (i * arity + 1) tmp.deadline_us int_max

-- The heap is in order after a sift down from the one slot that may be due after its children.
pub sift_down-IsHeap :
    (h : Heap) (i n : ℕ)
    → i < n
    → n ≤ int_max
    → DownAt h.timers n i
    → IsHeap (sift_down h i n).timers n
unfolding sift_down
sift_down-IsHeap h i n lt small v =
    sift_down_loop-IsHeap (suc n) h (h.timers i) i n lt (omega arith) small refl v
