-- ===== src/Timer/Remove.antt =====
-- `timer_remove_armed` and the cancels: what they leave (runtime/timer.c).
use caladan.Common.{
  ℕ, ◌-◌, ◌<◌, ◌≡◌, ◌≢◌, refl, ◌⊎◌, inl, inr, true, false, ◌↔◌, arith, ◌==◌, if◌then◌else◌,
  Bool-cases, some,
}
use caladan.Timer.{
  TimerIdx, Heap, Kthread, place, sift_up, sift_down, entry, timer_remove_armed,
  timer_cancel_locked, timer_cancel, timer_cancel_recurring, timer_restart, first_tsc,
  update_q_ptrs, set_entry,
}
use caladan.Timer.Order.{IsHeap, HoleAt, sift_up-DownAt, sift_down-IsHeap}
use caladan.Timer.Places.{
  Back, Holds, Moved, Swaps, none_left, sift_up-Swaps, sift_down-Swaps, Swaps-Back, Swaps-Moved,
  Swaps-Holds, Swaps-trans,
}
use caladan.Timer.Inv.{IsValid, Pending}
use caladan.Timer.Start.{set_entry-IsValid}

-- What a removal has to leave: valid timers without this one, the iokernel told of the first
-- deadline, the entry no longer armed, and of all other entries at most `idx` changed.
pub record Removed (k : Kthread) (e : ℕ) (k' : Kthread) : Type 0 where
  pub valid : IsValid k'
  pub pending : (t : TimerIdx) → Pending k' t ↔ (Pending k t × (t.e ≢ e))
  pub published : k'.next_timer_tsc ≡ first_tsc k'
  pub armed : (entry k' e).armed ≡ false
  pub cancelling : (entry k' e).cancelling ≡ (entry k e).cancelling
  pub others : (x : ℕ) → x ≢ e → Moved (entry k x) (entry k' x)

-- What is left when the timer of entry `e` is gone: `g` holds the others, and their entries are as
-- they were.
module _ (k : Kthread) (e : ℕ) (v : IsValid k) (g : Heap) (tsc : ℕ)
    (ordered : IsHeap g.timers (k.timern - 1)) (back : Back (k.timern - 1) g)
    (holds : (t : TimerIdx) → Holds (k.timern - 1) g.timers t ↔ (Pending k t × (t.e ≢ e)))
    (armed : (x : ℕ) → (g.entries x).armed ≡ (if e == x then false else (entry k x).armed))
    (local : (x : ℕ) → (g.entries x).localk ≡ (entry k x).localk) where
  rest-live :
      (j : ℕ)
      → j < k.timern - 1
      → ((g.entries (g.timers j).e).armed ≡ true)
        × ((g.entries (g.timers j).e).localk ≡ some k.self)
  rest-live j lt =
      let ((m, lm, at), ne) = (holds (g.timers j)).0 (j, lt, refl) in
      (
        ground (arith, v.live m lm, armed (g.timers j).e),
        ground (arith, v.live m lm, local (g.timers j).e),
      )

  rest-listed :
      (x : ℕ)
      → (g.entries x).armed ≡ true
      → (g.entries x).localk ≡ some k.self
      → ((g.entries x).idx < k.timern - 1) × ((g.timers (g.entries x).idx).e ≡ x)
  rest-listed x a l =
      let was = armed x in
      let (lt, at) = v.listed x (ground arith) (ground (arith, local x)) in
      let (j, lj, here) =
        (holds (k.heap.timers (entry k x).idx)).1 (((entry k x).idx, lt, refl), ground arith) in
      (ground (arith, back j lj), ground (arith, back j lj))

  pub rest-IsValid : IsValid (record k { timern = k.timern - 1; heap = g; next_timer_tsc = tsc })
  rest-IsValid = record {
    order = ordered;
    back = back;
    live = rest-live;
    listed = rest-listed;
    room = omega (arith, v.room);
  }

module _ (k : Kthread) (e : ℕ) (v : IsValid k) (on : (entry k e).armed ≡ true)
    (mine : (entry k e).localk ≡ some k.self) where
  abbrev i : ℕ
  i = (entry k e).idx

  abbrev last : ℕ
  last = k.timern - 1

  abbrev disarmed : Heap
  disarmed = set_entry k.heap e (record (entry k e) { armed = false })

  -- The heap before the sifts.
  abbrev filled : Heap
  filled = if i == last then disarmed else place disarmed i (disarmed.timers last)

  at_i : (k.heap.timers i).e ≡ e
  at_i = (v.listed e on mine).1

  i_lt : i < k.timern
  i_lt = (v.listed e on mine).0

  filled-Back : Back last filled
  unfolding place
  filled-Back j lt = ground (arith, v.back j, v.back last, at_i, i_lt)

  filled-Holds : (t : TimerIdx) → Holds last filled.timers t ↔ (Pending k t × (t.e ≢ e))
  unfolding place
  filled-Holds t = (
    λ (j, lt, at). (
      ((if i == last then j else if i == j then last else j), ground (arith, i_lt), ground arith),
      ground (arith, i_lt, v.back j, v.back last),
    ),
    λ ((j, lt, at), ne).
        ((if j == last then i else j), ground (arith, i_lt, at_i), ground (arith, i_lt, at_i)),
  )

  filled-HoleAt : i ≢ last → HoleAt filled.timers last i
  unfolding place
  filled-HoleAt ne = record {
    others = λ j h0 h1 h2 h3. ground (arith, v.order j h0, i_lt);
    above = λ j h0 h1 h2 h3. ground (arith, v.order j h0, v.order i h3, i_lt);
  }

  filled-Moved :
      (x : ℕ)
      → Moved
          (record (entry k x) { armed = if e == x then false else (entry k x).armed })
          (filled.entries x)
  unfolding place
  filled-Moved x = ground arith

  abbrev left : Heap
  left =
      if i == last
      then disarmed
      else sift_down (sift_up (place disarmed i (disarmed.timers last)) i) i last

  left-Swaps : Swaps last filled left
  left-Swaps = elim (Bool-cases (i == last)) [
    | inl same ↦ rw same (none_left disarmed)
    | inr ne ↦ rw ne (
        Swaps-trans (sift_up-Swaps _ i last (ground (arith, i_lt)))
          (sift_down-Swaps _ i last (ground (arith, i_lt))))
  ]

  left-IsHeap : IsHeap left.timers last
  left-IsHeap = elim (Bool-cases (i == last)) [
    | inl same ↦ rw same (λ j h0 h1. v.order j h0 (omega arith))
    | inr ne ↦ rw ne (
        sift_down-IsHeap _ i last (ground (arith, i_lt)) (omega (arith, v.room)) (
          sift_up-DownAt _ i last (ground (arith, i_lt)) (rw ne at (filled-HoleAt (ground arith)))))
  ]

  left-Holds : (t : TimerIdx) → Holds last left.timers t ↔ (Pending k t × (t.e ≢ e))
  left-Holds t = (
    λ h. (filled-Holds t).0 ((Swaps-Holds t left-Swaps).1 h),
    λ h. (Swaps-Holds t left-Swaps).0 ((filled-Holds t).1 h),
  )

  left-Moved :
      (x : ℕ)
      → Moved
          (record (entry k x) { armed = if e == x then false else (entry k x).armed })
          (left.entries x)
  left-Moved x = ground (arith, filled-Moved x, Swaps-Moved left-Swaps x)

  left-Back : Back last left
  left-Back = Swaps-Back left-Swaps filled-Back

  -- A timer that is removed leaves the others, and leaves the timers valid.
  pub timer_remove_armed-Removed : Removed k e (timer_remove_armed k e)
  unfolding timer_remove_armed update_q_ptrs
  timer_remove_armed-Removed = record {
    valid =
        rest-IsValid k e v left _ left-IsHeap left-Back left-Holds
          (λ x. ground (arith, left-Moved x)) (λ x. ground (arith, left-Moved x));
    pending = left-Holds;
    published = refl;
    armed = ground (arith, left-Moved e);
    cancelling = ground (arith, left-Moved e);
    others = λ x ne. ground (arith, left-Moved x);
  }

-- Cancelling an armed timer of this kthread takes it, and it alone, out of the heap and returns
-- true; a timer that is not armed is left alone, and the call waits for a running handler.
pub timer_cancel_lem :
    (k : Kthread) (e : ℕ)
    → IsValid k
    → (entry k e).localk ≡ some k.self
    → (((entry k e).armed ≡ true)
        × ((timer_cancel k e).1 ≡ record { result = true; spins = false })
        × Removed k e (timer_cancel k e).0)
      ⊎ (((entry k e).armed ≡ false)
          × (timer_cancel k e ≡ (k, record { result = false; spins = (entry k e).executing })))
unfolding timer_cancel timer_cancel_locked
timer_cancel_lem k e v mine = elim (Bool-cases (entry k e).armed) [
  | inl on ↦ inl (on, rw on, rw on (timer_remove_armed-Removed k e v on mine))
  | inr off ↦ inr (off, rw off)
]

restart_cancelled :
    (k : Kthread) (e d : ℕ)
    → (entry k e).cancelling ≡ true
    → ((entry k e).cancelling ≡ true) × (timer_restart k e d ≡ some k)
unfolding timer_restart
restart_cancelled k e d c = (c, rw c)

abbrev cancelled : Kthread → ℕ → Kthread
cancelled k e = record k { heap = set_entry k.heap e (record (entry k e) { cancelling = true }) }

cancelled-IsValid : (k : Kthread) (e : ℕ) → IsValid k → IsValid (cancelled k e)
cancelled-IsValid k e v = set_entry-IsValid k e _ refl refl refl v

cancel_recurring_state :
    (k : Kthread) (e : ℕ)
    → (entry k e).localk ≡ some k.self
    → (timer_cancel_recurring k e).0 ≡ (
        if (entry k e).cancelling
        then k
        else if (entry k e).armed
        then timer_remove_armed (cancelled k e) e
        else cancelled k e)
unfolding timer_cancel_recurring timer_cancel_locked
cancel_recurring_state k e mine = ground (arith, mine)

cancelling-cancel_recurring :
    (k : Kthread) (e : ℕ)
    → IsValid k
    → (entry k e).localk ≡ some k.self
    → (entry (timer_cancel_recurring k e).0 e).cancelling ≡ true
cancelling-cancel_recurring k e v mine =
    rw (cancel_recurring_state k e mine) (elim (Bool-cases (entry k e).cancelling) [
      | inl c ↦ rw c c
      | inr c ↦ elim (Bool-cases (entry k e).armed) [
        | inl on ↦
            rw (c, on)
              (ground (
                arith,
                (timer_remove_armed-Removed (cancelled k e) e (cancelled-IsValid k e v)
                    (ground arith) (ground arith)).cancelling,
              ))
        | inr off ↦ rw (c, off) (ground arith)
      ]
    ])

-- A recurring timer that has been cancelled stays so: a later restart, as its handler makes it,
-- does nothing.
pub restart-cancel_recurring :
    (k : Kthread) (e d : ℕ)
    → IsValid k
    → (entry k e).localk ≡ some k.self
    → let k' = (timer_cancel_recurring k e).0 in
      ((entry k' e).cancelling ≡ true) × (timer_restart k' e d ≡ some k')
restart-cancel_recurring k e d v mine =
    restart_cancelled (timer_cancel_recurring k e).0 e d (cancelling-cancel_recurring k e v mine)
