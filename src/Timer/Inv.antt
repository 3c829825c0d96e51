-- ===== src/Timer/Inv.antt =====
-- The invariant of a kthread's timers, and what starting a timer does to it (runtime/timer.c).
use caladan.Common.{
  ℕ, ◌+◌, ◌<◌, ◌≡◌, ◌≢◌, refl, ◌⊎◌, inl, inr, true, false, ◌↔◌, arith, ◌==◌, if◌then◌else◌,
  Bool-cases, some,
}
use caladan.Timer.{TimerIdx, Heap, Kthread, max_timers, sift_up, entry, append_timer, arm, insert}
use caladan.Timer.Order.{IsHeap, UpAt, sift_up-IsHeap}
use caladan.Timer.Places.{Back, Holds, Swaps, sift_up-Swaps, Swaps-Back, Swaps-Moved, Swaps-Holds}

-- The heap is in order, its slots and its entries point to one another, exactly the armed entries
-- of this kthread are in it, and there is room for one more.
pub record IsValid (k : Kthread) : Type 0 where
  pub order : IsHeap k.heap.timers k.timern
  pub back : Back k.timern k.heap
  pub live :
      (j : ℕ)
      → j < k.timern
      → ((entry k (k.heap.timers j).e).armed ≡ true)
        × ((entry k (k.heap.timers j).e).localk ≡ some k.self)
  pub listed :
      (e : ℕ)
      → (entry k e).armed ≡ true
      → (entry k e).localk ≡ some k.self
      → ((entry k e).idx < k.timern) × ((k.heap.timers (entry k e).idx).e ≡ e)
  pub room : k.timern < max_timers

-- The timers that are armed on the kthread, with their deadlines.
abbrev pub Pending : Kthread → TimerIdx → Type 0
Pending k t = Holds k.timern k.heap.timers t

module _ (k : Kthread) (e d : ℕ) (v : IsValid k) (off : (entry k e).armed ≡ false) where
  fresh : (j : ℕ) → j < k.timern → (k.heap.timers j).e ≢ e
  fresh j lt h = ground (arith, v.live j lt)

  append_timer-Back : Back (k.timern + 1) (append_timer k e d)
  unfolding append_timer
  append_timer-Back j lt = ground (arith, fresh j, v.back j)

  append_timer-UpAt : UpAt (append_timer k e d).timers (k.timern + 1) k.timern
  unfolding append_timer
  append_timer-UpAt = record {
    others = λ j h0 h1 h2. ground (arith, v.order j h0);
    above = λ j h0 h1 h2 h3. absurd (ground arith);
  }

  abbrev pub sifted : Heap
  sifted = sift_up (append_timer k e d) k.timern

  pub sifted-Swaps : Swaps (k.timern + 1) (append_timer k e d) sifted
  sifted-Swaps = sift_up-Swaps (append_timer k e d) k.timern (k.timern + 1) (omega arith)

  sifted-Back : Back (k.timern + 1) sifted
  sifted-Back = Swaps-Back sifted-Swaps append_timer-Back

  abbrev pub started : TimerIdx
  started = record { deadline_us = d; e = e }

  append_timer-Holds :
      (t : TimerIdx)
      → Holds (k.timern + 1) (append_timer k e d).timers t ↔ (Pending k t ⊎ (t ≡ started))
  unfolding append_timer
  append_timer-Holds t = (
    λ (j, lt, at). elim (Bool-cases (k.timern == j)) [
      | inl new ↦ inr (ground arith)
      | inr old ↦ inl (j, ground arith, ground arith)
    ],
    λ h. elim h [
      | inl (j, lt, at) ↦ (j, omega arith, ground arith)
      | inr new ↦ (k.timern, omega arith, ground arith)
    ],
  )

  -- The slots of the new heap hold the old timers and the new one.
  pub insert-Pending : (t : TimerIdx) → Pending (insert k e d) t ↔ (Pending k t ⊎ (t ≡ started))
  unfolding insert arm
  insert-Pending t = (
    λ h. (append_timer-Holds t).0 ((Swaps-Holds t sifted-Swaps).1 h),
    λ h. (Swaps-Holds t sifted-Swaps).0 ((append_timer-Holds t).1 h),
  )

  -- What a start changes of the entries, but for `idx`.
  insert_entry :
      (x : ℕ)
      → ((arm sifted e).entries x).armed ≡ (if e == x then true else (entry k x).armed)
        × ((arm sifted e).entries x).localk ≡ (if e == x then some k.self else (entry k x).localk)
        × ((arm sifted e).entries x).idx ≡ (sifted.entries x).idx
  unfolding arm append_timer
  insert_entry x = ground (arith, Swaps-Moved sifted-Swaps x)

  insert-live :
      (j : ℕ)
      → j < k.timern + 1
      → (((arm sifted e).entries (sifted.timers j).e).armed ≡ true)
        × (((arm sifted e).entries (sifted.timers j).e).localk ≡ some k.self)
  insert-live j lt =
      elim ((insert-Pending (sifted.timers j)).0 (unfold insert arm in (j, lt, refl))) [
        | inl (i, li, at) ↦
            let old = insert_entry (sifted.timers j).e in
            (ground (arith, v.live i li), ground (arith, v.live i li))
        | inr new ↦ let old = insert_entry (sifted.timers j).e in (ground arith, ground arith)
      ]

  insert-listed :
      (x : ℕ)
      → ((arm sifted e).entries x).armed ≡ true
      → ((arm sifted e).entries x).localk ≡ some k.self
      → (((arm sifted e).entries x).idx < k.timern + 1)
        × ((sifted.timers ((arm sifted e).entries x).idx).e ≡ x)
  insert-listed x a l = elim (Bool-cases (e == x)) [
    | inl same ↦ found ((insert-Pending started).1 (inr refl)) (ground arith)
    | inr other ↦
        let kept = insert_entry x in
        let (lt, at) = v.listed x (ground arith) (ground arith) in
        found ((insert-Pending (k.heap.timers (entry k x).idx)).1 (inl ((entry k x).idx, lt, refl)))
          at
  ]
    where
      found :
          {t : TimerIdx}
          → Pending (insert k e d) t
          → t.e ≡ x
          → (((arm sifted e).entries x).idx < k.timern + 1)
            × ((sifted.timers ((arm sifted e).entries x).idx).e ≡ x)
      found {t} h is =
          unfold insert in
          let (j, lt, at) = h in
          (
            ground (arith, sifted-Back j lt, insert_entry x),
            ground (arith, sifted-Back j lt, insert_entry x),
          )

  -- A timer that is started leaves the kthread's timers valid.
  pub insert-IsValid : k.timern + 1 < max_timers → IsValid (insert k e d)
  unfolding insert
  insert-IsValid room = record {
    order =
        sift_up-IsHeap (append_timer k e d) k.timern (k.timern + 1) (omega arith) append_timer-UpAt;
    back = λ j lt. ground (arith, sifted-Back j lt, insert_entry (sifted.timers j).e);
    live = insert-live;
    listed = insert-listed;
    room = room;
  }
