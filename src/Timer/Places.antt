-- ===== src/Timer/Places.antt =====
-- The sifts only exchange slots: each entry of the heap still knows its slot, and nothing else
-- of the entries changes (runtime/timer.c).
use caladan.Common.{
  ℕ, zero, suc, ◌+◌, ◌*◌, ◌<◌, ◌≡◌, ◌≢◌, refl, inl, inr, ◌↔◌, arith, leb, ◌==◌, if◌then◌else◌,
  Bool-cases, ◌∙◌,
}
use caladan.Timer.{
  TimerIdx, TimerEntry, Heap, arity, int_max, deadline, parent, place, sift_up_loop, sift_up,
  scan_children, sift_down_loop, sift_down,
}
use caladan.Timer.Order.{scan_children_lem}

-- Exchanges of two slots below `n`.
pub data Swaps (n : ℕ) : Heap → Heap → Type 0 where
  none_left : (h : Heap) → Swaps n h h
  swap :
      (h : Heap) {h' : Heap} (i p : ℕ) (tmp : TimerIdx)
      → i < n
      → p < n
      → i ≢ p
      → h.timers i ≡ tmp
      → Swaps n (place (place h i (h.timers p)) p tmp) h'
      → Swaps n h h'

sift_up_loop-Swaps :
    (fuel : ℕ) (h : Heap) (tmp : TimerIdx) (i n : ℕ)
    → i < n
    → h.timers i ≡ tmp
    → Swaps n h (sift_up_loop fuel h tmp i)
unfolding sift_up_loop
sift_up_loop-Swaps zero h tmp i n lt e = none_left h
sift_up_loop-Swaps (suc fuel) h tmp i n lt e = elim (Bool-cases (i == 0)) [
  | inl z ↦ rw z (none_left h)
  | inr nz ↦ elim (Bool-cases (leb (deadline h.timers (parent i)) tmp.deadline_us)) [
    | inl le ↦ rw (nz, le) (none_left h)
    | inr gt ↦
        rw (nz, gt)
          (swap h i (parent i) tmp lt (ground arith) (ground arith) e (
            sift_up_loop-Swaps fuel (place (place h i (h.timers (parent i))) (parent i) tmp) tmp
              (parent i) n (ground arith) (unfold place in ground arith)))
  ]
]

pub sift_up-Swaps : (h : Heap) (i n : ℕ) → i < n → Swaps n h (sift_up h i)
unfolding sift_up
sift_up-Swaps h i n lt = sift_up_loop-Swaps (suc i) h (h.timers i) i n lt refl

sift_down_loop-Swaps :
    (fuel : ℕ) (h : Heap) (tmp : TimerIdx) (i n : ℕ)
    → i < n
    → h.timers i ≡ tmp
    → Swaps n h (sift_down_loop fuel h tmp i n)
unfolding sift_down_loop
sift_down_loop-Swaps zero h tmp i n lt e = none_left h
sift_down_loop-Swaps (suc fuel) h tmp i n lt e = elim (Bool-cases (c == int_max)) [
  | inl last ↦ rw last (none_left h)
  | inr more ↦
      rw more (elim (scan_children_lem h.timers n arity (i * arity + 1) tmp.deadline_us int_max) [
        | inl (r, k) ↦ absurd (ground arith)
        | inr found ↦ swap h i c tmp lt found.2 (omega arith) e (
            sift_down_loop-Swaps fuel (place (place h i (h.timers c)) c tmp) tmp c n found.2
              (unfold place in ground arith))
      ])
]
  where
    c : ℕ
    c = scan_children h.timers n arity (i * arity + 1) tmp.deadline_us int_max

pub sift_down-Swaps : (h : Heap) (i n : ℕ) → i < n → Swaps n h (sift_down h i n)
unfolding sift_down
sift_down-Swaps h i n lt = sift_down_loop-Swaps (suc n) h (h.timers i) i n lt refl

-- Each entry of the heap knows its slot.
abbrev pub Back : ℕ → Heap → Type 0
Back n h = (j : ℕ) → j < n → (h.entries (h.timers j).e).idx ≡ j

exchange-Back :
    (n : ℕ) (h : Heap) (i p : ℕ) (tmp : TimerIdx)
    → i < n
    → p < n
    → i ≢ p
    → h.timers i ≡ tmp
    → Back n h
    → Back n (place (place h i (h.timers p)) p tmp)
unfolding place
exchange-Back n h i p tmp li lp ne e b j lt = ground (arith, b j lt, b i li, b p lp)

pub Swaps-Back : {n : ℕ} {h h' : Heap} → Swaps n h h' → Back n h → Back n h'
Swaps-Back (none_left h) b = b
Swaps-Back {n} (swap h i p tmp li lp ne e s) b =
    Swaps-Back s (exchange-Back n h i p tmp li lp ne e b)

-- `x` may have got another `idx`.
abbrev pub Moved : TimerEntry → TimerEntry → Type 0
Moved t t' =
    (t'.armed ≡ t.armed)
    × (t'.executing ≡ t.executing)
    × (t'.cancelling ≡ t.cancelling)
    × (t'.fn ≡ t.fn)
    × (t'.arg ≡ t.arg)
    × (t'.localk ≡ t.localk)

exchange-Moved :
    (h : Heap) (i p : ℕ) (tmp : TimerIdx) (x : ℕ)
    → Moved (h.entries x) ((place (place h i (h.timers p)) p tmp).entries x)
unfolding place
exchange-Moved h i p tmp x = ground arith

pub Swaps-Moved :
    {n : ℕ} {h h' : Heap} → Swaps n h h' → (x : ℕ) → Moved (h.entries x) (h'.entries x)
Swaps-Moved (none_left h) x = (refl, refl, refl, refl, refl, refl)
Swaps-Moved (swap h i p tmp li lp ne e s) x =
    ground (arith, Swaps-Moved s x, exchange-Moved h i p tmp x)

-- The slots below `n` hold `t`.
abbrev pub Holds : ℕ → (ℕ → TimerIdx) → TimerIdx → Type 0
Holds n f t = (j : ℕ) × (j < n) × (f j ≡ t)

-- The slot that an exchange of `i` and `p` moves slot `j` to.
abbrev moved_to : ℕ → ℕ → ℕ → ℕ
moved_to i p j = if j == i then p else if j == p then i else j

exchange-Holds :
    (n : ℕ) (h : Heap) (i p : ℕ) (tmp t : TimerIdx)
    → i < n
    → p < n
    → i ≢ p
    → h.timers i ≡ tmp
    → Holds n h.timers t ↔ Holds n (place (place h i (h.timers p)) p tmp).timers t
unfolding place
exchange-Holds n h i p tmp t li lp ne e = (
  λ (j, lt, at). (moved_to i p j, ground arith, ground arith),
  λ (j, lt, at). (moved_to i p j, ground arith, ground arith),
)

-- The sifts keep what the heap holds.
pub Swaps-Holds :
    {n : ℕ} {h h' : Heap} (t : TimerIdx) → Swaps n h h' → Holds n h.timers t ↔ Holds n h'.timers t
Swaps-Holds t (none_left h) = (λ x. x, λ x. x)
Swaps-Holds {n} t (swap h i p tmp li lp ne e s) = (
  λ x. (Swaps-Holds t s).0 ((exchange-Holds n h i p tmp t li lp ne e).0 x),
  λ x. (exchange-Holds n h i p tmp t li lp ne e).1 ((Swaps-Holds t s).1 x),
)

-- An entry that the heap does not hold keeps its `idx`.
exchange-outside :
    (n : ℕ) (h : Heap) (i p : ℕ) (tmp : TimerIdx) (x : ℕ)
    → i < n
    → p < n
    → h.timers i ≡ tmp
    → ((j : ℕ) → j < n → (h.timers j).e ≢ x)
    → (place (place h i (h.timers p)) p tmp).entries x ≡ h.entries x
unfolding place
exchange-outside n h i p tmp x li lp e out = ground (arith, out i li, out p lp)

exchange-out :
    (n : ℕ) (h : Heap) (i p : ℕ) (tmp : TimerIdx) (x : ℕ)
    → i < n
    → p < n
    → h.timers i ≡ tmp
    → ((j : ℕ) → j < n → (h.timers j).e ≢ x)
    → (j : ℕ) → j < n
    → ((place (place h i (h.timers p)) p tmp).timers j).e ≢ x
unfolding place
exchange-out n h i p tmp x li lp e out j lj = ground (arith, out i li, out p lp, out j lj)

pub Swaps-outside :
    {n : ℕ} {h h' : Heap} (x : ℕ)
    → Swaps n h h'
    → ((j : ℕ) → j < n → (h.timers j).e ≢ x)
    → h'.entries x ≡ h.entries x
Swaps-outside x (none_left h) out = refl
Swaps-outside {n} x (swap h i p tmp li lp ne e s) out =
    Swaps-outside x s (exchange-out n h i p tmp x li lp e out)
    ∙ exchange-outside n h i p tmp x li lp e out

pub Swaps-trans : {n : ℕ} {h h' h'' : Heap} → Swaps n h h' → Swaps n h' h'' → Swaps n h h''
Swaps-trans (none_left h) t = t
Swaps-trans (swap h i p tmp li lp ne e s) t = swap h i p tmp li lp ne e (Swaps-trans s t)
