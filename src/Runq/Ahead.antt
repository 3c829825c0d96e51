-- ===== src/Runq/Ahead.antt =====
-- `thread_ready_head` puts a thread ahead of the others (runtime/sched.c).
use caladan.Common.{
  ℕ, suc, ◌-◌, ◌≤◌, ◌<◌, ◌≡◌, ◌⊎◌, refl, sym, ap, ◌∙◌, subst, inl, inr, Bool, true, false, ◌==◌,
  List, [], ◌∷◌, update, update_self, arith, Bool-cases,
}
use caladan.Runq.{Threads, Runq, in_ring, is_empty_list, ready_head, head_time, thread_ready_head}
use caladan.Runq.Ring.{queue}
use caladan.Runq.Refine.{IsShown, is_empty_list_lem, queue-first, queue-empty, Grows, Grows-IsShown}
use caladan.Runq.Order.{
  AllUpTo, Sorted, AllMarked, Alike, update-Alike, AllUpTo-Alike, Sorted-Alike, Sorted-ahead,
}
use caladan.Runq.Ready.{IsValid, Readies, IsShown-Alike, prepared, prepared_lem}
use caladan.Runq.Head.{ready_head-Grows}

-- What lets a thread go ahead of the others: it has the time of the first of them.
abbrev Leads : (ℕ → ℕ) → ℕ → ℕ → List ℕ → Type 0
Leads f now th [] = f th ≤ now
Leads f now th (x ∷ xs) = f th ≡ f x

Leads-Sorted :
    (f : ℕ → ℕ) (now th : ℕ) (xs : List ℕ) → Leads f now th xs → Sorted f xs → Sorted f (th ∷ xs)
Leads-Sorted f now th [] l h = (tt, tt)
Leads-Sorted f now th (x ∷ xs) l h = Sorted-ahead f x xs th h l

Leads-AllUpTo :
    (f : ℕ → ℕ) (now th : ℕ) (xs : List ℕ)
    → Leads f now th xs
    → AllUpTo f now xs
    → AllUpTo f now (th ∷ xs)
Leads-AllUpTo f now th [] l h = (l, tt)
Leads-AllUpTo f now th (x ∷ xs) l h = (omega (arith, l, h.0), h)

pub no_queue :
    (k : Runq) → (is_empty_list k.overflow ≡ true) ⊎ (0 < in_ring k) → in_ring k ≡ 0 → queue k ≡ []
no_queue k (inl e) n = queue-empty k n ∙ is_empty_list_lem k.overflow e
no_queue k (inr p) n = absurd (omega (arith, p, n))

-- The first keeps its time when a thread takes it over.
head_time-Leads :
    (s : Threads) (k : Runq) (th now : ℕ)
    → IsShown s k
    → s.ready_tsc th ≡ now
    → Alike s.ready_tsc (head_time s k th).ready_tsc (queue k)
    → Leads (head_time s k th).ready_tsc now th (queue k)
head_time-Leads s k th now v e = elim (Bool-cases (k.rq_head == k.rq_tail)) [
  | inl empty ↦
      (let no_ths =
          no_queue k v.no_gap (ground (arith, empty, v.ring.head_word, v.ring.tail_word)) in
        rw (empty, no_ths) (λ a. omega (arith, e)))
  | inr more ↦
      (let n : in_ring k ≡ suc (in_ring k - 1) =
          ground (arith, more, v.ring.head_word, v.ring.tail_word) in
        rw (more, queue-first k (in_ring k - 1) n) (λ a. update_self s.ready_tsc th _ ∙ a.0))
]

-- A queue that grows by a thread that may go ahead of it is valid.
cons-IsValid :
    (s : Threads) (k k' : Runq) (th now : ℕ)
    → IsValid s k now
    → Leads s.ready_tsc now th (queue k)
    → s.thread_ready th ≡ true
    → Grows s k k' (th ∷ queue k)
    → (queue k' ≡ th ∷ queue k) × IsValid s k' now × (s.thread_ready th ≡ true)
cons-IsValid s k k' th now v l m g =
    let f = s.ready_tsc in
    let back = sym g.grown in
    (
      g.grown,
      record {
        is_shown = Grows-IsShown s s k k' (th ∷ queue k) v.is_shown g refl;
        marked = subst (λ (q : List ℕ). AllMarked s.thread_ready q) back (m, v.marked);
        sorted =
            subst (λ (q : List ℕ). Sorted f q) back (Leads-Sorted f now th (queue k) l v.sorted);
        past =
            subst (λ (q : List ℕ). AllUpTo f now q) back
              (Leads-AllUpTo f now th (queue k) l v.past);
      },
      m,
    )

head_time-Alike :
    (s : Threads) (k : Runq) (th now : ℕ)
    → AllMarked s.thread_ready (queue k)
    → s.thread_ready th ≡ false
    → Alike (prepared s th now).ready_tsc (head_time (prepared s th now) k th).ready_tsc (queue k)
head_time-Alike s k th now m is_not = elim (Bool-cases (k.rq_head == k.rq_tail)) [
  | inl e ↦ rw e (all_alike _ (queue k))
  | inr e ↦ rw e (update-Alike (update s.ready_tsc th now) s.thread_ready th _ (queue k) m is_not)
]
  where
    all_alike : (f : ℕ → ℕ) (xs : List ℕ) → Alike f f xs
    all_alike f [] = tt
    all_alike f (x ∷ xs) = (refl, all_alike f xs)

head_time-thread_ready :
    (s : Threads) (k : Runq) (th : ℕ) → (head_time s k th).thread_ready ≡ s.thread_ready
head_time-thread_ready s k th = elim (Bool-cases (k.rq_head == k.rq_tail)) [
  | inl e ↦ rw e refl
  | inr e ↦ rw e refl
]

head_time-IsValid :
    (s s' : Threads) (k : Runq) (now : ℕ)
    → s'.thread_ready ≡ s.thread_ready
    → Alike s.ready_tsc s'.ready_tsc (queue k)
    → IsValid s k now
    → IsValid s' k now
head_time-IsValid s s' k now e a v = record {
  is_shown = IsShown-Alike s s' k a v.is_shown;
  marked = subst (λ (g : ℕ → Bool). AllMarked g (queue k)) (sym e) v.marked;
  sorted = Sorted-Alike s.ready_tsc s'.ready_tsc (queue k) a v.sorted;
  past = AllUpTo-Alike s.ready_tsc s'.ready_tsc now (queue k) a v.past;
}

-- `thread_ready_head` on a valid queue refuses a thread that is ready already; another one is
-- marked ready and becomes the first of the queue, which stays valid: no thread is lost, also when
-- the ring is full.
pub thread_ready_head_refines :
    (s : Threads) (k : Runq) (th t now : ℕ)
    → IsValid s k t
    → t ≤ now
    → Readies (th ∷ queue k) th now (s.thread_ready th) (thread_ready_head s k th now)
unfolding thread_ready_head
thread_ready_head_refines s k th t now v p = elim (Bool-cases (s.thread_ready th)) [
  | inl is_ready ↦ rw is_ready refl
  | inr is_not ↦
      (let q = prepared_lem s k th t now v p is_not in
        let s₁ = prepared s th now in
        let s₂ = head_time s₁ k th in
        let a = head_time-Alike s k th now v.marked is_not in
        let e = head_time-thread_ready s₁ k th in
        let v₂ = head_time-IsValid s₁ s₂ k now e a q.valid in
        rw is_not (
          cons-IsValid s₂ k (ready_head s₂ k th) th now v₂
            (head_time-Leads s₁ k th now q.valid.is_shown q.since a)
            (ap (λ (g : ℕ → Bool). g th) e ∙ q.mark) (ready_head-Grows s₂ k th v₂.is_shown)))
]
