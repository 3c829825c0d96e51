-- ===== src/Runq/Ready.antt =====
-- Threads that become ready go behind the others (`thread_ready` and `thread_ready_locked` of
-- runtime/sched.c).
use caladan.Common.{
  ℕ, suc, ◌≤◌, ◌≡◌, refl, sym, ◌∙◌, subst, inl, inr, Bool, true, false, List, [], ◌∷◌, ◌++◌, Option,
  none, some, length, length-append, update, update_self, arith, Bool-cases,
}
use caladan.Runq.{Threads, Runq, ready_locked, ready_tail, thread_ready, thread_ready_locked}
use caladan.Runq.Ring.{queue}
use caladan.Runq.Refine.{Fresh, IsShown, Grows, Grows-IsShown, ready_tail-Grows}
use caladan.Runq.Locked.{ready_locked-Grows}
use caladan.Runq.Order.{
  AllUpTo, Sorted, AllMarked, Alike, update-Alike, AllMarked-update, AllMarked-snoc, AllUpTo-Alike,
  AllUpTo-snoc, Sorted-Alike, Sorted-snoc,
}

-- A queue of marked threads, ready since times up to `now`, in the order of these
pub record IsValid (s : Threads) (k : Runq) (now : ℕ) : Type 0 where
  pub is_shown : IsShown s k
  pub marked : AllMarked s.thread_ready (queue k)
  pub sorted : Sorted s.ready_tsc (queue k)
  pub past : AllUpTo s.ready_tsc now (queue k)

-- A thread that is ready already is refused; another is marked and makes the queue `ths`.
abbrev pub Readies : List ℕ → ℕ → ℕ → Bool → Option (Threads × Runq) → Type 0
Readies ths th now true r = r ≡ none
Readies ths th now false none = ⊥
Readies ths th now false (some (s, k)) =
    (queue k ≡ ths) × IsValid s k now × (s.thread_ready th ≡ true)

Fresh-Alike : (f g : ℕ → ℕ) (t : ℕ) (xs : List ℕ) → Alike f g xs → Fresh f t xs → Fresh g t xs
Fresh-Alike f g t [] a h = tt
Fresh-Alike f g t (x ∷ xs) a h = h ∙ a.0

-- What another state of the threads leaves of the queue
pub IsShown-Alike :
    (s s' : Threads) (k : Runq)
    → Alike s.ready_tsc s'.ready_tsc (queue k)
    → IsShown s k
    → IsShown s' k
IsShown-Alike s s' k a v = record {
  ring = v.ring;
  shown_word = v.shown_word;
  counted = v.counted;
  no_gap = v.no_gap;
  fresh = Fresh-Alike s.ready_tsc s'.ready_tsc k.oldest_tsc (queue k) a v.fresh;
}

AllUpTo-until : (f : ℕ → ℕ) (t u : ℕ) (xs : List ℕ) → t ≤ u → AllUpTo f t xs → AllUpTo f u xs
AllUpTo-until f t u [] k h = tt
AllUpTo-until f t u (x ∷ xs) k h = (omega (arith, k, h.0), AllUpTo-until f t u xs k h.1)

length-snoc : (xs : List ℕ) (th : ℕ) → length (xs ++ th ∷ []) ≡ suc (length xs)
length-snoc xs th = omega (arith, length-append xs (th ∷ []))

-- The threads once one is prepared
abbrev pub prepared : Threads → ℕ → ℕ → Threads
prepared s th now = record {
  ready_tsc = update s.ready_tsc th now;
  thread_ready = update s.thread_ready th true;
}

-- The queue is valid for the prepared thread, and the thread may go behind it.
pub record Prepared (s s' : Threads) (k : Runq) (th now : ℕ) : Type 0 where
  pub valid : IsValid s' k now
  pub since : s'.ready_tsc th ≡ now
  pub mark : s'.thread_ready th ≡ true

pub prepared_lem :
    (s : Threads) (k : Runq) (th t now : ℕ)
    → IsValid s k t
    → t ≤ now
    → s.thread_ready th ≡ false
    → Prepared s (prepared s th now) k th now
prepared_lem s k th t now v p fresh =
    let a = update-Alike s.ready_tsc s.thread_ready th now (queue k) v.marked fresh in
    let f' = update s.ready_tsc th now in
    record {
      valid = record {
        is_shown = IsShown-Alike s (prepared s th now) k a v.is_shown;
        marked = AllMarked-update s.thread_ready th (queue k) v.marked;
        sorted = Sorted-Alike s.ready_tsc f' (queue k) a v.sorted;
        past =
            AllUpTo-Alike s.ready_tsc f' now (queue k) a
              (AllUpTo-until s.ready_tsc t now (queue k) p v.past);
      };
      since = update_self s.ready_tsc th now;
      mark = update_self s.thread_ready th true;
    }

-- A queue that grows by a prepared thread behind it is valid.
snoc-IsValid :
    (s s' : Threads) (k k' : Runq) (th now : ℕ)
    → Prepared s s' k th now
    → Grows s' k k' (queue k ++ th ∷ [])
    → (queue k' ≡ queue k ++ th ∷ []) × IsValid s' k' now × (s'.thread_ready th ≡ true)
snoc-IsValid s s' k k' th now p g =
    let v = p.valid in
    let f = s'.ready_tsc in
    let back = sym g.grown in
    let upto = subst (λ (t : ℕ). AllUpTo f t (queue k)) (sym p.since) v.past in
    (
      g.grown,
      record {
        is_shown =
            Grows-IsShown s' s' k k' (queue k ++ th ∷ []) v.is_shown g (length-snoc (queue k) th);
        marked =
            subst (λ (q : List ℕ). AllMarked s'.thread_ready q) back
              (AllMarked-snoc s'.thread_ready (queue k) th v.marked p.mark);
        sorted = subst (λ (q : List ℕ). Sorted f q) back (Sorted-snoc f (queue k) th v.sorted upto);
        past =
            subst (λ (q : List ℕ). AllUpTo f now q) back
              (AllUpTo-snoc f now (queue k) th v.past (omega (arith, p.since)));
      },
      p.mark,
    )

-- `thread_ready` on a valid queue refuses a thread that is ready already; another one is marked
-- ready and becomes the last of the queue, which stays valid: no thread is lost or passed, and the
-- counters and the oldest time shown to the I/O kernel are those of the queue.
pub thread_ready_refines :
    (s : Threads) (k : Runq) (th t now : ℕ)
    → IsValid s k t
    → t ≤ now
    → Readies (queue k ++ th ∷ []) th now (s.thread_ready th) (thread_ready s k th now)
unfolding thread_ready
thread_ready_refines s k th t now v p = elim (Bool-cases (s.thread_ready th)) [
  | inl is_ready ↦ rw is_ready refl
  | inr is_not ↦
      (let q = prepared_lem s k th t now v p is_not in
        rw is_not (
          snoc-IsValid s (prepared s th now) k (ready_tail (prepared s th now) k th) th now q
            (ready_tail-Grows (prepared s th now) k th q.valid.is_shown)))
]

-- `thread_ready_locked` on a valid queue does the same.
pub thread_ready_locked_refines :
    (s : Threads) (k : Runq) (th t now : ℕ)
    → IsValid s k t
    → t ≤ now
    → Readies (queue k ++ th ∷ []) th now (s.thread_ready th) (thread_ready_locked s k th now)
unfolding thread_ready_locked
thread_ready_locked_refines s k th t now v p = elim (Bool-cases (s.thread_ready th)) [
  | inl is_ready ↦ rw is_ready refl
  | inr is_not ↦
      (let q = prepared_lem s k th t now v p is_not in
        rw is_not (
          snoc-IsValid s (prepared s th now) k (ready_locked (prepared s th now) k th) th now q
            (ready_locked-Grows (prepared s th now) k th q.valid.is_shown)))
]
