-- ===== src/Runq/Next.antt =====
-- The thread that runs next (`schedule` and `enter_schedule` of runtime/sched.c)
use caladan.Common.{
  ℕ, suc, ◌-◌, ◌%◌, ◌<◌, ◌≡◌, ◌⊎◌, refl, sym, ap, ◌∙◌, subst, inl, inr, true, ◌==◌, List, ◌∷◌, ◌++◌,
  length, arith, Bool-cases,
}
use caladan.Common.Word32.{word32, add32}
use caladan.Runq.{rq_size, Threads, Runq, in_ring, is_empty_list, update_oldest_tsc, next_thread}
use caladan.Runq.Ring.{slots, queue, InRing}
use caladan.Runq.Refine.{Fresh, IsShown, queue-first}
use caladan.Runq.Locked.{Settled, drain_overflow_lem}
use caladan.Runq.Order.{AllUpTo, Sorted, AllMarked}
use caladan.Runq.Ready.{IsValid}
use caladan.Runq.Ahead.{no_queue}

-- The ring without its first
abbrev behind_first : Runq → Runq
behind_first k = record k { rq_tail = add32 k.rq_tail 1; shown_tail = add32 k.shown_tail 1 }

-- `update_oldest_tsc` shows the time of the first of the queue, if there is one.
pub update_oldest_tsc-Fresh :
    (s : Threads) (k : Runq)
    → InRing k
    → (is_empty_list k.overflow ≡ true) ⊎ (0 < in_ring k)
    → Fresh s.ready_tsc (update_oldest_tsc s k).oldest_tsc (queue k)
update_oldest_tsc-Fresh s k v g = elim (Bool-cases (k.rq_head == k.rq_tail)) [
  | inl empty ↦ rw (empty, no_queue k g (ground (arith, empty, v.head_word, v.tail_word))) tt
  | inr more ↦
      (let n : in_ring k ≡ suc (in_ring k - 1) = ground (arith, more, v.head_word, v.tail_word) in
        rw (more, queue-first k (in_ring k - 1) n) refl)
]

-- It changes nothing but that time.
pub update_oldest_tsc-rest :
    (s : Threads) (k : Runq)
    → update_oldest_tsc s k ≡ record k { oldest_tsc = (update_oldest_tsc s k).oldest_tsc }
update_oldest_tsc-rest s k = elim (Bool-cases (k.rq_head == k.rq_tail)) [
  | inl e ↦ rw e refl
  | inr e ↦ rw e refl
]

pub update_oldest_tsc-queue : (s : Threads) (k : Runq) → queue (update_oldest_tsc s k) ≡ queue k
unfolding queue
update_oldest_tsc-queue s k = ap (λ (k' : Runq). queue k') (update_oldest_tsc-rest s k)

-- A queue with the counters and the time of its threads
pub update_oldest_tsc-IsShown :
    (s : Threads) (k : Runq)
    → InRing k
    → (is_empty_list k.overflow ≡ true) ⊎ (0 < in_ring k)
    → k.shown_tail < word32
    → k.shown_head ≡ add32 k.shown_tail (length (queue k))
    → IsShown s (update_oldest_tsc s k)
unfolding queue
update_oldest_tsc-IsShown s k v g w c =
    subst (λ (k' : Runq). IsShown s k') (sym (update_oldest_tsc-rest s k))
      (record {
        ring = record { head_word = v.head_word; tail_word = v.tail_word; fits = v.fits };
        shown_word = w;
        counted = c;
        no_gap = g;
        fresh = update_oldest_tsc-Fresh s k v g;
      })

-- The queue that is left, once threads have moved to its ring
rest-IsValid :
    (s : Threads) (k k₁ k₂ : Runq) (th now : ℕ)
    → IsValid s k now
    → queue k ≡ th ∷ queue k₁
    → (k₁.shown_head ≡ k.shown_head) × (k₁.shown_tail ≡ add32 k.shown_tail 1)
    → Settled s k₁ k₂
    → (queue k ≡ th ∷ queue (update_oldest_tsc s k₂)) × IsValid s (update_oldest_tsc s k₂) now
rest-IsValid s k k₁ k₂ th now v e c d =
    let whole = e ∙ ap (λ (q : List ℕ). th ∷ q) (sym d.same) in
    let n = ap length whole in
    let back = sym (update_oldest_tsc-queue s k₂) in
    (
      whole ∙ ap (λ (q : List ℕ). th ∷ q) back,
      record {
        is_shown =
            update_oldest_tsc-IsShown s k₂ d.ring
              (elim d.full [ inl e ↦ inl e | inr e ↦ inr (omega (arith, e)) ])
              (omega (arith, c.1, d.count.1))
              (omega (arith, v.is_shown.counted, c.0, c.1, d.count.0, d.count.1, n));
        marked =
            subst (λ (q : List ℕ). AllMarked s.thread_ready q) back
              (subst (λ (q : List ℕ). AllMarked s.thread_ready q) whole v.marked).1;
        sorted =
            subst (λ (q : List ℕ). Sorted s.ready_tsc q) back
              (subst (λ (q : List ℕ). Sorted s.ready_tsc q) whole v.sorted).1;
        past =
            subst (λ (q : List ℕ). AllUpTo s.ready_tsc now q) back
              (subst (λ (q : List ℕ). AllUpTo s.ready_tsc now q) whole v.past).1;
      },
    )

-- `schedule` and `enter_schedule` on a valid queue, whose ring is not empty, run its first thread and
-- leave the others, in a queue that is valid again.
pub next_thread_refines :
    (s : Threads) (k : Runq) (now : ℕ)
    → IsValid s k now
    → 0 < in_ring k
    → (queue k ≡ (next_thread s k).0 ∷ queue (next_thread s k).1)
      × IsValid s (next_thread s k).1 now
unfolding next_thread queue
next_thread_refines s k now v p =
    let r = v.is_shown.ring in
    let a = r.head_word in
    let b = r.tail_word in
    let c = r.fits in
    let n : in_ring k ≡ suc (in_ring k - 1) = omega (arith, p) in
    let m : in_ring (behind_first k) ≡ in_ring k - 1 = omega (arith, p) in
    let ring : InRing (behind_first k) = record {
      head_word = a;
      tail_word = omega arith;
      fits = omega (arith, m, c);
    } in
    let first =
      queue-first k (in_ring k - 1) n
      ∙ ap (λ (i : ℕ). k.rq (k.rq_tail % rq_size) ∷ slots k.rq (add32 k.rq_tail 1) i ++ k.overflow)
          (sym m) in
    rest-IsValid s k (behind_first k) _ (k.rq (k.rq_tail % rq_size)) now v first (refl, refl)
      (drain_overflow_lem s (behind_first k) ring)
