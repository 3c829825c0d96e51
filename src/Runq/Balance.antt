-- ===== src/Runq/Balance.antt =====
-- What a theft does to both queues (`merge_runqueues` and `steal_work` of runtime/sched.c)
use caladan.Common.{
  ℕ, ◌+◌, ◌≤◌, ◌<◌, ◌≡◌, ◌⊎◌, sym, ap, ◌∙◌, subst, inl, inr, true, List, ◌++◌, length,
  length-append, arith,
}
use caladan.Common.Word32.{word32, add32, sub32}
use caladan.Runq.{Threads, Runq, in_ring, is_empty_list, take_threads}
use caladan.Runq.Ring.{slots, queue}
use caladan.Runq.Refine.{IsShown, is_empty_list_lem}
use caladan.Runq.Order.{AllUpTo, Sorted, AllMarked}
use mathlib.Core.List.{Perm}
use caladan.Runq.Ready.{IsValid}
use caladan.Runq.Next.{update_oldest_tsc-IsShown, update_oldest_tsc-queue, update_oldest_tsc-rest}
use caladan.Runq.Merge.{drain_threads, merge_runqueues, shown_size}
use caladan.Runq.Merged.{merged-perm, length-merged}
use caladan.Runq.Steal.{
  drain_threads-IsTaken, own_threads, AllMarked-part, AllUpTo-part, Sorted-part, merged-IsValid,
}

-- The threads that a theft of `n` takes
abbrev pub stolen : Runq → ℕ → List ℕ
stolen r n = (take_threads n r r.rq_tail r.overflow).threads

-- The two queues after the merge
abbrev pub Merges : Threads → Runq → Runq → ℕ → ℕ → Runq × Runq → Type 0
Merges s l r n now (l', r') =
    Perm (queue l') (queue l ++ stolen r n)
    × IsValid s l' now
    × (queue r ≡ stolen r n ++ queue r')
    × (length (stolen r n) ≡ n)
    × (r'.shown_head ≡ add32 r'.shown_tail (length (queue r')))
    × (length (queue l') ≡ length (queue l) + n)

-- A theft of threads that are there gets as many as it asks for.
stolen_all :
    (s : Threads) (r : Runq) (n : ℕ) → IsShown s r → n ≤ length (queue r) → length (stolen r n) ≡ n
unfolding queue slots
stolen_all s r n v h =
    let t = take_threads n r r.rq_tail r.overflow in
    let g = drain_threads-IsTaken s r n v in
    elim g.all [
      | inl e ↦ e
      | inr e ↦
          (let left =
              ap (λ (i : ℕ). slots r.rq t.tail i ++ t.overflow) e.1
              ∙ is_empty_list_lem t.overflow e.0 in
            let whole = ap length g.whole in
            let parts =
              length-append t.threads (slots r.rq t.tail (sub32 r.rq_head t.tail) ++ t.overflow) in
            let none_left = ap length left in omega (arith, whole, parts, none_left, g.most, h))
    ]

abbrev drained : Runq → ℕ → Runq
drained r n =
    let t = take_threads n r r.rq_tail r.overflow in
    record r {
      rq_tail = t.tail;
      overflow = t.overflow;
      shown_tail = add32 r.shown_tail (length t.threads);
    }

drained-queue :
    (s : Threads) (r : Runq) (n : ℕ) → IsShown s r → queue r ≡ stolen r n ++ queue (drained r n)
unfolding queue
drained-queue s r n v = (drain_threads-IsTaken s r n v).whole

-- What is shown of the rest is its length.
drained-counted :
    (s : Threads) (r : Runq) (n : ℕ)
    → IsShown s r
    → (drained r n).shown_head ≡ add32 (drained r n).shown_tail (length (queue (drained r n)))
drained-counted s r n v =
    let whole = ap length (drained-queue s r n v) in
    let parts = length-append (stolen r n) (queue (drained r n)) in
    omega (arith, v.counted, v.shown_word, whole, parts)

-- A merge of a valid queue with the first `n` threads of another, if it has as many: the thief's
-- queue is valid, and holds its threads and those taken; the other keeps the rest, in order and
-- counted.
pub merge_runqueues_refines :
    (s : Threads) (l r : Runq) (n now : ℕ)
    → IsValid s l now
    → IsValid s r now
    → length (queue l) < word32
    → n ≤ length (queue r)
    → Merges s l r n now (merge_runqueues s l (shown_size l) r n)
unfolding merge_runqueues drain_threads queue
merge_runqueues_refines s l r n now v w h m =
    let t = stolen r n in
    let (own, none_over) = own_threads s l v.is_shown h in
    let whole = drained-queue s r n w.is_shown in
    let f = s.ready_tsc in
    let marked =
      AllMarked-part s.thread_ready t (queue (drained r n))
        (subst (λ (q : List ℕ). AllMarked s.thread_ready q) whole w.marked) in
    let sorted =
      Sorted-part f t (queue (drained r n)) (subst (λ (q : List ℕ). Sorted f q) whole w.sorted) in
    let past =
      AllUpTo-part f now t (queue (drained r n))
        (subst (λ (q : List ℕ). AllUpTo f now q) whole w.past) in
    let (same, valid) = merged-IsValid s l _ _ t now v own none_over marked.0 sorted.0 past.0 in
    let r' = drained r n in
    (
      subst (λ (q : List ℕ). Perm q (queue l ++ t)) (sym same) (merged-perm f (queue l) t),
      valid,
      whole ∙ ap (λ (q : List ℕ). t ++ q) (sym (update_oldest_tsc-queue s r')),
      stolen_all s r n w.is_shown m,
      subst (λ (k : Runq). k.shown_head ≡ add32 k.shown_tail (length (queue k)))
          (sym (update_oldest_tsc-rest s r')) (drained-counted s r n w.is_shown),
      omega (arith, ap length same, length-merged f (queue l) t, stolen_all s r n w.is_shown m),
    )

-- A theft that does not empty the ring of a queue with threads behind it leaves that queue valid.
pub merge_runqueues-IsValid :
    (s : Threads) (l r : Runq) (lsize n now : ℕ)
    → IsValid s r now
    → (is_empty_list r.overflow ≡ true) ⊎ (n < in_ring r)
    → IsValid s (merge_runqueues s l lsize r n).1 now
unfolding merge_runqueues drain_threads queue
merge_runqueues-IsValid s l r lsize n now w h =
    let t = stolen r n in
    let r' = drained r n in
    let g = drain_threads-IsTaken s r n w.is_shown in
    let f = s.ready_tsc in
    let whole = drained-queue s r n w.is_shown in
    let back = sym (update_oldest_tsc-queue s r') in
    let marked =
      AllMarked-part s.thread_ready t (queue r')
        (subst (λ (q : List ℕ). AllMarked s.thread_ready q) whole w.marked) in
    let sorted = Sorted-part f t (queue r') (subst (λ (q : List ℕ). Sorted f q) whole w.sorted) in
    let past =
      AllUpTo-part f now t (queue r') (subst (λ (q : List ℕ). AllUpTo f now q) whole w.past) in
    let b = g.tail_word in
    record {
      is_shown =
          update_oldest_tsc-IsShown s r'
            (record { head_word = w.is_shown.ring.head_word; tail_word = b; fits = g.fits })
            (elim h [ inl e ↦ inl (g.kept.0 e) | inr p ↦ inr (g.kept.1 p) ]) (omega arith)
            (drained-counted s r n w.is_shown);
      marked = subst (λ (q : List ℕ). AllMarked s.thread_ready q) back marked.1;
      sorted = subst (λ (q : List ℕ). Sorted f q) back sorted.1;
      past = subst (λ (q : List ℕ). AllUpTo f now q) back past.1;
    }
