-- ===== src/Runq/Steal.antt =====
-- A thief merges the front of another queue into its own (`merge_runqueues` and `steal_work` of
-- runtime/sched.c).
use caladan.Common.{
  ℕ, ◌<◌, ◌≡◌, refl, sym, ap, ◌∙◌, subst, inl, inr, Bool, List, [], ◌∷◌, ◌++◌, length,
  length-append, arith,
}
use mathlib.Core.List.{append-nil}
use caladan.Common.Word32.{word32, add32, sub32}
use caladan.Runq.{Threads, Runq, is_empty_list, update_oldest_tsc, take_threads}
use caladan.Runq.Ring.{slots, queue}
use caladan.Runq.Refine.{IsShown, is_empty_list_lem}
use caladan.Runq.Order.{AllFrom, AllUpTo, Sorted, AllMarked}
use caladan.Runq.Ready.{IsValid}
use caladan.Runq.Next.{update_oldest_tsc-IsShown, update_oldest_tsc-queue}
use caladan.Runq.Merge.{merge_into, shown_size}
use caladan.Runq.Merged.{
  merged, Holds, merge_into-Holds, merged-AllMarked, merged-AllUpTo, merged-Sorted, length-merged,
  merge_into-shown_tail,
}
use caladan.Runq.Drain.{IsTaken, take_threads_lem}

pub shown_size-length :
    (s : Threads) (k : Runq)
    → IsShown s k
    → length (queue k) < word32
    → shown_size k ≡ length (queue k)
shown_size-length s k v h = omega (arith, v.counted, v.shown_word, h)

pub drain_threads-IsTaken :
    (s : Threads) (k : Runq) (nr : ℕ)
    → IsShown s k
    → IsTaken k k.rq_tail k.overflow nr (take_threads nr k k.rq_tail k.overflow)
drain_threads-IsTaken s k nr v =
    take_threads_lem nr k k.rq_tail k.overflow v.ring.head_word v.ring.tail_word v.ring.fits

-- A part as long as the whole is the whole.
pub whole_part : (xs ys zs : List ℕ) → xs ≡ ys ++ zs → length xs ≡ length ys → zs ≡ []
whole_part xs ys zs e h = length_zero zs (omega (arith, ap length e, length-append ys zs, h))
  where
    length_zero : (l : List ℕ) → length l ≡ 0 → l ≡ []
    length_zero [] h = refl
    length_zero (x ∷ l) h = absurd (omega (arith, h))

append_empty : (xs ys : List ℕ) → xs ++ ys ≡ [] → ys ≡ []
append_empty [] ys e = e
append_empty (x ∷ xs) ys e = absurd (omega (arith, ap length e))

-- All of the own queue is taken.
pub own_threads :
    (s : Threads) (l : Runq)
    → IsShown s l
    → length (queue l) < word32
    → ((take_threads (shown_size l) l l.rq_tail l.overflow).threads ≡ queue l)
      × ((take_threads (shown_size l) l l.rq_tail l.overflow).overflow ≡ [])
unfolding queue slots
own_threads s l v h =
    let t = take_threads (shown_size l) l l.rq_tail l.overflow in
    let g = drain_threads-IsTaken s l (shown_size l) v in
    let n = shown_size-length s l v h in
    let others = slots l.rq t.tail (sub32 l.rq_head t.tail) ++ t.overflow in
    let left : others ≡ [] = elim g.all [
      | inl e ↦ whole_part (queue l) t.threads others g.whole (omega (arith, n, e))
      | inr e ↦
          ap (λ (i : ℕ). slots l.rq t.tail i ++ t.overflow) e.1 ∙ is_empty_list_lem t.overflow e.0
    ] in
    (
      sym (g.whole ∙ ap (λ (q : List ℕ). t.threads ++ q) left ∙ append-nil t.threads),
      append_empty (slots l.rq t.tail (sub32 l.rq_head t.tail)) t.overflow left,
    )

pub AllMarked-part :
    (g : ℕ → Bool) (xs ys : List ℕ) → AllMarked g (xs ++ ys) → AllMarked g xs × AllMarked g ys
AllMarked-part g [] ys h = (tt, h)
AllMarked-part g (x ∷ xs) ys h = let r = AllMarked-part g xs ys h.1 in ((h.0, r.0), r.1)

pub AllUpTo-part :
    (f : ℕ → ℕ) (t : ℕ) (xs ys : List ℕ) → AllUpTo f t (xs ++ ys) → AllUpTo f t xs × AllUpTo f t ys
AllUpTo-part f t [] ys h = (tt, h)
AllUpTo-part f t (x ∷ xs) ys h = let r = AllUpTo-part f t xs ys h.1 in ((h.0, r.0), r.1)

AllFrom-part : (f : ℕ → ℕ) (t : ℕ) (xs ys : List ℕ) → AllFrom f t (xs ++ ys) → AllFrom f t xs
AllFrom-part f t [] ys h = tt
AllFrom-part f t (x ∷ xs) ys h = (h.0, AllFrom-part f t xs ys h.1)

pub Sorted-part : (f : ℕ → ℕ) (xs ys : List ℕ) → Sorted f (xs ++ ys) → Sorted f xs × Sorted f ys
Sorted-part f [] ys h = (tt, h)
Sorted-part f (x ∷ xs) ys h =
    let r = Sorted-part f xs ys h.1 in ((AllFrom-part f (f x) xs ys h.0, r.0), r.1)

-- The queue of the thief: a merge of its threads with those taken.
pub merged-IsValid :
    (s : Threads) (l : Runq) (own ov r_ths : List ℕ) (now : ℕ)
    → IsValid s l now
    → own ≡ queue l
    → ov ≡ []
    → AllMarked s.thread_ready r_ths
    → Sorted s.ready_tsc r_ths
    → AllUpTo s.ready_tsc now r_ths
    → let l' = merge_into s own r_ths (record l { rq_head = 0; rq_tail = 0; overflow = ov }) in
      let l'' =
        update_oldest_tsc s (record l' { shown_head = add32 l.shown_head (length r_ths) }) in
      (queue l'' ≡ merged s.ready_tsc (queue l) r_ths) × IsValid s l'' now
unfolding queue slots
merged-IsValid s l own ov r_ths now v e none_over m o p =
    let k₀ = record l { rq_head = 0; rq_tail = 0; overflow = ov } in
    let l' = merge_into s own r_ths k₀ in
    let f = s.ready_tsc in
    let h : Holds l' (merged f own r_ths) = merge_into-Holds s own r_ths k₀ [] (record {
      ring = record { head_word = omega arith; tail_word = omega arith; fits = omega arith };
      room = inl (ap is_empty_list none_over);
      same = none_over;
    }) in
    let kk = record l' { shown_head = add32 l.shown_head (length r_ths) } in
    let same : queue (update_oldest_tsc s kk) ≡ merged f (queue l) r_ths =
      update_oldest_tsc-queue s kk ∙ h.same ∙ ap (λ (q : List ℕ). merged f q r_ths) e in
    let t = merge_into-shown_tail s own r_ths k₀ in
    let n = ap length h.same ∙ length-merged f own r_ths in
    let n' = ap length e in
    let back = sym same in
    (
      same,
      record {
        is_shown =
            update_oldest_tsc-IsShown s kk
              (record {
                head_word = h.ring.head_word;
                tail_word = h.ring.tail_word;
                fits = h.ring.fits;
              })
              (elim h.room [ inl e ↦ inl e | inr e ↦ inr (omega (arith, e)) ])
              (omega (arith, t, v.is_shown.shown_word))
              (omega (arith, t, n, n', v.is_shown.counted));
        marked =
            subst (λ (q : List ℕ). AllMarked s.thread_ready q) back
              (merged-AllMarked f s.thread_ready (queue l) r_ths v.marked m);
        sorted =
            subst (λ (q : List ℕ). Sorted f q) back (merged-Sorted f (queue l) r_ths v.sorted o);
        past =
            subst (λ (q : List ℕ). AllUpTo f now q) back
              (merged-AllUpTo f now (queue l) r_ths v.past p);
      },
    )
