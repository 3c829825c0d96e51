-- ===== src/Runq/Work.antt =====
-- What a look at the queue of another kthread comes to (`steal_work` of runtime/sched.c)
use caladan.Common.{
  ◌/◌, ℕ, suc, ◌+◌, ◌-◌, ◌≤◌, ◌<◌, ◌≡◌, ◌⊎◌, refl, sym, ap, subst, inl, inr, Bool, true, false, not,
  ◌||◌, ◌==◌, ltb, List, ◌++◌, length, length-append, arith, Bool-cases,
}
use mathlib.Core.List.{append_assoc}
use caladan.Common.Word32.{word32, add32}
use caladan.Runq.{rq_size, Threads, Runq, in_ring}
use caladan.Runq.Ring.{queue, InRing}
use mathlib.Core.List.{Perm}
use mathlib.Core.List.Perm
use caladan.Runq.Ready.{IsValid}
use caladan.Runq.Merge.{shown_size, num_to_steal, Theft, polls, steals, runs_softirqs, steal_work}
use caladan.Runq.Steal.{shown_size-length}
use caladan.Runq.Balance.{Merges, stolen, merge_runqueues_refines}

-- What a look at another queue may come to
abbrev pub Balances : Threads → Runq → Runq → ℕ → Bool → Bool → Theft → Type 0
Balances s l r now busy locked polls = ((busy ≡ false) × (in_ring r ≡ 0)) ⊎ (locked ≡ false)
Balances s l r now busy locked runs_softirqs = length (queue r) ≤ length (queue l)
Balances s l r now busy locked (steals l' r') =
    Perm (queue l' ++ queue r') (queue l ++ queue r)
    × IsValid s l' now
    × (length (queue l) < length (queue l'))
    × (length (queue l') ≤ suc (length (queue r')))

Merges-Balances :
    (s : Threads) (l r : Runq) (n now : ℕ) (both : Runq × Runq)
    → Merges s l r n now both
    → 0 < n
    → length (queue l) + n ≤ suc (length (queue r) - n)
    → n ≤ length (queue r)
    → Perm (queue both.0 ++ queue both.1) (queue l ++ queue r)
      × IsValid s both.0 now
      × (length (queue l) < length (queue both.0))
      × (length (queue both.0) ≤ suc (length (queue both.1)))
Merges-Balances s l r n now (l', r') (perm, valid, whole, count, shown, longer) p h m =
    let lengths = ap length whole in
    let parts = length-append (stolen r n) (queue r') in
    (
      Perm.trans (Perm.append_right (queue r') perm) (
          subst (λ (q : List ℕ). Perm q (queue l ++ queue r))
            (sym (append_assoc (queue l) (stolen r n) (queue r')))
            (subst (λ (q : List ℕ). Perm (queue l ++ (stolen r n ++ queue r')) (queue l ++ q))
              (sym whole) Perm.rfl)),
      valid,
      omega (arith, longer, p),
      omega (arith, longer, h, m, lengths, parts, count),
    )

-- How many are stolen: none if the other has no more, and else not more than bring both to one length.
num_to_steal_lem :
    (a b : ℕ)
    → b < 4294967295
    → ((num_to_steal a b ≡ 0) × (b ≤ a))
      ⊎ ((0 < num_to_steal a b)
          × (a + num_to_steal a b ≤ suc (b - num_to_steal a b))
          × (num_to_steal a b ≤ b))
num_to_steal_lem a b h = elim (Bool-cases (ltb a b)) [
  | inl more ↦ elim (Bool-cases (ltb (add32 (b - a) 1 / 2) rq_size)) [
    | inl few ↦
        rw (more, few) (inr (ground (arith, more), ground (arith, more), ground (arith, more)))
    | inr many ↦
        rw (more, many)
          (inr (ground (arith, more), ground (arith, more, many), ground (arith, more, many)))
  ]
  | inr less ↦ rw less (inl (refl, ground (arith, less)))
]

gives_up :
    (r : Runq) (busy locked : Bool)
    → InRing r
    → (not (not (r.rq_tail == r.rq_head) || busy) || not locked) ≡ true
    → ((busy ≡ false) × (in_ring r ≡ 0)) ⊎ (locked ≡ false)
gives_up r busy false v e = inr refl
gives_up r true true v e = absurd (ground (arith, e))
gives_up r false true v e = inl (refl, ground (arith, e, v.head_word, v.tail_word))

-- A look at another valid queue gives up only if it has no thread in its ring and no softirq, or if
-- its lock is taken; it goes on to the softirqs only if the other has no more threads than we have;
-- and it steals threads so that none is lost or doubled, our queue is valid and longer than before,
-- and not more than one thread longer than what is left of the other.
pub steal_work_refines :
    (s : Threads) (l r : Runq) (busy locked : Bool) (now : ℕ)
    → IsValid s l now
    → IsValid s r now
    → length (queue l) < word32
    → length (queue r) < 4294967295
    → Balances s l r now busy locked (steal_work s l r busy locked)
unfolding steal_work
steal_work_refines s l r busy locked now v w h m =
    let a = shown_size-length s l v.is_shown h in
    let b = shown_size-length s r w.is_shown (omega (arith, m)) in
    elim (Bool-cases (not (not (r.rq_tail == r.rq_head) || busy) || not locked)) [
      | inl e ↦ rw e (gives_up r busy locked w.is_shown.ring e)
      | inr e ↦ elim (num_to_steal_lem (shown_size l) (shown_size r) (omega (arith, b, m))) [
        | inl (z, few) ↦ rw (e, z) (omega (arith, a, b, few))
        | inr (p, q, t) ↦
            (let n = num_to_steal (shown_size l) (shown_size r) in
              let some_taken : n == 0 ≡ false = ground (arith, p) in
              let q' : length (queue l) + n ≤ suc (length (queue r) - n) = omega (arith, a, b, q) in
              let t' : n ≤ length (queue r) = omega (arith, b, t) in
              rw (e, some_taken)
                (Merges-Balances s l r n now _ (merge_runqueues_refines s l r n now v w h t') p q'
                  t'))
      ]
    ]
