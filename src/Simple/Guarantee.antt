-- ===== src/Simple/Guarantee.antt =====
-- A process that gets a core takes none that another is guaranteed (iokernel/simple.c).
use caladan.Common.{
  ℕ, ◌+◌, ◌-◌, ◌≤◌, ◌<◌, ◌≡◌, ◌≢◌, ◌⊎◌, refl, sym, ap, ◌∙◌, inl, inr, Bool, true, false, not, ◌&&◌,
  ◌||◌, ◌==◌, leb, Option, none, some, update_self, update_ne, arith, Bool-cases,
}
use caladan.Simple.{
  ncpu, SimpleData, Simple, CoreConfig, Sched, is_preemptible, cleanup_core, own_core, ran,
  run_kthread_on_core,
}
use caladan.Simple.Choose.{can_take, choose_core, run_chosen, add_kthread}
use caladan.Simple.Counts.{count_loss}
use caladan.Simple.Valid.{IsValid, own_core-IsValid}
use caladan.Simple.Takes.{IsConfig, Takes, choose_core-Takes}

-- What another process loses: nothing, or one core that it has beyond its guarantee, to a process
-- that has less than its own.
abbrev pub Spares : Simple → Simple → ℕ → ℕ → Type 0
Spares s s' p q =
    ((s'.sds q).threads_active ≡ (s.sds q).threads_active)
    ⊎ (((s'.sds q).threads_active + 1 ≡ (s.sds q).threads_active)
        × ((s.sds q).threads_guaranteed < (s.sds q).threads_active)
        × ((s.sds p).threads_active < (s.sds p).threads_guaranteed))

cleanup_core_other :
    (s : Simple) (c q : ℕ)
    → s.cores c ≢ q
    → ((cleanup_core s c).sds q).threads_active ≡ (s.sds q).threads_active
unfolding cleanup_core
cleanup_core_other s c q n = elim (Bool-cases (s.cores c == 0)) [
  | inl e ↦ rw e refl
  | inr e ↦ rw e (ap (λ (d : SimpleData). d.threads_active) (update_ne s.sds _ n))
]

cleanup_core_owner :
    (s : Simple) (c q : ℕ)
    → s.cores c ≡ q
    → q ≢ 0
    → ((cleanup_core s c).sds q).threads_active ≡ (s.sds q).threads_active - 1
unfolding cleanup_core
cleanup_core_owner s c q o z =
    let e : s.cores c == 0 ≡ false = ground (arith, o, z) in
    rw (e, o) (ap (λ (d : SimpleData). d.threads_active) (update_self s.sds q _))

pub own_core_self :
    (s : Simple) (p c : ℕ)
    → s.cores c ≢ p
    → ((own_core s p c).sds p).threads_active ≡ (s.sds p).threads_active + 1
unfolding own_core
own_core_self s p c n =
    ap (λ (d : SimpleData). d.threads_active) (update_self (cleanup_core s c).sds p _)
    ∙ ap (λ (i : ℕ). i + 1) (cleanup_core_other s c p n)

own_core_other :
    (s : Simple) (p c q : ℕ)
    → p ≢ q
    → ((own_core s p c).sds q).threads_active ≡ ((cleanup_core s c).sds q).threads_active
unfolding own_core
own_core_other s p c q n =
    ap (λ (d : SimpleData). d.threads_active) (update_ne (cleanup_core s c).sds _ n)

preempts :
    (f : ℕ → Bool) (x q p : ℕ)
    → x ≡ q
    → (not (x == p) && (x == 0 || f x)) ≡ true
    → q ≢ 0
    → f q ≡ true
preempts f x q p o t z = sym (ap f o) ∙ last (f x) t
  where
    last : (b : Bool) → (not (x == p) && (x == 0 || b)) ≡ true → b ≡ true
    last true t = refl
    last false t = absurd (ground (arith, o, t, z))

own_core-Spares :
    (alive : ℕ → Bool) (s : Simple) (p c q : ℕ)
    → IsValid alive s
    → alive q ≡ true
    → p ≢ q
    → c < ncpu
    → can_take s p c ≡ true
    → Spares s (own_core s p c) p q
unfolding is_preemptible
own_core-Spares alive s p c q v a n h t = elim (Bool-cases (s.cores c == q)) [
  | inr e ↦ inl (own_core_other s p c q n ∙ cleanup_core_other s c q (ground (arith, e)))
  | inl e ↦
      (let o : s.cores c ≡ q = ground (arith, e) in
        let some_q : q ≢ 0 = λ k. (let m = ap alive (sym k) ∙ a in let m' = v.nonnull in cc) in
        let less = own_core_other s p c q n ∙ cleanup_core_owner s c q o some_q in
        let held = v.counted q a ∙ sym (count_loss ncpu s.cores c 0 q h o (λ k. some_q (sym k))) in
        let pre : is_preemptible (s.sds q) (s.sds p) ≡ true =
          preempts (λ (x : ℕ). is_preemptible (s.sds x) (s.sds p)) (s.cores c) q p o t some_q in
        inr (omega (arith, less, held), ground (arith, pre), ground (arith, pre)))
]

-- What an attempt to give a process `p` one core more does to it and to another process `q`.
abbrev pub Adds : {W : Type 0} → (ℕ → Bool) → Simple → ℕ → ℕ → ℕ × Simple × W → Type 0
Adds alive s p q (ret, s', w) =
    ((ret ≢ 0) × (s' ≡ s))
    ⊎ ((ret ≡ 0)
        × IsValid alive s'
        × ((s'.sds p).threads_active ≡ (s.sds p).threads_active + 1)
        × ((s'.sds p).threads_active ≤ (s.sds p).threads_max)
        × Spares s s' p q)

module _ {W : Type 0} (o : Sched W) (alive : ℕ → Bool) (s : Simple) (w : W) (p q : ℕ)
    (v : IsValid alive s) (a : alive p ≡ true) (b : alive q ≡ true) (n : p ≢ q)
    (m : (s.sds p).threads_active < (s.sds p).threads_max) where
  ran-Adds : (c : ℕ) (r : ℕ × W) → c < ncpu → can_take s p c ≡ true → Adds alive s p q (ran s p c r)
  ran-Adds c (ret, w') h t = elim (Bool-cases (ret == 0)) [
    | inr e ↦ rw e (inl (ground (arith, e), refl))
    | inl e ↦
        (let gain = own_core_self s p c (ground (arith, t)) in
          rw e (
            inr (
              ground (arith, e),
              own_core-IsValid alive s v p c a h,
              gain,
              omega (arith, gain, m),
              own_core-Spares alive s p c q v b n h t,
            )))
  ]

  run_chosen-Adds : (c : Option ℕ) → Takes s p c → Adds alive s p q (run_chosen o s w p c)
  unfolding run_kthread_on_core
  run_chosen-Adds none h = inl (omega arith, refl)
  run_chosen-Adds (some c) h = elim (Bool-cases (o.threads_avail w p == 0)) [
    | inl e ↦ rw e (inl (omega arith, refl))
    | inr e ↦ rw e (ran-Adds c (o.run_on_core w p c) h.1 h.0)
  ]

-- With valid accounts, `simple_add_kthread` of an attached process either fails and changes nothing,
-- or gives it exactly one core more, at most its limit, and leaves the accounts valid; then another
-- attached process keeps its cores, or loses one that it has beyond its guarantee while the first has
-- less than its own.
pub add_kthread_lem :
    {W : Type 0} (g : CoreConfig) (o : Sched W) (alive : ℕ → Bool) (s : Simple) (w : W) (p q : ℕ)
    → IsConfig g
    → IsValid alive s
    → alive p ≡ true
    → alive q ≡ true
    → p ≢ q
    → Adds alive s p q (add_kthread g o s w p)
unfolding add_kthread
add_kthread_lem g o alive s w p q k v a b n =
    elim (Bool-cases (leb (s.sds p).threads_max (s.sds p).threads_active)) [
      | inl e ↦ rw e (inl (omega arith, refl))
      | inr e ↦
          (let some_p : p ≢ 0 = λ z. (let m = ap alive (sym z) ∙ a in let m' = v.nonnull in cc) in
            rw e (
              run_chosen-Adds o alive s w p q v a b n (ground (arith, e))
                (choose_core g s p (o.idle_threads w p))
                (choose_core-Takes g s p k (o.idle_threads w p) some_p v.idle)))
    ]
