-- ===== src/Simple/Idle.antt =====
-- What becomes of the idle cores (`simple_sched_poll` of iokernel/simple.c)
use caladan.Common.{
  ℕ, ◌<◌, ◌≡◌, ◌≢◌, ◌⊎◌, refl, sym, ap, ◌∙◌, subst, inl, inr, Bool, true, false, ◌==◌,
  if◌then◌else◌, Option, none, some, update_self, arith, Bool-cases,
}
use caladan.Simple.{
  ncpu, SimpleData, Simple, CoreConfig, Sched, cleanup_core, mark_congested, unmark_congested,
  own_core, ran, run_kthread_on_core,
}
use caladan.Simple.Choose.{choose_kthread, set_idle, polled, run_polled, poll_core}
use caladan.Simple.Valid.{
  IsValid, own_core-IsValid, mark_congested-IsValid, unmark_congested-IsValid, cleanup_core-IsValid,
  cleanup_core_free,
}
use caladan.Simple.Takes.{IsConfig}
use caladan.Simple.Poll.{AllBusy, Chooses, choose_kthread-Chooses}

-- A core has a process, or is known to be idle.
abbrev pub Settled : Simple → ℕ → Type 0
Settled s c =
    ((s.cores c ≢ 0) × (s.idle_cores c ≡ false)) ⊎ ((s.cores c ≡ 0) × (s.idle_cores c ≡ true))

-- A core that was polled is idle only if no congested process has a kthread to run, or if the
-- attempt to run one failed and its process is congested still.
abbrev pub Polls : {W : Type 0} → Sched W → W → ℕ → Simple → Type 0
Polls o w c s =
    ((s.cores c ≢ 0) × (s.idle_cores c ≡ false))
    ⊎ ((s.cores c ≡ 0)
        × (s.idle_cores c ≡ true)
        × (AllBusy o w s.congested_procs
            ⊎ ((p : ℕ) × ((o.run_on_core w p c).0 ≢ 0) × ((s.sds p).is_congested ≡ true))))

set_idle-IsValid :
    (alive : ℕ → Bool) (s : Simple) (c : ℕ)
    → IsValid alive s
    → s.cores c ≡ 0
    → IsValid alive (set_idle s c)
set_idle-IsValid alive s c v z = record {
  nonnull = v.nonnull;
  counted = v.counted;
  owned = v.owned;
  past = v.past;
  listed = v.listed;
  members = v.members;
  idle = λ d. elim (Bool-cases (c == d)) [
    | inl e ↦ (let same : c ≡ d = ground (arith, e) in λ b. subst (λ (x : ℕ). s.cores x ≡ 0) same z)
    | inr e ↦ rw e (v.idle d)
  ];
}

-- Marking changes nothing of the cores, and marks.
mark_congested-cores :
    (s : Simple) (p c : ℕ)
    → ((mark_congested s p).cores c ≡ s.cores c)
      × ((mark_congested s p).idle_cores c ≡ s.idle_cores c)
      × (((mark_congested s p).sds p).is_congested ≡ true)
unfolding mark_congested
mark_congested-cores s p c = elim (Bool-cases (s.sds p).is_congested) [
  | inl e ↦ rw e (refl, refl, e)
  | inr e ↦ rw e (refl, refl, ap (λ (d : SimpleData). d.is_congested) (update_self s.sds p _))
]

own_core-cores :
    (s : Simple) (p c : ℕ)
    → ((own_core s p c).cores c ≡ p) × ((own_core s p c).idle_cores c ≡ false)
unfolding own_core
own_core-cores s p c =
    (update_self (cleanup_core s c).cores c p, update_self (cleanup_core s c).idle_cores c false)

module _ {W : Type 0} (o : Sched W) (alive : ℕ → Bool) (s : Simple) (w : W) (v : IsValid alive s)
    (c : ℕ) (h : c < ncpu) (z : s.cores c ≡ 0) where
  polled-Polls :
      (p : ℕ)
      → alive p ≡ true
      → let r = polled c p (ran s p c (o.run_on_core w p c)) in IsValid alive r.0 × Polls o w c r.0
  polled-Polls p a = elim (Bool-cases ((o.run_on_core w p c).0 == 0)) [
    | inl e ↦
        (let (cores, idle) = own_core-cores s p c in
          let some_p : p ≢ 0 = λ k. (let m = ap alive (sym k) ∙ a in let m' = v.nonnull in cc) in
          rw e (own_core-IsValid alive s v p c a h, inl (λ k. some_p (sym cores ∙ k), idle)))
    | inr e ↦
        (let (cores, idle, mark) = mark_congested-cores (set_idle s c) p c in
          rw e (
            mark_congested-IsValid alive (set_idle s c) (set_idle-IsValid alive s c v z) p a,
            inr (
              cores ∙ z,
              idle ∙ update_self s.idle_cores c true,
              inr (p, ground (arith, e), mark),
            ),
          ))
  ]

  run_polled-Polls :
      (q : Option ℕ)
      → Chooses alive o s w s.congested_procs q
      → let r = run_polled o s w c q in IsValid alive r.0 × Polls o w c r.0
  unfolding run_kthread_on_core
  run_polled-Polls none b =
      (set_idle-IsValid alive s c v z, inr (z, update_self s.idle_cores c true, inl b))
  run_polled-Polls (some p) b =
      let e : o.threads_avail w p == 0 ≡ false = ground (arith, b.2) in rw e (polled-Polls p b.0)

-- A turn of the poll at a core, with valid accounts, keeps them valid and gives the core to a process;
-- it leaves it idle only if no congested process has a kthread to run, or if the attempt to run one
-- failed, whose process is congested then.
pub poll_core_lem :
    {W : Type 0} (g : CoreConfig) (o : Sched W) (alive : ℕ → Bool) (s : Simple) (w : W) (c : ℕ)
    → IsConfig g
    → IsValid alive s
    → c < ncpu
    → IsValid alive (poll_core g o s w c).0 × Polls o w c (poll_core g o s w c).0
unfolding poll_core
poll_core_lem g o alive s w c k v h =
    let s₁ = if s.cores c == 0 then s else unmark_congested s (s.cores c) in
    let v₁ : IsValid alive s₁ = elim (Bool-cases (s.cores c == 0)) [
      | inl e ↦ rw e v
      | inr e ↦ rw e (unmark_congested-IsValid alive s v (s.cores c))
    ] in
    let v₂ = cleanup_core-IsValid alive s₁ v₁ c h in
    run_polled-Polls o alive (cleanup_core s₁ c) w v₂ c h (cleanup_core_free s₁ c)
      (choose_kthread g o (cleanup_core s₁ c) w c)
      (choose_kthread-Chooses g o alive (cleanup_core s₁ c) w k v₂ c h)
