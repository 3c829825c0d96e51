-- ===== src/Simple/Notify.antt =====
-- A congested process gets a core or waits for one (`simple_notify_congested` of
-- iokernel/simple.c).
use caladan.Common.{
  ℕ, ◌+◌, ◌<◌, ◌≡◌, ◌≢◌, ◌⊎◌, refl, sym, ap, ◌∙◌, subst, inl, inr, Bool, true, false, ◌==◌, leb,
  Option, none, some, update_self, update-field, arith, Bool-cases,
}
use caladan.Simple.{
  ncpu, SimpleData, Simple, CoreConfig, Sched, with_sd, mark_congested, unmark_congested, ran,
  run_kthread_on_core,
}
use caladan.Simple.Choose.{
  choose_core, run_chosen, add_kthread, DelayInfo, congested, added, notify_congested,
}
use caladan.Simple.Valid.{
  IsValid, own_core-IsValid, mark_congested-IsValid, unmark_congested-IsValid,
}
use caladan.Simple.Takes.{IsConfig, Takes, choose_core-Takes}
use caladan.Simple.Guarantee.{own_core_self}

-- What a notification does, by whether a core was given during the last interval and whether the
-- process is congested: it only takes note of the first, a process that is not congested does not
-- wait, and one that is gets a core or waits.
abbrev pub Notifies : Bool → Bool → Simple → Simple → ℕ → Type 0
Notifies true b s s' p =
    ((s'.sds p).waking ≡ false) × ((s'.sds p).threads_active ≡ (s.sds p).threads_active)
Notifies false false s s' p = (s'.sds p).is_congested ≡ false
Notifies false true s s' p =
    ((s'.sds p).is_congested ≡ true) ⊎ ((s'.sds p).threads_active ≡ (s.sds p).threads_active + 1)

with_sd-IsValid :
    (alive : ℕ → Bool) (s : Simple) (p : ℕ)
    → IsValid alive s
    → IsValid alive (with_sd s p (record (s.sds p) { waking = false }))
with_sd-IsValid alive s p v = record {
  nonnull = v.nonnull;
  counted =
      λ q b. update-field (λ (d : SimpleData). d.threads_active) s.sds p q refl ∙ v.counted q b;
  owned = v.owned;
  past = v.past;
  listed = λ q b. update-field (λ (d : SimpleData). d.is_congested) s.sds p q refl ∙ v.listed q b;
  members = v.members;
  idle = v.idle;
}

-- What an attempt to add a kthread leaves
abbrev Tried : {W : Type 0} → (ℕ → Bool) → Simple → ℕ → ℕ × Simple × W → Type 0
Tried alive s p (ret, s', w) =
    ((ret ≢ 0) × (s' ≡ s))
    ⊎ ((ret ≡ 0) × IsValid alive s' × ((s'.sds p).threads_active ≡ (s.sds p).threads_active + 1))

mark_congested_marks : (s : Simple) (p : ℕ) → ((mark_congested s p).sds p).is_congested ≡ true
unfolding mark_congested
mark_congested_marks s p = elim (Bool-cases (s.sds p).is_congested) [
  | inl e ↦ rw e e
  | inr e ↦ rw e (ap (λ (d : SimpleData). d.is_congested) (update_self s.sds p _))
]

unmark_congested_clears : (s : Simple) (p : ℕ) → ((unmark_congested s p).sds p).is_congested ≡ false
unfolding unmark_congested
unmark_congested_clears s p = elim (Bool-cases (s.sds p).is_congested) [
  | inr e ↦ rw e e
  | inl e ↦ rw e (ap (λ (d : SimpleData). d.is_congested) (update_self s.sds p _))
]

module _ {W : Type 0} (g : CoreConfig) (o : Sched W) (alive : ℕ → Bool) (s : Simple) (w : W) (p : ℕ)
    (k : IsConfig g) (v : IsValid alive s) (a : alive p ≡ true) where
  ran-Tried : (c : ℕ) (r : ℕ × W) → c < ncpu → s.cores c ≢ p → Tried alive s p (ran s p c r)
  ran-Tried c (ret, w') h n = elim (Bool-cases (ret == 0)) [
    | inr e ↦ rw e (inl (ground (arith, e), refl))
    | inl e ↦
        rw e (inr (ground (arith, e), own_core-IsValid alive s v p c a h, own_core_self s p c n))
  ]

  run_chosen-Tried : (c : Option ℕ) → Takes s p c → Tried alive s p (run_chosen o s w p c)
  unfolding run_kthread_on_core
  run_chosen-Tried none h = inl (omega arith, refl)
  run_chosen-Tried (some c) h = elim (Bool-cases (o.threads_avail w p == 0)) [
    | inl e ↦ rw e (inl (omega arith, refl))
    | inr e ↦ rw e (ran-Tried c (o.run_on_core w p c) h.1 (ground (arith, h.0)))
  ]

  add_kthread-Tried : Tried alive s p (add_kthread g o s w p)
  unfolding add_kthread
  add_kthread-Tried = elim (Bool-cases (leb (s.sds p).threads_max (s.sds p).threads_active)) [
    | inl e ↦ rw e (inl (omega arith, refl))
    | inr e ↦
        (let some_p : p ≢ 0 = λ z. (let m = ap alive (sym z) ∙ a in let m' = v.nonnull in cc) in
          rw e (
            run_chosen-Tried (choose_core g s p (o.idle_threads w p))
              (choose_core-Takes g s p k (o.idle_threads w p) some_p v.idle)))
  ]

  added-Notifies :
      (r : ℕ × Simple × W)
      → Tried alive s p r
      → IsValid alive (added p r).0 × Notifies false true s (added p r).0 p
  added-Notifies (ret, s', w') (inl (n, e)) =
      let z : ret == 0 ≡ false = ground (arith, n) in
      rw z (
        mark_congested-IsValid alive s' (subst (λ (x : Simple). IsValid alive x) (sym e) v) p a,
        inl (mark_congested_marks s' p),
      )
  added-Notifies (ret, s', w') (inr (n, v', e)) =
      let z : ret == 0 ≡ true = ground (arith, n) in rw z (v', inr e)

  notify_congested-Notifies :
      (delay : DelayInfo)
      → let s' = (notify_congested g o s w p delay).0 in
        IsValid alive s' × Notifies (s.sds p).waking (congested (s.sds p) delay) s s' p
  unfolding notify_congested
  notify_congested-Notifies delay = elim (Bool-cases (s.sds p).waking) [
    | inl e ↦ rw e (
      with_sd-IsValid alive s p v,
      (
        ap (λ (d : SimpleData). d.waking) (update_self s.sds p _),
        ap (λ (d : SimpleData). d.threads_active) (update_self s.sds p _),
      ),
    )
    | inr e ↦ elim (Bool-cases (congested (s.sds p) delay)) [
      | inr f ↦ rw (e, f) (unmark_congested-IsValid alive s v p, unmark_congested_clears s p)
      | inl f ↦ elim (Bool-cases (s.sds p).is_congested) [
        | inl m ↦ rw (e, f, m) (v, inl m)
        | inr m ↦ rw (e, f, m) (added-Notifies (add_kthread g o s w p) add_kthread-Tried)
      ]
    ]
  ]

-- `simple_notify_congested` keeps the accounts valid on every branch; if the process got a core
-- during the last interval it only takes note of it, if it is not congested it waits no more, and if
-- it is congested it gets a core or waits for one.
pub notify_congested_lem :
    {W : Type 0} (g : CoreConfig) (o : Sched W) (alive : ℕ → Bool) (s : Simple) (w : W) (p : ℕ)
    (delay : DelayInfo)
    → IsConfig g
    → IsValid alive s
    → alive p ≡ true
    → IsValid alive (notify_congested g o s w p delay).0
      × Notifies
          (s.sds p).waking
          (congested (s.sds p) delay)
          s
          (notify_congested g o s w p delay).0
          p
notify_congested_lem g o alive s w p delay k v a =
    notify_congested-Notifies g o alive s w p k v a delay
