-- ===== src/Simple/Settled.antt =====
-- No idle core is forgotten (`simple_sched_poll` of iokernel/simple.c).
use caladan.Common.{
  length, ℕ, ◌<◌, ◌≡◌, ◌≢◌, refl, sym, ◌∙◌, subst, inl, inr, Bool, true, false, ◌==◌, if◌then◌else◌,
  List, [], ◌∷◌, Option, none, some, update_ne, arith, Bool-cases,
}
use caladan.Simple.{
  ncpu, Simple, CoreConfig, Sched, cleanup_core, mark_congested, unmark_congested, own_core, ran,
  run_kthread_on_core,
}
use caladan.Simple.Choose.{
  choose_kthread, set_idle, polled, run_polled, poll_core, poll_each, sched_poll,
}
use caladan.Simple.Valid.{IsValid}
use caladan.Simple.Takes.{IsConfig}
use caladan.Simple.Idle.{Settled, Polls, poll_core_lem}
use caladan.Simple.Choose.{choose_kthread}

-- Two states that agree on a core
abbrev Agrees : ℕ → Simple → Simple → Type 0
Agrees d s s' = (s'.cores d ≡ s.cores d) × (s'.idle_cores d ≡ s.idle_cores d)

Agrees-trans : (d : ℕ) (s s' s'' : Simple) → Agrees d s s' → Agrees d s' s'' → Agrees d s s''
Agrees-trans d s s' s'' a b = (b.0 ∙ a.0, b.1 ∙ a.1)

Agrees-Settled : (d : ℕ) (s s' : Simple) → Agrees d s s' → Settled s d → Settled s' d
Agrees-Settled d s s' a (inl h) = inl (λ k. h.0 (sym a.0 ∙ k), a.1 ∙ h.1)
Agrees-Settled d s s' a (inr h) = inr (a.0 ∙ h.0, a.1 ∙ h.1)

mark_congested-Agrees : (d : ℕ) (s : Simple) (p : ℕ) → Agrees d s (mark_congested s p)
unfolding mark_congested
mark_congested-Agrees d s p = elim (Bool-cases (s.sds p).is_congested) [
  | inl e ↦ rw e (refl, refl)
  | inr e ↦ rw e (refl, refl)
]

unmark_congested-Agrees : (d : ℕ) (s : Simple) (p : ℕ) → Agrees d s (unmark_congested s p)
unfolding unmark_congested
unmark_congested-Agrees d s p = elim (Bool-cases (s.sds p).is_congested) [
  | inl e ↦ rw e (refl, refl)
  | inr e ↦ rw e (refl, refl)
]

module _ (d c : ℕ) (n : c ≢ d) where
  cleanup_core-Agrees : (s : Simple) → Agrees d s (cleanup_core s c)
  unfolding cleanup_core
  cleanup_core-Agrees s = elim (Bool-cases (s.cores c == 0)) [
    | inl e ↦ rw e (refl, refl)
    | inr e ↦ rw e (update_ne s.cores 0 n, refl)
  ]

  own_core-Agrees : (s : Simple) (p : ℕ) → Agrees d s (own_core s p c)
  unfolding own_core
  own_core-Agrees s p =
      let a = cleanup_core-Agrees s in
      (
        update_ne (cleanup_core s c).cores p n ∙ a.0,
        update_ne (cleanup_core s c).idle_cores false n ∙ a.1,
      )

  set_idle-Agrees : (s : Simple) → Agrees d s (set_idle s c)
  set_idle-Agrees s = (refl, update_ne s.idle_cores true n)

  polled-Agrees :
      {W : Type 0} (s : Simple) (p : ℕ) (r : ℕ × W) → Agrees d s (polled c p (ran s p c r)).0
  polled-Agrees s p r = elim (Bool-cases (r.0 == 0)) [
    | inl e ↦ rw e (own_core-Agrees s p)
    | inr e ↦ rw e (
        Agrees-trans d s (set_idle s c) (mark_congested (set_idle s c) p) (set_idle-Agrees s)
          (mark_congested-Agrees d (set_idle s c) p))
  ]

  run_polled-Agrees :
      {W : Type 0} (o : Sched W) (s : Simple) (w : W) (q : Option ℕ)
      → Agrees d s (run_polled o s w c q).0
  unfolding run_kthread_on_core
  run_polled-Agrees o s w none = set_idle-Agrees s
  run_polled-Agrees o s w (some p) = elim (Bool-cases (o.threads_avail w p == 0)) [
    | inl e ↦ rw e (
        Agrees-trans d s (set_idle s c) (mark_congested (set_idle s c) p) (set_idle-Agrees s)
          (mark_congested-Agrees d (set_idle s c) p))
    | inr e ↦ rw e (polled-Agrees s p (o.run_on_core w p c))
  ]

  poll_core-Agrees :
      {W : Type 0} (g : CoreConfig) (o : Sched W) (s : Simple) (w : W)
      → Agrees d s (poll_core g o s w c).0
  unfolding poll_core
  poll_core-Agrees g o s w =
      let s₁ = if s.cores c == 0 then s else unmark_congested s (s.cores c) in
      let a : Agrees d s s₁ = elim (Bool-cases (s.cores c == 0)) [
        | inl e ↦ rw e (refl, refl)
        | inr e ↦ rw e (unmark_congested-Agrees d s (s.cores c))
      ] in
      let s₂ = cleanup_core s₁ c in
      Agrees-trans d s s₂ (run_polled o s₂ w c (choose_kthread g o s₂ w c)).0
        (Agrees-trans d s s₁ s₂ a (cleanup_core-Agrees s₁))
        (run_polled-Agrees o (cleanup_core s₁ c) w (choose_kthread g o (cleanup_core s₁ c) w c))

Polls-Settled :
    {W : Type 0} (o : Sched W) (w : W) (c : ℕ) (s : Simple) → Polls o w c s → Settled s c
Polls-Settled o w c s (inl h) = inl h
Polls-Settled o w c s (inr h) = inr (h.0, h.1)

abbrev pub AllSettled : Simple → List ℕ → Type 0
AllSettled s [] = Unit {0}
AllSettled s (c ∷ cs) = Settled s c × AllSettled s cs

-- The list holds cores.
abbrev pub AllCores : List ℕ → Type 0
AllCores [] = Unit {0}
AllCores (c ∷ cs) = (c < ncpu) × AllCores cs

module _ {W : Type 0} (g : CoreConfig) (o : Sched W) (alive : ℕ → Bool) (k : IsConfig g) where
  -- A core that is settled stays so.
  poll_each-Settled :
      (cs : List ℕ) (s : Simple) (w : W) (d : ℕ)
      → IsValid alive s
      → AllCores cs
      → Settled s d
      → Settled (poll_each g o s w cs).0 d
  unfolding poll_each
  poll_each-Settled [] s w d v b h = h
  poll_each-Settled (c ∷ cs) s w d v b h =
      let (v', p) = poll_core_lem g o alive s w c k v b.0 in
      let h' : Settled (poll_core g o s w c).0 d = elim (Bool-cases (c == d)) [
        | inl e ↦
            (let same : c ≡ d = ground (arith, e) in
              subst (λ (x : ℕ). Settled (poll_core g o s w c).0 x) same
                (Polls-Settled o w c (poll_core g o s w c).0 p))
        | inr e ↦
            Agrees-Settled d s (poll_core g o s w c).0
              (poll_core-Agrees d c (ground (arith, e)) g o s w) h
      ] in
      poll_each-Settled cs (poll_core g o s w c).0 (poll_core g o s w c).1 d v' b.1 h'

  poll_each_lem :
      (cs : List ℕ) (s : Simple) (w : W)
      → IsValid alive s
      → AllCores cs
      → IsValid alive (poll_each g o s w cs).0 × AllSettled (poll_each g o s w cs).0 cs
  unfolding poll_each
  poll_each_lem [] s w v b = (v, tt)
  poll_each_lem (c ∷ cs) s w v b =
      let (v', p) = poll_core_lem g o alive s w c k v b.0 in
      let s' = (poll_core g o s w c).0 in
      let w' = (poll_core g o s w c).1 in
      let (v'', rest) = poll_each_lem cs s' w' v' b.1 in
      (v'', (poll_each-Settled cs s' w' c v' b.1 (Polls-Settled o w c s' p), rest))

-- The poll of the idle cores, with their number, keeps the accounts valid and forgets no core: each
-- has a process afterwards or is marked as idle.
pub sched_poll_lem :
    {W : Type 0} (g : CoreConfig) (o : Sched W) (alive : ℕ → Bool) (s : Simple) (w : W)
    (idle : List ℕ)
    → IsConfig g
    → IsValid alive s
    → AllCores idle
    → IsValid alive (sched_poll g o s w (length idle) idle).0
      × AllSettled (sched_poll g o s w (length idle) idle).0 idle
unfolding sched_poll
sched_poll_lem {W} g o alive s w [] k v b = (v, tt)
sched_poll_lem {W} g o alive s w (c ∷ cs) k v b =
    let more : length (c ∷ cs) == 0 ≡ false = ground arith in
    let same : sched_poll g o s w (length (c ∷ cs)) (c ∷ cs) ≡ poll_each g o s w (c ∷ cs) =
      rw more refl in
    subst (λ (r : Simple × W). IsValid alive r.0 × AllSettled r.0 (c ∷ cs)) (sym same)
      (poll_each_lem g o alive k (c ∷ cs) s w v b)
