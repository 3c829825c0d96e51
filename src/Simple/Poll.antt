-- ===== src/Simple/Poll.antt =====
-- The processes that wait for cores get the idle ones (`simple_sched_poll` and
-- `simple_notify_congested` of iokernel/simple.c).
use caladan.Common.{
  ℕ, zero, suc, ◌+◌, ◌≤◌, ◌<◌, ◌≡◌, ◌≢◌, refl, ◌∙◌, inl, inr, Bool, true, false, not, ◌&&◌, ◌==◌,
  if◌then◌else◌, List, [], ◌∷◌, Option, none, some, arith, Bool-cases,
}
use caladan.Simple.{ncpu, nhist, Simple, CoreConfig, Sched}
use caladan.Simple.Choose.{or_else, wants, choose_past, choose_listed, choose_kthread}
use caladan.Simple.Counts.{elem}
use caladan.Simple.Valid.{IsRef, IsValid}
use caladan.Simple.Takes.{IsConfig}

-- No process of the list has a kthread to run.
abbrev pub AllBusy : {W : Type 0} → Sched W → W → List ℕ → Type 0
AllBusy o w [] = Unit {0}
AllBusy o w (p ∷ ps) = (o.threads_avail w p ≡ 0) × AllBusy o w ps

-- A process is chosen that is attached, is congested and has a kthread to run; if none is chosen,
-- no process of the list has one.
abbrev pub Chooses : {W : Type 0} → (ℕ → Bool) → Sched W → Simple → W → List ℕ → Option ℕ → Type 0
Chooses alive o s w ps none = AllBusy o w ps
Chooses alive o s w ps (some p) =
    (alive p ≡ true) × ((s.sds p).is_congested ≡ true) × (o.threads_avail w p ≢ 0)

-- A search that may fail
abbrev Finds : {W : Type 0} → (ℕ → Bool) → Sched W → Simple → W → Option ℕ → Type 0
Finds alive o s w none = Unit {0}
Finds alive o s w (some p) = Chooses alive o s w [] (some p)

or_else-Chooses :
    {W : Type 0} (alive : ℕ → Bool) (o : Sched W) (s : Simple) (w : W) (ps : List ℕ)
    (a b : Option ℕ)
    → Finds alive o s w a
    → Chooses alive o s w ps b
    → Chooses alive o s w ps (or_else a b)
or_else-Chooses alive o s w ps none b h k = k
or_else-Chooses alive o s w ps (some p) b h k = h

module _ {W : Type 0} (g : CoreConfig) (o : Sched W) (alive : ℕ → Bool) (s : Simple) (w : W)
    (k : IsConfig g) (v : IsValid alive s) where
  wants-Finds : (p : ℕ) → IsRef alive p → wants o s w p ≡ true → Chooses alive o s w [] (some p)
  wants-Finds p (inl z) e = absurd (ground (arith, z, e))
  wants-Finds p (inr a) e = (a, ground (arith, e), ground (arith, e))

  choose_past-Finds :
      (c i n : ℕ) → c < ncpu → i + n ≤ nhist → Finds alive o s w (choose_past g o s w c i n)
  unfolding choose_past
  choose_past-Finds c i zero h m = tt
  choose_past-Finds c i (suc n) h m =
      let rest = choose_past-Finds c (i + 1) n h (omega (arith, m)) in
      elim (Bool-cases (wants o s w (s.hist c i))) [
        | inl e ↦ rw e (wants-Finds (s.hist c i) (v.past c i h (omega (arith, m))) e)
        | inr e ↦ elim (Bool-cases g.noht) [
          | inl f ↦ rw (e, f) rest
          | inr f ↦ elim (Bool-cases (wants o s w (s.hist (g.siblings c) i))) [
            | inl t ↦
                rw (e, f, t)
                  (wants-Finds (s.hist (g.siblings c) i)
                    (v.past (g.siblings c) i (k.siblings c) (omega (arith, m))) t)
            | inr t ↦ rw (e, f, t) rest
          ]
        ]
      ]

  choose_listed-Chooses :
      (ps : List ℕ)
      → ((p : ℕ) → elem p ps ≡ true → elem p s.congested_procs ≡ true)
      → Chooses alive o s w ps (choose_listed o w ps)
  unfolding choose_listed
  choose_listed-Chooses [] h = tt
  choose_listed-Chooses (p ∷ ps) h =
      let rest = choose_listed-Chooses ps (λ q e. h q (ground (arith, e))) in
      elim (Bool-cases (o.threads_avail w p == 0)) [
        | inl e ↦ rw e (with_busy (choose_listed o w ps) (ground (arith, e)) rest)
        | inr e ↦
            (let m = h p (ground arith) in
              let a = v.members p m in rw e (a, v.listed p a ∙ m, ground (arith, e)))
      ]
    where
      with_busy :
          (c : Option ℕ)
          → o.threads_avail w p ≡ 0
          → Chooses alive o s w ps c
          → Chooses alive o s w (p ∷ ps) c
      with_busy none e h = (e, h)
      with_busy (some q) e h = h

  unless-Finds :
      (b : Bool) (p : ℕ)
      → (b ≡ true → Chooses alive o s w [] (some p))
      → Finds alive o s w (if b then some p else none)
  unless-Finds true p h = h refl
  unless-Finds false p h = tt

  pub choose_kthread-Chooses :
      (c : ℕ) → c < ncpu → Chooses alive o s w s.congested_procs (choose_kthread g o s w c)
  unfolding choose_kthread
  choose_kthread-Chooses c h =
      or_else-Chooses alive o s w s.congested_procs
        (if not g.noht && wants o s w (s.cores (g.siblings c))
          then some (s.cores (g.siblings c))
          else none)
        _
        (unless-Finds (not g.noht && wants o s w (s.cores (g.siblings c))) (s.cores (g.siblings c))
          (λ e.
            wants-Finds (s.cores (g.siblings c)) (v.owned (g.siblings c) (k.siblings c))
              (ground (arith, e))))
        (or_else-Chooses alive o s w s.congested_procs (choose_past g o s w c 0 nhist) _
          (choose_past-Finds c 0 nhist h (omega arith))
          (choose_listed-Chooses s.congested_procs (λ q e. e)))
