-- ===== src/Simple/Tests.antt =====
-- The simple policy with two processes on four cores: the first has two and is guaranteed one, the
-- second has none, is guaranteed one and waits.
use caladan.Common.{
  ℕ, suc, ◌+◌, ◌%◌, ◌≡◌, ◌⊎◌, refl, subst, inl, inr, Bool, true, false, ◌||◌, ◌==◌, ltb,
  if◌then◌else◌, [], ◌∷◌, update, arith, Bool-cases,
}
use caladan.Simple.{ncpu, SimpleData, Simple, CoreConfig, Sched, detach}
use caladan.Simple.Choose.{add_kthread, DelayInfo, notify_congested, poll_core, sched_poll}
use caladan.Simple.Counts.{count, elem}
use caladan.Simple.Valid.{IsValid}
use caladan.Simple.Attach.{detach-IsValid}
use caladan.Simple.Takes.{IsConfig}
use caladan.Simple.Guarantee.{Adds, add_kthread_lem}
use caladan.Simple.Idle.{Polls, poll_core_lem}
use caladan.Simple.Settled.{AllSettled, sched_poll_lem}
use caladan.Simple.Notify.{Notifies, notify_congested_lem}

abbrev four : CoreConfig
four = record {
  noht = false;
  cores_tbl = 0 ∷ 1 ∷ 2 ∷ 3 ∷ [];
  siblings = λ c. (c + 2) % 4;
  is_allowed = λ c. ltb c 4;
}

-- Every attempt to run a kthread succeeds, and is counted.
abbrev willing : Sched ℕ
willing = record {
  threads_avail = λ w p. 2;
  idle_threads = λ w p. [];
  run_on_core = λ w p c. (0, suc w);
}

abbrev greedy : SimpleData
greedy = record {
  is_congested = false;
  qdelay_us = 10;
  threads_guaranteed = 1;
  threads_max = 4;
  threads_active = 2;
  waking = false;
}

abbrev waiting : SimpleData
waiting = record {
  is_congested = true;
  qdelay_us = 10;
  threads_guaranteed = 1;
  threads_max = 4;
  threads_active = 0;
  waking = false;
}

abbrev two : Simple
two = record {
  sds = λ p. if p == 1 then greedy else waiting;
  cores = λ c. if ltb c 2 then 1 else 0;
  hist = λ c i. 0;
  congested_procs = 2 ∷ [];
  idle_cores = λ c. false;
}

abbrev alive : ℕ → Bool
alive p = p == 1 || p == 2

four-IsConfig : IsConfig four
four-IsConfig = record {
  siblings = λ c. omega arith;
  table = (omega arith, (omega arith, (omega arith, (omega arith, tt))));
}

alive_cases : (p : ℕ) → alive p ≡ true → (1 ≡ p) ⊎ (2 ≡ p)
alive_cases p a = elim (Bool-cases (p == 1)) [
  | inl e ↦ inl (ground (arith, e))
  | inr e ↦ inr (ground (arith, e, a))
]

two-IsValid : IsValid alive two
unfolding count
two-IsValid = record {
  nonnull = refl;
  counted = λ p a. elim (alive_cases p a) [
    | inl e ↦ subst (λ (q : ℕ). (two.sds q).threads_active ≡ count ncpu two.cores q) e refl
    | inr e ↦ subst (λ (q : ℕ). (two.sds q).threads_active ≡ count ncpu two.cores q) e refl
  ];
  owned = λ c h. elim (Bool-cases (ltb c 2)) [ inl e ↦ rw e (inr refl) | inr e ↦ rw e (inl refl) ];
  past = λ c i h m. inl refl;
  listed = λ p a. elim (alive_cases p a) [
    | inl e ↦ subst (λ (q : ℕ). (two.sds q).is_congested ≡ elem q (2 ∷ [])) e refl
    | inr e ↦ subst (λ (q : ℕ). (two.sds q).is_congested ≡ elem q (2 ∷ [])) e refl
  ];
  members = λ p e. ground (arith, e);
  idle = λ c e. absurd (ground (arith, e));
}

add_kthread_lem_example : Adds alive two 2 1 (add_kthread four willing two 0 2)
add_kthread_lem_example =
    add_kthread_lem four willing alive two 0 2 1 four-IsConfig two-IsValid refl refl (omega arith)

detach-IsValid_example : IsValid (update alive 2 false) (detach two 2)
detach-IsValid_example = detach-IsValid alive two 2 two-IsValid refl

poll_core_lem_example :
    IsValid alive (poll_core four willing two 0 1).0
    × Polls willing 0 1 (poll_core four willing two 0 1).0
poll_core_lem_example =
    poll_core_lem four willing alive two 0 1 four-IsConfig two-IsValid (omega arith)

sched_poll_lem_example :
    IsValid alive (sched_poll four willing two 0 2 (1 ∷ 3 ∷ [])).0
    × AllSettled (sched_poll four willing two 0 2 (1 ∷ 3 ∷ [])).0 (1 ∷ 3 ∷ [])
sched_poll_lem_example =
    sched_poll_lem four willing alive two 0 (1 ∷ 3 ∷ []) four-IsConfig two-IsValid
      (omega arith, (omega arith, tt))

-- A process that has a core and finds work in a parked thread
abbrev busy : DelayInfo
busy = record { parked_thread_busy = true; standing_queue = false; max_delay_us = 0 }

notify_congested_lem_example :
    IsValid alive (notify_congested four willing two 0 1 busy).0
    × Notifies false true two (notify_congested four willing two 0 1 busy).0 1
notify_congested_lem_example =
    notify_congested_lem four willing alive two 0 1 busy four-IsConfig two-IsValid refl
