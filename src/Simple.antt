-- ===== src/Simple.antt =====
-- The simple policy of the I/O kernel, which gives cores to processes (iokernel/simple.c). A process
-- is named by the address of its data (0 is NULL), an array is a function, and what the policy calls
-- of the scheduler layer (iokernel/sched.c) comes as an interface with a state of its own. Errors
-- are positive numbers and 0 is success.
pub mod Choose
pub mod Counts
pub mod Valid
pub mod Attach
pub mod Takes
pub mod Guarantee
pub mod Poll
pub mod Idle
pub mod Settled
pub mod Notify
mod Tests
use caladan.Common.{
  ℕ, zero, suc, ◌+◌, ◌-◌, Bool, true, false, not, ◌&&◌, ◌||◌, ◌==◌, ltb, leb, if◌then◌else◌, List,
  [], ◌∷◌, Option, none, some, update,
}

abbrev pub ncpu : ℕ
ncpu = 256

abbrev pub nhist : ℕ
nhist = 4

abbrev pub ebusy : ℕ
ebusy = 16

abbrev pub enoent : ℕ
enoent = 2

-- `struct simple_data`; whether it is on the list of the congested is `is_congested`.
pub record SimpleData : Type 0 where
  pub is_congested : Bool
  pub qdelay_us : ℕ
  pub threads_guaranteed : ℕ
  pub threads_max : ℕ
  pub threads_active : ℕ
  pub waking : Bool

-- The state of the policy
pub record Simple : Type 0 where
  pub sds : ℕ → SimpleData
  pub cores : ℕ → ℕ
  pub hist : ℕ → ℕ → ℕ
  pub congested_procs : List ℕ
  pub idle_cores : ℕ → Bool

-- The cores that the I/O kernel gives away, in order and as a set, their siblings, and `cfg.noht`.
pub record CoreConfig : Type 0 where
  pub noht : Bool
  pub cores_tbl : List ℕ
  pub siblings : ℕ → ℕ
  pub is_allowed : ℕ → Bool

-- What the scheduler layer answers: how many kthreads of a process are parked, on which cores these
-- ran last, and what an attempt to run one on a core returns.
pub record Sched (W : Type 0) : Type 0 where
  pub threads_avail : W → ℕ → ℕ
  pub idle_threads : W → ℕ → List ℕ
  pub run_on_core : W → ℕ → ℕ → ℕ × W

unfoldable pub is_preemptible : SimpleData → SimpleData → Bool
is_preemptible cursd nextsd =
    ltb cursd.threads_guaranteed cursd.threads_active
    && ltb nextsd.threads_active nextsd.threads_guaranteed

abbrev pub with_sd : Simple → ℕ → SimpleData → Simple
with_sd s p sd = record s { sds = update s.sds p sd }

abbrev push_hist : (ℕ → ℕ) → ℕ → ℕ → ℕ
push_hist h sd i = if i == 0 then sd else if ltb i nhist then h (i - 1) else h i

-- `simple_cleanup_core`
unfoldable pub cleanup_core : Simple → ℕ → Simple
cleanup_core s core =
    let sd = s.cores core in
    let d = s.sds sd in
    if sd == 0 then s else record s {
      sds = update s.sds sd (record d { threads_active = d.threads_active - 1 });
      cores = update s.cores core 0;
      hist = update s.hist core (push_hist (s.hist core) sd);
    }

unfoldable pub mark_congested : Simple → ℕ → Simple
mark_congested s p =
    let d = s.sds p in
    if d.is_congested then s else record s {
      sds = update s.sds p (record d { is_congested = true });
      congested_procs = p ∷ s.congested_procs;
    }

abbrev pub remove : ℕ → List ℕ → List ℕ
remove p [] = []
remove p (q ∷ qs) = let rest = remove p qs in if q == p then rest else q ∷ rest

unfoldable pub unmark_congested : Simple → ℕ → Simple
unmark_congested s p =
    let d = s.sds p in
    if not d.is_congested then s else record s {
      sds = update s.sds p (record d { is_congested = false });
      congested_procs = remove p s.congested_procs;
    }

-- The policy at the start, all static data 0
abbrev pub start : Simple
start = record {
  sds = λ p. record {
    is_congested = false;
    qdelay_us = 0;
    threads_guaranteed = 0;
    threads_max = 0;
    threads_active = 0;
    waking = false;
  };
  cores = λ c. 0;
  hist = λ c i. 0;
  congested_procs = [];
  idle_cores = λ c. false;
}

-- `simple_init`
unfoldable pub simple_init : CoreConfig → Simple → Simple
simple_init g s = record s { idle_cores = λ c. s.idle_cores c || g.is_allowed c }

-- `simple_attach`, of the limits in the specification and what `malloc` returns
unfoldable pub attach : Simple → ℕ → ℕ → ℕ → Option ℕ → Option Simple
attach s guaranteed max_cores qdelay none = none
attach s guaranteed max_cores qdelay (some p) = some (
    with_sd s p (record {
      is_congested = false;
      qdelay_us = qdelay;
      threads_guaranteed = guaranteed;
      threads_max = max_cores;
      threads_active = 0;
      waking = false;
    }))

-- `simple_detach`
unfoldable pub detach : Simple → ℕ → Simple
unfolding unmark_congested
detach s p =
    let s' = unmark_congested s p in
    record s' {
      cores = λ c. if ltb c ncpu && s'.cores c == p then 0 else s'.cores c;
      hist = λ c i. if ltb c ncpu && ltb i nhist && s'.hist c i == p then 0 else s'.hist c i;
    }

-- What `simple_run_kthread_on_core` does once a kthread runs on the core
unfoldable pub own_core : Simple → ℕ → ℕ → Simple
unfolding cleanup_core
own_core s p core =
    let s' = cleanup_core s core in
    let d = s'.sds p in
    record s' {
      sds = update s'.sds p (record d { threads_active = d.threads_active + 1; waking = true });
      cores = update s'.cores core p;
      idle_cores = update s'.idle_cores core false;
    }

-- An error leaves the policy as it is.
abbrev pub ran : {W : Type 0} → Simple → ℕ → ℕ → ℕ × W → ℕ × Simple × W
ran s p core (ret, w) = (ret, (if ret == 0 then own_core s p core else s), w)

-- `simple_run_kthread_on_core`
unfoldable pub run_kthread_on_core : {W : Type 0} → Sched W → Simple → W → ℕ → ℕ → ℕ × Simple × W
unfolding own_core
run_kthread_on_core o s w p core =
    if o.threads_avail w p == 0 then (ebusy, s, w) else ran s p core (o.run_on_core w p core)
