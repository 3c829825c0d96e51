-- ===== src/Arp/Probe.antt =====
-- A probe that nobody answers ends, and the table stays valid as its entries grow old
-- (runtime/net/arp.c).
use caladan.Common.{
  ℕ, zero, suc, ◌+◌, ◌-◌, ◌≤◌, ◌<◌, ◌≡◌, refl, sym, ap, ◌∙◌, inl, inr, false, ◌==◌, List, [], ◌∷◌,
  ◌++◌, Option, none, some, arith, Bool-cases,
}
use caladan.Common.{ltb, ◌^◌, length}
use mathlib.Core.List.{append_assoc}
use caladan.Arp.{ArpState, probing, ArpEntry, ArpEffect, requests, fails, frees, arp_retry_time}
use caladan.Arp.Age.{elapsed, age_timeout, fail_all, retry, expire, arp_age_entry}

-- A sequence of looks at one entry, each with the time of the worker and of a request
abbrev pub age_times :
    Option ArpEntry × List ArpEffect → List (ℕ × ℕ) → Option ArpEntry × List ArpEffect
age_times (none, fx) ts = (none, fx)
age_times (some e, fx) [] = (some e, fx)
age_times (some e, fx) ((now, now') ∷ ts) =
    (let (o, fx') = arp_age_entry now now' e in age_times (o, fx ++ fx') ts)

-- Each look comes a second or more behind the request before it.
abbrev pub AllLate : ℕ → List (ℕ × ℕ) → Type 0
AllLate t [] = Unit {0}
AllLate t ((now, now') ∷ ts) = (t + arp_retry_time ≤ now) × (now < 2 ^ 64) × AllLate now' ts

abbrev pub all_requests : ℕ → ℕ → List ArpEffect
all_requests zero ip = []
all_requests (suc n) ip = requests ip ∷ all_requests n ip

-- For each packet of a queue in its order, its failure and then the end of its buffer
abbrev pub each_failed : List ℕ → List ArpEffect
each_failed [] = []
each_failed (m ∷ ms) = (fails m ∷ frees m ∷ []) ++ each_failed ms

fail_all-each : (q : List ℕ) → fail_all q ≡ each_failed q
fail_all-each [] = refl
fail_all-each (m ∷ ms) = ap (λ (fx : List ArpEffect). fails m ∷ frees m ∷ fx) (fail_all-each ms)

-- A look at an entry that is late
late_look :
    (e : ArpEntry) (now now' : ℕ)
    → e.state ≡ probing
    → e.ts + arp_retry_time ≤ now
    → now < 2 ^ 64
    → arp_age_entry now now' e ≡ retry e now'
unfolding arp_age_entry
late_look e now now' s l b =
    let limit = ap age_timeout s in
    let old : ltb (elapsed now e.ts) (age_timeout e.state) ≡ false = ground (arith, limit, l, b) in
    rw old (ap (λ (st : ArpState). expire st e now') s)

age_times-step :
    (e : ArpEntry) (fx : List ArpEffect) (now now' : ℕ) (ts : List (ℕ × ℕ)) (o : Option ArpEntry)
    (fx' : List ArpEffect)
    → arp_age_entry now now' e ≡ (o, fx')
    → age_times (some e, fx) ((now, now') ∷ ts) ≡ age_times (o, fx ++ fx') ts
age_times-step e fx now now' ts o fx' h =
    ap (λ (r : Option ArpEntry × List ArpEffect). age_times (r.0, fx ++ r.1) ts) h

ended : (ts : List (ℕ × ℕ)) (fx : List ArpEffect) → age_times (none, fx) ts ≡ (none, fx)
ended [] fx = refl
ended (x ∷ ts) fx = refl

-- An entry that is probed for the first time, looked at once more often than it has tries left, each
-- time at least a second behind the last request and below 2^64, is deleted: each try asks for the
-- address once more, and then every packet that waits fails and is freed, in order.
pub probe_ends :
    (e : ArpEntry) (fx : List ArpEffect) (ts : List (ℕ × ℕ))
    → e.state ≡ probing
    → length ts ≡ suc e.tries_left
    → AllLate e.ts ts
    → age_times (some e, fx) ts ≡ (none, fx ++ (all_requests e.tries_left e.ip ++ each_failed e.q))
probe_ends e fx [] s n l = absurd (omega (arith, n))
probe_ends e fx ((now, now') ∷ ts) s n l =
    let look = late_look e now now' s l.0 l.1 in
    elim (Bool-cases (e.tries_left == 0)) [
      | inl z ↦
          (let gone : arp_age_entry now now' e ≡ (none, fail_all e.q) = look ∙ rw z refl in
            let k : e.tries_left ≡ 0 = ground (arith, z) in
            age_times-step e fx now now' ts none (fail_all e.q) gone
            ∙ ended ts (fx ++ fail_all e.q)
            ∙ ap (λ (es : List ArpEffect). (none, fx ++ es)) (fail_all-each e.q)
            ∙ ap (λ (i : ℕ). (none, fx ++ (all_requests i e.ip ++ each_failed e.q))) (sym k))
      | inr z ↦
          (let e' = record e { tries_left = e.tries_left - 1; ts = now' } in
            let asked : arp_age_entry now now' e ≡ (some e', requests e.ip ∷ []) =
              look ∙ rw z refl in
            let k : e.tries_left ≡ suc (e.tries_left - 1) = ground (arith, z) in
            age_times-step e fx now now' ts (some e') (requests e.ip ∷ []) asked
            ∙ probe_ends e' (fx ++ requests e.ip ∷ []) ts s (omega (arith, n, k)) l.2
            ∙ ap (λ (q : List ArpEffect). (none, q))
                (append_assoc fx (requests e.ip ∷ [])
                  (all_requests (e.tries_left - 1) e.ip ++ each_failed e.q))
            ∙ ap (λ (i : ℕ). (none, fx ++ (all_requests i e.ip ++ each_failed e.q))) (sym k))
    ]
