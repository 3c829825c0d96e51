-- ===== src/Arp/Tests.antt =====
-- The ARP table with one address that is probed, for which two packets wait.
use caladan.Common.{
  ℕ, ◌%◌, ◌≡◌, refl, subst, inl, inr, true, false, ◌==◌, if◌then◌else◌, [], ◌∷◌, ◌++◌, none, some,
  arith, Bool-cases,
}
use caladan.Arp.{probing, ArpEntry, Arp, fails, frees, lookup_entry, arp_update, lookup_cold}
use caladan.Arp.Age.{arp_age_entry, expire, age_table}
use caladan.Arp.Buckets.{IsBucket, dynamic, total}
use caladan.Arp.Valid.{IsValid}
use caladan.Arp.Update.{Updates, arp_update_lem}
use caladan.Arp.Lookup.{Waits, lookup_cold_lem}
use caladan.Arp.Probe.{age_times, all_requests, probe_ends}
use caladan.Arp.Tick.{age_table-IsValid, young_expires}

abbrev hash : ℕ → ℕ
hash p = p % 1024

abbrev waiting : ArpEntry
waiting = record {
  state = probing;
  ip = 7;
  eth = 0;
  local = false;
  q = 50 ∷ 51 ∷ [];
  ts = 100;
  tries_left = 1;
}

abbrev one : Arp
one = record {
  tbl = λ i. if i == 7 then waiting ∷ [] else [];
  nr_dynamic_entries = 1;
  parked = false;
}

one-IsValid : IsValid hash one
unfolding lookup_entry total dynamic
one-IsValid = record {
  buckets = λ i. elim (Bool-cases (i == 7)) [
    | inl e ↦
        (let same : 7 ≡ i = ground (arith, e) in
          subst (λ (j : ℕ). IsBucket hash j (one.tbl j)) same
            (record { place = refl; waits = inr refl }, refl, tt))
    | inr e ↦ rw e tt
  ];
  counted = refl;
}

arp_update_lem_example :
    IsValid hash (arp_update one 7 7 99 false true 0 200).0
    × Updates one 7 7 99 false true 0 200
        (lookup_entry (one.tbl 7) 7)
        (arp_update one 7 7 99 false true 0 200)
arp_update_lem_example = arp_update_lem hash one 7 99 false true 0 200 one-IsValid (omega arith)

lookup_cold_lem_example :
    IsValid hash (lookup_cold one 7 7 (some 52) none).0
    × Waits one 7 7 52 (lookup_entry (one.tbl 7) 7) none (lookup_cold one 7 7 (some 52) none)
lookup_cold_lem_example = lookup_cold_lem hash one 7 52 none one-IsValid (omega arith) tt

probe_ends_example :
    age_times (some waiting, []) ((1000100, 1000200) ∷ (2000300, 2000400) ∷ [])
    ≡ (none, [] ++ (all_requests 1 7 ++ (fails 50 ∷ frees 50 ∷ fails 51 ∷ frees 51 ∷ [])))
probe_ends_example =
    probe_ends waiting [] ((1000100, 1000200) ∷ (2000300, 2000400) ∷ []) refl refl
      (omega arith, omega arith, (omega arith, omega arith, tt))

age_table-IsValid_example : IsValid hash (age_table one 1000100 (λ p. 1000200) 7).0
age_table-IsValid_example =
    age_table-IsValid hash one 1000100 (λ p. 1000200) 7 one-IsValid (omega arith)

young_expires_example : arp_age_entry 99 101 waiting ≡ expire probing waiting 101
young_expires_example = young_expires waiting 99 101 (omega arith) (omega arith)
