-- ===== src/Arp/Tick.antt =====
-- The worker leaves the table valid, and takes entries that are newer than its time for old ones
-- (`arp_worker` of runtime/net/arp.c).
use caladan.Common.{
  ℕ, ◌+◌, ◌≤◌, ◌<◌, ◌≡◌, refl, sym, ap, ◌∙◌, subst, inl, inr, false, ◌==◌, List, [], ◌∷◌, Option,
  none, some, arith, Bool-cases,
}
use caladan.Common.{update-elim, ltb, ◌^◌}
use caladan.Arp.{
  arp_table_capacity, ArpState, probing, resolved, reprobing, fixed, ArpEntry, Arp, ArpEffect,
  lookup_entry, is_probing, is_fixed,
}
use caladan.Arp.Age.{
  elapsed, age_timeout, retry, expire, arp_age_entry, Aged, age_onto, age_bucket, age_table,
}
use caladan.Arp.Buckets.{Fits, IsBucket, dynamic, total-update}
use caladan.Arp.Valid.{IsValid}
use caladan.Arp.{arp_reprobe_time}

-- What a look at an entry leaves of it
abbrev Steps : (ℕ → ℕ) → ℕ → ArpEntry → Option ArpEntry × List ArpEffect → Type 0
Steps hash i e (none, fx) = is_fixed e.state ≡ false
Steps hash i e (some e', fx) =
    (e'.ip ≡ e.ip) × Fits hash i e' × (is_fixed e'.state ≡ is_fixed e.state)

retry-Steps :
    (hash : ℕ → ℕ) (i : ℕ) (e : ArpEntry) (now' : ℕ)
    → Fits hash i e
    → is_fixed e.state ≡ false
    → Steps hash i e (retry e now')
retry-Steps hash i e now' f s = elim (Bool-cases (e.tries_left == 0)) [
  | inl z ↦ rw z s
  | inr z ↦ rw z (refl, record { place = f.place; waits = f.waits }, refl)
]

expire-Steps :
    (hash : ℕ → ℕ) (i : ℕ) (e : ArpEntry) (now' : ℕ) (st : ArpState)
    → Fits hash i e
    → e.state ≡ st
    → Steps hash i e (expire st e now')
expire-Steps hash i e now' probing f s = retry-Steps hash i e now' f (ap is_fixed s)
expire-Steps hash i e now' reprobing f s = retry-Steps hash i e now' f (ap is_fixed s)
expire-Steps hash i e now' resolved f s = (
  refl,
  record {
    place = f.place;
    waits = elim f.waits [ inl q ↦ inl q | inr p ↦ (let no = ap is_probing s in absurd cc) ];
  },
  sym (ap is_fixed s),
)
expire-Steps hash i e now' fixed f s = (refl, f, refl)

arp_age_entry-Steps :
    (hash : ℕ → ℕ) (i : ℕ) (e : ArpEntry) (now now' : ℕ)
    → Fits hash i e
    → Steps hash i e (arp_age_entry now now' e)
unfolding arp_age_entry
arp_age_entry-Steps hash i e now now' f =
    elim (Bool-cases (ltb (elapsed now e.ts) (age_timeout e.state))) [
      | inl young ↦ rw young (refl, f, refl)
      | inr old ↦ rw old (expire-Steps hash i e now' e.state f refl)
    ]

-- What a look at a bucket leaves of it
record Ages (hash : ℕ → ℕ) (i : ℕ) (es : List ArpEntry) (r : Aged) : Type 0 where
  bucket : IsBucket hash i r.entries
  number : dynamic r.entries + r.deleted ≡ dynamic es
  absent : (p : ℕ) → lookup_entry es p ≡ none → lookup_entry r.entries p ≡ none

age_onto-Ages :
    (hash : ℕ → ℕ) (i : ℕ) (e : ArpEntry) (es : List ArpEntry) (r : Aged)
    (o : Option ArpEntry × List ArpEffect)
    → lookup_entry es e.ip ≡ none
    → Steps hash i e o
    → Ages hash i es r
    → Ages hash i (e ∷ es) (age_onto o r)
unfolding lookup_entry dynamic
age_onto-Ages hash i e es r (none, fx) l s a = record {
  bucket = a.bucket;
  number = ground (arith, s, a.number);
  absent = λ p. elim (Bool-cases (e.ip == p)) [
    | inl k ↦ rw k (λ h. absurd cc)
    | inr k ↦ rw k (λ h. a.absent p h)
  ];
}
age_onto-Ages hash i e es r (some e', fx) l s a = record {
  bucket = (s.1, a.absent e'.ip (ap (λ (p : ℕ). lookup_entry es p) s.0 ∙ l), a.bucket);
  number = (let k = s.2 in ground (arith, k, a.number));
  absent = λ p. elim (Bool-cases (e.ip == p)) [
    | inl k ↦ rw k (λ h. absurd cc)
    | inr k ↦
        (let k' : e'.ip == p ≡ false = ap (λ (x : ℕ). x == p) s.0 ∙ k in
          rw (k, k') (λ h. a.absent p h))
  ];
}

age_bucket-Ages :
    (hash : ℕ → ℕ) (i now : ℕ) (clock : ℕ → ℕ) (es : List ArpEntry)
    → IsBucket hash i es
    → Ages hash i es (age_bucket now clock es)
unfolding age_bucket dynamic
age_bucket-Ages hash i now clock [] v = record { bucket = tt; number = refl; absent = λ p h. h }
age_bucket-Ages hash i now clock (e ∷ es) v =
    age_onto-Ages hash i e es (age_bucket now clock es) (arp_age_entry now (clock e.ip) e) v.1
      (arp_age_entry-Steps hash i e now (clock e.ip) v.0) (age_bucket-Ages hash i now clock es v.2)

-- A turn of `arp_worker` leaves a valid table valid: the entries that are left are in their bucket, no
-- address is there twice, packets wait only for addresses that are probed for the first time, and the
-- entries that are not static are counted.
pub age_table-IsValid :
    (hash : ℕ → ℕ) (a : Arp) (now : ℕ) (clock : ℕ → ℕ) (i : ℕ)
    → IsValid hash a
    → i < arp_table_capacity
    → IsValid hash (age_table a now clock i).0
unfolding age_table
age_table-IsValid hash a now clock i v h =
    let g = age_bucket-Ages hash i now clock (a.tbl i) (v.buckets i) in
    let r = age_bucket now clock (a.tbl i) in
    record {
      buckets = λ j.
          update-elim (IsBucket hash j) a.tbl i j
            (λ k. subst (λ (x : ℕ). IsBucket hash x r.entries) k g.bucket) (λ k. v.buckets j);
      counted =
          omega (arith, v.counted, g.number, total-update arp_table_capacity a.tbl i r.entries h);
    }

-- An entry written after the worker read its time, at a time that is more than the time of a reprobe
-- below 2^64, counts as timed out: the difference of the times wraps around.
pub young_expires :
    (e : ArpEntry) (now now' : ℕ)
    → now < e.ts
    → e.ts + arp_reprobe_time < 2 ^ 64
    → arp_age_entry now now' e ≡ expire e.state e now'
unfolding arp_age_entry
young_expires e now now' l b =
    let most : age_timeout e.state ≤ arp_reprobe_time = age_timeout_le e.state in
    let old : ltb (elapsed now e.ts) (age_timeout e.state) ≡ false = ground (arith, most, l, b) in
    rw old refl
  where
    age_timeout_le : (st : ArpState) → age_timeout st ≤ arp_reprobe_time
    age_timeout_le probing = omega arith
    age_timeout_le resolved = omega arith
    age_timeout_le reprobing = omega arith
    age_timeout_le fixed = omega arith
