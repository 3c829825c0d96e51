-- ===== src/Arp/Buckets.antt =====
-- The entries of one bucket of the ARP table, and how many of a table are not static
-- (runtime/net/arp.c).
use caladan.Common.{
  ℕ, zero, suc, ◌+◌, ◌≤◌, ◌<◌, ◌≡◌, ◌≢◌, ◌⊎◌, refl, sym, ap, ◌∙◌, subst, inl, inr, Bool, true,
  false, ◌==◌, if◌then◌else◌, List, [], ◌∷◌, Option, none, some, update, update_ne, arith,
  Bool-cases,
}
use mathlib.Core.Option.{some-injective}
use caladan.Arp.{ArpEntry, lookup_entry, put_entry, is_probing, is_fixed}

-- What holds of an entry of a bucket: it belongs there, and packets wait for it only while its
-- address is probed for the first time.
pub record Fits (hash : ℕ → ℕ) (i : ℕ) (e : ArpEntry) : Type 0 where
  pub place : hash e.ip ≡ i
  pub waits : (e.q ≡ []) ⊎ (is_probing e.state ≡ true)

-- A bucket of such entries, with no address twice
abbrev pub IsBucket : (ℕ → ℕ) → ℕ → List ArpEntry → Type 0
IsBucket hash i [] = Unit {0}
IsBucket hash i (e ∷ es) = Fits hash i e × (lookup_entry es e.ip ≡ none) × IsBucket hash i es

unfoldable pub dynamic : List ArpEntry → ℕ
dynamic [] = 0
dynamic (e ∷ es) = (if is_fixed e.state then 0 else 1) + dynamic es

-- The entries of the first `n` buckets that are not static
unfoldable pub total : ℕ → (ℕ → List ArpEntry) → ℕ
total zero tbl = 0
total (suc n) tbl = dynamic (tbl n) + total n tbl

total-update_out :
    (n : ℕ) (tbl : ℕ → List ArpEntry) (i : ℕ) (es : List ArpEntry)
    → n ≤ i
    → total n (update tbl i es) ≡ total n tbl
unfolding total
total-update_out zero tbl i es h = refl
total-update_out (suc n) tbl i es h =
    let apart : i ≢ n = omega (arith, h) in
    let e = ap dynamic (update_ne tbl es apart) in
    omega (arith, e, total-update_out n tbl i es (omega (arith, h)))

-- A bucket is written.
pub total-update :
    (n : ℕ) (tbl : ℕ → List ArpEntry) (i : ℕ) (es : List ArpEntry)
    → i < n
    → total n (update tbl i es) + dynamic (tbl i) ≡ total n tbl + dynamic es
unfolding total
total-update zero tbl i es h = absurd (omega (arith, h))
total-update (suc n) tbl i es h = elim (Bool-cases (i == n)) [
  | inl e ↦
      (let same : i ≡ n = ground (arith, e) in
        let out = total-update_out n tbl i es (omega (arith, same)) in
        let old = ap (λ (j : ℕ). dynamic (tbl j)) same in rw e (omega (arith, out, old)))
  | inr e ↦
      (let apart : i ≢ n = ground (arith, e) in
        rw e (omega (arith, total-update n tbl i es (omega (arith, h, apart)))))
]

some_not_none : {e : ArpEntry} {o : Option ArpEntry} → o ≡ some e → o ≡ none → ⊥
some_not_none h k = cc

-- The entry that is written is found; others are found as before.
pub lookup-put :
    (es : List ArpEntry) (e e' : ArpEntry)
    → lookup_entry es e'.ip ≡ some e
    → lookup_entry (put_entry es e') e'.ip ≡ some e'
unfolding lookup_entry put_entry
lookup-put [] e e' = λ h. absurd cc
lookup-put (x ∷ es) e e' = elim (Bool-cases (x.ip == e'.ip)) [
  | inl k ↦ (let self : e'.ip == e'.ip ≡ true = ground arith in rw (k, self) (λ h. refl))
  | inr k ↦ rw (k, k) (λ h. lookup-put es e e' h)
]

pub lookup-put_ne :
    (es : List ArpEntry) (e' : ArpEntry) (p : ℕ)
    → e'.ip ≢ p
    → lookup_entry (put_entry es e') p ≡ lookup_entry es p
unfolding lookup_entry put_entry
lookup-put_ne [] e' p n = refl
lookup-put_ne (x ∷ es) e' p n = elim (Bool-cases (x.ip == e'.ip)) [
  | inl k ↦
      (let a : e'.ip == p ≡ false = ground (arith, n) in
        let b : x.ip == p ≡ false = ground (arith, n, k) in rw (k, a, b) refl)
  | inr k ↦ rw (k, lookup-put_ne es e' p n) refl
]

pub IsBucket-put :
    (hash : ℕ → ℕ) (i : ℕ) (es : List ArpEntry) (e' : ArpEntry)
    → IsBucket hash i es
    → Fits hash i e'
    → IsBucket hash i (put_entry es e')
unfolding lookup_entry put_entry
IsBucket-put hash i [] e' v f = tt
IsBucket-put hash i (x ∷ es) e' v f = elim (Bool-cases (x.ip == e'.ip)) [
  | inl k ↦
      (let same : x.ip ≡ e'.ip = ground (arith, k) in
        rw k (f, subst (λ (p : ℕ). lookup_entry es p ≡ none) same v.1, v.2))
  | inr k ↦
      (let n : e'.ip ≢ x.ip = ground (arith, k) in
        rw k (v.0, lookup-put_ne es e' x.ip n ∙ v.1, IsBucket-put hash i es e' v.2 f))
]

-- An entry found is one of the bucket.
pub lookup-Fits :
    (hash : ℕ → ℕ) (i : ℕ) (es : List ArpEntry) (e : ArpEntry) (p : ℕ)
    → IsBucket hash i es
    → lookup_entry es p ≡ some e
    → Fits hash i e × (e.ip ≡ p)
unfolding lookup_entry
lookup-Fits hash i [] e p v = λ h. absurd cc
lookup-Fits hash i (x ∷ es) e p v = elim (Bool-cases (x.ip == p)) [
  | inl k ↦ rw k (λ h.
      (let same : x ≡ e = some-injective x e h in
        (
          subst (λ (y : ArpEntry). Fits hash i y) same v.0,
          ap (λ (y : ArpEntry). y.ip) (sym same) ∙ ground (arith, k),
        )))
  | inr k ↦ rw k (λ h. lookup-Fits hash i es e p v.2 h)
]

-- A write that leaves an entry static or not leaves their number.
pub dynamic-put :
    (es : List ArpEntry) (e e' : ArpEntry)
    → lookup_entry es e'.ip ≡ some e
    → is_fixed e.state ≡ is_fixed e'.state
    → dynamic (put_entry es e') ≡ dynamic es
unfolding lookup_entry put_entry dynamic
dynamic-put [] e e' = λ h k. refl
dynamic-put (x ∷ es) e e' = elim (Bool-cases (x.ip == e'.ip)) [
  | inl k ↦ rw k (λ h f.
      (let same : x ≡ e = some-injective x e h in
        ap (λ (b : Bool). (if b then 0 else 1) + dynamic es)
          (sym f ∙ ap (λ (y : ArpEntry). is_fixed y.state) (sym same))))
  | inr k ↦ rw k (λ h f. omega (arith, dynamic-put es e e' h f))
]
