-- ===== src/Arp/Valid.antt =====
-- What holds of the ARP table between two events (runtime/net/arp.c)
use caladan.Common.{
  ℕ, ◌+◌, ◌<◌, ◌≡◌, ◌⊎◌, refl, subst, inl, inr, ◌&&◌, ◌==◌, List, [], ◌∷◌, none, some, update,
  arith, Bool-cases,
}
use caladan.Common.{update-elim}
use caladan.Arp.{
  arp_table_capacity, ArpEntry, Arp, ArpEffect, wakes, lookup_entry, put_entry, is_fixed,
  with_bucket, insert_entry,
}
use caladan.Arp.Buckets.{Fits, IsBucket, dynamic, total, total-update, IsBucket-put, dynamic-put}

-- Every bucket is in order, and the entries that are not static are counted.
pub record IsValid (hash : ℕ → ℕ) (a : Arp) : Type 0 where
  pub buckets : (i : ℕ) → IsBucket hash i (a.tbl i)
  pub counted : a.nr_dynamic_entries ≡ total arp_table_capacity a.tbl

-- An entry is written in its bucket.
pub put-IsValid :
    (hash : ℕ → ℕ) (a : Arp) (i : ℕ) (e e' : ArpEntry)
    → IsValid hash a
    → i < arp_table_capacity
    → lookup_entry (a.tbl i) e'.ip ≡ some e
    → is_fixed e.state ≡ is_fixed e'.state
    → Fits hash i e'
    → IsValid hash (with_bucket a i (put_entry (a.tbl i) e'))
put-IsValid hash a i e e' v h l s f = record {
  buckets = λ j.
      update-elim (IsBucket hash j) a.tbl i j
        (λ k.
          subst (λ (x : ℕ). IsBucket hash x (put_entry (a.tbl i) e')) k
            (IsBucket-put hash i (a.tbl i) e' (v.buckets i) f))
        (λ k. v.buckets j);
  counted = omega (
    arith,
    v.counted,
    total-update arp_table_capacity a.tbl i (put_entry (a.tbl i) e') h,
    dynamic-put (a.tbl i) e e' l s,
  );
}

-- What inserting an entry does
pub record Inserted (hash : ℕ → ℕ) (a : Arp) (i : ℕ) (e : ArpEntry) (r : Arp × List ArpEffect)
    : Type 0 where
  pub valid : IsValid hash r.0
  pub bucket : r.0.tbl ≡ update a.tbl i (e ∷ a.tbl i)
  pub effects : (r.1 ≡ []) ⊎ (r.1 ≡ wakes ∷ [])

pub insert_entry-Inserted :
    (hash : ℕ → ℕ) (a : Arp) (i : ℕ) (e : ArpEntry)
    → IsValid hash a
    → i < arp_table_capacity
    → lookup_entry (a.tbl i) e.ip ≡ none
    → Fits hash i e
    → Inserted hash a i e (insert_entry a e i)
unfolding insert_entry dynamic
insert_entry-Inserted hash a i e v h l f =
    let b : (j : ℕ) → IsBucket hash j (update a.tbl i (e ∷ a.tbl i) j) = λ j.
      update-elim (IsBucket hash j) a.tbl i j
        (λ k. subst (λ (x : ℕ). IsBucket hash x (e ∷ a.tbl i)) k (f, l, v.buckets i))
        (λ k. v.buckets j) in
    let t = total-update arp_table_capacity a.tbl i (e ∷ a.tbl i) h in
    elim (Bool-cases (is_fixed e.state)) [
      | inl s ↦ rw s (record {
        valid = record { buckets = b; counted = ground (arith, s, t, v.counted) };
        bucket = refl;
        effects = inl refl;
      })
      | inr s ↦ elim (Bool-cases ((a.nr_dynamic_entries + 1 == 1) && a.parked)) [
        | inl w ↦
            rw (s, w)
              (record {
                valid = record { buckets = b; counted = ground (arith, s, t, v.counted) };
                bucket = refl;
                effects = inr refl;
              })
        | inr w ↦
            rw (s, w)
              (record {
                valid = record { buckets = b; counted = ground (arith, s, t, v.counted) };
                bucket = refl;
                effects = inl refl;
              })
      ]
    ]
