-- ===== src/Tcache/Alloc.antt =====
-- The bag of items under allocations (inc/base/tcache.h, base/tcache.c).
use caladan.Common.{
  ℕ, ◌+◌, ◌-◌, ◌%◌, ◌^◌, ◌<◌, ◌≡◌, refl, sym, ap, ◌∙◌, subst, ◌⊎◌, inl, inr, List, [], ◌∷◌, ◌==◌,
  Option, none, some, arith, length, Bool-cases, times,
}
use mathlib.Core.List.{cons-ne-nil}
use mathlib.Core.Option.{none-ne-some}
use caladan.Tcache.{
  TcacheOps, Laws, State, reload, new_mag, shared_alloc, slow_alloc, tcache_alloc, rest, first,
}
use caladan.Tcache.Bag.{AllFull, times_mags, IsValid, total, mag_full, nil_of_length}

module _ {P : Type 0} (ops : TcacheOps P) (laws : Laws P ops) where
  -- What an allocation leaves: valid, with one item less.
  abbrev pub Removed : State P → State P × Option ℕ → Type 0
  Removed s r =
      (x : ℕ) × (r.1 ≡ some x)
      × IsValid ops laws r.0
      × ((a : ℕ) → total ops laws a s ≡ times a (x ∷ []) + total ops laws a r.0)

  -- A full magazine that was taken out of `s` is loaded into an empty handle.
  reload_lem :
      (s s' : State P) (mag : List ℕ)
      → IsValid ops laws s'
      → s'.ltc.loaded ≡ []
      → length mag ≡ s'.tc.mag_size
      → ((a : ℕ) → total ops laws a s ≡ times a mag + total ops laws a s')
      → Removed s (reload ops s' mag)
  unfolding reload
  reload_lem s s' [] v e full t = absurd (omega (arith, v.positive, full))
  reload_lem s s' (x ∷ xs) v e full t = (
    x,
    refl,
    record {
      sized = v.sized;
      positive = v.positive;
      counted = omega (arith, full, v.sized);
      bounded = omega arith;
      previous_full = v.previous_full;
      shared_full = v.shared_full;
      sound = v.sound;
    },
    λ a. omega (arith, t a, ap (times a) e),
  )

  -- The call has nothing to give: handle and shared magazines are empty, and the backing fails.
  pub record Exhausted (s : State P) : Type 0 where
    pub no_rounds : s.ltc.rounds ≡ 0
    pub no_previous : s.ltc.previous ≡ []
    pub no_shared : s.tc.shared_mags ≡ []
    pub no_backing : (ops.alloc s.pool s.tc.mag_size).1 ≡ none

  abbrev pub Allocated : State P → State P × Option ℕ → Type 0
  Allocated s r = (Exhausted s × (r ≡ (s, none))) ⊎ (¬ Exhausted s × Removed s r)

  new_mag_lem :
      (s : State P)
      → IsValid ops laws s
      → s.ltc.loaded ≡ []
      → s.ltc.previous ≡ []
      → s.tc.shared_mags ≡ []
      → Allocated s (new_mag ops s (ops.alloc s.pool s.tc.mag_size))
  unfolding new_mag
  new_mag_lem s v e e' e'' = go (ops.alloc s.pool s.tc.mag_size) refl
    where
      go :
          (r : P × Option (List ℕ))
          → ops.alloc s.pool s.tc.mag_size ≡ r
          → Allocated s (new_mag ops s r)
      go (p', none) h =
          let same = laws.alloc_none s.pool s.tc.mag_size v.sound (ap (λ r. r.1) h) in
          let same' : p' ≡ s.pool = ap (λ r. r.0) (sym h) ∙ same in
          inl (
            record {
              no_rounds = omega (arith, sym v.counted, ap length e);
              no_previous = e';
              no_shared = e'';
              no_backing = ap (λ r. r.1) h;
            },
            ap (λ (p : P). (record s { pool = p }, none)) same',
          )
      go (p', some items) h =
          let l = laws.alloc_some s.pool s.tc.mag_size items v.sound (ap (λ r. r.1) h) in
          let l' : laws.IsSound p'
              × ((a : ℕ) → times a (laws.stock s.pool) ≡ times a items + times a (laws.stock p')) =
            subst
              (λ (r : P × Option (List ℕ)).
                laws.IsSound r.0
                × ((a : ℕ)
                    → times a (laws.stock s.pool) ≡ times a items + times a (laws.stock r.0)))
              h (l.0, l.3) in
          inr (
            (λ x. none-ne-some items (sym x.no_backing ∙ ap (λ r. r.1) h)),
            reload_lem s
                (record s {
                  tc = record s.tc { mags_allocated = (s.tc.mags_allocated + 1) % 2 ^ 64 };
                  pool = p';
                })
                items
                (record {
                  sized = v.sized;
                  positive = v.positive;
                  counted = v.counted;
                  bounded = v.bounded;
                  previous_full = v.previous_full;
                  shared_full = v.shared_full;
                  sound = l'.0;
                })
                e l.1 (λ a. omega (arith, l'.1 a)),
          )

  shared_alloc_lem :
      (s : State P) (mags : List (List ℕ))
      → s.tc.shared_mags ≡ mags
      → IsValid ops laws s
      → s.ltc.loaded ≡ []
      → s.ltc.previous ≡ []
      → Allocated s (shared_alloc ops s mags)
  unfolding shared_alloc
  shared_alloc_lem s [] h v e e' = new_mag_lem s v e e' h
  shared_alloc_lem s (mag ∷ mags) h v e e' =
      let full : AllFull s.tc.mag_size (mag ∷ mags) =
        subst (AllFull s.tc.mag_size) h v.shared_full in
      inr (
        (λ x. cons-ne-nil mag mags (sym h ∙ x.no_shared)),
        reload_lem s (record s { tc = record s.tc { shared_mags = mags } }) mag
            (record {
              sized = v.sized;
              positive = v.positive;
              counted = v.counted;
              bounded = v.bounded;
              previous_full = v.previous_full;
              shared_full = full.1;
              sound = v.sound;
            })
            e full.0 (λ a. omega (arith, ap (times_mags a) h)),
      )

  slow_alloc_lem :
      (s : State P) (prev : List ℕ)
      → s.ltc.previous ≡ prev
      → IsValid ops laws s
      → s.ltc.loaded ≡ []
      → Allocated s (slow_alloc ops s prev)
  unfolding slow_alloc
  slow_alloc_lem s [] h v e = shared_alloc_lem s s.tc.shared_mags refl v e h
  slow_alloc_lem s (x ∷ xs) h v e = inr (
    (λ w. cons-ne-nil x xs (sym h ∙ w.no_previous)),
    reload_lem s (record s { ltc = record s.ltc { previous = [] } }) (x ∷ xs)
        (record {
          sized = v.sized;
          positive = v.positive;
          counted = v.counted;
          bounded = v.bounded;
          previous_full = inl refl;
          shared_full = v.shared_full;
          sound = v.sound;
        })
        e (mag_full ops laws s x xs v h) (λ a. omega (arith, ap (times a) h)),
  )

  fast_alloc_lem :
      (s : State P) (loaded : List ℕ)
      → s.ltc.loaded ≡ loaded
      → IsValid ops laws s
      → 0 < s.ltc.rounds
      → Removed s (
        record s { ltc = record s.ltc { rounds = s.ltc.rounds - 1; loaded = rest loaded } },
        some (first loaded),
      )
  fast_alloc_lem s [] e v h = absurd (omega (arith, v.counted, h, ap length e))
  fast_alloc_lem s (x ∷ xs) e v h = (
    x,
    refl,
    record {
      sized = v.sized;
      positive = v.positive;
      counted = omega (arith, v.counted, ap length e);
      bounded = omega (arith, v.bounded);
      previous_full = v.previous_full;
      shared_full = v.shared_full;
      sound = v.sound;
    },
    λ a. omega (arith, ap (times a) e),
  )

  -- `tcache_alloc` on a valid cache returns NULL exactly if handle and shared magazines are empty and
  -- the backing fails, and then changes nothing; else the cache stays valid, the item returned is
  -- taken out of cache and backing once, and no other item is lost or gained by them together.
  pub tcache_alloc_lem : (s : State P) → IsValid ops laws s → Allocated s (tcache_alloc ops s)
  unfolding tcache_alloc
  tcache_alloc_lem s v = elim (Bool-cases (s.ltc.rounds == 0)) [
    | inl spent ↦ rw spent (
        slow_alloc_lem s s.ltc.previous refl v
          (nil_of_length s.ltc.loaded (ground (arith, v.counted))))
    | inr left ↦ rw left (
        inr
          ((λ w. ground (arith, w.no_rounds)), fast_alloc_lem s s.ltc.loaded refl v (ground arith)))
  ]
