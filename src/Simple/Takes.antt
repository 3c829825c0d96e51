-- ===== src/Simple/Takes.antt =====
-- A core that is found for a process may be taken (iokernel/simple.c).
use caladan.Common.{
  ℕ, zero, suc, ◌+◌, ◌≤◌, ◌<◌, ◌≡◌, ◌≢◌, inl, inr, Bool, true, false, not, ◌&&◌, ◌==◌, leb,
  if◌then◌else◌, List, [], ◌∷◌, Option, none, some, arith, Bool-cases,
}
use caladan.Simple.{ncpu, Simple, CoreConfig, is_preemptible}
use caladan.Simple.Choose.{
  can_take, match_sibling, previous_core, find_idle, find_preemptible, or_else, choose_core,
}

abbrev AllBelow : List ℕ → Type 0
AllBelow [] = Unit {0}
AllBelow (c ∷ cs) = (c < ncpu) × AllBelow cs

-- The cores of the configuration are cores.
pub record IsConfig (g : CoreConfig) : Type 0 where
  pub siblings : (c : ℕ) → g.siblings c < ncpu
  pub table : AllBelow g.cores_tbl

-- A core that is found may be taken.
abbrev pub Takes : Simple → ℕ → Option ℕ → Type 0
Takes s p none = Unit {0}
Takes s p (some c) = (can_take s p c ≡ true) × (c < ncpu)

or_else-Takes :
    (s : Simple) (p : ℕ) (a b : Option ℕ) → Takes s p a → Takes s p b → Takes s p (or_else a b)
or_else-Takes s p none b h k = k
or_else-Takes s p (some c) b h k = h

unless-Takes :
    (s : Simple) (p : ℕ) (b : Bool) (o : Option ℕ) → Takes s p o → Takes s p (if b then none else o)
unless-Takes s p true o h = tt
unless-Takes s p false o h = h

module _ (g : CoreConfig) (s : Simple) (p : ℕ) (k : IsConfig g) where
  match_sibling-Takes : (cs : List ℕ) → Takes s p (match_sibling g s p cs)
  unfolding match_sibling
  match_sibling-Takes [] = tt
  match_sibling-Takes (core ∷ cs) =
      let rest = match_sibling-Takes cs in
      elim (Bool-cases (s.cores core == p)) [
        | inr e ↦ rw e rest
        | inl e ↦ elim (Bool-cases (can_take s p (g.siblings core))) [
          | inr f ↦ rw (e, f) rest
          | inl f ↦ elim (Bool-cases (g.is_allowed (g.siblings core))) [
            | inr a ↦ rw (e, f, a) rest
            | inl a ↦ rw (e, f, a) (f, k.siblings core)
          ]
        ]
      ]

  previous_core-Takes : (cs : List ℕ) → Takes s p (previous_core g s p cs)
  unfolding previous_core
  previous_core-Takes [] = tt
  previous_core-Takes (core ∷ cs) =
      let rest = previous_core-Takes cs in
      elim (Bool-cases (leb ncpu core)) [
        | inl e ↦ rw e tt
        | inr e ↦ elim (Bool-cases (can_take s p core)) [
          | inl f ↦ rw (e, f) (f, ground (arith, e))
          | inr f ↦ elim (Bool-cases g.noht) [
            | inl n ↦ rw (e, f, n) rest
            | inr n ↦
                elim (Bool-cases
                  (can_take s p (g.siblings core) && g.is_allowed (g.siblings core))) [
                    | inl a ↦ rw (e, f, n, a) (ground (arith, a), k.siblings core)
                    | inr a ↦ rw (e, f, n, a) rest
                  ]
          ]
        ]
      ]

  find_preemptible-Takes : (cs : List ℕ) → AllBelow cs → Takes s p (find_preemptible s p cs)
  unfolding find_preemptible
  find_preemptible-Takes [] h = tt
  find_preemptible-Takes (core ∷ cs) h =
      let rest = find_preemptible-Takes cs h.1 in
      elim (Bool-cases (s.cores core == p)) [
        | inl e ↦ rw e rest
        | inr e ↦
            elim (Bool-cases
              (not (s.cores core == 0) && is_preemptible (s.sds (s.cores core)) (s.sds p))) [
                | inl f ↦ rw (e, f) (ground (arith, e, f), h.0)
                | inr f ↦ rw (e, f) rest
              ]
      ]

  find_idle-Takes :
      (c n : ℕ)
      → c + n ≤ ncpu
      → p ≢ 0
      → ((d : ℕ) → s.idle_cores d ≡ true → s.cores d ≡ 0)
      → Takes s p (find_idle s c n)
  unfolding find_idle
  find_idle-Takes c zero h z v = tt
  find_idle-Takes c (suc n) h z v =
      let rest = find_idle-Takes (c + 1) n (omega (arith, h)) z v in
      elim (Bool-cases (s.idle_cores c)) [
        | inl e ↦ (let free = v c e in rw e (ground (arith, free, z), omega (arith, h)))
        | inr e ↦ rw e rest
      ]

  pub choose_core-Takes :
      (last : List ℕ)
      → p ≢ 0
      → ((d : ℕ) → s.idle_cores d ≡ true → s.cores d ≡ 0)
      → Takes s p (choose_core g s p last)
  unfolding choose_core
  choose_core-Takes last z v =
      or_else-Takes s p (if g.noht then none else match_sibling g s p g.cores_tbl) _
        (unless-Takes s p g.noht _ (match_sibling-Takes g.cores_tbl))
        (or_else-Takes s p (previous_core g s p last) _ (previous_core-Takes last) (
          or_else-Takes s p (find_idle s 0 ncpu) _ (find_idle-Takes 0 ncpu (omega arith) z v)
            (find_preemptible-Takes g.cores_tbl k.table)))
