-- ===== src/MbufQ/Tests.antt =====
-- Queues of packets on three mbufs.
use caladan.Common.{ℕ, ◌≡◌, refl, [], ◌∷◌, update, some, arith}
use caladan.MbufQ.{Store, null, MbufQ, release}
use caladan.MbufQ.Refine.{Holds, release_refines}

-- 100 links to 200, and 300 to nothing.
abbrev links : Store
links = update (λ p. null) 100 200

abbrev pair : MbufQ
pair = record { head = 100; tail = 200 }

abbrev single : MbufQ
single = record { head = 300; tail = 300 }

pair-Holds : Holds links pair (100 ∷ 200 ∷ [])
pair-Holds = record {
  chained = (refl, (λ e. omega arith), (refl, (λ e. omega arith), refl));
  last = refl;
  distinct = (((λ e. omega arith), tt), (tt, tt));
}

single-Holds : Holds links single (300 ∷ [])
single-Holds = record {
  chained = (refl, (λ e. omega arith), refl);
  last = refl;
  distinct = (tt, tt);
}

-- A release that overwrites the link of the mbuf.
abbrev poison : Store → ℕ → Store
poison next m = update next m 171

release_refines_example :
    (next : Store) × (q : MbufQ) × (release poison 3 links pair ≡ some (next, q, 100 ∷ 200 ∷ []))
    × Holds next q []
release_refines_example =
    release_refines poison (λ next m p h. ground arith) links pair (100 ∷ 200 ∷ []) pair-Holds
