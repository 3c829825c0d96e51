-- ===== src/Simple/Attach.antt =====
-- Processes come and go (`simple_attach` and `simple_detach` of iokernel/simple.c).
use caladan.Common.{
  ℕ, ◌<◌, ◌≡◌, ◌≢◌, ◌⊎◌, refl, sym, ap, ◌∙◌, inl, inr, Bool, true, false, ◌&&◌, ◌==◌, ltb,
  if◌then◌else◌, some, update, update-elim, arith, Bool-cases,
}
use caladan.Simple.{
  CoreConfig, start, simple_init, ncpu, nhist, SimpleData, Simple, unmark_congested, attach, detach,
}
use caladan.Simple.Counts.{count, count_without, count_none, elem}
use caladan.Simple.Valid.{IsRef, IsValid, unmark_congested-IsValid, unmark_congested-elem}

IsRef-more : (alive : ℕ → Bool) (p r : ℕ) → IsRef alive r → IsRef (update alive p true) r
IsRef-more alive p r (inl e) = inl e
IsRef-more alive p r (inr a) =
    inr (update-elim (λ (b : Bool). b ≡ true) alive p r (λ k. refl) (λ k. a))

-- The policy is valid at its start, without a process.
pub simple_init-IsValid : (g : CoreConfig) → IsValid (λ p. false) (simple_init g start)
unfolding simple_init
simple_init-IsValid g = record {
  nonnull = refl;
  counted = λ p a. cc;
  owned = λ c h. inl refl;
  past = λ c i h m. inl refl;
  listed = λ p a. cc;
  members = λ p e. e;
  idle = λ c e. refl;
}

-- A process that is attached afterwards is the new one or another.
attached :
    (alive : ℕ → Bool) (p q : ℕ)
    → update alive p true q ≡ true
    → (p ≡ q) ⊎ ((p ≢ q) × (alive q ≡ true))
attached alive p q = elim (Bool-cases (p == q)) [
  | inl e ↦ rw e (λ b. inl (ground (arith, e)))
  | inr e ↦ rw e (λ b. inr (ground (arith, e), b))
]

-- A process that is attached still is not the one that has gone.
remains : (alive : ℕ → Bool) (p q : ℕ) → update alive p false q ≡ true → (p ≢ q) × (alive q ≡ true)
remains alive p q = elim (Bool-cases (p == q)) [
  | inl e ↦ rw e (λ b. cc)
  | inr e ↦ rw e (λ b. (ground (arith, e), b))
]

not_ref : (alive : ℕ → Bool) (p r : ℕ) → alive p ≡ false → p ≢ 0 → IsRef alive r → r ≢ p
not_ref alive p r new n (inl e) k = n (sym k ∙ e)
not_ref alive p r new n (inr a) k = (let m = ap alive k in cc)

-- A process attached under an address that is not NULL and not in use leaves the policy valid.
pub attach-IsValid :
    (alive : ℕ → Bool) (s : Simple) (p guaranteed max_cores qdelay : ℕ)
    → IsValid alive s
    → alive p ≡ false
    → p ≢ 0
    → (s' : Simple) × (attach s guaranteed max_cores qdelay (some p) ≡ some s')
      × IsValid (update alive p true) s'
unfolding attach
attach-IsValid alive s p guaranteed max_cores qdelay v new n =
    let absent : (c : ℕ) → c < ncpu → s.cores c ≢ p =
      λ c l. not_ref alive p (s.cores c) new n (v.owned c l) in
    let unlisted : elem p s.congested_procs ≡ false = elim (Bool-cases (elem p s.congested_procs)) [
      | inl e ↦ (let m = v.members p e in cc)
      | inr e ↦ e
    ] in
    (
      _,
      refl,
      record {
        nonnull =
            update-elim (λ (b : Bool). b ≡ false) alive p 0 (λ k. absurd (n k)) (λ k. v.nonnull);
        counted = λ q b.
            update-elim (λ (d : SimpleData). d.threads_active ≡ count ncpu s.cores q) s.sds p q
              (λ k. sym (count_none ncpu s.cores q (λ c l e. absent c l (e ∙ sym k))))
              (λ k. elim (attached alive p q b) [ inl e ↦ absurd (k e) | inr a ↦ v.counted q a.1 ]);
        owned = λ c l. IsRef-more alive p (s.cores c) (v.owned c l);
        past = λ c i l m. IsRef-more alive p (s.hist c i) (v.past c i l m);
        listed = λ q b.
            update-elim (λ (d : SimpleData). d.is_congested ≡ elem q s.congested_procs) s.sds p q
              (λ k. sym (ap (λ (r : ℕ). elem r s.congested_procs) (sym k) ∙ unlisted))
              (λ k. elim (attached alive p q b) [ inl e ↦ absurd (k e) | inr a ↦ v.listed q a.1 ]);
        members =
            λ q b. update-elim (λ (b : Bool). b ≡ true) alive p q (λ k. refl) (λ k. v.members q b);
        idle = v.idle;
      },
    )

-- A reference that is not to the process that has gone
IsRef-less : (alive : ℕ → Bool) (p r : ℕ) → r ≢ p → IsRef alive r → IsRef (update alive p false) r
IsRef-less alive p r n (inl e) = inl e
IsRef-less alive p r n (inr a) =
    inr (update-elim (λ (b : Bool). b ≡ true) alive p r (λ k. absurd (n (sym k))) (λ k. a))

-- A reference that is cleared if it is to the process
IsRef-clear :
    (alive : ℕ → Bool) (p r : ℕ) (within : Bool)
    → within ≡ true
    → IsRef alive r
    → IsRef (update alive p false) (if within && r == p then 0 else r)
IsRef-clear alive p r within h v = elim (Bool-cases (r == p)) [
  | inl e ↦ rw (h, e) (inl refl)
  | inr e ↦ rw (h, e) (IsRef-less alive p r (ground (arith, e)) v)
]

-- A process that is detached leaves the policy valid for the others: no core, no history and no list
-- refers to it any more.
pub detach-IsValid :
    (alive : ℕ → Bool) (s : Simple) (p : ℕ)
    → IsValid alive s
    → alive p ≡ true
    → IsValid (update alive p false) (detach s p)
unfolding detach
detach-IsValid alive s p v a =
    detached (unmark_congested s p) (unmark_congested-IsValid alive s v p)
      (unmark_congested-elem alive s p v a)
  where
    detached :
        (s' : Simple)
        → IsValid alive s'
        → elem p s'.congested_procs ≡ false
        → IsValid (update alive p false) (record s' {
          cores = λ c. if ltb c ncpu && s'.cores c == p then 0 else s'.cores c;
          hist = λ c i. if ltb c ncpu && ltb i nhist && s'.hist c i == p then 0 else s'.hist c i;
        })
    detached s' w u = record {
      nonnull = update-elim (λ (b : Bool). b ≡ false) alive p 0 (λ k. refl) (λ k. w.nonnull);
      counted = λ q b.
          (let some_q : 0 ≢ q = λ k.
              (let m = ap alive (sym k) ∙ v.nonnull in let b' = (remains alive p q b).1 in cc) in
            w.counted q (remains alive p q b).1
            ∙ sym (
                count_without ncpu ncpu s'.cores p q (λ k. (remains alive p q b).0 (sym k))
                  (ground (arith, some_q))));
      owned =
          λ c l. IsRef-clear alive p (s'.cores c) (ltb c ncpu) (ground (arith, l)) (w.owned c l);
      past = λ c i l m.
          IsRef-clear alive p (s'.hist c i) (ltb c ncpu && ltb i nhist) (ground (arith, l, m))
            (w.past c i l m);
      listed = λ q b. w.listed q (remains alive p q b).1;
      members = λ q b.
          update-elim (λ (b : Bool). b ≡ true) alive p q
            (λ k. (let m = ap (λ (r : ℕ). elem r s'.congested_procs) k in cc)) (λ k. w.members q b);
      idle = λ c b. ground (arith, w.idle c b);
    }
