-- ===== src/Tcp/Options/Loop.antt =====
-- When the loop over the options ends, and that it reads back what is put (runtime/net/tcp_in.c,
-- runtime/net/tcp_out.c).
use caladan.Common.{
  ℕ, zero, suc, ◌+◌, ◌-◌, ◌*◌, ◌/◌, ◌%◌, ◌≤◌, ◌<◌, ◌≡◌, refl, ap, ◌∙◌, ◌⊎◌, inl, inr, Bool, true,
  false, ltb, ◌==◌, if◌then◌else◌, List, [], ◌∷◌, none, some, length, arith, Bool-cases,
}
use caladan.Tcp.Options.{TcpOptions, no_options, read_option, parse_loop, put_options}

-- An option of size 0 that is neither the end nor padding: the loop never ends, whatever the fuel.
size_zero_never_ends :
    (fuel : ℕ) (mem : ℕ → ℕ) (p len : ℕ) (o : TcpOptions)
    → 0 < len
    → 1 < mem p
    → mem (p + 1) ≡ 0
    → parse_loop fuel mem p len o ≡ none
unfolding parse_loop read_option
size_zero_never_ends zero mem p len o h k z = refl
size_zero_never_ends (suc fuel) mem p len o h k z =
    let stay : p + mem (p + 1) ≡ p = omega (arith, z) in
    let same : len - mem (p + 1) ≡ len = omega (arith, z) in
    let again = size_zero_never_ends fuel mem p len (read_option mem p o) h k z in
    let more : (len == 0) ≡ false = ground arith in
    let not_eol : (mem p == 0) ≡ false = ground arith in
    let not_nop : (mem p == 1) ≡ false = ground arith in
    rw (more, not_eol, not_nop, stay, same) again

-- The parse of options either ends within one turn for each byte and one more, or never: then an
-- option among them, neither the end nor padding, gives its size as 0.
pub parse_loop_ends :
    (fuel : ℕ) (mem : ℕ → ℕ) (p len : ℕ) (o : TcpOptions)
    → len < fuel
    → ((o' : TcpOptions) × (parse_loop fuel mem p len o ≡ some o'))
      ⊎ ((q : ℕ) × (p ≤ q)
          × (q < p + len)
          × (1 < mem q)
          × (mem (q + 1) ≡ 0)
          × ((n : ℕ) → parse_loop n mem p len o ≡ none))
unfolding parse_loop
parse_loop_ends zero mem p len o h = absurd (omega arith)
parse_loop_ends (suc fuel) mem p len o h = elim (Bool-cases (len == 0)) [
  | inl done ↦ inl (o, rw done refl)
  | inr more ↦ elim (Bool-cases (mem p == 0)) [
    | inl eol ↦ inl (o, rw (more, eol) refl)
    | inr not_eol ↦ elim (Bool-cases (mem p == 1)) [
      | inl nop ↦ elim (parse_loop_ends fuel mem (p + 1) (len - 1) o (ground arith)) [
        | inl (o', e) ↦ inl (o', rw (more, not_eol, nop) e)
        | inr (q, a, b, c, d, e) ↦ inr (
          q,
          omega (arith, a),
          ground (arith, a, b),
          c,
          d,
          λ n. elim n as (λ k. parse_loop k mem p len o ≡ none) [
            | zero ↦ refl
            | suc k ↦ rw (more, not_eol, nop) (e k)
          ],
        )
      ]
      | inr option ↦ elim (Bool-cases (mem (p + 1) == 0)) [
        | inl no_size ↦ inr (
          p,
          omega arith,
          ground arith,
          ground arith,
          ground arith,
          λ n. size_zero_never_ends n mem p len o (ground arith) (ground arith) (ground arith),
        )
        | inr size ↦
            elim (parse_loop_ends fuel mem (p + mem (p + 1)) (len - mem (p + 1))
              (read_option mem p o) (ground arith)) [
                | inl (o', e) ↦ inl (o', rw (more, not_eol, option) e)
                | inr (q, a, b, c, d, e) ↦ inr (
                  q,
                  omega (arith, a),
                  ground (arith, a, b),
                  c,
                  d,
                  λ n. elim n as (λ k. parse_loop k mem p len o ≡ none) [
                    | zero ↦ refl
                    | suc k ↦ rw (more, not_eol, option) (e k)
                  ],
                )
              ]
      ]
    ]
  ]
]

-- The bytes stand in memory from an address on.
abbrev pub Holds : (ℕ → ℕ) → ℕ → List ℕ → Type 0
Holds mem p [] = Unit {0}
Holds mem p (b ∷ bs) = (mem p ≡ b) × Holds mem (p + 1) bs

-- What a parse of options that were put gives: those that are set, the shift at most 14.
pub read_back : TcpOptions → TcpOptions
read_back o = record {
  has_mss = o.has_mss;
  has_wscale = o.has_wscale;
  mss = if o.has_mss then o.mss else 0;
  wscale = if o.has_wscale then (if ltb 14 o.wscale then 14 else o.wscale) else 0;
}

parse_wscale :
    (f : ℕ) (mem : ℕ → ℕ) (p w len : ℕ) (o : TcpOptions)
    → Holds mem p (1 ∷ 3 ∷ 3 ∷ w ∷ [])
    → parse_loop (suc (suc f)) mem p (len + 4) o
      ≡ parse_loop f mem
          (p + 4)
          len
          (record o { wscale = if ltb 14 w then 14 else w; has_wscale = true })
unfolding parse_loop read_option
parse_wscale f mem p w len o h =
    let a₁ : p + 1 + 1 ≡ p + 2 = omega arith in
    let a₂ : p + 2 + 1 ≡ p + 3 = omega arith in
    let h₀ : mem p ≡ 1 = h.0 in
    let h₁ : mem (p + 1) ≡ 3 = h.1.0 in
    let h₂ : mem (p + 1 + 1) ≡ 3 = h.1.1.0 in
    let h₃ : mem (p + 1 + 2) ≡ w = (ap mem (omega arith) ∙ h.1.1.1.0) in
    let some_left : (len + 4 == 0) ≡ false = ground arith in
    let some_left' : (len + 4 - 1 == 0) ≡ false = ground arith in
    let there : p + 1 + 3 ≡ p + 4 = omega arith in
    let rest : len + 4 - 1 - 3 ≡ len = omega arith in
    rw (some_left, h₀, some_left', h₁, h₂, h₃, there, rest) refl

parse_mss :
    (f : ℕ) (mem : ℕ → ℕ) (p m len : ℕ) (o : TcpOptions)
    → Holds mem p (2 ∷ 4 ∷ m / 256 ∷ m % 256 ∷ [])
    → parse_loop (suc f) mem p (len + 4) o
      ≡ parse_loop f mem (p + 4) len (record o { mss = m; has_mss = true })
unfolding parse_loop read_option
parse_mss f mem p m len o h =
    let h₀ : mem p ≡ 2 = h.0 in
    let h₁ : mem (p + 1) ≡ 4 = h.1.0 in
    let h₂ : mem (p + 2) ≡ m / 256 = (ap mem (omega arith) ∙ h.1.1.0) in
    let h₃ : mem (p + 3) ≡ m % 256 = (ap mem (omega arith) ∙ h.1.1.1.0) in
    let some_left : (len + 4 == 0) ≡ false = ground arith in
    let rest : len + 4 - 4 ≡ len = omega arith in
    let whole : m / 256 * 256 + m % 256 ≡ m = omega arith in
    rw (some_left, h₀, h₁, h₂, h₃, rest, whole) refl

parse_put :
    (a b : Bool) (m w : ℕ) (mem : ℕ → ℕ) (p : ℕ)
    → let o : TcpOptions = record { has_mss = a; has_wscale = b; mss = m; wscale = w } in
      Holds mem p (put_options o)
      → parse_loop 4 mem p (length (put_options o)) no_options ≡ some (read_back o)
unfolding put_options read_back no_options
parse_put true true m w mem p h =
    let h' : Holds mem (p + 4) (2 ∷ 4 ∷ m / 256 ∷ m % 256 ∷ []) = (
      ap mem (omega arith) ∙ h.1.1.1.1.0,
      (
        ap mem (omega arith) ∙ h.1.1.1.1.1.0,
        (ap mem (omega arith) ∙ h.1.1.1.1.1.1.0, (ap mem (omega arith) ∙ h.1.1.1.1.1.1.1.0, tt)),
      ),
    ) in
    parse_wscale 2 mem p w 4 no_options (h.0, (h.1.0, (h.1.1.0, (h.1.1.1.0, tt))))
    ∙ parse_mss 1 mem (p + 4) m 0
        (record {
          has_mss = false;
          has_wscale = true;
          mss = 0;
          wscale = if ltb 14 w then 14 else w;
        })
        h'
    ∙ (unfold parse_loop in refl)
parse_put true false m w mem p h = parse_mss 3 mem p m 0 no_options h ∙ (unfold parse_loop in refl)
parse_put false true m w mem p h =
    parse_wscale 2 mem p w 0 no_options h ∙ (unfold parse_loop in refl)
parse_put false false m w mem p h = unfold parse_loop in refl

-- What `tcp_put_options` writes, `tcp_parse_options` reads back: the same options, with the size and
-- the shift of those that are set, a shift above 14 as 14.
pub parse-put_options :
    (o : TcpOptions) (mem : ℕ → ℕ) (p : ℕ)
    → Holds mem p (put_options o)
    → parse_loop 4 mem p (length (put_options o)) no_options ≡ some (read_back o)
parse-put_options o mem p h = parse_put o.has_mss o.has_wscale o.mss o.wscale mem p h
