-- ===== src/Tcp/Options.antt =====
-- The options of a segment that opens a connection (`tcp_parse_options` of runtime/net/tcp_in.c,
-- `tcp_put_options` of tcp_out.c). Memory is a function from addresses to bytes; a length that an
-- option takes below 0 ends the loop, as 0 does.
pub mod Loop
use caladan.Common.{
  ℕ, zero, suc, ◌+◌, ◌-◌, ◌*◌, ◌/◌, ◌%◌, Bool, true, false, ltb, leb, ◌==◌, if◌then◌else◌, List, [],
  ◌∷◌, ◌++◌, Option, none, some,
}

abbrev pub opt_eol : ℕ
opt_eol = 0

abbrev pub opt_nop : ℕ
opt_nop = 1

abbrev pub opt_mss : ℕ
opt_mss = 2

abbrev pub opt_wscale : ℕ
opt_wscale = 3

abbrev pub olen_mss : ℕ
olen_mss = 4

abbrev pub olen_wscale : ℕ
olen_wscale = 3

-- `struct tcp_options`, its bits as two tests
pub record TcpOptions : Type 0 where
  pub has_mss : Bool
  pub has_wscale : Bool
  pub mss : ℕ
  pub wscale : ℕ

pub no_options : TcpOptions
no_options = record { has_mss = false; has_wscale = false; mss = 0; wscale = 0 }

-- What one option that is neither the end nor padding sets, at its size and what follows.
pub read_option : (ℕ → ℕ) → ℕ → TcpOptions → TcpOptions
read_option mem p o =
    let opsize = mem (p + 1) in
    if mem p == opt_mss
    then (if opsize == olen_mss
        then record o { mss = mem (p + 2) * 256 + mem (p + 3); has_mss = true }
        else o)
    else if mem p == opt_wscale
    then (if opsize == olen_wscale
        then record o {
          wscale = if ltb 14 (mem (p + 2)) then 14 else mem (p + 2);
          has_wscale = true;
        }
        else o)
    else o

-- The loop on fuel; `none` is a run out of fuel. Behind two reads the pointer moves on by the size
-- less 2.
pub parse_loop : ℕ → (ℕ → ℕ) → ℕ → ℕ → TcpOptions → Option TcpOptions
parse_loop zero mem p len o = none
parse_loop (suc fuel) mem p len o =
    let padding = parse_loop fuel mem (p + 1) (len - 1) o in
    let next = parse_loop fuel mem (p + mem (p + 1)) (len - mem (p + 1)) (read_option mem p o) in
    if len == 0
    then some o
    else if mem p == opt_eol
    then some o
    else if mem p == opt_nop
    then padding
    else next

-- What the parser reads and sets of a connection
pub record Scaling : Type 0 where
  pub snd_mss : ℕ
  pub snd_wscale : ℕ
  pub rcv_wnd : ℕ
  pub rcv_wscale : ℕ
  pub winmax : ℕ

abbrev min_mss : ℕ
min_mss = 88

-- `tcp_calculate_mss(ETH_DEFAULT_MTU)`
abbrev pub default_mss : ℕ
default_mss = 1460

abbrev uint16_max : ℕ
uint16_max = 65535

abbrev min : ℕ → ℕ → ℕ
min a b = if ltb a b then a else b

abbrev max : ℕ → ℕ → ℕ
max a b = if ltb b a then a else b

-- At the label `done`.
pub apply_options : TcpOptions → ℕ → Scaling → Scaling
apply_options o rcv_mss s =
    let win = min s.winmax uint16_max in
    let s' = record s {
      snd_mss = if o.has_mss then min (max o.mss min_mss) rcv_mss else default_mss;
      snd_wscale = o.wscale;
    } in
    if o.has_wscale then s' else record s' { rcv_wnd = win; winmax = win; rcv_wscale = 0 }

-- `tcp_parse_options`
pub parse_options : ℕ → (ℕ → ℕ) → ℕ → ℕ → ℕ → Scaling → Option (Scaling × TcpOptions)
unfolding no_options apply_options
parse_options fuel mem p len rcv_mss s = elim (parse_loop fuel mem p len no_options) [
  | none ↦ none
  | some o ↦ some (apply_options o rcv_mss s, o)
]

-- `tcp_put_options`: the bytes in the order of the network.
unfoldable pub put_options : TcpOptions → List ℕ
put_options o =
    (if o.has_wscale then opt_nop ∷ opt_wscale ∷ olen_wscale ∷ o.wscale ∷ [] else [])
    ++ (if o.has_mss then opt_mss ∷ olen_mss ∷ o.mss / 256 ∷ o.mss % 256 ∷ [] else [])
