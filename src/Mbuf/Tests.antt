-- ===== src/Mbuf/Tests.antt =====
-- Packet buffers on concrete headers: 14 bytes of Ethernet and 20 of IP.
use caladan.Common.{ℕ, ◌+◌, ◌<◌, ◌≤◌, ◌≡◌, ◌↔◌, refl, ◌⊎◌, some, none, arith}
use caladan.Mbuf.{Mbuf, put}
use caladan.Mbuf.Window.{IsValid}
use caladan.Mbuf.Overrun.{put_overruns}

-- 100 bytes behind 40 bytes of headroom
abbrev packet : Mbuf
packet = record {
  head = 4096;
  data_ptr = 4136;
  head_len = 2048;
  len = 100;
  transport_off = 0;
  network_off = 0;
}

packet-IsValid : IsValid packet 40
packet-IsValid = record {
  placed = refl;
  fits = omega arith;
  sized = omega arith;
  user = omega arith;
}

-- The data may come to end 40 bytes behind the buffer.
put_overruns_example :
    ((2048 < 100 + 1948) × (put packet 1948 ≡ none))
    ⊎ ((m' : Mbuf) × (a : ℕ) × (put packet 1948 ≡ some (m', a))
        × (100 + 1948 ≤ 2048)
        × (m'.len ≡ 100 + 1948)
        × (a ≡ 4136 + 100)
        × ((2048 < 40 + 100 + 1948) ↔ (m'.head + m'.head_len < m'.data_ptr + m'.len)))
put_overruns_example = put_overruns packet 40 1948 packet-IsValid (omega arith)
