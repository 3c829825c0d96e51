-- ===== src/Mempool/Tests.antt =====
-- A pool of two pages of 64 bytes with items of 24.
use caladan.Common.{◌+◌, ◌*◌, ◌≡◌, refl, some, arith, true}
use caladan.Lrpc.{is_power_of_two}
use caladan.Lrpc.Setup.{is_power_of_two_iff}
use caladan.Mempool.{Mempool, create, populate, populate_pages}
use caladan.Mempool.Stock.{IsValid}
use caladan.Mempool.Places.{AreApart, create-AreApart}

abbrev blank : Mempool
blank = record {
  free_items = λ i. 0;
  allocated = 0;
  capacity = 0;
  buf = 0;
  len = 0;
  pgsize = 0;
  item_len = 0;
}

abbrev made : Mempool
made =
    populate_pages 2 0 2
      (record blank { allocated = 0; buf = 4096; len = 128; pgsize = 64; item_len = 24 })

blank-made : create blank 4096 128 64 24 ≡ some made
unfolding create populate
blank-made =
    let pow : is_power_of_two 64 ≡ true = (is_power_of_two_iff 64).1 (6, refl) in rw pow refl

create-AreApart_example : AreApart made 4096 128 64 24
create-AreApart_example = create-AreApart blank made 4096 128 64 24 refl blank-made

-- Three items, of which the first is out
abbrev three : Mempool
three = record blank { free_items = λ i. 100 + 8 * i; allocated = 1; capacity = 3 }

three-IsValid : IsValid three
three-IsValid = record { in_use = omega arith; counted = omega arith }
