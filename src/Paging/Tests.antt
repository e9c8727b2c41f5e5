-- ===== src/Paging/Tests.antt =====
-- A directory at 0x100000 whose entry `i` names the table at 0x200000 + 0x1000 * i.
use kernel_nesemulator.Prelude.{
  ℕ, ◌+◌, ◌-◌, ◌*◌, ◌/◌, ◌<◌, ◌≡◌, ◌&&◌, refl, true, ltb, leb, ◌==◌, if◌then◌else◌, arith,
}
use kernel_nesemulator.Prelude.Bytes.{all_below, all_below_sound}
use kernel_nesemulator.Paging.{Memory, page_size, set, map_to}
use kernel_nesemulator.Paging.Walk.{IsTree, table_of, walk, walk-set}
use kernel_nesemulator.Paging.Range.{MapTo, map_to-MapTo}

abbrev tables : Memory
tables i =
    if leb 0x100000 i && ltb i 0x101000 then 0x200000 + 0x1000 * ((i - 0x100000) / 4) + 3 else 0

named : all_below 1024 (λ i. table_of tables 0x100000 i == 0x200000 + 0x1000 * i) ≡ true
unfolding all_below
named = refl

table_of-tables : (i : ℕ) → i < 1024 → table_of tables 0x100000 i ≡ 0x200000 + 0x1000 * i
table_of-tables i h =
    let e =
      all_below_sound 1024 (λ j. table_of tables 0x100000 j == 0x200000 + 0x1000 * j) i named h in
    ground arith

tables-IsTree : IsTree tables 0x100000
tables-IsTree = record {
  aligned = λ i h. omega (arith, table_of-tables i h);
  directory_aligned = refl;
  apart = λ i h e. omega (arith, table_of-tables i h, e);
  distinct = λ i j h k e. omega (arith, table_of-tables i h, table_of-tables j k, e);
}

walk-set_example : walk (set tables 0x100000 0x401000 0x5003).1 0x100000 0x401234 ≡ (
    if 0x401234 / page_size == 0x401000 / page_size then 0x5003 else walk tables 0x100000 0x401234)
walk-set_example =
    walk-set tables 0x100000 0x401000 0x401234 0x5003 tables-IsTree (omega arith) (omega arith) refl

map_to-MapTo_example :
    MapTo tables 0x100000 0x401000 0x5000 0x9000 3 (map_to tables 0x100000 0x401000 0x5000 0x9000 3)
map_to-MapTo_example = map_to-MapTo tables 0x100000 0x401000 0x5000 0x9000 3
