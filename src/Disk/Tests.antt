-- ===== src/Disk/Tests.antt =====
-- Streams on a disk whose byte at position i is i modulo 251.
use kernel_nesemulator.Prelude.{ℕ, ◌+◌, ◌*◌, ◌%◌, ◌≡◌, refl, true, some, [], ◌∷◌, pos, arith}
use kernel_nesemulator.Heap.{Heap, get_entry_type}
use kernel_nesemulator.Heap.Search.{free_prefix}
use kernel_nesemulator.Heap.Chain.{chain}
use kernel_nesemulator.Heap.RoundTrip.{IsValid}
use kernel_nesemulator.Disk.{Command, Platform, command, read_sector, read_block}
use kernel_nesemulator.Disk.Controller.{Serves, sector_of}
use kernel_nesemulator.Disk.Stream.{read_sectors, read}
use kernel_nesemulator.Disk.Stream.Content.{read_content, read-content}

abbrev counted : ℕ → ℕ
counted i = i % 251

abbrev drive : Command → ℕ → ℕ
drive c i = counted (512 * sector_of c + 2 * i) + 256 * counted (512 * sector_of c + 2 * i + 1)

abbrev platform : Platform
platform = record { drive = drive; disk = 0x9000 }

served : Serves drive counted
served = record { bytes = λ i. omega arith; words = λ c i h. refl }

-- Four bytes across the end of sector 1.
crossing :
    read platform (record { pos = 1022; disk = 0x9000 }) 4
    ≡ some (pos 0, (18 ∷ 19 ∷ 20 ∷ 21 ∷ [], record { pos = 1026; disk = 0x9000 }))
unfolding read read_sectors read_block read_sector command
crossing = refl

read-content_example :
    read platform (record { pos = 1020; disk = 0x9000 }) 600
    ≡ some (read_content counted (record { pos = 1020; disk = 0x9000 }) 600)
read-content_example = read-content platform counted 1020 600 served (omega arith)

abbrev one_free : Heap
one_free = record { entries = 0x41 ∷ 0 ∷ []; total = 2; saddr = 0x2000 }

one_free-IsValid : IsValid one_free
unfolding chain
one_free-IsValid = record {
  sized = refl;
  chained = refl;
  nonnull = omega arith;
  small = omega arith;
  placed = omega arith;
}

one_free-run : free_prefix 1 (0 ∷ []) ≡ true
unfolding free_prefix get_entry_type
one_free-run = refl
