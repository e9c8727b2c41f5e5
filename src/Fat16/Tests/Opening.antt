-- ===== src/Fat16/Tests/Opening.antt =====
-- Opening READ.ME, with NOTES before it or alone.
use kernel_nesemulator.Prelude.{
  ℕ, ◌+◌, ◌≡◌, ◌≢◌, refl, ap, get_or, true, some, List, [], ◌∷◌, ◌++◌, pos, arith,
}
use kernel_nesemulator.Disk.{eio}
use kernel_nesemulator.Fat16.{DirectoryItem, Volume}
use kernel_nesemulator.Fat16.Name.{dotted, is_name}
use kernel_nesemulator.Heap.{Heap, get_entry_type}
use kernel_nesemulator.Heap.Search.{free_prefix}
use kernel_nesemulator.Heap.Chain.{chain}
use kernel_nesemulator.Heap.Sequence.{Left, free_blocks}
use kernel_nesemulator.String.{tolower}
use kernel_nesemulator.String.Compare.{no_nul, lower}
use kernel_nesemulator.Fat16.Open.{opened, failed, open_file}
use kernel_nesemulator.Fat16.Named.{IsNamed}
use kernel_nesemulator.Fat16.Lookup.{
  AllOther, no_items, other, held_file, open_file-root, open_file-missing,
}
use kernel_nesemulator.Fat16.Tests.{platform, volume, readme, stem, extension}

abbrev notes : DirectoryItem
notes = record {
  filename = 0x4E ∷ 0x4F ∷ 0x54 ∷ 0x45 ∷ 0x53 ∷ 0x20 ∷ 0x20 ∷ 0x20 ∷ [];
  ext = 0x20 ∷ 0x20 ∷ 0x20 ∷ [];
  attribute = 0;
  high_16_bits_first_cluster = 0;
  low_16_bits_first_cluster = 7;
  filesize = 10;
}

abbrev two_items : Volume
two_items = record volume {
  root_directory = record {
    item = notes ∷ readme ∷ [];
    total = pos 2;
    sector_pos = 3;
    ending_sector_pos = 4;
  };
}

-- read.me
abbrev wanted : List ℕ
wanted = 0x72 ∷ 0x65 ∷ 0x61 ∷ 0x64 ∷ 0x2E ∷ 0x6D ∷ 0x65 ∷ []

wanted-no_nul : no_nul wanted ≡ true
unfolding no_nul
wanted-no_nul = refl

-- READ.ME
abbrev readme_text : List ℕ
readme_text = 0x52 ∷ 0x45 ∷ 0x41 ∷ 0x44 ∷ 0x2E ∷ 0x4D ∷ 0x45 ∷ []

readme-IsNamed : IsNamed readme readme_text
unfolding is_name dotted
readme-IsNamed = record {
  name = stem;
  ext = extension;
  name_field = refl;
  ext_field = refl;
  name_bytes = refl;
  ext_bytes = refl;
  name_fits = omega arith;
  ext_fits = omega arith;
  whole = refl;
}

abbrev notes_text : List ℕ
notes_text = 0x4E ∷ 0x4F ∷ 0x54 ∷ 0x45 ∷ 0x53 ∷ []

notes-IsNamed : IsNamed notes notes_text
unfolding is_name dotted
notes-IsNamed = record {
  name = notes_text;
  ext = [];
  name_field = refl;
  ext_field = refl;
  name_bytes = refl;
  ext_bytes = refl;
  name_fits = omega arith;
  ext_fits = omega arith;
  whole = refl;
}

readme-same : lower readme_text ≡ lower wanted
unfolding lower tolower
readme-same = refl

notes-other : lower notes_text ≢ lower wanted
unfolding lower tolower
notes-other e = absurd (omega (arith, ap (λ l. get_or l 0 0) e))

notes-AllOther : AllOther wanted (notes ∷ [])
notes-AllOther = other notes-IsNamed notes-other no_items

abbrev three_blocks : Heap
three_blocks = record { entries = 0 ∷ 0 ∷ 0 ∷ []; total = 3; saddr = 0x2000 }

three_blocks-Left : Left 3 three_blocks
unfolding chain free_prefix get_entry_type
three_blocks-Left = record {
  valid = record {
    sized = refl;
    chained = refl;
    nonnull = omega arith;
    small = omega arith;
    placed = omega arith;
  };
  place = 0;
  run = refl;
}

open_file-root_example :
    (descriptor : ℕ) × (f_item : ℕ) × (item_copy : ℕ) × (end : Heap) × (open_file 9 platform
        two_items three_blocks
        (wanted ++ (0 ∷ []))
        []
        true
      ≡ some (
        opened (record { address = descriptor; item = held_file f_item item_copy readme; pos = 0 }),
        (two_items, end),
      ))
    × (free_blocks end.entries + 3 ≡ free_blocks three_blocks.entries)
open_file-root_example =
    open_file-root 9 platform two_items three_blocks wanted [] readme_text (notes ∷ []) [] [] readme
      wanted-no_nul (omega arith) three_blocks-Left refl refl notes-AllOther no_items readme-IsNamed
      readme-same refl

abbrev one_item : Volume
one_item = record volume {
  root_directory = record {
    item = notes ∷ [];
    total = pos 1;
    sector_pos = 3;
    ending_sector_pos = 4;
  };
}

abbrev one_block : Heap
one_block = record { entries = 0 ∷ []; total = 1; saddr = 0x2000 }

one_block-Left : Left 1 one_block
unfolding chain free_prefix get_entry_type
one_block-Left = record {
  valid = record {
    sized = refl;
    chained = refl;
    nonnull = omega arith;
    small = omega arith;
    placed = omega arith;
  };
  place = 0;
  run = refl;
}

open_file-missing_example :
    open_file 9 platform one_item one_block (wanted ++ (0 ∷ [])) [] true
    ≡ some (failed eio, (one_item, one_block))
open_file-missing_example =
    open_file-missing 9 platform one_item one_block wanted [] (notes ∷ []) [] wanted-no_nul
      (omega arith) one_block-Left refl refl notes-AllOther
