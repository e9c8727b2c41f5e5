-- ===== src/Fat16/Lookup.antt =====
-- Opening a file of the root directory by its name.
use kernel_nesemulator.Prelude.{
  ℕ, suc, ◌+◌, ◌≤◌, ◌≡◌, ◌≢◌, refl, ap, ◌∙◌, bit_and, true, false, Option, none, some, List, [],
  ◌∷◌, ◌++◌, length, ◌!=◌, pos, arith,
}
use kernel_nesemulator.Heap.{Heap, malloc, malloc_blocks, align_value_to_upper}
use kernel_nesemulator.Heap.Sequence.{Left, free_blocks, one_taken}
use kernel_nesemulator.Disk.{Platform, eio}
use kernel_nesemulator.String.Compare.{no_nul, lower}
use kernel_nesemulator.Fat16.{DirectoryItem, FatItem, Volume}
use kernel_nesemulator.Fat16.Search.{
  Held, Sought, new_fat_item, match_item, find_items, find_item_in_directory, rounds_of,
  file_subdirectory,
}
use kernel_nesemulator.Fat16.Open.{
  opened, failed, walk_parts, behind_root, get_directory_entry, make_descriptor, open_file, give_up,
}
use kernel_nesemulator.Fat16.Named.{IsNamed, has_name-same, has_name-other}

-- Every item has a short name, and none has the text `t`, letters of either case alike.
pub data AllOther (t : List ℕ) : List DirectoryItem → Type 0 where
  no_items : AllOther t []
  other :
      {item : DirectoryItem} {items : List DirectoryItem} {text : List ℕ}
      → IsNamed item text
      → lower text ≢ lower t
      → AllOther t items
      → AllOther t (item ∷ items)

one_block :
    (heap : Heap) → (malloc heap 8 ≡ malloc_blocks heap 1) × (malloc heap 32 ≡ malloc_blocks heap 1)
unfolding malloc align_value_to_upper
one_block heap = (refl, refl)

-- An item of a file in the kernel heap.
abbrev pub held_file : ℕ → ℕ → DirectoryItem → Held
held_file f_item item_copy item = record {
  address = f_item;
  is_directory = false;
  content = item_copy;
  items = 0;
  item = some (FatItem.file item);
}

module _ (fuel : ℕ) (platform : Platform) (volume : Volume) (t r : List ℕ)
    (t_bytes : no_nul t ≡ true) (t_short : length t ≤ 108) where
  abbrev find : ℕ → List DirectoryItem → Option Held → Heap → Sought
  find count items f_item heap =
      find_items fuel platform (t ++ (0 ∷ r)) count items f_item volume heap

  -- The items before and behind do not change what is found, nor the volume or the heap.
  find-AllOther :
      (items rest : List DirectoryItem) (count : ℕ) (f_item : Option Held) (heap : Heap)
      → AllOther t items
      → find (length items + count) (items ++ rest) f_item heap ≡ find count rest f_item heap
  unfolding find_items
  find-AllOther [] rest count f_item heap no_items = ap (λ n. find n rest f_item heap) (omega arith)
  find-AllOther (item ∷ items) rest count f_item heap (other {text = text} named differs later) =
      let next = λ (found : Option Held) (after : Volume) (left : Heap).
        find_items fuel platform (t ++ (0 ∷ r)) (length items + count) (items ++ rest) found after
          left in
      ap (λ n. find n (item ∷ (items ++ rest)) f_item heap) (shift (length items) count)
      ∙ (ap (match_item f_item volume heap (new_fat_item fuel platform volume heap item) next)
            (has_name-other item text t r named t_bytes t_short differs)
          ∙ find-AllOther items rest count f_item heap later)
    where
      shift : (a b : ℕ) → suc a + b ≡ suc (a + b)
      shift a b = omega arith

  -- A file takes a block for the item, and one for its copy.
  new_fat_item-file :
      (item : DirectoryItem) (heap : Heap) (m : ℕ)
      → bit_and item.attribute file_subdirectory ≡ 0
      → Left (suc (suc m)) heap
      → (f_item : ℕ) × (item_copy : ℕ) × (after : Heap) × (new_fat_item fuel platform volume heap
            item
          ≡ some (some (held_file f_item item_copy item), (volume, after)))
        × (free_blocks after.entries + 2 ≡ free_blocks heap.entries)
  unfolding new_fat_item
  new_fat_item-file item heap m h left =
      let plain : (bit_and item.attribute file_subdirectory != 0) ≡ false =
        zero_test (bit_and item.attribute file_subdirectory) h in
      let (f_item, h1, gives1, nonnull1, left1, count1, _) = one_taken heap (suc m) left in
      let (item_copy, h2, gives2, nonnull2, _, count2, _) = one_taken h1 m left1 in
      let (made, _) = one_block heap in
      let (_, copied) = one_block h1 in
      (
        f_item,
        item_copy,
        h2,
        rw (made ∙ gives1, nonnull1, plain, copied ∙ gives2, nonnull2) refl,
        omega (arith, count1, count2),
      )
    where
      zero_test : (n : ℕ) → n ≡ 0 → (n != 0) ≡ false
      zero_test n e = ground arith

  find-one :
      (before after rest : List DirectoryItem) (item : DirectoryItem) (text : List ℕ)
      (heap left : Heap) (held : Held)
      → AllOther t before
      → AllOther t after
      → IsNamed item text
      → lower text ≡ lower t
      → new_fat_item fuel platform volume heap item ≡ some (some held, (volume, left))
      → find (length before + suc (length after)) (before ++ (item ∷ (after ++ rest))) none heap
        ≡ some (some held, (volume, left))
  unfolding find_items
  find-one before after rest item text heap left held others_before others_after named same made =
      let next = λ (found : Option Held) (v : Volume) (h : Heap).
        find_items fuel platform (t ++ (0 ∷ r)) (length after) (after ++ rest) found v h in
      find-AllOther before (item ∷ (after ++ rest)) (suc (length after)) none heap others_before
      ∙ (ap (match_item none volume heap (new_fat_item fuel platform volume heap item) next)
            (has_name-same item text t r named t_bytes same)
          ∙ (ap (λ m. match_item none volume heap m next (some true)) made
              ∙ (ap (λ n. find n (after ++ rest) (some held) left) (omega arith)
                  ∙ find-AllOther after rest 0 (some held) left others_after)))

-- For reading, fat16_open of a path with one part of at most 108 bytes, on a valid heap with a run
-- of three free blocks, where the counted items of the root directory hold short names and exactly
-- one of them, a file, has the part as its name, letters of either case alike, gives a descriptor
-- of this item at position 0, takes three blocks of the heap, and leaves the volume as it was.
pub open_file-root :
    (fuel : ℕ) (platform : Platform) (volume : Volume) (heap : Heap) (t r text : List ℕ)
    (before after rest : List DirectoryItem) (item : DirectoryItem)
    → no_nul t ≡ true
    → length t ≤ 108
    → Left 3 heap
    → volume.root_directory.item ≡ before ++ (item ∷ (after ++ rest))
    → volume.root_directory.total ≡ pos (length before + suc (length after))
    → AllOther t before
    → AllOther t after
    → IsNamed item text
    → lower text ≡ lower t
    → bit_and item.attribute file_subdirectory ≡ 0
    → (descriptor : ℕ) × (f_item : ℕ) × (item_copy : ℕ) × (end : Heap) × (open_file fuel platform
          volume heap
          (t ++ (0 ∷ r))
          []
          true
        ≡ some (
          opened (record { address = descriptor; item = held_file f_item item_copy item; pos = 0 }),
          (volume, end),
        ))
      × (free_blocks end.entries + 3 ≡ free_blocks heap.entries)
unfolding open_file get_directory_entry find_item_in_directory walk_parts
open_file-root fuel platform volume heap t r text before after rest item t_bytes t_short left items
      total others_before others_after named same plain =
    let (descriptor, h1, gives, nonnull, left1, count, _) = one_taken heap 2 left in
    let (allocates, _) = one_block heap in
    let (f_item, item_copy, end, made, count2) =
      new_fat_item-file fuel platform volume t r t_bytes t_short item h1 0 plain left1 in
    let found =
      find-one fuel platform volume t r t_bytes t_short before after rest item text h1 end
        (held_file f_item item_copy item) others_before others_after named same made in
    (
      descriptor,
      f_item,
      item_copy,
      end,
      rw (allocates ∙ gives, nonnull)
          (ap (λ s. make_descriptor descriptor (behind_root fuel platform [] s))
            ((λ i.
                find_items fuel platform (t ++ (0 ∷ r)) (rounds_of (total i)) (items i) none volume
                  h1)
              ∙ found)),
      omega (arith, count, count2),
    )

-- For reading, fat16_open of a path with one part of at most 108 bytes, on a valid heap with a free
-- block, where the counted items of the root directory hold short names and none has the part as
-- its name, letters of either case alike, gives -EIO and leaves the volume and the heap as they
-- were.
pub open_file-missing :
    (fuel : ℕ) (platform : Platform) (volume : Volume) (heap : Heap) (t r : List ℕ)
    (items rest : List DirectoryItem)
    → no_nul t ≡ true
    → length t ≤ 108
    → Left 1 heap
    → volume.root_directory.item ≡ items ++ rest
    → volume.root_directory.total ≡ pos (length items)
    → AllOther t items
    → open_file fuel platform volume heap (t ++ (0 ∷ r)) [] true ≡ some (failed eio, (volume, heap))
unfolding open_file get_directory_entry find_item_in_directory find_items
open_file-missing fuel platform volume heap t r items rest t_bytes t_short left listed total
      others =
    let (descriptor, h1, gives, nonnull, _, _, freed) = one_taken heap 0 left in
    let (allocates, _) = one_block heap in
    rw (allocates ∙ gives, nonnull)
      (ap (λ s. make_descriptor descriptor (behind_root fuel platform [] s))
          ((λ i.
              find_items fuel platform (t ++ (0 ∷ r)) (rounds_of (total i)) (listed i) none volume
                h1)
            ∙ (ap (λ n. find_items fuel platform (t ++ (0 ∷ r)) n (items ++ rest) none volume h1)
                  (omega arith)
                ∙ find-AllOther fuel platform volume t r t_bytes t_short items rest 0 none h1
                    others))
        ∙ ap (give_up volume eio) freed)
