-- ===== src/Vfs/RoundTrip.antt =====
-- fopen and fclose of the same file.
use kernel_nesemulator.Prelude.{
  ℕ, suc, ◌+◌, ◌-◌, ◌*◌, ◌<◌, ◌≡◌, ◌≢◌, refl, ap, ◌∙◌, true, false, none, some, List, length,
  get_or, set, drop, leb, ltb, ◌==◌, if◌then◌else◌, get_or-set_self, ℤ, pos, neg, arith, Bool-cases,
  inl, inr,
}
use kernel_nesemulator.Heap.{Heap, block_size, malloc, malloc_blocks, align_value_to_upper}
use kernel_nesemulator.Heap.Search.{free_prefix}
use kernel_nesemulator.Heap.RoundTrip.{IsValid, allocated}
use kernel_nesemulator.Heap.Claims.{malloc_blocks-fits, free-allocated}
use kernel_nesemulator.Disk.{Platform, eio, get}
use kernel_nesemulator.Path.{PathRoot, parse, allocate_path}
use kernel_nesemulator.Path.Memory.{allocate_path-Left}
use kernel_nesemulator.Heap.Sequence.{Left, free_blocks}
use kernel_nesemulator.Vfs.{
  FileMode, read_mode, write_mode, append_mode, invalid_mode, Driver, FileDescriptor, Slots, Vfs,
  free_slot, get_descriptor, fill_descriptor, new_descriptor, opened, no_error, open_mode,
  keep_path, open_parsed, fopen, with_heap, closed, close_descriptor, fclose, get_mode_by_string,
}
use kernel_nesemulator.Vfs.Slots.{free_slot-none, set-restores}

-- What lets fopen of a file succeed with descriptor `i + 1`.
pub record Opens {W : Type 0} (platform : Platform) (driver : ℕ → Driver W) (vfs : Vfs W)
    (filename mode_str : List ℕ) (root : PathRoot) (i private : ℕ) (world : W) : Type 0 where
  pub parsed : parse filename ≡ some (some root)
  pub parts : (length root.parts == 0) ≡ false
  pub disk : (get platform root.drive_no == 0) ≡ false
  pub known : (vfs.disk_filesystem == 0) ≡ false
  pub mode : FileMode
  pub valid : mode ≢ invalid_mode
  pub moded : get_mode_by_string mode_str ≡ some mode
  pub opening :
      (driver vfs.disk_filesystem).open_file vfs.world root.parts mode ≡ (pos private, world)
  pub slot : free_slot vfs.file_descriptors 0 ≡ some i

one_block : (heap : Heap) → malloc heap 16 ≡ malloc_blocks heap 1
unfolding malloc align_value_to_upper
one_block heap = refl

module _ {W : Type 0} (platform : Platform) (driver : ℕ → Driver W) where
  -- The state behind a successful fopen.
  abbrev behind_open : Vfs W → ℕ → ℤ → ℕ → W → ℕ → Heap → Vfs W
  behind_open vfs i private disk world address heap = record vfs {
    file_descriptors = set vfs.file_descriptors i (
        some (record {
          address = address;
          index = i + 1;
          filesystem = vfs.disk_filesystem;
          private = private;
          disk = disk;
        }));
    heap = heap;
    world = world;
  }

  open_mode-valid :
      (vfs : Vfs W) (parts : List (List ℕ)) (disk : ℕ) (mode : FileMode)
      → mode ≢ invalid_mode
      → open_mode platform driver vfs parts disk (some mode)
        ≡ opened vfs disk ((driver vfs.disk_filesystem).open_file vfs.world parts mode)
  open_mode-valid vfs parts disk invalid_mode h = absurd (h refl)
  open_mode-valid vfs parts disk read_mode h = refl
  open_mode-valid vfs parts disk write_mode h = refl
  open_mode-valid vfs parts disk append_mode h = refl

  fopen-opened :
      (vfs : Vfs W) (filename mode_str : List ℕ) (root : PathRoot) (i private address : ℕ)
      (world : W) (parsed heap : Heap)
      → Opens platform driver vfs filename mode_str root i private world
      → allocate_path (some root) vfs.heap ≡ some parsed
      → malloc parsed 16 ≡ (address, heap)
      → (address == 0) ≡ false
      → fopen platform driver vfs filename mode_str
        ≡ some (
          pos (i + 1),
          behind_open
              (record vfs { heap = parsed })
              i
              (pos private)
              (get platform root.drive_no)
              world
              address
              heap,
        )
  unfolding fopen
  fopen-opened vfs filename mode_str root i private address world parsed heap o allocates taken
        nonnull =
      let disk = get platform root.drive_no in
      let start : Vfs W = record vfs { heap = parsed } in
      let here : Vfs W = record vfs { world = world; heap = parsed } in
      ap (λ r. no_error (open_parsed platform driver vfs mode_str r)) o.parsed
      ∙ (ap (λ h. no_error (keep_path platform driver vfs mode_str (some root) h)) allocates
          ∙ rw (o.parts, o.disk, o.known)
              (ap (λ m. no_error (open_mode platform driver start root.parts disk m)) o.moded
                ∙ (ap no_error (open_mode-valid start root.parts disk o.mode o.valid)
                    ∙ (ap (λ r. no_error (opened start disk r)) o.opening
                        ∙ (ap (λ s. no_error (new_descriptor here (pos private) disk s)) o.slot
                            ∙ (ap (λ m. no_error (fill_descriptor here i (pos private) disk m))
                                  taken
                                ∙ rw nonnull refl))))))

  get_descriptor-own :
      (slots : Slots) (i : ℕ) (descriptor : FileDescriptor)
      → i < length slots
      → get_descriptor (set slots i (some descriptor)) (pos (i + 1))
        ≡ (if ltb i 511 then some descriptor else none)
  unfolding get_descriptor
  get_descriptor-own slots i descriptor inside =
      let number : i + 1 ≡ suc i = omega arith in
      let here = get_or-set_self slots i (some descriptor) none inside in
      ap (λ n. get_descriptor (set slots i (some descriptor)) (pos n)) number
      ∙ elim (Bool-cases (ltb i 511)) [
        | inl low ↦ let test : leb 512 (suc i) ≡ false = ground (arith, low) in rw (low, test) here
        | inr high ↦
            let test : leb 512 (suc i) ≡ true = ground (arith, high) in rw (high, test) refl
      ]

-- If fopen gets as far as the driver, which opens the file, if the first free entry of the table is
-- at place i, and the heap is valid with a run of two free blocks for each part of the path and two
-- more, then fopen returns i + 1, and the memory of the path takes one block and two for each part.
-- If the driver then closes the file, fclose of it returns 0 and restores the table and the heap,
-- but for the path's memory, which remains taken, and for descriptor 512: there fclose returns -EIO
-- and changes nothing.
pub fclose-fopen :
    {W : Type 0} (platform : Platform) (driver : ℕ → Driver W) (vfs : Vfs W)
    (filename mode_str : List ℕ) (root : PathRoot) (i private k : ℕ) (world after : W)
    → Opens platform driver vfs filename mode_str root i private world
    → IsValid vfs.heap
    → free_prefix (2 * length root.parts + 2) (drop k vfs.heap.entries) ≡ true
    → (driver vfs.disk_filesystem).close world (pos private) ≡ (pos 0, after)
    → (parsed : Heap) × (behind : Vfs W) × (free_blocks parsed.entries + (2 * length root.parts + 1)
        ≡ free_blocks vfs.heap.entries)
      × (fopen platform driver vfs filename mode_str ≡ some (pos (i + 1), behind))
      × (fclose driver behind (pos (i + 1)) ≡ (
          if ltb i 511
          then some (pos 0, record vfs { world = after; heap = parsed })
          else some (neg eio, behind)))
unfolding fclose
fclose-fopen {W} platform driver vfs filename mode_str root i private k world after o valid run
      closes =
    let long : Left (suc (2 * length root.parts + 1)) vfs.heap = record {
      valid = valid;
      place = k;
      run = ap (λ n. free_prefix n (drop k vfs.heap.entries)) (omega arith) ∙ run;
    } in
    let (parsed, allocates, left, count) = allocate_path-Left root vfs.heap 0 long in
    let (b, found, r, _) = malloc_blocks-fits parsed 0 left.place left.valid left.run in
    let address = parsed.saddr + b * block_size in
    let taken = one_block parsed ∙ found in
    let nonnull : (address == 0) ≡ false = ground (arith, left.valid.nonnull) in
    let disk = get platform root.drive_no in
    let behind : Vfs W =
      behind_open platform driver (record vfs { heap = parsed }) i (pos private) disk world address
        (allocated parsed 1 b) in
    let (j, (place, (inside, free_here))) = free_slot-none vfs.file_descriptors 0 i o.slot in
    let at : i ≡ j = omega (arith, place) in
    let within : i < length vfs.file_descriptors = omega (arith, at, inside) in
    let descriptor : FileDescriptor = record {
      address = address;
      index = i + 1;
      filesystem = vfs.disk_filesystem;
      private = pos private;
      disk = disk;
    } in
    let restored : set behind.file_descriptors (i + 1 - 1) none ≡ vfs.file_descriptors =
      ap (λ n. set behind.file_descriptors n none) (omega arith)
      ∙ set-restores vfs.file_descriptors i descriptor
          (ap (λ n. get_or vfs.file_descriptors n none) at ∙ free_here) within in
    (
      parsed,
      behind,
      count,
      fopen-opened platform driver vfs filename mode_str root i private address world parsed
          (allocated parsed 1 b) o allocates taken nonnull,
      ap (close_descriptor driver behind)
            (get_descriptor-own platform driver vfs.file_descriptors i descriptor within)
          ∙ elim (Bool-cases (ltb i 511)) [
            | inr high ↦ rw high refl
            | inl low ↦ rw low (
                ap (closed driver behind descriptor) closes
                ∙ (ap
                      (with_heap driver (record behind {
                        world = after;
                        file_descriptors = set behind.file_descriptors (i + 1 - 1) none;
                      }))
                      (free-allocated parsed 0 b left.valid r)
                    ∙ ap
                        (λ slots. some (
                          pos 0,
                          record vfs { world = after; heap = parsed; file_descriptors = slots },
                        ))
                        restored))
          ],
    )
