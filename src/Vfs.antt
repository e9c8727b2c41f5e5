-- ===== src/Vfs.antt =====
-- The virtual file system: fs/file.c and file.h. Filesystem drivers and what they change are
-- parameters: `W` is the drivers' state, and `driver` the functions behind the address of a `struct
-- filesystem`, with what these take of the kernel heap. Messages are left out.
pub mod Slots
pub mod Calls
pub mod RoundTrip
mod Tests
use kernel_nesemulator.Prelude.{
  ℕ, zero, suc, ◌+◌, ◌-◌, ◌^◌, Bool, true, false, ◌||◌, Option, none, some, List, [], ◌∷◌, leb,
  ◌==◌, if◌then◌else◌, length, get_or, set, u32, ℤ, pos, negsuc, neg,
}
use kernel_nesemulator.Heap.{Heap, einvarg, enomem, malloc, free}
use kernel_nesemulator.Disk.{Platform, eio, get}
use kernel_nesemulator.String.{strncmp}
use kernel_nesemulator.Path.{PathRoot, parse, allocate_path}
use kernel_nesemulator.Fat16.File.{FileStat}

abbrev pub max_file_descriptors : ℕ
max_file_descriptors = 512

-- FILE_MODE
pub data FileMode : Type 0 where
  read_mode : FileMode
  write_mode : FileMode
  append_mode : FileMode
  invalid_mode : FileMode

-- The functions of a driver. Private data are an address, as the int that ISERR tests. The disk is
-- disk 0.
pub record Driver (W : Type 0) : Type 0 where
  pub resolve : W → ℤ × W
  pub open_file : W → List (List ℕ) → FileMode → ℤ × W
  pub read : W → ℤ → ℕ → ℕ → ℤ × (List ℕ × W)
  pub seek : W → ℤ → ℕ → ℕ → ℤ × W
  pub stat : W → ℤ → FileStat → ℤ × (FileStat × W)
  pub close : W → ℤ → ℤ × W

-- A descriptor and its address in the kernel heap.
pub record FileDescriptor : Type 0 where
  pub address : ℕ
  pub index : ℕ
  pub filesystem : ℕ
  pub private : ℤ
  pub disk : ℕ

abbrev pub Slots : Type 0
Slots = List (Option FileDescriptor)

-- The arrays of file.c, `filesystem` of the disk, the kernel heap and the drivers' state.
pub record Vfs (W : Type 0) : Type 0 where
  pub filesystems : List ℕ
  pub file_descriptors : Slots
  pub disk_filesystem : ℕ
  pub heap : Heap
  pub world : W

-- The first free entry behind entry `i`.
unfoldable pub free_slot : Slots → ℕ → Option ℕ
free_slot [] i = none
free_slot (none ∷ slots) i = some i
free_slot (some descriptor ∷ slots) i = free_slot slots (i + 1)

unfoldable pub get_descriptor : Slots → ℤ → Option FileDescriptor
get_descriptor slots (negsuc n) = none
get_descriptor slots (pos zero) = none
get_descriptor slots (pos (suc index)) =
    if leb max_file_descriptors (suc index) then none else get_or slots index none

abbrev pub mode_of : Option ℤ → Option ℤ → Option ℤ → Option FileMode
mode_of (some (pos zero)) w a = some read_mode
mode_of (some r) (some (pos zero)) a = some write_mode
mode_of (some r) (some w) (some (pos zero)) = some append_mode
mode_of (some r) (some w) (some a) = some invalid_mode
mode_of _ _ _ = none

-- `none` for a read behind the end of the string's object.
unfoldable pub get_mode_by_string : List ℕ → Option FileMode
unfolding strncmp
get_mode_by_string str =
    mode_of (strncmp str (0x72 ∷ 0 ∷ []) 1) (strncmp str (0x77 ∷ 0 ∷ []) 1)
      (strncmp str (0x61 ∷ 0 ∷ []) 1)

-- A `uint32_t` made from an int.
abbrev pub unsigned : ℤ → ℕ
unsigned (pos n) = u32 n
unsigned (negsuc n) = 2 ^ 32 - 1 - n

-- The first entry of `filesystems` that is 0.
unfoldable pub get_free_filesystem : List ℕ → ℕ → Option ℕ
get_free_filesystem [] i = none
get_free_filesystem (fs ∷ filesystems) i =
    let later = get_free_filesystem filesystems (i + 1) in if fs == 0 then some i else later

abbrev pub insert_at : List ℕ → ℕ → Option ℕ → Option (List ℕ)
insert_at filesystems fs none = none
insert_at filesystems fs (some i) = some (set filesystems i fs)

-- Without a free entry the code loops for ever, which is `none`.
unfoldable pub insert_filesystem : List ℕ → ℕ → Option (List ℕ)
unfolding get_free_filesystem
insert_filesystem filesystems fs = insert_at filesystems fs (get_free_filesystem filesystems 0)

module _ {W : Type 0} where
  -- Behind kzalloc in file_new_descriptor, and the stores of fopen: `none` is a store through NULL.
  abbrev pub fill_descriptor : Vfs W → ℕ → ℤ → ℕ → ℕ × Heap → Option (ℤ × Vfs W)
  fill_descriptor vfs i private disk (address, heap) =
      if address == 0
      then none
      else some (
        pos (i + 1),
        record vfs {
          file_descriptors = set vfs.file_descriptors i (
              some (record {
                address = address;
                index = i + 1;
                filesystem = vfs.disk_filesystem;
                private = private;
                disk = disk;
              }));
          heap = heap;
        },
      )

  -- file_new_descriptor and what stands behind it in fopen. A descriptor has 16 bytes.
  abbrev pub new_descriptor : Vfs W → ℤ → ℕ → Option ℕ → Option (ℤ × Vfs W)
  new_descriptor vfs private disk none = some (neg enomem, vfs)
  new_descriptor vfs private disk (some i) = fill_descriptor vfs i private disk (malloc vfs.heap 16)

  -- Behind the driver's open.
  abbrev pub opened : Vfs W → ℕ → ℤ × W → Option (ℤ × Vfs W)
  opened vfs disk (negsuc error, world) = some (negsuc error, record vfs { world = world })
  opened vfs disk (pos private, world) =
      new_descriptor (record vfs { world = world }) (pos private) disk
        (free_slot vfs.file_descriptors 0)

  -- `if (res < 0) res = 0`
  abbrev pub no_error : Option (ℤ × Vfs W) → Option (ℤ × Vfs W)
  no_error none = none
  no_error (some (negsuc error, vfs)) = some (pos 0, vfs)
  no_error (some (pos res, vfs)) = some (pos res, vfs)

  module _ (platform : Platform) (driver : ℕ → Driver W) where
    abbrev pub open_mode : Vfs W → List (List ℕ) → ℕ → Option FileMode → Option (ℤ × Vfs W)
    open_mode vfs parts disk none = none
    open_mode vfs parts disk (some invalid_mode) = some (neg einvarg, vfs)
    open_mode vfs parts disk (some mode) =
        opened vfs disk ((driver vfs.disk_filesystem).open_file vfs.world parts mode)

    -- Behind the parser.
    abbrev pub open_path : Vfs W → List ℕ → Option PathRoot → Option (ℤ × Vfs W)
    open_path vfs mode_str none = some (neg einvarg, vfs)
    open_path vfs mode_str (some root) =
        let disk = get platform root.drive_no in
        if length root.parts == 0
        then some (neg einvarg, vfs)
        else if disk == 0
        then some (neg eio, vfs)
        else if vfs.disk_filesystem == 0
        then some (neg eio, vfs)
        else open_mode vfs root.parts disk (get_mode_by_string mode_str)

    -- The path's memory is never freed.
    abbrev pub keep_path : Vfs W → List ℕ → Option PathRoot → Option Heap → Option (ℤ × Vfs W)
    keep_path vfs mode_str path none = none
    keep_path vfs mode_str path (some heap) = open_path (record vfs { heap = heap }) mode_str path

    abbrev pub open_parsed : Vfs W → List ℕ → Option (Option PathRoot) → Option (ℤ × Vfs W)
    open_parsed vfs mode_str none = none
    open_parsed vfs mode_str (some path) = keep_path vfs mode_str path (allocate_path path vfs.heap)

    unfoldable pub fopen : Vfs W → List ℕ → List ℕ → Option (ℤ × Vfs W)
    unfolding get_mode_by_string free_slot allocate_path
    fopen vfs filename mode_str = no_error (open_parsed vfs mode_str (parse filename))

  module _ (driver : ℕ → Driver W) where
    -- Behind one driver's resolve.
    abbrev pub resolved : ℕ → ℤ × W → (W → ℕ × W) → ℕ × W
    resolved fs (pos zero, world) rest = (fs, world)
    resolved fs (pos (suc res), world) rest = rest world
    resolved fs (negsuc error, world) rest = rest world

    -- The `for` over what is left of `filesystems`: the address that resolves, or 0.
    unfoldable pub resolve : List ℕ → W → ℕ × W
    resolve [] world = (0, world)
    resolve (fs ∷ filesystems) world =
        let rest = λ (after : W). resolve filesystems after in
        if fs == 0 then rest world else resolved fs ((driver fs).resolve world) rest

    abbrev pub read_into : Vfs W → ℤ × (List ℕ × W) → ℤ × (List ℕ × Vfs W)
    read_into vfs (res, (bytes, world)) = (res, (bytes, record vfs { world = world }))

    abbrev pub read_descriptor : Vfs W → ℕ → ℕ → Option FileDescriptor → ℤ × (List ℕ × Vfs W)
    read_descriptor vfs size nmemb none = (neg einvarg, ([], vfs))
    read_descriptor vfs size nmemb (some desc) =
        read_into vfs ((driver desc.filesystem).read vfs.world desc.private size nmemb)

    abbrev pub below_one : ℤ → Bool
    below_one (pos n) = n == 0
    below_one (negsuc n) = true

    -- The result, what `ptr` receives, and the state.
    unfoldable pub fread : Vfs W → ℕ → ℕ → ℤ → ℤ × (List ℕ × Vfs W)
    unfolding get_descriptor
    fread vfs size nmemb fd =
        if (size == 0) || ((nmemb == 0) || below_one fd)
        then (neg einvarg, ([], vfs))
        else read_descriptor vfs size nmemb (get_descriptor vfs.file_descriptors fd)

    abbrev pub with_world : Vfs W → ℤ × W → ℤ × Vfs W
    with_world vfs (res, world) = (res, record vfs { world = world })

    abbrev pub seek_descriptor : Vfs W → ℕ → ℕ → Option FileDescriptor → ℤ × Vfs W
    seek_descriptor vfs offset whence none = (neg eio, vfs)
    seek_descriptor vfs offset whence (some desc) =
        with_world vfs ((driver desc.filesystem).seek vfs.world desc.private offset whence)

    unfoldable pub fseek : Vfs W → ℤ → ℤ → ℕ → ℤ × Vfs W
    unfolding get_descriptor
    fseek vfs fd offset whence =
        seek_descriptor vfs (unsigned offset) whence (get_descriptor vfs.file_descriptors fd)

    abbrev pub stat_into : Vfs W → ℤ × (FileStat × W) → ℤ × (FileStat × Vfs W)
    stat_into vfs (res, (stat, world)) = (res, (stat, record vfs { world = world }))

    abbrev pub stat_descriptor : Vfs W → FileStat → Option FileDescriptor → ℤ × (FileStat × Vfs W)
    stat_descriptor vfs stat none = (neg eio, (stat, vfs))
    stat_descriptor vfs stat (some desc) =
        stat_into vfs ((driver desc.filesystem).stat vfs.world desc.private stat)

    unfoldable pub fstat : Vfs W → ℤ → FileStat → ℤ × (FileStat × Vfs W)
    unfolding get_descriptor
    fstat vfs fd stat = stat_descriptor vfs stat (get_descriptor vfs.file_descriptors fd)

    -- kfree of the descriptor.
    abbrev pub with_heap : Vfs W → Option Heap → Option (ℤ × Vfs W)
    with_heap vfs none = none
    with_heap vfs (some heap) = some (pos 0, record vfs { heap = heap })

    abbrev pub free_descriptor : Vfs W → FileDescriptor → Option (ℤ × Vfs W)
    free_descriptor vfs desc =
        with_heap (record vfs { file_descriptors = set vfs.file_descriptors (desc.index - 1) none })
          (free vfs.heap desc.address)

    -- Behind the driver's close.
    abbrev pub closed : Vfs W → FileDescriptor → ℤ × W → Option (ℤ × Vfs W)
    closed vfs desc (negsuc error, world) = some (negsuc error, record vfs { world = world })
    closed vfs desc (pos (suc res), world) = some (pos (suc res), record vfs { world = world })
    closed vfs desc (pos zero, world) = free_descriptor (record vfs { world = world }) desc

    abbrev pub close_descriptor : Vfs W → Option FileDescriptor → Option (ℤ × Vfs W)
    close_descriptor vfs none = some (neg eio, vfs)
    close_descriptor vfs (some desc) =
        closed vfs desc ((driver desc.filesystem).close vfs.world desc.private)

    unfoldable pub fclose : Vfs W → ℤ → Option (ℤ × Vfs W)
    unfolding get_descriptor
    fclose vfs fd = close_descriptor vfs (get_descriptor vfs.file_descriptors fd)
