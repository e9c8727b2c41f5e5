-- ===== src/Vfs/Calls.antt =====
-- Any sequence of calls of the virtual file system, and the table that they keep.
use kernel_nesemulator.Prelude.{ℕ, ◌≡◌, Option, none, some, List, ℤ}
use kernel_nesemulator.Heap.{Heap}
use kernel_nesemulator.Disk.{Platform}
use kernel_nesemulator.Fat16.File.{FileStat}
use kernel_nesemulator.Vfs.{Driver, Vfs, fopen, fread, fseek, fstat, fclose}
use kernel_nesemulator.Vfs.Slots.{IsTable}

pub data Call : Type 0 where
  call_fopen : List ℕ → List ℕ → Call
  call_fread : ℕ → ℕ → ℤ → Call
  call_fseek : ℤ → ℤ → ℕ → Call
  call_fstat : ℤ → FileStat → Call
  call_fclose : ℤ → Call

module _ {W : Type 0} where
  -- A call's state is well-formed, if it returns.
  abbrev Kept : Option (ℤ × Vfs W) → Type 0
  Kept none = Unit
  Kept (some (res, vfs)) = IsTable vfs.file_descriptors

  module _ (platform : Platform) (driver : ℕ → Driver W) where
    -- One call of the file functions.
    unfoldable pub execute : Call → Vfs W → Option (ℤ × Vfs W)
    execute (call_fopen filename mode_str) vfs = fopen platform driver vfs filename mode_str
    execute (call_fread size nmemb fd) vfs =
        let read = fread driver vfs size nmemb fd in some (read.0, read.1.1)
    execute (call_fseek fd offset whence) vfs = some (fseek driver vfs fd offset whence)
    execute (call_fstat fd stat) vfs =
        let read = fstat driver vfs fd stat in some (read.0, read.1.1)
    execute (call_fclose fd) vfs = fclose driver vfs fd

    -- Calls in their order, as long as they return.
    pub data Runs : Vfs W → Vfs W → Type 0 where
      start : {vfs : Vfs W} → Runs vfs vfs
      after :
          {vfs before behind : Vfs W} {res : ℤ}
          → Runs vfs before
          → (call : Call) → execute call before ≡ some (res, behind)
          → Runs vfs behind
