-- ===== src/Lib.antt =====
-- A model of KernelNESEmulator: the kernel heap, paging, files on a FAT16 disk, tasks, the processor's tables,
-- the terminal, the keyboard and the NES emulator.
--
-- The program is a small 32-bit kernel that runs an emulator of the NES's 6502 processor. The kernel
-- heap hands out blocks of 4096 bytes. Page tables translate addresses for user programs. The emulator
-- reads instructions from a ROM image, changes registers and 2 KB of RAM, and logs each instruction in
-- a list whose entries come from the kernel heap.
--
-- Prelude and its children: shared names, lists over native numbers, conversions to uint8_t,
-- uint16_t and uint32_t, C's int (ℤ), and properties of all bytes.
--
-- Heap: src/memory/heap/heap.c, heap.h and kheap.c. `Heap` is struct heap with its table:
-- `create`, `malloc`, `free` and the functions between them stand for heap_create, heap_malloc and
-- so on. A negative block, where heap_mark_blocks_free would begin below the table, is `none`.
--   Heap.Search      heap_get_start_block against a description by free runs
--   Heap.Mark        the marking and freeing loops on a table in three parts
--   Heap.Chain       tables whose has_next and is_first bits agree
--   Heap.RoundTrip   valid heaps, and free runs in them
--   Heap.Claims      heap_malloc_blocks and heap_free together
--   Heap.Limits      full tables, sizes, heap_create
--   Heap.Free        heap_free of any allocation
--   Heap.Sequence    several allocations, one behind the other
-- A heap is valid (`IsValid`) if the table has `total` entries that are linked well, the pool starts
-- above 0, is shorter than 2^31 bytes and ends below 2^32: the pool of kheap_init is such a one.
--
-- Paging: src/memory/paging/paging.c without paging_new_4gb and paging_free_4gb. Memory gives the
-- 32-bit word at each address, so that directories and tables may overlap.
--   Paging.Walk      paging_set against the processor's walk through the tables
--   Paging.Range     paging_map_range and paging_map_to
--
-- String: src/string/string.c. A pointer is the list of the bytes to the end of its object.
--   String.Compare   the results against the text in front of the terminator
--   String.Copy      strcpy, strncpy and the digits
-- MemoryFunctions: src/memory/memory.c, in the same way.
--
-- Disk: src/disk/disk.c. The controller is a parameter (`Drive`): the words that its data port gives behind
-- a read command. `Serves` states what the code relies on: a 28-bit command is answered with the words of
-- the sectors that it names. Waiting for the ready bit is left out.
--   Disk.Controller  the command and the bytes of one sector
--   Disk.Stream      src/disk/streamer.c
--   Disk.Stream.Content, Disk.Stream.Handle  reading a stream; its memory
--
-- Fat16: src/fs/fat/fat16.c. `Volume` is the disk with struct fat_private.
--   Fat16.Cluster    fat16_get_fat_entry to fat16_read_internal
--   Fat16.File       fat16_read, fat16_seek, fat16_stat
--   Fat16.Name       the names of directory items
--   Fat16.Directory  counting items and loading the root directory; Fat16.Directory.Count its proof
--   Fat16.Search     loading directories and searching in one; Fat16.Named its test of a name
--   Fat16.Open       searching for a path, fat16_open; Fat16.Lookup its proof
--   Fat16.Chain, Fat16.Content, Fat16.Reading  chains of clusters, and the bytes of files along them
--
-- Path: src/fs/pparser.c. Path.Parts and Path.Drive are about any path, Path.Print about printed ones,
-- Path.Memory about what the parser takes of the kernel heap.
--
-- Vfs: src/fs/file.c and file.h, over drivers that are a parameter.
--   Vfs.Slots        the table of descriptors
--   Vfs.Calls        sequences of calls
--   Vfs.RoundTrip    fopen and fclose
--
-- Tasks: the list of src/task/task.c. Tasks.Ring says what a list is that is linked well, Tasks.Join
-- is about new tasks, Tasks.Schedule about task_get_next, Tasks.Removal about task_list_remove.
--
-- Descriptors: src/gdt/gdt.c (Descriptors.Segment) and src/idt/idt.c (Descriptors.Interrupt).
--
-- Terminal: the terminal of src/kernel.c (Terminal.Column) and print_decimal (Terminal.Decimal).
--
-- Keyboard: src/drivers/keyboard/keyboard.c with the cursor of kernel.c and the scrolling of
-- src/emulator/CPU/tracelogger.c; Keyboard.Range is about sequences of keys.
--
-- Emulator: src/emulator/CPU. `Machine` is struct emulator with CPU_halted, the trace log and the
-- kernel heap; a C function is a command `Cpu A`, a function from a machine to a result and a machine.
--   Emulator.State       registers, log entries, the machine (emulator.h, tracelogger.h)
--   Emulator.Log         tracelogger.c: add_tracelog_entry, remove_first_entry, tail_log_set_*
--   Emulator.Bus         emu_read, emu_write, the stack, the counter, registers and flags
--   Emulator.Addressing  get_absolute_addr and the other modes
--   Emulator.Alu         ASL_op to BIT_op
--   Emulator.Opcode      the labels of the switch in emulate_CPU: `decode`
--   Emulator.Execute     the bodies of the switch, by groups of instructions
--   Emulator.Table       opcode_table.c, row by row
--   Emulator.Run         emulate_CPU, emu_run, emu_reset, emu_init
--   Emulator.Keeps       a rule for each command, by which a property of all instructions is shown
--   Emulator.Step        one call of emulate_CPU
--   Emulator.Termination the loop of emu_run, and with Emulator.Termination.Start that of emu_init
--   Emulator.Bits, Emulator.Effect  bytes and flags; commands up to the log
--   Emulator.Stack, Emulator.Sums, Emulator.Memory, Emulator.LogBound  what instructions do
-- The model is of the build that emulator.h chooses: DEBUG false and TRACELOGGER true. C leaves the
-- order of the two bit_XOR_A calls in ADC_op and SBC_op open; the model runs the left one first.
-- Stores outside every object (through a NULL log_tail, behind operands, kfree of a pointer below
-- the heap) are counted in `faults` and otherwise left without effect.
--
-- Bounds and fuel: emu_run takes the number of rounds as fuel. Some opcodes count no cycles, but those
-- change only the program counter and the log, so within 65536 rounds the counter meets an opcode that does;
-- as the loop ends at 1000 cycles, 1001 * 65536 rounds (`run_fuel`) are always enough. Cycle counts are
-- natural numbers, since they stay far below 2^31.
--
-- diskstreamer_read and fat16_read_internal call themselves with fewer bytes each time, and are given one more
-- call than there are bytes; pathparser_parse takes a byte at least for each part. Counting the items of a
-- directory takes fuel above the number of its items.
--
-- The file that emu_reset reads is a parameter: what fopen and fread give; what fopen takes of the heap
-- then is left out. Not modelled: the text that the
-- log, the menu and the hex dumps print, the debug tracker (off), the PPU stub, timer and VGA, resolving
-- and closing on a FAT16 volume, page directories of tasks, processes, the order of the
-- start in kernel_main, and assembly.
pub mod Prelude
pub mod Heap
pub mod Emulator
pub mod Paging
pub mod String
pub mod MemoryFunctions
pub mod Disk
pub mod Fat16
pub mod Path
pub mod Vfs
pub mod Tasks
pub mod Descriptors
pub mod Terminal
pub mod Keyboard
