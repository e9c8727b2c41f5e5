-- ===== src/Emulator.antt =====
-- The NES emulator of emulator/CPU: the 6502 interpreter, its trace log and its opcode table.
pub mod State
pub mod Log
pub mod Bus
pub mod Addressing
pub mod Alu
pub mod Opcode
pub mod Execute
pub mod Table
pub mod Run
pub mod Keeps
pub mod Step
pub mod Termination
pub mod Bits
pub mod Effect
pub mod Stack
pub mod Sums
pub mod Memory
pub mod LogBound
mod Tests
