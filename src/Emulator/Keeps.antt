-- ===== src/Emulator/Keeps.antt =====
-- Predicates on the emulator's state that a command preserves, with a rule for each way to build a
-- command.
pub mod Setter
pub mod Primitive
pub mod Instruction
pub mod Noted
