-- ===== src/Emulator/Execute.antt =====
-- The `switch` of `emulate_CPU`.
pub mod LoadStore
pub mod Control
pub mod Transfer
pub mod Bitwise
pub mod Arithmetic
use kernel_nesemulator.Prelude.{true}
use kernel_nesemulator.Emulator.State.{Cpu, pure, modify}
use kernel_nesemulator.Emulator.Opcode.{
  Opcode, load_store, branch, control, transfer, shift, logic, arithmetic, hlt, nop, unknown,
}
use LoadStore.{exec_load_store}
use Control.{exec_branch, exec_control}
use Transfer.{exec_transfer}
use Bitwise.{exec_shift, exec_logic}
use Arithmetic.{exec_arith}

unfoldable pub execute : Opcode → Cpu (Unit {0})
execute (load_store op) = exec_load_store op
execute (branch op) = exec_branch op
execute (control op) = exec_control op
execute (transfer op) = exec_transfer op
execute (shift op) = exec_shift op
execute (logic op) = exec_logic op
execute (arithmetic op) = exec_arith op
execute hlt = modify (λ s. record s { halted = true })
execute nop = pure tt
execute unknown = pure tt
