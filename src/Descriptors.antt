-- ===== src/Descriptors.antt =====
-- The processor's tables: gdt/gdt.c and idt/idt.c. `x & (2 ^ k - 1)` is written `x % 2 ^ k`, and a
-- shift as a division. The addresses of the handlers are parameters.
pub mod Segment
pub mod Interrupt
mod Tests
use kernel_nesemulator.Prelude.{
  ℕ, zero, suc, ◌+◌, ◌-◌, ◌*◌, ◌/◌, ◌%◌, ◌^◌, bit_or, ◌&&◌, Option, none, some, List, [], ◌∷◌, ltb,
  ◌!=◌, if◌then◌else◌, replicate, set, u8,
}

-- struct gdt_structured
pub record GdtStructured : Type 0 where
  pub base : ℕ
  pub limit : ℕ
  pub type : ℕ

-- The eight bytes of an entry.
pub record Entry : Type 0 where
  pub byte0 : ℕ
  pub byte1 : ℕ
  pub byte2 : ℕ
  pub byte3 : ℕ
  pub byte4 : ℕ
  pub byte5 : ℕ
  pub byte6 : ℕ
  pub byte7 : ℕ

-- `none` for the panic.
unfoldable pub encode_entry : GdtStructured → Option Entry
encode_entry source =
    if ltb 65536 source.limit && (source.limit % 2 ^ 12 != 0xFFF)
    then none
    else let limit = if ltb 65536 source.limit then source.limit / 2 ^ 12 else source.limit in
      let flags : ℕ = if ltb 65536 source.limit then 0xC0 else 0x40 in
      some (record {
        byte0 = limit % 2 ^ 8;
        byte1 = limit / 2 ^ 8 % 2 ^ 8;
        byte2 = source.base % 2 ^ 8;
        byte3 = source.base / 2 ^ 8 % 2 ^ 8;
        byte4 = source.base / 2 ^ 16 % 2 ^ 8;
        byte5 = source.type;
        byte6 = bit_or flags (limit / 2 ^ 16 % 2 ^ 4);
        byte7 = source.base / 2 ^ 24 % 2 ^ 8;
      })

abbrev pub prepend : Option Entry → Option (List Entry) → Option (List Entry)
prepend none entries = none
prepend (some entry) none = none
prepend (some entry) (some entries) = some (entry ∷ entries)

unfoldable pub structured_to_gdt : List GdtStructured → Option (List Entry)
unfolding encode_entry
structured_to_gdt [] = some []
structured_to_gdt (source ∷ sources) = prepend (encode_entry source) (structured_to_gdt sources)

abbrev pub total_interrupts : ℕ
total_interrupts = 512

abbrev pub kernel_code_selector : ℕ
kernel_code_selector = 0x08

-- struct idt_desc
pub record Gate : Type 0 where
  pub offset_1 : ℕ
  pub selector : ℕ
  pub zeroed : ℕ
  pub type_attr : ℕ
  pub offset_2 : ℕ

-- The entry that idt_set stores for a 32-bit address.
unfoldable pub gate : ℕ → Gate
gate address = record {
  offset_1 = address % 2 ^ 16;
  selector = kernel_code_selector;
  zeroed = 0x00;
  type_attr = 0x8E;
  offset_2 = address / 2 ^ 16;
}

unfoldable pub idt_set : List Gate → ℕ → ℕ → List Gate
unfolding gate
idt_set gates interrupt_no address = set gates interrupt_no (gate address)

-- The `for` of idt_init with `count` rounds left.
unfoldable pub set_all : ℕ → ℕ → ℕ → List Gate → List Gate
unfolding idt_set
set_all zero i address gates = gates
set_all (suc count) i address gates = set_all count (i + 1) address (idt_set gates i address)

-- The addresses that idt_init names.
pub record Handlers : Type 0 where
  pub no_interrupt : ℕ
  pub idt_zero : ℕ
  pub int21h : ℕ
  pub pit_irq : ℕ

abbrev pub zero_gate : Gate
zero_gate = record { offset_1 = 0; selector = 0; zeroed = 0; type_attr = 0; offset_2 = 0 }

-- Without the registers of idt_load.
unfoldable pub idt_init : Handlers → List Gate
unfolding set_all idt_set
idt_init handlers =
    let gates = replicate total_interrupts zero_gate in
    let filled = set_all total_interrupts 0 handlers.no_interrupt gates in
    idt_set (idt_set (idt_set filled 0 handlers.idt_zero) 0x21 handlers.int21h) 0x20
      handlers.pit_irq
