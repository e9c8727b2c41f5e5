-- ===== src/Descriptors/Tests.antt =====
-- The kernel's code segment, and four handlers.
use kernel_nesemulator.Prelude.{◌≡◌, refl, inr, some, arith}
use kernel_nesemulator.Descriptors.{GdtStructured, Entry, Handlers, encode_entry, idt_init}
use kernel_nesemulator.Descriptors.Interrupt.{handler, intended, handler-idt_init}
use kernel_nesemulator.Descriptors.Segment.{decode_entry, decode-encode_entry}

abbrev code_segment : GdtStructured
code_segment = record { base = 0; limit = 0xFFFFFFFF; type = 0x9A }

decode-encode_entry_example :
    (entry : Entry) × ((encode_entry code_segment ≡ some entry)
      × (decode_entry entry ≡ code_segment))
decode-encode_entry_example =
    decode-encode_entry code_segment (omega arith) (omega arith) (inr refl)

abbrev handlers : Handlers
handlers = record {
  no_interrupt = 0x100100;
  idt_zero = 0x100200;
  int21h = 0x100300;
  pit_irq = 0x100400;
}

handler-idt_init_example : handler (idt_init handlers) 0x21 ≡ intended handlers 0x21
handler-idt_init_example = handler-idt_init handlers 0x21 (omega arith)
