-- ===== src/Descriptors/Interrupt.antt =====
-- The table that idt_init fills.
use mathlib.Core.Path.{subst}
use native.Mathlib.Decide.{ℕ_discrete}
use kernel_nesemulator.Prelude.{
  ℕ, zero, suc, ◌+◌, ◌*◌, ◌^◌, ◌<◌, ◌≤◌, ◌≡◌, ◌≢◌, refl, sym, ap, ◌∙◌, List, ◌==◌, if◌then◌else◌,
  length, get_or, replicate, length-set, length-replicate, get_or-set_self, get_or-set_ne, arith,
}
use kernel_nesemulator.Descriptors.{
  Gate, Handlers, gate, idt_set, set_all, idt_init, zero_gate, total_interrupts,
}

-- Where the processor goes for an interrupt.
abbrev pub handler : List Gate → ℕ → ℕ
handler gates i = let gate = get_or gates i zero_gate in gate.offset_1 + 2 ^ 16 * gate.offset_2

-- The handler that each interrupt is meant to have.
abbrev pub intended : Handlers → ℕ → ℕ
intended handlers i =
    if i == 0
    then handlers.idt_zero
    else if i == 0x21
    then handlers.int21h
    else if i == 0x20
    then handlers.pit_irq
    else handlers.no_interrupt

handler-gate : (address : ℕ) → (gate address).offset_1 + 2 ^ 16 * (gate address).offset_2 ≡ address
unfolding gate
handler-gate address = omega arith

handler_self :
    (gates : List Gate) (i address : ℕ)
    → i < length gates
    → handler (idt_set gates i address) i ≡ address
unfolding idt_set
handler_self gates i address h =
    ap (λ (g : Gate). g.offset_1 + 2 ^ 16 * g.offset_2)
      (get_or-set_self gates i (gate address) zero_gate h)
    ∙ handler-gate address

handler_ne :
    (gates : List Gate) (i j address : ℕ)
    → i ≢ j
    → handler (idt_set gates i address) j ≡ handler gates j
unfolding idt_set
handler_ne gates i j address h =
    ap (λ (g : Gate). g.offset_1 + 2 ^ 16 * g.offset_2)
      (get_or-set_ne gates i j (gate address) zero_gate h)

length-idt_set :
    (gates : List Gate) (i address : ℕ) → length (idt_set gates i address) ≡ length gates
unfolding idt_set
length-idt_set gates i address = length-set gates i (gate address)

length-set_all :
    (count i address : ℕ) (gates : List Gate)
    → length (set_all count i address gates) ≡ length gates
unfolding set_all
length-set_all zero i address gates = refl
length-set_all (suc count) i address gates =
    length-set_all count (i + 1) address (idt_set gates i address) ∙ length-idt_set gates i address

before-set_all :
    (count i address j : ℕ) (gates : List Gate)
    → j < i
    → handler (set_all count i address gates) j ≡ handler gates j
unfolding set_all
before-set_all zero i address j gates h = refl
before-set_all (suc count) i address j gates h =
    before-set_all count (i + 1) address j (idt_set gates i address) (omega arith)
    ∙ handler_ne gates i j address (λ e. absurd (omega (arith, e)))

handler-set_all :
    (count i address j : ℕ) (gates : List Gate)
    → i ≤ j
    → j < i + count
    → i + count ≤ length gates
    → handler (set_all count i address gates) j ≡ address
unfolding set_all
handler-set_all zero i address j gates low high inside = absurd (omega arith)
handler-set_all (suc count) i address j gates low high inside = elim (ℕ_discrete i j) [
  | yes here ↦
      before-set_all count (i + 1) address j (idt_set gates i address) (omega (arith, here))
      ∙ (ap (λ n. handler (idt_set gates n address) j) here
          ∙ handler_self gates j address (omega arith))
  | no later ↦
      handler-set_all count (i + 1) address j (idt_set gates i address) (above i j low later)
        (omega arith) (omega (arith, length-idt_set gates i address))
]
  where
    above : (i j : ℕ) → i ≤ j → i ≢ j → i + 1 ≤ j
    above i j low ne = ground arith

intended_rest :
    (handlers : Handlers) (i : ℕ)
    → i ≢ 0
    → i ≢ 0x21
    → i ≢ 0x20
    → handlers.no_interrupt ≡ intended handlers i
intended_rest handlers i a b c = ground arith

-- Behind idt_init, the processor finds for each of the 512 interrupts the address of its handler:
-- idt_zero for 0, pit_irq for 0x20, int21h for 0x21, and no_interrupt for all others.
pub handler-idt_init :
    (handlers : Handlers) (i : ℕ)
    → i < total_interrupts
    → handler (idt_init handlers) i ≡ intended handlers i
unfolding idt_init
handler-idt_init handlers i h =
    let gates = replicate total_interrupts zero_gate in
    let filled = set_all total_interrupts 0 handlers.no_interrupt gates in
    let one = idt_set filled 0 handlers.idt_zero in
    let two = idt_set one 0x21 handlers.int21h in
    let size : length filled ≡ 512 =
      length-set_all total_interrupts 0 handlers.no_interrupt gates
      ∙ length-replicate total_interrupts zero_gate in
    let size_one : length one ≡ 512 = length-idt_set filled 0 handlers.idt_zero ∙ size in
    let size_two : length two ≡ 512 = length-idt_set one 0x21 handlers.int21h ∙ size_one in
    elim (ℕ_discrete i 0) [
      | yes first ↦
          subst (λ n. handler (idt_init handlers) n ≡ intended handlers n) (sym first)
            (handler_ne two 0x20 0 handlers.pit_irq (omega arith)
              ∙ (handler_ne one 0x21 0 handlers.int21h (omega arith)
                  ∙ handler_self filled 0 handlers.idt_zero (omega (arith, size))))
      | no not_first ↦ elim (ℕ_discrete i 0x21) [
        | yes keyboard ↦
            subst (λ n. handler (idt_init handlers) n ≡ intended handlers n) (sym keyboard)
              (handler_ne two 0x20 0x21 handlers.pit_irq (omega arith)
                ∙ handler_self one 0x21 handlers.int21h (omega (arith, size_one)))
        | no other ↦ elim (ℕ_discrete i 0x20) [
          | yes timer ↦
              subst (λ n. handler (idt_init handlers) n ≡ intended handlers n) (sym timer)
                (handler_self two 0x20 handlers.pit_irq (omega (arith, size_two)))
          | no rest ↦
              handler_ne two 0x20 i handlers.pit_irq (λ e. rest (sym e))
              ∙ (handler_ne one 0x21 i handlers.int21h (λ e. other (sym e))
                  ∙ (handler_ne filled 0 i handlers.idt_zero (λ e. not_first (sym e))
                      ∙ (handler-set_all total_interrupts 0 handlers.no_interrupt i gates
                            (omega arith) (omega arith)
                            (omega (arith, length-replicate total_interrupts zero_gate))
                          ∙ intended_rest handlers i not_first other rest)))
        ]
      ]
    ]
