-- ===== src/Terminal/Tests.antt =====
-- A terminal near the end of row 3.
use kernel_nesemulator.Prelude.{
  ℕ, ◌≡◌, refl, some, none, List, [], ◌∷◌, length, arith, ◌^◌, ltb, if◌then◌else◌,
}
use kernel_nesemulator.Terminal.{Terminal, print, hex16, hex8, gethexchar, decimal, low_digits}
use kernel_nesemulator.Terminal.Column.{Written, print-Written}
use kernel_nesemulator.Terminal.Decimal.{number, number-decimal}

abbrev terminal : Terminal
terminal = record { video_mem = λ i. 0; terminal_row = 3; terminal_col = 79 }

-- Two letters, a newline, a letter.
abbrev text : List ℕ
text = 0x61 ∷ 0x62 ∷ 10 ∷ 0x63 ∷ []

print-Written_example : Written terminal (print terminal text) (length text)
print-Written_example = print-Written terminal text (omega arith) (omega arith)

number-decimal_example :
    (text : List ℕ) × ((decimal 2048 ≡ (if ltb 2048 (10 ^ 8) then some text else none))
      × (number 0 text ≡ 2048))
number-decimal_example = number-decimal 2048

written-digits : decimal 203 ≡ some (0x32 ∷ 0x30 ∷ 0x33 ∷ [])
unfolding decimal low_digits
written-digits = refl

written-hex : hex16 0xC00A ≡ 0x43 ∷ 0x30 ∷ 0x30 ∷ 0x41 ∷ []
unfolding hex16 hex8 gethexchar
written-hex = refl
