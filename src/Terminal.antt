-- ===== src/Terminal.antt =====
-- The text terminal and its numbers: kernel.c. The screen's memory gives the 16-bit cell at each
-- index.
pub mod Column
pub mod Decimal
mod Tests
use kernel_nesemulator.Prelude.{
  ℕ, zero, suc, ◌+◌, ◌-◌, ◌*◌, ◌/◌, ◌%◌, ◌^◌, bit_or, bit_and, Option, none, some, List, [], ◌∷◌,
  ◌++◌, leb, ltb, ◌==◌, ◌!=◌, if◌then◌else◌, get_or, length, u8, u16,
}

abbrev pub vga_width : ℕ
vga_width = 80

abbrev pub vga_height : ℕ
vga_height = 20

abbrev pub newline : ℕ
newline = 10

abbrev pub space : ℕ
space = 0x20

pub record Terminal : Type 0 where
  pub video_mem : ℕ → ℕ
  pub terminal_row : ℕ
  pub terminal_col : ℕ

-- For characters below 128, which have no sign.
unfoldable pub make_char : ℕ → ℕ → ℕ
make_char c colour = u16 (bit_or (colour * 2 ^ 8) c)

unfoldable pub putchar : Terminal → ℕ → ℕ → ℕ → ℕ → Terminal
unfolding make_char
putchar terminal x y c colour = record terminal {
  video_mem = λ i. if i == y * vga_width + x then make_char c colour else terminal.video_mem i;
}

-- The `while` behind a newline with `count` rounds left.
abbrev pub blank : ℕ → ℕ → Terminal → Terminal
blank zero temp_col terminal = terminal
blank (suc count) temp_col terminal =
    blank count (temp_col + 1) (putchar terminal temp_col terminal.terminal_row space 0)

abbrev pub at : Terminal → ℕ → ℕ → Terminal
at terminal row col = record terminal { terminal_row = u16 row; terminal_col = u16 col }

unfoldable pub writechar : Terminal → ℕ → ℕ → Terminal
unfolding putchar
writechar terminal c colour =
    let row = terminal.terminal_row in
    let col = terminal.terminal_col in
    let blanked = blank (vga_width + 1 - col) col terminal in
    let written = putchar terminal col row c colour in
    if c == newline
    then at blanked (row + 1) 0
    else if leb vga_width (col + 1)
    then at written (row + 1) 0
    else at written row (col + 1)

unfoldable pub reset_terminal : Terminal → Terminal
reset_terminal terminal = record terminal { terminal_row = 0; terminal_col = 0 }

-- The inner `for` of terminal_initialize, and the outer one.
abbrev pub clear_row : ℕ → ℕ → ℕ → Terminal → Terminal
clear_row zero x y terminal = terminal
clear_row (suc count) x y terminal = clear_row count (x + 1) y (putchar terminal x y space 0)

abbrev pub clear_rows : ℕ → ℕ → Terminal → Terminal
clear_rows zero y terminal = terminal
clear_rows (suc count) y terminal = clear_rows count (y + 1) (clear_row vga_width 0 y terminal)

unfoldable pub terminal_initialize : Terminal → Terminal
unfolding putchar reset_terminal
terminal_initialize terminal = clear_rows vga_height 0 (reset_terminal terminal)

-- The characters of a string, in front of its terminator.
unfoldable pub print : Terminal → List ℕ → Terminal
unfolding writechar
print terminal [] = terminal
print terminal (c ∷ str) = print (writechar terminal c 15) str

unfoldable pub print_spaces : Terminal → ℕ → Terminal
unfolding print
print_spaces terminal zero = terminal
print_spaces terminal (suc num_spaces) = print_spaces (print terminal (space ∷ [])) num_spaces

-- gethexchar of string/string.c, for a value below 16.
abbrev pub digits : List ℕ
digits =
    0x30 ∷ 0x31 ∷ 0x32 ∷ 0x33 ∷ 0x34 ∷ 0x35 ∷ 0x36 ∷ 0x37 ∷ 0x38 ∷ 0x39 ∷ 0x41 ∷ 0x42 ∷ 0x43 ∷ 0x44
    ∷ 0x45 ∷ 0x46 ∷ []

unfoldable pub gethexchar : ℕ → ℕ
gethexchar value = get_or digits value 0

-- The characters that the printing functions write, in their order.
unfoldable pub hex8 : ℕ → List ℕ
unfolding gethexchar
hex8 value = gethexchar (value / 2 ^ 4) ∷ gethexchar (value % 2 ^ 4) ∷ []

unfoldable pub hex16 : ℕ → List ℕ
unfolding hex8
hex16 value = hex8 (value / 2 ^ 8 % 2 ^ 8) ++ hex8 (value % 2 ^ 8)

unfoldable pub print_hex8 : Terminal → ℕ → Terminal
unfolding hex8 print
print_hex8 terminal value = print terminal (hex8 value)

unfoldable pub print_hex16 : Terminal → ℕ → Terminal
unfolding hex16 print
print_hex16 terminal value = print terminal (hex16 value)

-- The `while` of print_decimal for as many rounds as there is fuel: the digits, the lowest first.
unfoldable pub low_digits : ℕ → ℕ → List ℕ
low_digits zero value = []
low_digits (suc fuel) value =
    let rest = low_digits fuel (value / 10) in
    if ltb 0 value then (value % 10 + 0x30) ∷ rest else []

-- The `for` from the last digit down.
abbrev pub backwards : List ℕ → List ℕ → List ℕ
backwards [] written = written
backwards (digit ∷ rest) written = backwards rest (digit ∷ written)

-- The array holds eight digits: `none` is a store behind it.
abbrev pub checked : List ℕ → Option (List ℕ)
checked found = if ltb 8 (length found) then none else some (backwards found [])

-- For a value that is not negative; for a negative one nothing is written. Each round takes a digit
-- off.
unfoldable pub decimal : ℕ → Option (List ℕ)
unfolding low_digits
decimal value = if value == 0 then some (0x30 ∷ []) else checked (low_digits value value)

abbrev pub print_some : Terminal → Option (List ℕ) → Option Terminal
print_some terminal none = none
print_some terminal (some written) = some (print terminal written)

unfoldable pub print_decimal : Terminal → ℕ → Option Terminal
unfolding decimal print
print_decimal terminal value = print_some terminal (decimal value)

-- The `for` of print_binary with `count` rounds left.
abbrev pub bits : ℕ → ℕ → ℕ → List ℕ
bits zero mask value = []
bits (suc count) mask value =
    (if bit_and value mask != 0 then 0x31 else 0x30) ∷ bits count (u8 (mask / 2)) value

unfoldable pub print_binary : Terminal → ℕ → Terminal
unfolding print
print_binary terminal value = print terminal (bits 8 0x80 value)
