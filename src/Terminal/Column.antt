-- ===== src/Terminal/Column.antt =====
-- Where writing leaves the terminal.
use mathlib.Core.Path.{subst}
use kernel_nesemulator.Prelude.{
  Bool, false, ◌&&◌, if◌then◌else◌, ℕ, zero, suc, ◌+◌, ◌-◌, ◌*◌, ◌<◌, ◌≤◌, ◌≡◌, ◌≢◌, ◌⊎◌, refl, ◌∙◌,
  List, [], ◌∷◌, length, leb, ◌==◌, arith, Bool-cases, leb-false→lt, inl, inr,
}
use kernel_nesemulator.Terminal.{Terminal, vga_width, newline, putchar, blank, writechar, print}

-- What a text leaves as it was outside the cells that it may touch, and where it ends.
record Moves (before after : Terminal) (count : ℕ) : Type 0 where
  pub column : after.terminal_col < vga_width
  pub forward :
      before.terminal_row * vga_width + before.terminal_col
      ≤ after.terminal_row * vga_width + after.terminal_col
  pub upper : after.terminal_row ≤ before.terminal_row + count
  pub kept :
      (i : ℕ)
      → (i < before.terminal_row * vga_width + before.terminal_col)
        ⊎ ((before.terminal_row + count) * vga_width + vga_width < i)
      → after.video_mem i ≡ before.video_mem i

putchar-elsewhere :
    (terminal : Terminal) (x y c colour i : ℕ)
    → i ≢ y * vga_width + x
    → (putchar terminal x y c colour).video_mem i ≡ terminal.video_mem i
unfolding putchar
putchar-elsewhere terminal x y c colour i h = ground arith

blank-elsewhere :
    (count col i : ℕ) (terminal : Terminal)
    → (i < terminal.terminal_row * vga_width + col)
      ⊎ (terminal.terminal_row * vga_width + col + count ≤ i)
    → (blank count col terminal).video_mem i ≡ terminal.video_mem i
unfolding putchar
blank-elsewhere zero col i terminal h = refl
blank-elsewhere (suc count) col i terminal h =
    blank-elsewhere count (col + 1) i (putchar terminal col terminal.terminal_row 0x20 0) (next h)
    ∙ putchar-elsewhere terminal col terminal.terminal_row 0x20 0 i (apart h)
  where
    next :
        (i < terminal.terminal_row * vga_width + col)
          ⊎ (terminal.terminal_row * vga_width + col + suc count ≤ i)
        → (i < terminal.terminal_row * vga_width + (col + 1))
          ⊎ (terminal.terminal_row * vga_width + (col + 1) + count ≤ i)
    next (inl a) = inl (omega arith)
    next (inr b) = inr (omega arith)

    apart :
        (i < terminal.terminal_row * vga_width + col)
          ⊎ (terminal.terminal_row * vga_width + col + suc count ≤ i)
        → i ≢ terminal.terminal_row * vga_width + col
    apart (inl a) = omega arith
    apart (inr b) = omega arith

writechar-newline :
    (terminal : Terminal) (colour : ℕ)
    → terminal.terminal_col < vga_width
    → terminal.terminal_row + 1 < 65536
    → Moves terminal (writechar terminal newline colour) 1
unfolding writechar
writechar-newline terminal colour col row = record {
  column = omega arith;
  forward = omega (arith, col, row);
  upper = omega (arith, row);
  kept = λ i h.
      blank-elsewhere (vga_width + 1 - terminal.terminal_col) terminal.terminal_col i terminal
        (outside i h);
}
  where
    outside :
        (i : ℕ)
        → (i < terminal.terminal_row * vga_width + terminal.terminal_col)
          ⊎ ((terminal.terminal_row + 1) * vga_width + vga_width < i)
        → (i < terminal.terminal_row * vga_width + terminal.terminal_col)
          ⊎ (terminal.terminal_row * vga_width
                + terminal.terminal_col
                + (vga_width + 1 - terminal.terminal_col)
              ≤ i)
    outside i (inl a) = inl a
    outside i (inr b) = inr (omega (arith, col, b))

put-kept :
    (terminal : Terminal) (c colour i : ℕ)
    → terminal.terminal_col < vga_width
    → (i < terminal.terminal_row * vga_width + terminal.terminal_col)
      ⊎ ((terminal.terminal_row + 1) * vga_width + vga_width < i)
    → (putchar terminal terminal.terminal_col terminal.terminal_row c colour).video_mem i
      ≡ terminal.video_mem i
put-kept terminal c colour i col (inl a) =
    putchar-elsewhere terminal terminal.terminal_col terminal.terminal_row c colour i (omega arith)
put-kept terminal c colour i col (inr b) =
    putchar-elsewhere terminal terminal.terminal_col terminal.terminal_row c colour i (omega arith)

writechar-Moves :
    (terminal : Terminal) (c colour : ℕ)
    → terminal.terminal_col < vga_width
    → terminal.terminal_row + 1 < 65536
    → Moves terminal (writechar terminal c colour) 1
unfolding writechar
writechar-Moves terminal c colour col row = elim (Bool-cases (c == newline)) [
  | inl feed ↦
      let same : newline ≡ c = ground arith in
      subst (λ n. Moves terminal (writechar terminal n colour) 1) same
        (writechar-newline terminal colour col row)
  | inr shown ↦ elim (Bool-cases (leb vga_width (terminal.terminal_col + 1))) [
    | inl full ↦
        rw (shown, full)
          (record {
            column = omega arith;
            forward = omega (arith, col, row);
            upper = omega (arith, row);
            kept = λ i h. put-kept terminal c colour i col h;
          })
    | inr room ↦
        let inside : terminal.terminal_col + 1 < vga_width =
          leb-false→lt vga_width (terminal.terminal_col + 1) room in
        rw (shown, room)
          (record {
            column = omega (arith, inside);
            forward = omega (arith, inside, row);
            upper = omega (arith, row);
            kept = λ i h. put-kept terminal c colour i col h;
          })
  ]
]

-- A text, character by character.
print-Moves :
    (terminal : Terminal) (str : List ℕ)
    → terminal.terminal_col < vga_width
    → terminal.terminal_row + length str < 65536
    → Moves terminal (print terminal str) (length str)
unfolding print
print-Moves terminal [] col row = record {
  column = col;
  forward = omega arith;
  upper = omega arith;
  kept = λ i h. refl;
}
print-Moves terminal (c ∷ str) col row =
    let one = writechar-Moves terminal c 15 col (omega arith) in
    let rest = print-Moves (writechar terminal c 15) str one.column (omega (arith, one.upper)) in
    record {
      column = rest.column;
      forward = omega (arith, one.forward, rest.forward);
      upper = omega (arith, one.upper, rest.upper);
      kept =
          λ i h. rest.kept i (further (writechar terminal c 15) one i h) ∙ one.kept i (nearer i h);
    }
  where
    nearer :
        (i : ℕ)
        → (i < terminal.terminal_row * vga_width + terminal.terminal_col)
          ⊎ ((terminal.terminal_row + suc (length str)) * vga_width + vga_width < i)
        → (i < terminal.terminal_row * vga_width + terminal.terminal_col)
          ⊎ ((terminal.terminal_row + 1) * vga_width + vga_width < i)
    nearer i (inl a) = inl a
    nearer i (inr b) = inr (omega arith)

    further :
        (after : Terminal)
        → Moves terminal after 1
        → (i : ℕ)
        → (i < terminal.terminal_row * vga_width + terminal.terminal_col)
          ⊎ ((terminal.terminal_row + suc (length str)) * vga_width + vga_width < i)
        → (i < after.terminal_row * vga_width + after.terminal_col)
          ⊎ ((after.terminal_row + length str) * vga_width + vga_width < i)
    further after w i (inl a) = inl (omega (arith, w.forward))
    further after w i (inr b) = inr (omega (arith, w.upper))

-- The cells from the place where a text of `count` characters starts to the first one of the row
-- below the last one that it may reach.
abbrev pub may_touch : Terminal → ℕ → ℕ → Bool
may_touch terminal count i =
    leb (terminal.terminal_row * vga_width + terminal.terminal_col) i
    && leb i ((terminal.terminal_row + count) * vga_width + vga_width)

-- What a text leaves as it was, and where it ends.
pub record Written (before after : Terminal) (count : ℕ) : Type 0 where
  pub column : after.terminal_col < vga_width
  pub forward :
      before.terminal_row * vga_width + before.terminal_col
      ≤ after.terminal_row * vga_width + after.terminal_col
  pub upper : after.terminal_row ≤ before.terminal_row + count
  pub cells :
      (i : ℕ)
      → after.video_mem i
        ≡ (if may_touch before count i then after.video_mem i else before.video_mem i)

outside_of : (low high i : ℕ) → (leb low i && leb i high) ≡ false → (i < low) ⊎ (high < i)
outside_of low high i h = elim (Bool-cases (leb low i)) [
  | inl above ↦ inr (leb-false→lt i high (ground (arith, above, h)))
  | inr below ↦ inl (leb-false→lt low i below)
]

-- From a column on the screen, and while the row's counter does not wrap, print leaves the column
-- on the screen, moves forward by at most one row for each character, and changes no cell before
-- the place where it starts, nor any behind the first one of the row below the last one that it may
-- reach.
pub print-Written :
    (terminal : Terminal) (str : List ℕ)
    → terminal.terminal_col < vga_width
    → terminal.terminal_row + length str < 65536
    → Written terminal (print terminal str) (length str)
print-Written terminal str col row =
    let m = print-Moves terminal str col row in
    record {
      column = m.column;
      forward = m.forward;
      upper = m.upper;
      cells = λ i. elim (Bool-cases (may_touch terminal (length str) i)) [
        | inl touched ↦ rw touched refl
        | inr untouched ↦ rw untouched (
            m.kept i (
              outside_of (terminal.terminal_row * vga_width + terminal.terminal_col)
                ((terminal.terminal_row + length str) * vga_width + vga_width) i untouched))
      ];
    }
