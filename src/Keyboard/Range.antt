-- ===== src/Keyboard/Range.antt =====
-- What any sequence of keys keeps.
use kernel_nesemulator.Prelude.{
  ℕ, zero, suc, ◌+◌, ◌≤◌, ◌<◌, ◌≡◌, refl, ◌∙◌, Bool, true, false, ◌&&◌, Option, some, List, [], ◌∷◌,
  ltb, ◌==◌, if◌then◌else◌, ℤ, pos, arith, Bool-cases, inl, inr,
}
use kernel_nesemulator.Keyboard.{
  Keys, next, prev, decrease, increment_cursor, decrement_cursor, scroll_down, scroll_up,
  handle_scancode, handle_all,
}

-- An int that names one of the six ROMs.
abbrev pub IsRom : ℤ → Type 0
IsRom i = (c : ℕ) × (i ≡ pos c) × (c < 6)

-- A pointer to an entry of the log whose last place is `last`, and an index that counts its place.
abbrev pub IsEntry : ℕ → Option ℕ → ℤ → Type 0
IsEntry last entry index = (i : ℕ) × (entry ≡ some i) × (index ≡ pos i) × (i ≤ last)

pub record InRange (keys : Keys) : Type 0 where
  pub cursor : IsRom keys.cursor_index
  pub selection : IsEntry keys.current_length keys.selected_entry keys.cur_selected_index

-- What keys never change back.
pub record Chosen (before after : Keys) : Type 0 where
  pub selected : (before.rom_selected && after.rom_selected) ≡ before.rom_selected
  pub rom :
      (if before.rom_selected then after.cursor_index else before.cursor_index)
      ≡ before.cursor_index
  pub log : after.current_length ≡ before.current_length

increased-IsRom : (c : ℕ) → c < 6 → IsRom (if ltb c 5 then pos (c + 1) else pos c)
increased-IsRom c h = elim (Bool-cases (ltb c 5)) [
  | inl low ↦ rw low (c + 1, refl, ground (arith, low))
  | inr high ↦ rw high (c, refl, h)
]

decreased-IsRom : (c : ℕ) → c < 6 → IsRom (if ltb 0 c then decrease (pos c) else pos c)
decreased-IsRom zero h = (0, refl, h)
decreased-IsRom (suc c) h =
    let above : ltb 0 (suc c) ≡ true = ground arith in rw above (c, refl, omega arith)

next-IsEntry :
    (last i : ℕ)
    → i ≤ last
    → IsEntry last
        (if ltb (i + 24) last then next last (some i) else some i)
        (if ltb (i + 24) last then pos (i + 1) else pos i)
next-IsEntry last i h = elim (Bool-cases (ltb (i + 24) last)) [
  | inl low ↦
      let inside : (i == last) ≡ false = ground (arith, low) in
      rw (low, inside) (i + 1, refl, refl, ground (arith, low))
  | inr high ↦ rw high (i, refl, refl, h)
]

prev-IsEntry :
    (last i : ℕ)
    → i ≤ last
    → IsEntry last
        (if ltb 0 i then prev (some i) else some i)
        (if ltb 0 i then decrease (pos i) else pos i)
prev-IsEntry last zero h = (0, refl, refl, h)
prev-IsEntry last (suc i) h =
    let above : ltb 0 (suc i) ≡ true = ground arith in rw above (i, refl, refl, omega arith)

increment_cursor-InRange : (keys : Keys) → InRange keys → InRange (increment_cursor keys)
unfolding increment_cursor
increment_cursor-InRange keys r =
    let (c, e, h) = r.cursor in
    record { cursor = rw e (increased-IsRom c h); selection = r.selection }

decrement_cursor-InRange : (keys : Keys) → InRange keys → InRange (decrement_cursor keys)
unfolding decrement_cursor
decrement_cursor-InRange keys r =
    let (c, e, h) = r.cursor in
    record { cursor = rw e (decreased-IsRom c h); selection = r.selection }

scroll_down-InRange : (keys : Keys) → InRange keys → InRange (scroll_down keys)
unfolding scroll_down
scroll_down-InRange keys r =
    let (i, entry, index, h) = r.selection in
    record {
      cursor = r.cursor;
      selection = rw (entry, index) (next-IsEntry keys.current_length i h);
    }

scroll_up-InRange : (keys : Keys) → InRange keys → InRange (scroll_up keys)
unfolding scroll_up
scroll_up-InRange keys r =
    let (i, entry, index, h) = r.selection in
    record {
      cursor = r.cursor;
      selection = rw (entry, index) (prev-IsEntry keys.current_length i h);
    }

abbrev pub Kept : Keys → Keys → Type 0
Kept keys after = InRange after × Chosen keys after

and_self : (b : Bool) → (b && b) ≡ b
and_self b = ground arith

same_rom : (b : Bool) (n : ℤ) → (if b then n else n) ≡ n
same_rom true n = refl
same_rom false n = refl

and_trans : (a b c : Bool) → (a && b) ≡ a → (b && c) ≡ b → (a && c) ≡ a
and_trans a b c h1 h2 = ground arith

rom_trans :
    (a b : Bool) (x y z : ℤ)
    → (a && b) ≡ a
    → (if a then y else x) ≡ x
    → (if b then z else y) ≡ y
    → (if a then z else x) ≡ x
rom_trans false b x y z h h1 h2 = refl
rom_trans true true x y z h h1 h2 = h2 ∙ h1
rom_trans true false x y z h h1 h2 = cc

same-Chosen : (keys : Keys) → Chosen keys keys
same-Chosen keys = record {
  selected = and_self keys.rom_selected;
  rom = same_rom keys.rom_selected keys.cursor_index;
  log = refl;
}

scrolled-Chosen : (keys : Keys) → Chosen keys (scroll_up keys) × Chosen keys (scroll_down keys)
unfolding scroll_up scroll_down
scrolled-Chosen keys = (
  record {
    selected = and_self keys.rom_selected;
    rom = same_rom keys.rom_selected keys.cursor_index;
    log = refl;
  },
  record {
    selected = and_self keys.rom_selected;
    rom = same_rom keys.rom_selected keys.cursor_index;
    log = refl;
  },
)

moved-Chosen :
    (keys : Keys)
    → keys.rom_selected ≡ false
    → Chosen keys (increment_cursor keys) × Chosen keys (decrement_cursor keys)
unfolding increment_cursor decrement_cursor
moved-Chosen keys menu = (
  record { selected = and_self keys.rom_selected; rom = rw menu refl; log = refl },
  record { selected = and_self keys.rom_selected; rom = rw menu refl; log = refl },
)

up-Kept :
    (keys : Keys)
    → InRange keys
    → Kept keys (if keys.rom_selected then scroll_up keys else decrement_cursor keys)
up-Kept keys r = elim (Bool-cases keys.rom_selected) [
  | inl running ↦ simp running (scroll_up-InRange keys r, (scrolled-Chosen keys).0)
  | inr menu ↦ simp menu (decrement_cursor-InRange keys r, (moved-Chosen keys menu).1)
]

down-Kept :
    (keys : Keys)
    → InRange keys
    → Kept keys (if keys.rom_selected then scroll_down keys else increment_cursor keys)
down-Kept keys r = elim (Bool-cases keys.rom_selected) [
  | inl running ↦ simp running (scroll_down-InRange keys r, (scrolled-Chosen keys).1)
  | inr menu ↦ simp menu (increment_cursor-InRange keys r, (moved-Chosen keys menu).0)
]

handle_scancode-Kept :
    (keys : Keys) (byte : ℕ) → InRange keys → Kept keys (handle_scancode keys byte)
unfolding handle_scancode
handle_scancode-Kept keys byte r = elim (Bool-cases (byte == 0x11)) [
  | inl up ↦ rw up (up-Kept keys r)
  | inr not_up ↦ elim (Bool-cases (byte == 0x1F)) [
    | inl down ↦ rw (not_up, down) (down-Kept keys r)
    | inr not_down ↦ elim (Bool-cases (byte == 0x1C)) [
      | inl enter ↦
          rw (not_up, not_down, enter)
            (
              record { cursor = r.cursor; selection = r.selection },
              record {
                selected = ground arith;
                rom = same_rom keys.rom_selected keys.cursor_index;
                log = refl;
              },
            )
      | inr other ↦ rw (not_up, not_down, other) (r, same-Chosen keys)
    ]
  ]
]

-- From a cursor on one of the six ROMs, and a pointer to an entry of the log whose place the index
-- beside it counts, any sequence of scancodes keeps this, and the log's length; once a ROM is selected, it
-- remains selected and remains the same one.
pub handle_all-Kept :
    (keys : Keys) (bytes : List ℕ) → InRange keys → Kept keys (handle_all keys bytes)
handle_all-Kept keys [] r = (r, same-Chosen keys)
handle_all-Kept keys (byte ∷ bytes) r =
    let (first, chosen) = handle_scancode-Kept keys byte r in
    let (last, later) = handle_all-Kept (handle_scancode keys byte) bytes first in
    (
      last,
      record {
        selected = and_trans keys.rom_selected _ _ chosen.selected later.selected;
        rom =
            rom_trans keys.rom_selected _ keys.cursor_index _ _ chosen.selected chosen.rom
              later.rom;
        log = later.log ∙ chosen.log;
      },
    )
