-- ===== src/Keyboard.antt =====
-- The keys: drivers/keyboard/keyboard.c, with the cursor of the menu in kernel.c and the scrolling
-- of the log in emulator/CPU/tracelogger.c. What is printed afterwards is left out.
pub mod Range
mod Tests
use kernel_nesemulator.Prelude.{
  ℕ, zero, suc, ◌+◌, ◌-◌, Bool, true, false, Option, none, some, List, [], ◌∷◌, ltb, ◌==◌,
  if◌then◌else◌, ℤ, pos, negsuc,
}

abbrev pub num_roms : ℕ
num_roms = 7

abbrev pub num_print_entries : ℕ
num_print_entries = 24

-- `i + n`, `i - 1` and `i < n` on an int, which stays far from its limits.
abbrev pub plus : ℤ → ℕ → ℤ
plus (pos i) n = pos (i + n)
plus (negsuc i) n = if ltb i n then pos (n - i - 1) else negsuc (i - n)

abbrev pub decrease : ℤ → ℤ
decrease (pos zero) = negsuc zero
decrease (pos (suc i)) = pos i
decrease (negsuc i) = negsuc (suc i)

abbrev pub less : ℤ → ℕ → Bool
less (pos i) n = ltb i n
less (negsuc i) n = true

-- `0 < i`
abbrev pub positive : ℤ → Bool
positive (pos i) = ltb 0 i
positive (negsuc i) = false

-- The two switches, the menu's cursor, and the log's selection: the pointer to an entry, as its
-- place in the list whose last place is `current_length` and `none` for NULL, and the index that is
-- counted beside it.
pub record Keys : Type 0 where
  pub kernel_initialized : Bool
  pub rom_selected : Bool
  pub cursor_index : ℤ
  pub selected_entry : Option ℕ
  pub cur_selected_index : ℤ
  pub current_length : ℕ

-- `entry->next`, NULL for the last entry; what stands behind NULL is taken to be NULL.
abbrev pub next : ℕ → Option ℕ → Option ℕ
next last none = none
next last (some place) = if place == last then none else some (place + 1)

-- `entry->prev`, NULL for `log_head`.
abbrev pub prev : Option ℕ → Option ℕ
prev none = none
prev (some zero) = none
prev (some (suc place)) = some place

-- `entry != log_head`
abbrev pub behind_head : Option ℕ → Bool
behind_head none = true
behind_head (some place) = ltb 0 place

unfoldable pub increment_cursor : Keys → Keys
increment_cursor keys = record keys {
  cursor_index =
      if less keys.cursor_index (num_roms - 2) then plus keys.cursor_index 1 else keys.cursor_index;
}

unfoldable pub decrement_cursor : Keys → Keys
decrement_cursor keys = record keys {
  cursor_index =
      if positive keys.cursor_index then decrease keys.cursor_index else keys.cursor_index;
}

unfoldable pub scroll_down : Keys → Keys
scroll_down keys =
    let moves = less (plus keys.cur_selected_index num_print_entries) keys.current_length in
    record keys {
      selected_entry =
          if moves then next keys.current_length keys.selected_entry else keys.selected_entry;
      cur_selected_index =
          if moves then plus keys.cur_selected_index 1 else keys.cur_selected_index;
    }

unfoldable pub scroll_up : Keys → Keys
scroll_up keys =
    let moves = behind_head keys.selected_entry in
    record keys {
      selected_entry = if moves then prev keys.selected_entry else keys.selected_entry;
      cur_selected_index =
          if moves then decrease keys.cur_selected_index else keys.cur_selected_index;
    }

unfoldable pub handle_scancode : Keys → ℕ → Keys
unfolding increment_cursor decrement_cursor scroll_down scroll_up
handle_scancode keys byte =
    if byte == 0x11
    then (if keys.rom_selected then scroll_up keys else decrement_cursor keys)
    else if byte == 0x1F
    then (if keys.rom_selected then scroll_down keys else increment_cursor keys)
    else if byte == 0x1C
    then record keys { rom_selected = if keys.kernel_initialized then true else keys.rom_selected }
    else keys

-- Scancodes one behind the other.
abbrev pub handle_all : Keys → List ℕ → Keys
handle_all keys [] = keys
handle_all keys (byte ∷ bytes) = handle_all (handle_scancode keys byte) bytes
