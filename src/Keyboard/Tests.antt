-- ===== src/Keyboard/Tests.antt =====
-- Down, enter, and then down in a log of 40 entries.
use kernel_nesemulator.Prelude.{ℕ, ◌≡◌, refl, true, false, some, pos, List, [], ◌∷◌, arith}
use kernel_nesemulator.Keyboard.{Keys, handle_all, handle_scancode, increment_cursor, scroll_down}
use kernel_nesemulator.Keyboard.Range.{InRange, Kept, handle_all-Kept}

abbrev menu : Keys
menu = record {
  kernel_initialized = true;
  rom_selected = false;
  cursor_index = pos 0;
  selected_entry = some 0;
  cur_selected_index = pos 0;
  current_length = 39;
}

abbrev pressed : List ℕ
pressed = 0x1F ∷ 0x1C ∷ 0x1F ∷ []

menu-InRange : InRange menu
menu-InRange = record { cursor = (0, refl, omega arith); selection = (0, refl, refl, omega arith) }

handle_all-Kept_example : Kept menu (handle_all menu pressed)
handle_all-Kept_example = handle_all-Kept menu pressed menu-InRange

-- The second ROM is selected, and the log is scrolled by one entry.
scrolled : handle_all menu pressed ≡ record menu {
  rom_selected = true;
  cursor_index = pos 1;
  selected_entry = some 1;
  cur_selected_index = pos 1;
}
unfolding handle_scancode increment_cursor scroll_down
scrolled = refl
