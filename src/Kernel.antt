-- ===== src/Kernel.antt =====
-- seminar1/myos.c: a kernel that clears the screen of the VGA terminal and writes a name to it.
mod Screen
mod Examples
use id.Base.{ℕ, zero, suc, ◌+◌, ◌*◌, List, [], ◌∷◌}
use id.Links.{at}

-- COLUMNS and ROWS.
abbrev pub columns : ℕ
columns = 80

abbrev pub screen_rows : ℕ
screen_rows = 25

pub record VgaChar : Type 0 where
  pub character : ℕ
  pub colors : ℕ

-- The memory from 0xb8000 on, by its index in `vga`; nothing bounds an index.
abbrev pub Vga : Type 0
Vga = ℕ → VgaChar

-- A character on black, in white: the colors 0x0f.
abbrev pub white : ℕ → VgaChar
white c = record { character = c; colors = 15 }

abbrev pub blank : VgaChar
blank = white 32

-- The first loop, from `i` on.
unfoldable pub blank_from : ℕ → ℕ → Vga → Vga
blank_from zero i vga = vga
blank_from (suc k) i vga = blank_from k (i + 1) (at vga i blank)

-- The second loop: the name is the characters before its '\0'.
unfoldable pub print_from : List ℕ → ℕ → Vga → Vga
print_from [] i vga = vga
print_from (c ∷ cs) i vga = print_from cs (i + 1) (at vga i (white c))

-- `pos`.
abbrev pub name_start : ℕ
name_start = 13 * 80 + 30

unfoldable pub myos : List ℕ → Vga → Vga
unfolding blank_from print_from
myos name vga = print_from name name_start (blank_from (columns * screen_rows) 0 vga)
