-- ===== src/Kernel/Examples.antt =====
-- The name of seminar1/myos.c on a screen.
use id.Base.{ℕ, ◌≡◌, refl, List, [], ◌∷◌, arith}
use id.Kernel.{Vga, white, myos}
use id.Kernel.Screen.{shown, shown_at, letter, myos_shows}

-- "My OS is running".
abbrev name : List ℕ
name = 77 ∷ 121 ∷ 32 ∷ 79 ∷ 83 ∷ 32 ∷ 105 ∷ 115 ∷ 32 ∷ 114 ∷ 117 ∷ 110 ∷ 110 ∷ 105 ∷ 110 ∷ 103 ∷ []

abbrev before : Vga
before _ = white 63

myos_shows_example : myos name before 1073 ≡ shown name before 1073
myos_shows_example = myos_shows name before 1073 (omega arith)

-- The fourth character is an O.
fourth : shown name before 1073 ≡ white 79
unfolding shown_at letter
fourth = refl
