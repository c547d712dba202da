-- ===== src/Kernel/Screen.antt =====
-- What the kernel of seminar1/myos.c shows.
use id.Base.{
  ℕ, zero, suc, ◌+◌, ◌-◌, ◌*◌, ◌≤◌, ◌<◌, ◌≡◌, ◌⊎◌, inl, inr, refl, sym, ◌∙◌, ltb, leb, ◌&&◌,
  if◌then◌else◌, List, [], ◌∷◌, arith, length,
}
use native.Mathlib.Decide.{dec_le, dec_lt}
use mathlib.Core.Path.{subst}
use id.Links.{at}
use id.Kernel.{
  VgaChar, Vga, white, blank, blank_from, print_from, name_start, columns, screen_rows, myos,
}

-- A character of the name by its place, and blanks behind the name.
unfoldable pub letter : List ℕ → ℕ → ℕ
letter [] i = 32
letter (c ∷ cs) zero = c
letter (c ∷ cs) (suc i) = letter cs i

where_is :
    (i pos len n : ℕ)
    → pos + len ≤ n
    → ((pos ≤ i) × (i < pos + len)) ⊎ ((((i < pos) ⊎ (pos + len ≤ i)) × (i < n)) ⊎ (n ≤ i))
where_is i pos len n fits = elim (dec_le pos i) [
  | yes low ↦ elim (dec_lt i (pos + len)) [
    | yes up ↦ inl (low, up)
    | no out ↦ elim (dec_lt i n) [
      | yes on ↦ inr (inl (inr (omega (arith, out)), on))
      | no off ↦ inr (inr (omega (arith, off)))
    ]
  ]
  | no out ↦ elim (dec_lt i n) [
    | yes on ↦ inr (inl (inl (omega (arith, out)), on))
    | no off ↦ inr (inr (omega (arith, off)))
  ]
]

at_self : (vga : Vga) (i : ℕ) (c : VgaChar) → at vga i c i ≡ c
at_self vga i c = ground arith

at_ne : (vga : Vga) (i j : ℕ) (c : VgaChar) → (j < i) ⊎ (i < j) → at vga i c j ≡ vga j
at_ne vga i j c ne = ground (arith, ne)

blank_outside : (k i j : ℕ) (vga : Vga) → (j < i) ⊎ (i + k ≤ j) → blank_from k i vga j ≡ vga j
unfolding blank_from
blank_outside zero i j vga out = refl
blank_outside (suc k) i j vga out =
    blank_outside k (i + 1) j (at vga i blank) (omega (arith, out))
    ∙ at_ne vga i j blank (omega (arith, out))

blank_inside : (k i j : ℕ) (vga : Vga) → i ≤ j → j < i + k → blank_from k i vga j ≡ blank
unfolding blank_from
blank_inside zero i j vga low up = absurd (omega (arith, low, up))
blank_inside (suc k) i j vga low up = ground (
  arith,
  blank_outside k (i + 1) j (at vga i blank),
  blank_inside k (i + 1) j (at vga i blank),
  at_self vga i blank,
)

print_outside :
    (cs : List ℕ) (i j : ℕ) (vga : Vga)
    → (j < i) ⊎ (i + length cs ≤ j)
    → print_from cs i vga j ≡ vga j
unfolding print_from
print_outside [] i j vga out = refl
print_outside (c ∷ cs) i j vga out =
    print_outside cs (i + 1) j (at vga i (white c)) (omega (arith, out))
    ∙ at_ne vga i j (white c) (omega (arith, out))

print_inside :
    (cs : List ℕ) (i d : ℕ) (vga : Vga)
    → d < length cs
    → print_from cs i vga (i + d) ≡ white (letter cs d)
unfolding print_from letter
print_inside [] i d vga up = absurd (omega (arith, up))
print_inside (c ∷ cs) i zero vga up =
    print_outside cs (i + 1) (i + 0) (at vga i (white c)) (omega arith) ∙ ground arith
print_inside (c ∷ cs) i (suc d) vga up =
    let same : i + suc d ≡ i + 1 + d = omega arith in
    rw same (print_inside cs (i + 1) d (at vga i (white c)) (omega (arith, up)))

-- What is to be seen of a name at `pos` on a screen of `n` cells: the name from its place on, blanks
-- on the rest of the screen, and behind the screen what was there.
unfoldable pub shown_at : ℕ → ℕ → List ℕ → Vga → ℕ → VgaChar
unfolding letter
shown_at pos n name vga i =
    if leb pos i && ltb i (pos + length name)
    then white (letter name (i - pos))
    else if ltb i n
    then blank
    else vga i

on_name :
    (pos n i : ℕ) (name : List ℕ) (vga : Vga)
    → pos ≤ i
    → i < pos + length name
    → shown_at pos n name vga i ≡ white (letter name (i - pos))
unfolding shown_at
on_name pos n i name vga low up = ground (arith, low, up)

on_screen :
    (pos n i : ℕ) (name : List ℕ) (vga : Vga)
    → (i < pos) ⊎ (pos + length name ≤ i)
    → i < n
    → shown_at pos n name vga i ≡ blank
unfolding shown_at
on_screen pos n i name vga out up = ground (arith, out, up)

behind :
    (pos n i : ℕ) (name : List ℕ) (vga : Vga)
    → (i < pos) ⊎ (pos + length name ≤ i)
    → n ≤ i
    → shown_at pos n name vga i ≡ vga i
unfolding shown_at
behind pos n i name vga out up = ground (arith, out, up)

print_blank :
    (pos n i : ℕ) (name : List ℕ) (vga : Vga)
    → pos + length name ≤ n
    → print_from name pos (blank_from n 0 vga) i ≡ shown_at pos n name vga i
print_blank pos n i name vga fits = elim (where_is i pos (length name) n fits) [
  | inl (low, up) ↦
      let d : i ≡ pos + (i - pos) = omega (arith, low) in
      subst (λ j. print_from name pos (blank_from n 0 vga) j ≡ white (letter name (i - pos)))
        (sym d) (print_inside name pos (i - pos) (blank_from n 0 vga) (omega (arith, low, up)))
      ∙ sym (on_name pos n i name vga low up)
  | inr (inl (out, up)) ↦
      print_outside name pos i (blank_from n 0 vga) out
      ∙ blank_inside n 0 i vga (omega arith) (omega (arith, up))
      ∙ sym (on_screen pos n i name vga out up)
  | inr (inr up) ↦
      print_outside name pos i (blank_from n 0 vga) (omega (arith, up, fits))
      ∙ blank_outside n 0 i vga (omega (arith, up))
      ∙ sym (behind pos n i name vga (omega (arith, up, fits)) up)
]

abbrev pub shown : List ℕ → Vga → ℕ → VgaChar
shown name vga i = shown_at name_start (columns * screen_rows) name vga i

-- Whatever the memory holds, and for a name of at most 930 characters, which fits behind its place,
-- the kernel leaves the name from column 30 of row 13 on, counted from 0, white blanks on all other
-- cells of the screen of 80 columns and 25 rows, and everything behind the screen as it was
pub myos_shows :
    (name : List ℕ) (vga : Vga) (i : ℕ) → length name ≤ 930 → myos name vga i ≡ shown name vga i
unfolding myos
myos_shows name vga i fits =
    print_blank name_start (columns * screen_rows) i name vga (omega (arith, fits))
