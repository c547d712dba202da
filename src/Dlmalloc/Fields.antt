-- ===== src/Dlmalloc/Fields.antt =====
-- Reading a member of a header after a write of another one, in seminar2/dlmalloc.c.
use id.Base.{ℕ, ◌+◌, ◌^◌, ◌≤◌, ◌<◌, ◌≡◌, ◌⊎◌, ◌∙◌, arith}
use id.Dlmalloc.{Field, bfree, next, prev, offset, width, get, set}
use id.Dlmalloc.Memory.{Mem, load-store, load-store_ne, store_comm, trunc, trunc-half, trunc-word}

-- The numbers that a member can hold.
abbrev pub Fits : Field → ℕ → Type 0
Fits next v = v < 2 ^ 64
Fits prev v = v < 2 ^ 64
Fits _ v = v < 2 ^ 16

trunc-width : (f : Field) (v : ℕ) → Fits f v → trunc (width f) v ≡ v
trunc-width bfree v h = omega (arith, trunc-half v)
trunc-width next v h = trunc-word v h
trunc-width prev v h = trunc-word v h
trunc-width _ v h = omega (arith, trunc-half v)

pub get-set : (f : Field) (b v : ℕ) (m : Mem) → Fits f v → get f b (set f b v m) ≡ v
unfolding get set
get-set f b v m h = load-store (width f) (b + offset f) v m ∙ trunc-width f v h

-- The two members do not overlap.
abbrev pub Clear : Field → ℕ → Field → ℕ → Type 0
Clear f b g c = (b + offset f + width f ≤ c + offset g) ⊎ (c + offset g + width g ≤ b + offset f)

pub get-set_ne :
    (f : Field) (b : ℕ) (g : Field) (c v : ℕ) (m : Mem)
    → Clear f b g c
    → get f b (set g c v m) ≡ get f b m
unfolding get set
get-set_ne f b g c v m h = load-store_ne (width f) (b + offset f) (width g) (c + offset g) v m h

pub set_comm :
    (f : Field) (b v : ℕ) (g : Field) (c u : ℕ) (m : Mem)
    → Clear f b g c
    → set f b v (set g c u m) ≡ set g c u (set f b v m)
unfolding set
set_comm f b v g c u m h = store_comm (width f) (b + offset f) v (width g) (c + offset g) u m h
