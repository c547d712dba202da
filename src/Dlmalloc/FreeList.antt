-- ===== src/Dlmalloc/FreeList.antt =====
-- The doubly linked free list of seminar2/dlmalloc.c as a list of blocks.
use id.Base.{
  ℕ, ◌+◌, ◌^◌, ◌≤◌, ◌<◌, ◌≡◌, ◌⊎◌, inl, inr, sym, Bool, true, false, List, [], ◌∷◌, arith, ◌==◌,
  Bool-cases, if◌then◌else◌,
}
use mathlib.Core.Path.{subst}
use id.Dlmalloc.{Field, next, prev, offset, width, head_size, get, set, Heap}
use id.Dlmalloc.Memory.{Mem}
use id.Dlmalloc.Fields.{get-set, get-set_ne}

-- From `p` the `next` links lead through the blocks `xs` to NULL; each `prev` link leads to the
-- block before, that of the first one to `back`.
abbrev pub Linked : Mem → ℕ → ℕ → List ℕ → Type 0
Linked m back p [] = p ≡ 0
Linked m back p (x ∷ xs) =
    (p ≡ x) × (0 < x) × (x < 2 ^ 64) × (get prev x m ≡ back) × Linked m x (get next x m) xs

-- `flist` heads the list of the blocks `xs`.
abbrev pub IsFreeList : Heap → List ℕ → Type 0
IsFreeList h xs = Linked h.mem 0 h.flist xs

-- The header and the links of `x` lie apart from those of every block of `xs`.
abbrev pub Apart : ℕ → List ℕ → Type 0
Apart x [] = Unit
Apart x (y ∷ ys) = ((x + 24 ≤ y) ⊎ (y + 24 ≤ x)) × Apart x ys

abbrev pub Spread : List ℕ → Type 0
Spread [] = Unit
Spread (x ∷ xs) = Apart x xs × Spread xs

abbrev pub has : ℕ → List ℕ → Bool
has x [] = false
has x (y ∷ ys) = if y == x then true else has x ys

unfoldable pub erase : ℕ → List ℕ → List ℕ
erase x [] = []
erase x (y ∷ ys) = if y == x then ys else y ∷ erase x ys

-- The member `g` of `x` lies apart from the links of the blocks `xs`.
abbrev pub OffLinks : Field → ℕ → List ℕ → Type 0
OffLinks g x [] = Unit
OffLinks g x (y ∷ ys) =
    ((x + offset g + width g ≤ y + head_size) ⊎ (y + 24 ≤ x + offset g)) × OffLinks g x ys

pub Linked-set :
    (m : Mem) (back p : ℕ) (xs : List ℕ) (g : Field) (x v : ℕ)
    → OffLinks g x xs
    → Linked m back p xs
    → Linked (set g x v m) back p xs
Linked-set m back p [] g x v a l = l
Linked-set m back p (y ∷ ys) g x v a l =
    let same : get next y (set g x v m) ≡ get next y m = get-set_ne next y g x v m (omega arith) in
    let kept : get prev y (set g x v m) ≡ get prev y m = get-set_ne prev y g x v m (omega arith) in
    (l.0, l.1, l.2, rw kept l.3, rw same (Linked-set m y (get next y m) ys g x v a.1 l.4))

-- A write to the links of a block apart keeps a list.
pub Linked-set_prev :
    (m : Mem) (back p : ℕ) (xs : List ℕ) (y v : ℕ)
    → Apart y xs
    → Linked m back p xs
    → Linked (set prev y v m) back p xs
Linked-set_prev m back p [] y v a l = l
Linked-set_prev m back p (x ∷ xs) y v a l =
    let same : get next x (set prev y v m) ≡ get next x m =
      get-set_ne next x prev y v m (omega arith) in
    let kept : get prev x (set prev y v m) ≡ get prev x m =
      get-set_ne prev x prev y v m (omega arith) in
    (l.0, l.1, l.2, rw kept l.3, rw same (Linked-set_prev m x (get next x m) xs y v a.1 l.4))

pub Linked-set_next :
    (m : Mem) (back p : ℕ) (xs : List ℕ) (y v : ℕ)
    → Apart y xs
    → Linked m back p xs
    → Linked (set next y v m) back p xs
Linked-set_next m back p [] y v a l = l
Linked-set_next m back p (x ∷ xs) y v a l =
    let same : get next x (set next y v m) ≡ get next x m =
      get-set_ne next x next y v m (omega arith) in
    let kept : get prev x (set next y v m) ≡ get prev x m =
      get-set_ne prev x next y v m (omega arith) in
    (l.0, l.1, l.2, rw kept l.3, rw same (Linked-set_next m x (get next x m) xs y v a.1 l.4))

-- The write `if(p != NULL) p->prev = v`.
abbrev pub relink : ℕ → ℕ → Mem → Mem
relink p v m = if p == 0 then m else set prev p v m

pub Linked-relink :
    (m : Mem) (back p v : ℕ) (xs : List ℕ)
    → v < 2 ^ 64
    → Spread xs
    → Linked m back p xs
    → Linked (relink p v m) v p xs
Linked-relink m back p v [] small s l = l
Linked-relink m back p v (x ∷ xs) small s l =
    let whole : relink p v m ≡ set prev x v m = ground arith in
    let same : get next x (set prev x v m) ≡ get next x m =
      get-set_ne next x prev x v m (omega arith) in
    let linked : Linked (set prev x v m) v p (x ∷ xs) = (
      l.0,
      l.1,
      l.2,
      get-set prev x v m small,
      rw same (Linked-set_prev m x (get next x m) xs x v s.0 l.4),
    ) in
    subst (λ t. Linked t v p (x ∷ xs)) (sym whole) linked

abbrev pub Clear24 : ℕ → ℕ → Type 0
Clear24 x y = (x + 24 ≤ y) ⊎ (y + 24 ≤ x)

pub Apart-has : (x y : ℕ) (xs : List ℕ) → Apart x xs → has y xs ≡ true → Clear24 x y
Apart-has x y [] a h = cc
Apart-has x y (z ∷ zs) a h = ground (arith, Apart-has x y zs)

pub Linked-has :
    (m : Mem) (back p y : ℕ) (xs : List ℕ)
    → Linked m back p xs
    → has y xs ≡ true
    → (0 < y) × (y < 2 ^ 64)
Linked-has m back p y [] l h = cc
Linked-has m back p y (x ∷ xs) l h = ground (arith, Linked-has m x (get next x m) y xs)

-- What follows a block of the list is NULL, or a block of the list that lies apart.
pub next-has :
    (m : Mem) (back p b : ℕ) (xs : List ℕ)
    → Linked m back p xs
    → Spread xs
    → has b xs ≡ true
    → (get next b m ≡ 0) ⊎ ((has (get next b m) xs ≡ true) × Clear24 b (get next b m))
next-has m back p b [] l s h = cc
next-has m back p b (x ∷ []) l s h = ground arith
next-has m back p b (x ∷ y ∷ ys) l s h =
    ground (arith, next-has m x (get next x m) b (y ∷ ys) l.4 s.1)

-- What precedes a block behind the first one is a block of the list.
pub prev-has :
    (m : Mem) (back p x b : ℕ) (xs : List ℕ)
    → Linked m back p (x ∷ xs)
    → has b xs ≡ true
    → has (get prev b m) (x ∷ xs) ≡ true
prev-has m back p x b [] l h = cc
prev-has m back p x b (y ∷ ys) l h = ground (arith, prev-has m x (get next x m) y b ys l.4)

pub prev-has_or :
    (h : Heap) (b : ℕ) (xs : List ℕ)
    → IsFreeList h xs
    → has b xs ≡ true
    → (get prev b h.mem ≡ 0) ⊎ ((0 < get prev b h.mem) × (has (get prev b h.mem) xs ≡ true))
prev-has_or h b [] l i = cc
prev-has_or h b (x ∷ xs) l i = elim (Bool-cases (x == b)) [
  | inl hit ↦ let e : x ≡ b = ground arith in inl (subst (λ t. get prev t h.mem ≡ 0) e l.3)
  | inr miss ↦
      let q = prev-has h.mem 0 h.flist x b xs l (ground arith) in
      inr ((Linked-has h.mem 0 h.flist (get prev b h.mem) (x ∷ xs) l q).0, q)
]

pub get-relink :
    (f : Field) (x n v : ℕ) (m : Mem) → (n ≡ 0) ⊎ Clear24 x n → get f x (relink n v m) ≡ get f x m
get-relink next x n v m h = ground (arith, get-set_ne next x prev n v m)
get-relink f x n v m h = ground (arith, get-set_ne f x prev n v m)

pub Linked-first :
    (m : Mem) (back n x : ℕ) (zs : List ℕ)
    → Linked m back n zs
    → Apart x zs
    → (n < 2 ^ 64) × ((n ≡ 0) ⊎ Clear24 x n)
Linked-first m back n x [] l a = ground arith
Linked-first m back n x (z ∷ zs) l a = ground arith
