-- ===== src/Bench/Taken.antt =====
-- seminar2/benchtaken.c: a benchmark that takes blocks of 16 bytes from seminar2/dlmalloc.c, and writes to
-- them over and over again.
use mathlib.Core.Path.{subst}
use id.Base.{
  ℕ, zero, suc, ◌+◌, ◌-◌, ◌*◌, ◌^◌, ◌≤◌, ◌<◌, ◌≡◌, refl, sym, ap, ◌∙◌, inl, inr, ◌==◌,
  if◌then◌else◌, Option, none, some, ◌>>=◌, List, [], ◌∷◌, arith, length,
}
use id.Dlmalloc.{Heap, head_size, arena_size, init, dalloc, adjust}
use id.Dlmalloc.Memory.{store}
use id.Dlmalloc.Blocks.{Block, BlockAt}
use id.Dlmalloc.State.{IsValid}
use id.Dlmalloc.Cut.{cut}
use id.Dlmalloc.FreeList.{erase}
use id.Dlmalloc.Allocate.Find.{size_at, first_fit, serve, allocate}
use id.Dlmalloc.Request.{Returns, dalloc-Returns}
use id.Dlmalloc.Init.{init-IsValid}
use id.Dlmalloc.Payload.{store-IsValid}

-- BLOCKS, LOOP and ROUNDS.
abbrev taken_blocks : ℕ
taken_blocks = 1000

abbrev loop : ℕ
loop = 1000

abbrev taken_rounds : ℕ
taken_rounds = 100000

-- The first loop: the array of the results of `k` calls. `none` if the fuel of a search runs out.
fill : ℕ → ℕ → Heap → Option (List ℕ × Heap)
fill fuel zero h = some ([], h)
fill fuel (suc k) h = do
  (memory, h1) ← dalloc fuel 16 h
  (array, h2) ← fill fuel k h1
  some (memory ∷ array, h2)

-- `*array[j] = 100` for `k` places of the array, an `int` each; `none` if a pointer is NULL, or the
-- array ends before.
touch : ℕ → List ℕ → Heap → Option Heap
touch zero array h = some h
touch (suc k) [] h = none
touch (suc k) (memory ∷ array) h =
    let rest = touch k array (record h { mem = store 4 memory 100 h.mem }) in
    if memory == 0 then none else rest

touch_all : ℕ → List ℕ → Heap → Option Heap
touch_all zero array h = some h
touch_all (suc k) array h = do h1 ← touch loop array h; touch_all k array h1

pub benchtaken : ℕ → ℕ → Heap → Option Heap
benchtaken fuel mapped h = do
  (array, h1) ← fill fuel taken_blocks (init mapped h)
  touch_all taken_rounds array h1

abbrev pub small : Block
small = record { payload = 16; is_free = 0 }

-- The blocks `ks` with `k` taken ones of 16 bytes in front.
pub stack : ℕ → List Block → List Block
stack zero ks = ks
stack (suc k) ks = stack k (small ∷ ks)

-- The arena: one free block with `r` bytes, and the blocks `ks`.
abbrev pub arena : ℕ → List Block → List Block
arena r ks = record { payload = r; is_free = 1 } ∷ ks

-- The pointers are those to the payloads of taken blocks of 16 bytes.
Point : ℕ → List Block → List ℕ → Type 0
Point base ks [] = Unit
Point base ks (p ∷ ps) = (q : ℕ) × (p ≡ q + head_size) × BlockAt base ks q small × Point base ks ps

allocate-small :
    (base r : ℕ) (ks : List Block)
    → 40 ≤ r
    → allocate 16 base (arena r ks) (base ∷ [])
      ≡ some (base + (r - 24) + head_size, arena (r - 24) (small ∷ ks), base ∷ [])
unfolding size_at first_fit serve cut erase
allocate-small base r ks le = ground (arith, le)

adjust_sixteen : adjust 16 ≡ 16
unfolding adjust
adjust_sixteen = refl

dalloc-small :
    (fuel base r : ℕ) (ks : List Block) (h : Heap)
    → IsValid h base (arena r ks) (base ∷ [])
    → 40 ≤ r
    → 1 < fuel
    → (g : Heap) × (dalloc fuel 16 h ≡ some (base + (r - 24) + head_size + head_size, g))
      × IsValid g base (arena (r - 24) (small ∷ ks)) (base ∷ [])
dalloc-small fuel base r ks h v le enough =
    let (res, run, back) =
      dalloc-Returns h base 16 fuel (arena r ks) (base ∷ []) v (omega arith) (omega arith)
        (omega (arith, enough)) in
    let same : allocate (adjust 16) base (arena r ks) (base ∷ [])
        ≡ some (base + (r - 24) + head_size, arena (r - 24) (small ∷ ks), base ∷ []) =
      subst
        (λ n.
          allocate n base (arena r ks) (base ∷ [])
          ≡ some (base + (r - 24) + head_size, arena (r - 24) (small ∷ ks), base ∷ []))
        (sym adjust_sixteen) (allocate-small base r ks le) in
    let (at, v') = subst (λ o. Returns h base o res) same back in
    (res.1, run ∙ ap (λ p. some (p, res.1)) at, v')

-- A block behind the free one stays where it is.
stack-BlockAt :
    (base r k q : ℕ) (ks : List Block) (l : Block)
    → 24 * k ≤ r
    → BlockAt (base + r + head_size) ks q l
    → BlockAt (base + (r - 24 * k) + head_size) (stack k ks) q l
unfolding stack
stack-BlockAt base r zero q ks l le at = subst (λ a. BlockAt a ks q l) (omega arith) at
stack-BlockAt base r (suc k) q ks l le at =
    let at' =
      stack-BlockAt base (r - 24) k q (small ∷ ks) l (omega (arith, le))
        (inr (subst (λ a. BlockAt a ks q l) (omega (arith, le)) at)) in
    subst (λ a. BlockAt a (stack k (small ∷ ks)) q l) (omega (arith, le)) at'

-- What the first loop leaves of an arena whose one free block has `r` bytes.
Fills : ℕ → ℕ → ℕ → ℕ → List Block → Heap → Type 0
Fills fuel base k r ks h =
    (array : List ℕ) × (g : Heap) × (fill fuel k h ≡ some (array, g))
    × (length array ≡ k)
    × IsValid g base (arena (r - 24 * k) (stack k ks)) (base ∷ [])
    × Point base (arena (r - 24 * k) (stack k ks)) array

fill-Fills :
    (fuel base k r : ℕ) (ks : List Block) (h : Heap)
    → IsValid h base (arena r ks) (base ∷ [])
    → 24 * k + 16 ≤ r
    → 1 < fuel
    → Fills fuel base k r ks h
unfolding Fills fill stack Point
fill-Fills fuel base zero r ks h v le enough =
    ([], h, refl, refl, subst (λ n. IsValid h base (arena n ks) (base ∷ [])) (omega arith) v, tt)
fill-Fills fuel base (suc k) r ks h v le enough =
    let (h1, run, v1) = dalloc-small fuel base r ks h v (omega (arith, le)) enough in
    let (array, g, more, len, v2, point) =
      fill-Fills fuel base k (r - 24) (small ∷ ks) h1 v1 (omega (arith, le)) enough in
    let left : r - 24 - 24 * k ≡ r - 24 * suc k = omega arith in
    let q : ℕ = base + (r - 24) + head_size in
    let there =
      stack-BlockAt base (r - 24) k q (small ∷ ks) small (omega (arith, le)) (inl (refl, refl)) in
    (
      (q + head_size) ∷ array,
      g,
      ap
            (λ o.
              o >>= (λ (memory, h1). fill fuel k h1 >>= (λ (array, h2). some (memory ∷ array, h2))))
            run
          ∙ ap (λ o. o >>= (λ (array, h2). some ((q + head_size) ∷ array, h2))) more,
      ap suc len,
      subst (λ n. IsValid g base (arena n (stack k (small ∷ ks))) (base ∷ [])) left v2,
      subst (λ n. Point base (arena n (stack k (small ∷ ks))) ((q + head_size) ∷ array)) left
          (q, refl, inr there, point),
    )

-- One round of the second loop.
touch-IsValid :
    (base : ℕ) (ks : List Block) (xs : List ℕ) (k : ℕ) (array : List ℕ) (h : Heap)
    → IsValid h base ks xs
    → Point base ks array
    → k ≤ length array
    → (g : Heap) × (touch k array h ≡ some g) × IsValid g base ks xs
unfolding touch Point
touch-IsValid base ks xs zero array h v point le = (h, refl, v)
touch-IsValid base ks xs (suc k) [] h v point le = absurd (omega (arith, le))
touch-IsValid base ks xs (suc k) (p ∷ ps) h v (q, e, at, point) le =
    let v' =
      store-IsValid h base q 4 p 100 small ks xs v at refl (omega (arith, e)) (omega (arith, e)) in
    let (g, run, v'') =
      touch-IsValid base ks xs k ps (record h { mem = store 4 p 100 h.mem }) v' point
        (omega (arith, le)) in
    (g, ground (arith, e, run), v'')

touch_all-IsValid :
    (base : ℕ) (ks : List Block) (xs : List ℕ) (k : ℕ) (array : List ℕ) (h : Heap)
    → IsValid h base ks xs
    → Point base ks array
    → loop ≤ length array
    → (g : Heap) × (touch_all k array h ≡ some g) × IsValid g base ks xs
unfolding touch_all
touch_all-IsValid base ks xs zero array h v point le = (h, refl, v)
touch_all-IsValid base ks xs (suc k) array h v point le =
    let (h1, run, v1) = touch-IsValid base ks xs loop array h v point le in
    let (g, more, v2) = touch_all-IsValid base ks xs k array h1 v1 point le in
    (g, ap (λ o. o >>= touch_all k array) run ∙ more, v2)

-- When no arena is allocated yet, and mmap returns an address other than NULL with the arena below
-- 2 ^ 64, the benchmark ends, with fuel for two rounds of every search: each of the 1000 requests is
-- served, no write goes through NULL, and after all rounds of writes the state is valid, with one
-- free block of 41520 bytes in front of 1000 taken ones of 16 bytes
pub benchtaken-IsValid :
    (fuel mapped : ℕ) (h : Heap)
    → h.arena ≡ 0
    → h.flist ≡ 0
    → 0 < mapped
    → mapped + arena_size < 2 ^ 64
    → 1 < fuel
    → (g : Heap) × (benchtaken fuel mapped h ≡ some g)
      × IsValid g mapped (arena 41520 (stack 1000 [])) (mapped ∷ [])
unfolding benchtaken Fills
benchtaken-IsValid fuel mapped h none_yet empty pos room enough =
    let v = init-IsValid mapped h none_yet empty pos room in
    let (array, h1, run, len, v1, point) =
      fill-Fills fuel mapped taken_blocks 65520 [] (init mapped h) v (omega arith) enough in
    let (g, more, v2) =
      touch_all-IsValid mapped (arena 41520 (stack taken_blocks [])) (mapped ∷ []) taken_rounds
        array h1 v1 point (omega (arith, len)) in
    (g, ap (λ o. o >>= (λ (array, h1). touch_all taken_rounds array h1)) run ∙ more, v2)
