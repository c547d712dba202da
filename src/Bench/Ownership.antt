-- ===== src/Bench/Ownership.antt =====
-- What the buffer of seminar2/bench.c holds: payloads of taken blocks of seminar2/dlmalloc.c.
use mathlib.Core.Path.{subst}
use id.Base.{
  ℕ, suc, ◌+◌, ◌^◌, ◌-◌, ◌≤◌, ◌<◌, ◌≡◌, ◌≢◌, sym, ◌⊎◌, inl, inr, ◌==◌, Bool-cases, Option, none,
  some, List, [], ◌∷◌, arith, length,
}
use id.Links.{at}
use id.Dlmalloc.{Heap, head_size, align}
use id.Dlmalloc.Blocks.{Block, BlockAt}
use id.Dlmalloc.FreeList.{erase}
use id.Dlmalloc.State.{IsValid}
use id.Dlmalloc.Allocate.Find.{serve}
use id.Bench.{Run}

-- The payload of a taken block.
unfoldable pub Payload : ℕ → List Block → ℕ → Type 0
Payload base ks p =
    (q : ℕ) × (k : Block) × (p ≡ q + head_size) × BlockAt base ks q k × (k.is_free ≡ 0)

-- Every place of the buffer is NULL or holds such a payload, and no two places hold the same one.
unfoldable pub Owns : ℕ → List Block → (ℕ → ℕ) → Type 0
unfolding Payload
Owns base ks buffer =
    ((i : ℕ) → (buffer i ≡ 0) ⊎ Payload base ks (buffer i))
    × ((i j : ℕ) → (i ≡ j) ⊎ ((buffer i ≡ 0) ⊎ (buffer i ≢ buffer j)))

-- The heap is valid, with at most `n` free blocks, and the buffer owns what it holds.
unfoldable pub IsOwner : ℕ → ℕ → Run (Option Heap) → Type 0
unfolding Owns
IsOwner n base r =
    (h : Heap) × (ks : List Block) × (xs : List ℕ) × (r.heap ≡ some h)
    × IsValid h base ks xs
    × (length xs ≤ n)
    × Owns base ks r.buffer

-- The requests are of 16 bytes or more and leave room in an `int`.
unfoldable pub Asked : List (ℕ × ℕ) → Type 0
Asked [] = Unit
Asked ((rnd, bytes) ∷ ops) = (16 ≤ bytes) × (bytes < 2 ^ 31 - align) × Asked ops

length-erase : (x : ℕ) (xs : List ℕ) → length (erase x xs) ≤ length xs
unfolding erase
length-erase x [] = omega arith
length-erase x (y ∷ ys) = ground (arith, length-erase x ys)

pub length-serve :
    (n a q : ℕ) (ks ks' : List Block) (xs xs' : List ℕ) (o : Option ℕ)
    → serve n a ks xs o ≡ some (q, ks', xs')
    → length xs' ≤ suc (length xs)
unfolding serve
length-serve n a q ks ks' xs xs' none e = absurd (cc)
length-serve n a q ks ks' xs xs' (some x) e = ground (arith, e, length-erase x xs)

at_index_self : (buffer : ℕ → ℕ) (i v : ℕ) → at buffer i v i ≡ v
at_index_self buffer i v = ground arith

at_index_ne : (buffer : ℕ → ℕ) (i v j : ℕ) → j ≢ i → at buffer i v j ≡ buffer j
at_index_ne buffer i v j ne = ground (arith, ne)

-- A place of the buffer gets a payload that no other place holds.
pub Owns-at :
    (base : ℕ) (ks : List Block) (buffer : ℕ → ℕ) (i v : ℕ)
    → (v ≡ 0) ⊎ Payload base ks v
    → ((j : ℕ) → j ≢ i → (buffer j ≡ 0) ⊎ Payload base ks (buffer j))
    → ((j : ℕ) → j ≢ i → (v ≡ 0) ⊎ (buffer j ≢ v))
    → ((j k : ℕ) → (j ≡ k) ⊎ ((buffer j ≡ 0) ⊎ (buffer j ≢ buffer k)))
    → Owns base ks (at buffer i v)
unfolding Owns
Owns-at base ks buffer i v new old fresh single = (
  (λ j. elim (Bool-cases (j == i)) [
    | inl e ↦
        let e' : j ≡ i = ground (arith, e) in
        subst (λ t. (at buffer i v t ≡ 0) ⊎ Payload base ks (at buffer i v t)) (sym e')
          (subst (λ t. (t ≡ 0) ⊎ Payload base ks t) (sym (at_index_self buffer i v)) new)
    | inr e ↦
        let ne : j ≢ i = ground (arith, e) in
        subst (λ t. (t ≡ 0) ⊎ Payload base ks t) (sym (at_index_ne buffer i v j ne)) (old j ne)
  ]),
  λ j k. ground (
    arith,
    fresh j,
    fresh k,
    single j k,
    at_index_self buffer i v,
    at_index_ne buffer i v j,
    at_index_ne buffer i v k,
  ),
)
