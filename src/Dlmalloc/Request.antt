-- ===== src/Dlmalloc/Request.antt =====
-- `dalloc` of seminar2/dlmalloc.c: what a request returns, and what it does to the other blocks.
use native.Mathlib.Nat.{le_refl}
use mathlib.Core.Path.{subst, subst₂}
use id.Base.{
  ℕ, ◌+◌, ◌-◌, ◌^◌, ◌≤◌, ◌<◌, ◌≡◌, ◌≢◌, ◌⊎◌, inl, inr, refl, sym, ap, ◌∙◌, ◌==◌, true, false,
  Option, none, some, List, [], ◌∷◌, arith, if◌then◌else◌, length,
}
use id.Dlmalloc.{Heap, head_size, align, size_t_of, adjust, dalloc}
use id.Dlmalloc.Sizes.{adjust_rounds_up, adjust_small}
use id.Dlmalloc.Blocks.{
  Block, BlockAt, BlockAt-bounds, BlockAt-disjoint, mark, BlockAt-mark_self, BlockAt-mark_ne,
}
use id.Dlmalloc.FreeList.{has}
use id.Dlmalloc.State.{IsValid, AllFree-has}
use id.Dlmalloc.Cut.{cut, BlockAt-cut_new, BlockAt-cut_ne}
use id.Dlmalloc.Allocate.Find.{
  size_at, size_at-BlockAt, first_fit, serve, Served, Serves, allocate, find-Serves,
}

-- The result of a call of `dalloc` on `h`, against what the specification says: the address behind
-- the header of the block that serves the request, or NULL.
abbrev pub Returns : Heap → ℕ → Option Served → ℕ × Heap → Type 0
Returns h a none (p, g) = (p ≡ 0) × (g ≡ h)
Returns h a (some (q, ks, xs)) (p, g) = (p ≡ q + head_size) × IsValid g a ks xs

pub adjust_bounds :
    (n : ℕ)
    → 16 ≤ n
    → n < 2 ^ 31 - align
    → (16 ≤ adjust n) × (n ≤ adjust n) × (size_t_of (adjust n) ≡ adjust n)
adjust_bounds n big small = ground (arith, adjust_small n, adjust_rounds_up n)

first_fit_lem :
    (n a x : ℕ) (ks : List Block) (xs : List ℕ)
    → first_fit n a ks xs ≡ some x
    → (has x xs ≡ true) × (n ≤ size_at a ks x)
unfolding first_fit
first_fit_lem n a x ks [] e = cc
first_fit_lem n a x ks (y ∷ ys) e = ground (arith, first_fit_lem n a x ks ys)

-- What is known of a block that serves a request.
record Choice (n a : ℕ) (ks : List Block) (xs : List ℕ) (q : ℕ) (ks' : List Block) : Type 0 where
  from : ℕ
  block : Block
  there : BlockAt a ks from block
  was_free : block.is_free ≡ 1
  large : n ≤ block.payload
  how :
      ((q ≡ from) × (ks' ≡ mark from 0 a ks))
      ⊎ ((n + 24 ≤ block.payload)
          × (q ≡ from + (block.payload - n - head_size) + head_size)
          × (ks' ≡ cut from n a ks))

served :
    (h : Heap) (base n q : ℕ) (ks ks' : List Block) (xs xs' : List ℕ)
    → IsValid h base ks xs
    → (o : Option ℕ) → first_fit n base ks xs ≡ o
    → serve n base ks xs o ≡ some (q, ks', xs')
    → Choice n base ks xs q ks'
unfolding serve
served h base n q ks ks' xs xs' v none f e = cc
served h base n q ks ks' xs xs' v (some x) f e =
    let (i, fits) = first_fit_lem n base x ks xs f in
    let (k, at, one) = AllFree-has base x ks xs v.frees i in
    let sz = size_at-BlockAt base x k ks at in
    record {
      from = x;
      block = k;
      there = at;
      was_free = one;
      large = omega arith;
      how = ground (arith, sz);
    }

module _ (h : Heap) (base n q : ℕ) (ks ks' : List Block) (xs xs' : List ℕ)
    (v : IsValid h base ks xs) (e : allocate n base ks xs ≡ some (q, ks', xs')) where
  -- The block that serves a request is taken, and large enough.
  pub allocate-taken : (k : Block) × BlockAt base ks' q k × (k.is_free ≡ 0) × (n ≤ k.payload)
  allocate-taken = elim how [
    | inl w ↦ (
      record block { is_free = 0 },
      subst₂ (λ p l. BlockAt base l p (record block { is_free = 0 })) (sym w.0) (sym w.1)
          (BlockAt-mark_self base from 0 block ks there),
      refl,
      large,
    )
    | inr w ↦ (
      record { payload = n; is_free = 0 },
      subst₂ (λ p l. BlockAt base l p (record { payload = n; is_free = 0 })) (sym w.1) (sym w.2)
          (BlockAt-cut_new from n block (omega (arith, w.0)) base ks there),
      refl,
      le_refl n,
    )
  ]
    where
      open (served h base n q ks ks' xs xs' v (first_fit n base ks xs) refl e) use {
        from, block, there, large, how,
      }

  -- Every block that was taken before stays where it is, as it is, and is another one.
  pub allocate-others :
      (p : ℕ) (l : Block) → BlockAt base ks p l → l.is_free ≡ 0 → BlockAt base ks' p l × (p ≢ q)
  allocate-others p l at taken = elim how [
    | inl w ↦ (
      subst (λ t. BlockAt base t p l) (sym w.1) (BlockAt-mark_ne base from p 0 l ks ne at),
      λ z. ne (sym (z ∙ w.0)),
    )
    | inr w ↦ (
      subst (λ t. BlockAt base t p l) (sym w.2)
          (BlockAt-cut_ne from n block (omega (arith, w.0)) base p l ks there ne at),
      omega (arith, w.0, w.1, apart),
    )
  ]
    where
      open (served h base n q ks ks' xs xs' v (first_fit n base ks xs) refl e) use {
        from, block, there, was_free, large, how,
      }

      apart : (p + l.payload + head_size ≤ from) ⊎ (from + block.payload + head_size ≤ p)
      apart = ground (arith, BlockAt-disjoint base p from l block ks at there)

      ne : from ≢ p
      ne = omega (arith, apart)

abbrev Positive : Option Served → Type 0
Positive none = Unit
Positive (some (q, ks, xs)) = 0 < q

allocate-Positive :
    (h : Heap) (base n : ℕ) (ks : List Block) (xs : List ℕ)
    → IsValid h base ks xs
    → (o : Option Served) → allocate n base ks xs ≡ o
    → Positive o
allocate-Positive h base n ks xs v none e = tt
allocate-Positive h base n ks xs v (some (q, ks', xs')) e =
    let (k, at, zero, large) = allocate-taken h base n q ks ks' xs xs' v e in
    omega (arith, v.positive, BlockAt-bounds base q k ks' at)

Serves-Returns :
    (h : Heap) (base : ℕ) (o : Option Served) (r : ℕ × Heap)
    → Positive o
    → Serves h base o r
    → Returns h base o (if r.0 == 0 then 0 else r.0 + head_size, r.1)
Serves-Returns h base none r pos s = ground arith
Serves-Returns h base (some (q, ks, xs)) r pos s =
    let live : (r.0 == 0) ≡ false = ground arith in rw live (ap (λ t. t + head_size) s.0, s.1)

-- A request of 16 bytes or more that leaves room in an `int` is served on a valid state, within one
-- round more than the free list has blocks, by the first block of the list that has the size that
-- `adjust` gives: `dalloc` returns the address behind the header of the block that the specification
-- names, and leaves a valid state with its blocks and its list. If there is none, `dalloc` returns
-- NULL and changes nothing.
pub dalloc-Returns :
    (h : Heap) (base n fuel : ℕ) (ks : List Block) (xs : List ℕ)
    → IsValid h base ks xs
    → 16 ≤ n
    → n < 2 ^ 31 - align
    → length xs < fuel
    → (r : ℕ × Heap) × (dalloc fuel n h ≡ some r)
      × Returns h base (allocate (adjust n) base ks xs) r
unfolding dalloc
dalloc-Returns h base n fuel ks xs v big small enough =
    let (low, up, same) = adjust_bounds n big small in
    let (r, found, serves) = find-Serves h base (adjust n) fuel ks xs v low enough in
    let o = allocate (adjust n) base ks xs in
    let live : (n == 0) ≡ false = ground arith in
    (
      (if r.0 == 0 then 0 else r.0 + head_size, r.1),
      rw (live, same, found),
      Serves-Returns h base o r (allocate-Positive h base (adjust n) ks xs v o refl) serves,
    )

-- A taken block at `p` shares no byte with the blocks that a client holds, their headers included.
unfoldable pub IsApart : ℕ → Block → List (ℕ × Block) → Type 0
IsApart p l [] = Unit
IsApart p l ((q, k) ∷ held) =
    ((p + l.payload + head_size ≤ q) ⊎ (q + k.payload + head_size ≤ p)) × IsApart p l held

-- The blocks that a client holds: each is a taken block of the arena, and no two of them overlap.
unfoldable pub Holds : ℕ → List Block → List (ℕ × Block) → Type 0
unfolding IsApart
Holds base ks [] = Unit
Holds base ks ((p, l) ∷ held) =
    BlockAt base ks p l × (l.is_free ≡ 0) × IsApart p l held × Holds base ks held

-- What a client that holds blocks learns of a request for `n` bytes that was served: it holds one more.
abbrev pub Fresh : ℕ → ℕ → List (ℕ × Block) → ℕ × Heap → Type 0
Fresh base n held (m, g) =
    (q : ℕ) × (k : Block) × (ks : List Block) × (xs : List ℕ) × (m ≡ q + head_size)
    × IsValid g base ks xs
    × (n ≤ k.payload)
    × Holds base ks ((q, k) ∷ held)

-- The blocks that were held before `find` served a request are held after it, apart from the new one.
Holds-allocate :
    (h : Heap) (base m q : ℕ) (k : Block) (ks ks' : List Block) (xs xs' : List ℕ)
    → IsValid h base ks xs
    → allocate m base ks xs ≡ some (q, ks', xs')
    → BlockAt base ks' q k
    → (held : List (ℕ × Block)) → Holds base ks held
    → IsApart q k held × Holds base ks' held
unfolding Holds IsApart
Holds-allocate h base m q k ks ks' xs xs' v e at [] hs = (tt, tt)
Holds-allocate h base m q k ks ks' xs xs' v e at ((p, l) ∷ held) (there, taken, apart, hs) =
    let (still, ne) = allocate-others h base m q ks ks' xs xs' v e p l there taken in
    let clear : (q + k.payload + head_size ≤ p) ⊎ (p + l.payload + head_size ≤ q) =
      ground (arith, BlockAt-disjoint base p q l k ks' still at) in
    let (away, rest) = Holds-allocate h base m q k ks ks' xs xs' v e at held hs in
    ((clear, away), (still, taken, apart, rest))

Returns-Fresh :
    (h : Heap) (base n m : ℕ) (held : List (ℕ × Block)) (ks : List Block) (xs : List ℕ)
    (r : ℕ × Heap)
    → IsValid h base ks xs
    → n ≤ m
    → Holds base ks held
    → (o : Option Served) → allocate m base ks xs ≡ o
    → Returns h base o r
    → ((r.0 ≡ 0) × (r.1 ≡ h)) ⊎ Fresh base n held r
unfolding Holds
Returns-Fresh h base n m held ks xs r v up hs none e s = inl s
Returns-Fresh h base n m held ks xs r v up hs (some (q, ks', xs')) e s =
    let (k, at', zero, large) = allocate-taken h base m q ks ks' xs xs' v e in
    let (away, rest) = Holds-allocate h base m q k ks ks' xs xs' v e at' held hs in
    inr (q, k, ks', xs', s.0, s.1, omega (arith, up, large), (at', zero, away, rest))

-- A client's view of a request of 16 bytes or more that leaves room in an `int`, on a valid state in
-- which the client holds any number of taken blocks, none of which overlap: `dalloc` returns NULL and
-- changes nothing, or it returns the payload of a taken block with room for the request and leaves a
-- valid state, in which the client holds the same blocks, at their addresses and with their sizes, and
-- the new one, and still none of them overlap.
pub dalloc-Fresh :
    (h : Heap) (base n fuel : ℕ) (ks : List Block) (xs : List ℕ) (held : List (ℕ × Block))
    → IsValid h base ks xs
    → 16 ≤ n
    → n < 2 ^ 31 - align
    → length xs < fuel
    → Holds base ks held
    → (r : ℕ × Heap) × (dalloc fuel n h ≡ some r) × (((r.0 ≡ 0) × (r.1 ≡ h)) ⊎ Fresh base n held r)
dalloc-Fresh h base n fuel ks xs held v big small enough hs =
    let (r, got, returns) = dalloc-Returns h base n fuel ks xs v big small enough in
    (
      r,
      got,
      Returns-Fresh h base n (adjust n) held ks xs r v (adjust_bounds n big small).1 hs
          (allocate (adjust n) base ks xs) refl returns,
    )
