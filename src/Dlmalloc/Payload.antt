-- ===== src/Dlmalloc/Payload.antt =====
-- What a client of seminar2/dlmalloc.c writes to its blocks.
use id.Base.{ℕ, ◌+◌, ◌≤◌, ◌≡◌, ◌⊎◌, inl, inr, List, [], ◌∷◌, arith}
use id.Dlmalloc.{Field, bfree, bsize, free, size, next, prev, offset, width, get, Heap, head_size}
use id.Dlmalloc.Memory.{Mem, store, load-store_ne}
use id.Dlmalloc.Blocks.{
  Block, Header, Chain, BlockAt, BlockAt-bounds, BlockAt-disjoint, BlockAt-Sized, Sized,
}
use id.Dlmalloc.FreeList.{Linked}
use id.Dlmalloc.State.{IsValid, AllFree}

-- A write of `w` bytes at `x` that no member `f` of `b` overlaps.
get-store_ne :
    (f : Field) (b w x v : ℕ) (m : Mem)
    → (b + offset f + width f ≤ x) ⊎ (x + w ≤ b + offset f)
    → get f b (store w x v m) ≡ get f b m
unfolding get
get-store_ne f b w x v m c = load-store_ne (width f) (b + offset f) w x v m c

module _ (w x v : ℕ) (m : Mem) where
  Header-store :
      (a bf bs f s : ℕ)
      → (a + head_size ≤ x) ⊎ (x + w ≤ a)
      → Header m a bf bs f s
      → Header (store w x v m) a bf bs f s
  Header-store a bf bs f s c h = ground (
    arith,
    get-store_ne bfree a w x v m,
    get-store_ne bsize a w x v m,
    get-store_ne free a w x v m,
    get-store_ne size a w x v m,
  )

  Chain-store_below :
      (a bf bs : ℕ) (ks : List Block)
      → x + w ≤ a
      → Chain m a bf bs ks
      → Chain (store w x v m) a bf bs ks
  Chain-store_below a bf bs [] c h = Header-store a bf bs 0 0 (inr c) h
  Chain-store_below a bf bs (k ∷ ks) c h = (
    Header-store a bf bs k.is_free k.payload (inr c) h.0,
    Chain-store_below (a + k.payload + head_size) k.is_free k.payload ks (omega arith) h.1,
  )

  module _ (p : ℕ) (k : Block) (low : p + head_size ≤ x)
      (up : x + w ≤ p + head_size + k.payload) where
    Chain-store :
        (a bf bs : ℕ) (ks : List Block)
        → BlockAt a ks p k
        → Chain m a bf bs ks
        → Chain (store w x v m) a bf bs ks
    Chain-store a bf bs [] at h = absurd at
    Chain-store a bf bs (j ∷ ks) (inl e) h =
        let same : k.payload ≡ j.payload = ground arith in
        (
          Header-store a bf bs j.is_free j.payload (inl (omega arith)) h.0,
          Chain-store_below (a + j.payload + head_size) j.is_free j.payload ks (omega (arith, same))
              h.1,
        )
    Chain-store a bf bs (j ∷ ks) (inr at) h =
        let from = BlockAt-bounds (a + j.payload + head_size) p k ks at in
        (
          Header-store a bf bs j.is_free j.payload (inl (omega (arith, from))) h.0,
          Chain-store (a + j.payload + head_size) j.is_free j.payload ks at h.1,
        )

    -- The free blocks lie apart from a taken one.
    Linked-store :
        (base back q : ℕ) (ks : List Block) (xs : List ℕ)
        → BlockAt base ks p k
        → k.is_free ≡ 0
        → Sized ks
        → AllFree base ks xs
        → Linked m back q xs
        → Linked (store w x v m) back q xs
    Linked-store base back q ks [] at taken s f l = l
    Linked-store base back q ks (y ∷ ys) at taken s f l =
        let (j, at', one) = f.0 in
        let apart : (p + k.payload + head_size ≤ y) ⊎ (y + j.payload + head_size ≤ p) =
          ground (arith, BlockAt-disjoint base p y k j ks at at') in
        let wide = BlockAt-Sized base y j ks at' s in
        let same : get next y (store w x v m) ≡ get next y m =
          get-store_ne next y w x v m (omega (arith, apart, wide)) in
        let kept : get prev y (store w x v m) ≡ get prev y m =
          get-store_ne prev y w x v m (omega (arith, apart, wide)) in
        (
          l.0,
          l.1,
          l.2,
          rw kept l.3,
          rw same (Linked-store base y (get next y m) ks ys at taken s f.1 l.4),
        )

-- A client that writes any number of bytes inside the payload of a taken block leaves a valid state
-- valid, with the same blocks and the same free list
pub store-IsValid :
    (h : Heap) (base p w x v : ℕ) (k : Block) (ks : List Block) (xs : List ℕ)
    → IsValid h base ks xs
    → BlockAt base ks p k
    → k.is_free ≡ 0
    → p + head_size ≤ x
    → x + w ≤ p + head_size + k.payload
    → IsValid (record h { mem = store w x v h.mem }) base ks xs
store-IsValid h base p w x v k ks xs y at taken low up = record {
  positive = y.positive;
  room = y.room;
  sized = y.sized;
  chain = Chain-store w x v h.mem p k low up base 0 0 ks at y.chain;
  list = Linked-store w x v h.mem p k low up base 0 h.flist ks xs at taken y.sized y.frees y.list;
  spread = y.spread;
  frees = y.frees;
}
