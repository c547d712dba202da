-- ===== src/Dlmalloc/Free.antt =====
-- `insert`, `detach`, the status of a block and `dfree` of seminar2/dlmalloc.c on a valid state.
use mathlib.Core.Path.{subst}
use id.Base.{
  ℕ, ◌+◌, ◌-◌, ◌≤◌, ◌<◌, ◌≡◌, ◌≢◌, inl, inr, refl, sym, false, true, List, [], ◌∷◌, arith, ◌==◌,
  Bool-cases,
}
use id.Dlmalloc.{bfree, free, get, set, Heap, head_size, after, insert, detach, dfree}
use id.Dlmalloc.Fields.{get-set}
use id.Dlmalloc.Blocks.{
  Block, BlockAt, BlockAt-bounds, BlockAt-disjoint, BlockAt-Sized, mark, BlockAt-mark_self,
  BlockAt-mark_ne, Sized-mark, span-mark, set_status, Chain-set_status,
}
use id.Dlmalloc.FreeList.{Apart, Apart-has, Spread, OffLinks, Linked-set, has, erase}
use id.Dlmalloc.Detach.{detach-erase}
use id.Dlmalloc.Insert.{insert-cons}
use id.Dlmalloc.State.{
  FreeAt, AllFree, IsValid, Chain-at, Apart-taken, Chain-insert, Chain-detach, IsFreeList-first,
}

-- What is left of the list after a block is taken out.
Apart-erase : (y b : ℕ) (xs : List ℕ) → Apart y xs → Apart y (erase b xs)
unfolding erase
Apart-erase y b [] a = a
Apart-erase y b (x ∷ xs) a = ground (arith, Apart-erase y b xs)

Spread-erase : (b : ℕ) (xs : List ℕ) → Spread xs → Spread (erase b xs)
unfolding erase
Spread-erase b [] s = s
Spread-erase b (x ∷ xs) s = ground (arith, Spread-erase b xs, Apart-erase x b xs)

AllFree-erase :
    (a b : ℕ) (ks : List Block) (xs : List ℕ) → AllFree a ks xs → AllFree a ks (erase b xs)
unfolding erase
AllFree-erase a b ks [] f = f
AllFree-erase a b ks (x ∷ xs) f = elim (Bool-cases (x == b)) [
  | inl hit ↦ rw hit f.1
  | inr miss ↦ rw miss (f.0, AllFree-erase a b ks xs f.1)
]

-- The block that is taken out lies apart from those that are left.
pub Apart-erased : (b : ℕ) (xs : List ℕ) → Spread xs → has b xs ≡ true → Apart b (erase b xs)
unfolding erase
Apart-erased b [] s i = cc
Apart-erased b (x ∷ xs) s i = elim (Bool-cases (x == b)) [
  | inl hit ↦ let e : x ≡ b = ground arith in rw hit (subst (λ t. Apart t xs) e s.0)
  | inr miss ↦
      let below : has b xs ≡ true = ground arith in
      rw miss (ground (arith, Apart-has x b xs s.0 below), Apart-erased b xs s.1 below)
]

module _ (h : Heap) (base b : ℕ) (ks : List Block) (xs : List ℕ) (v : IsValid h base ks xs) where
  -- `detach` of a block of the free list keeps the arena valid.
  pub detach-IsValid : has b xs ≡ true → IsValid (detach b h) base ks (erase b xs)
  detach-IsValid i = record {
    positive = v.positive;
    room = v.room;
    sized = v.sized;
    chain = Chain-detach h base b ks xs v i;
    list = detach-erase h b xs v.list v.spread i;
    spread = Spread-erase b xs v.spread;
    frees = AllFree-erase base b ks xs v.frees;
  }

  -- `insert` of a free block that the list does not hold keeps the arena valid.
  pub insert-IsValid : FreeAt base ks b → Apart b xs → IsValid (insert b h) base ks (b ∷ xs)
  insert-IsValid (k, at, one) apart =
      let from = BlockAt-bounds base b k ks at in
      record {
        positive = v.positive;
        room = v.room;
        sized = v.sized;
        chain =
            Chain-insert h base b k ks at (IsFreeList-first h base ks xs v.list v.frees) v.sized
              v.chain;
        list =
            insert-cons h b xs (omega (arith, v.positive, from)) (omega (arith, v.room, from))
              v.list (apart, v.spread);
        spread = (apart, v.spread);
        frees = ((k, at, one), v.frees);
      }

-- The two copies of a block's status lie apart from the links of other free blocks.
OffLinks-status :
    (a b : ℕ) (k : Block) (ks : List Block) (xs : List ℕ)
    → BlockAt a ks b k
    → (16 ≤ k.payload)
    → AllFree a ks xs
    → Apart b xs
    → OffLinks free b xs × OffLinks bfree (b + k.payload + head_size) xs
OffLinks-status a b k ks [] at s f apart = (tt, tt)
OffLinks-status a b k ks (x ∷ xs) at s f apart =
    let (l, at', one) = f.0 in
    let (o, o') = OffLinks-status a b k ks xs at s f.1 apart.1 in
    let d = BlockAt-disjoint a b x k l ks at at' in
    ((ground (arith, apart.0), o), (ground (arith, apart.0, d), o'))

AllFree-mark :
    (a b v : ℕ) (ks : List Block) (xs : List ℕ)
    → Apart b xs
    → AllFree a ks xs
    → AllFree a (mark b v a ks) xs
AllFree-mark a b v ks [] apart f = tt
AllFree-mark a b v ks (x ∷ xs) apart f =
    let (l, at, one) = f.0 in
    let ne : b ≢ x = omega (arith, apart.0) in
    ((l, BlockAt-mark_ne a b x v l ks ne at, one), AllFree-mark a b v ks xs apart.1 f.1)

-- Writing the status of a block that the free list does not hold keeps the arena valid.
pub set_status-IsValid :
    (h : Heap) (base b n : ℕ) (k : Block) (ks : List Block) (xs : List ℕ)
    → n < 2
    → IsValid h base ks xs
    → BlockAt base ks b k
    → Apart b xs
    → IsValid
        (record h { mem = set_status b (b + k.payload + head_size) n h.mem })
        base
        (mark b n base ks)
        xs
set_status-IsValid h base b n k ks xs small v at apart =
    let aft : ℕ = b + k.payload + head_size in
    let off =
      OffLinks-status base b k ks xs at (BlockAt-Sized base b k ks at v.sized).0 v.frees apart in
    record {
      positive = v.positive;
      room = omega (arith, v.room, span-mark base b n ks);
      sized = Sized-mark base b n ks small v.sized;
      chain = Chain-set_status h.mem base 0 0 ks b n k small at v.chain;
      list =
          Linked-set (set free b n h.mem) 0 h.flist xs bfree aft n off.1
            (Linked-set h.mem 0 h.flist xs free b n off.0 v.list);
      spread = v.spread;
      frees = AllFree-mark base b n ks xs apart v.frees;
    }

-- `dfree` of the payload of a block, as the writes that it makes.
dfree_lem :
    (h : Heap) (base b : ℕ) (k : Block) (ks : List Block) (xs : List ℕ)
    → IsValid h base ks xs
    → BlockAt base ks b k
    → dfree (b + head_size) h
      ≡ insert b (record h { mem = set_status b (b + k.payload + head_size) 1 h.mem })
unfolding dfree after
dfree_lem h base b k ks xs v at =
    let live : (b + head_size == 0) ≡ false = ground arith in
    let back : b + head_size - head_size ≡ b = omega arith in
    let (sz, fr) = Chain-at h.mem base 0 0 b k ks at v.chain in
    let one : get free b (set free b 1 h.mem) ≡ 1 = get-set free b 1 h.mem (omega arith) in
    rw (live, back, sz, one)

-- `dfree` of the payload of a taken block marks that block, and no other, as free, puts it in front
-- of the free list and keeps the arena valid.
pub dfree-IsValid :
    (h : Heap) (base b : ℕ) (k : Block) (ks : List Block) (xs : List ℕ)
    → IsValid h base ks xs
    → BlockAt base ks b k
    → k.is_free ≡ 0
    → IsValid (dfree (b + head_size) h) base (mark b 1 base ks) (b ∷ xs)
dfree-IsValid h base b k ks xs v at taken =
    let apart = Apart-taken base b k ks xs at taken v.sized v.frees in
    let aft : ℕ = b + k.payload + head_size in
    let h1 : Heap = record h { mem = set_status b aft 1 h.mem } in
    let v1 = set_status-IsValid h base b 1 k ks xs (omega arith) v at apart in
    subst (λ t. IsValid t base (mark b 1 base ks) (b ∷ xs)) (sym (dfree_lem h base b k ks xs v at))
      (insert-IsValid h1 base b (mark b 1 base ks) xs v1
        (record k { is_free = 1 }, BlockAt-mark_self base b 1 k ks at, refl) apart)
