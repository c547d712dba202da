-- ===== src/Dlmalloc/Overrun.antt =====
-- What `dfree` of seminar2/dlmalloc.c does to the block behind one that is too small for two links.
use id.Base.{
  ℕ, zero, suc, ◌+◌, ◌-◌, ◌≤◌, ◌<◌, ◌≡◌, ◌⊎◌, inl, inr, refl, ◌∙◌, arith, ◌==◌, false, Bool-cases,
}
use id.Dlmalloc.{
  Field, size, next, prev, offset, width, get, set, Heap, head_size, after, insert, dfree,
}
use id.Dlmalloc.Memory.{Mem, load, store}
use id.Dlmalloc.Fields.{get-set_ne}

store-zero : (w a : ℕ) (m : Mem) (c : ℕ) → a ≤ c → c < a + w → store w a 0 m c ≡ 0
unfolding store
store-zero zero a m c h k = absurd (omega arith)
store-zero (suc w) a m c h k = ground (arith, store-zero w (a + 1) m c)

load-zero : (v a w b : ℕ) (m : Mem) → a ≤ b → b + v ≤ a + w → load v b (store w a 0 m) ≡ 0
unfolding load
load-zero zero a w b m h k = refl
load-zero (suc v) a w b m h k = ground (arith, load-zero v a w (b + 1) m, store-zero w a m b)

-- A member of a header that lies where a `prev` link of NULL is written.
get-null :
    (f : Field) (a b : ℕ) (m : Mem)
    → b + 16 ≤ a + offset f
    → a + offset f + width f ≤ b + 24
    → get f a (set prev b 0 m) ≡ 0
unfolding get set
get-null f a b m low high = load-zero (width f) (b + 16) 8 (a + offset f) m low (omega arith)

insert-null :
    (f : Field) (g : Heap) (b : ℕ)
    → offset f + width f ≤ head_size
    → (g.flist ≡ 0) ⊎ ((g.flist + head_size ≤ b) ⊎ (b + head_size ≤ g.flist))
    → get f (b + 16) (insert b g).mem ≡ 0
unfolding insert
insert-null f g b low first = elim (Bool-cases (g.flist == 0)) [
  | inl null ↦ rw null zeroed
  | inr live ↦ rw live (get-set_ne f (b + 16) prev g.flist b _ (ground arith) ∙ zeroed)
]
  where
    zeroed : get f (b + 16) (set prev b 0 (set next b g.flist g.mem)) ≡ 0
    zeroed = get-null f (b + 16) b (set next b g.flist g.mem) (omega arith) (omega arith)

-- `dfree` of a block whose size is 8, as a request of 8 bytes may get it, overwrites the header of
-- the block behind with the link of NULL: all four members of that header are 0 then, as if it were
-- the sentinel. The block that heads the free list is another one.
pub dfree_overrun :
    (h : Heap) (b : ℕ) (f : Field)
    → 0 < b
    → get size b h.mem ≡ 8
    → (h.flist ≡ 0) ⊎ ((h.flist + head_size ≤ b) ⊎ (b + head_size ≤ h.flist))
    → offset f + width f ≤ head_size
    → get f (after b h.mem) (dfree (b + head_size) h).mem ≡ 0
unfolding dfree after
dfree_overrun h b f pos sz first low =
    let live : (b + head_size == 0) ≡ false = ground arith in
    let back : b + head_size - head_size ≡ b = omega arith in
    let at : b + 8 + head_size ≡ b + 16 = omega arith in
    rw (live, back, sz, at) (insert-null f _ b low first)
