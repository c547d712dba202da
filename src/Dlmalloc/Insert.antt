-- ===== src/Dlmalloc/Insert.antt =====
-- `insert` of seminar2/dlmalloc.c on the doubly linked free list.
use id.Base.{ℕ, ◌^◌, ◌<◌, ◌≡◌, refl, sym, ◌∙◌, List, ◌∷◌, arith}
use mathlib.Core.Path.{subst}
use id.Dlmalloc.{next, prev, get, set, Heap, insert}
use id.Dlmalloc.Fields.{get-set, get-set_ne}
use id.Dlmalloc.FreeList.{
  get-relink, Linked-first, Linked, IsFreeList, Spread, Linked-set_prev, Linked-set_next, relink,
  Linked-relink,
}

-- `insert` puts a block that lies apart in front of a free list.
pub insert-cons :
    (h : Heap) (b : ℕ) (xs : List ℕ)
    → 0 < b
    → b < 2 ^ 64
    → IsFreeList h xs
    → Spread (b ∷ xs)
    → IsFreeList (insert b h) (b ∷ xs)
unfolding insert
insert-cons h b xs pos small l s =
    let out = Linked-first h.mem 0 h.flist b xs l s.0 in
    let m1 = set next b h.flist h.mem in
    let m2 = set prev b 0 m1 in
    let to_first : get next b (relink h.flist b m2) ≡ h.flist =
      get-relink next b h.flist b m2 out.1
      ∙ get-set_ne next b prev b 0 m1 (omega arith)
      ∙ get-set next b h.flist h.mem out.0 in
    let to_null : get prev b (relink h.flist b m2) ≡ 0 =
      get-relink prev b h.flist b m2 out.1 ∙ get-set prev b 0 m1 (omega arith) in
    let tail : Linked (relink h.flist b m2) b h.flist xs =
      Linked-relink m2 0 h.flist b xs small s.1 (
        Linked-set_prev m1 0 h.flist xs b 0 s.0
          (Linked-set_next h.mem 0 h.flist xs b h.flist s.0 l)) in
    (
      refl,
      pos,
      small,
      to_null,
      subst (λ t. Linked (relink h.flist b m2) b t xs) (sym to_first) tail,
    )
