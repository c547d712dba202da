-- ===== src/Dlmalloc/Detach.antt =====
-- `detach` of seminar2/dlmalloc.c on the doubly linked free list.
use id.Base.{
  ℕ, ◌^◌, ◌<◌, ◌≡◌, ◌⊎◌, inl, inr, sym, ap, ◌∙◌, true, false, List, [], ◌∷◌, arith, ◌==◌,
  Bool-cases,
}
use mathlib.Core.Path.{subst, ap₂}
use id.Dlmalloc.{Field, next, prev, get, set, Heap, detach}
use id.Dlmalloc.Memory.{Mem}
use id.Dlmalloc.Fields.{get-set, get-set_ne}
use id.Dlmalloc.FreeList.{
  get-relink, Linked-first, Linked, IsFreeList, Apart, Spread, has, erase, Linked-set_next, relink,
  Linked-relink, Clear24, Apart-has, Linked-has, next-has, prev-has,
}

-- What `detach` writes for a block between `q` and `n`, if `q` is not NULL.
abbrev pub join : ℕ → ℕ → Mem → Mem
join q n m = set next q n (relink n q m)

abbrev pub unlink : ℕ → Mem → Mem
unlink b m = join (get prev b m) (get next b m) m

-- The list that is left when what stood between `x` and `n` is taken out.
Linked-join :
    (m : Mem) (back w p x n : ℕ) (zs : List ℕ)
    → (p ≡ x) × (0 < x) × (x < 2 ^ 64) × (get prev x m ≡ back)
    → Linked m w n zs
    → Apart x zs
    → Spread zs
    → Linked (join x n m) back p (x ∷ zs)
Linked-join m back w p x n zs e l a s =
    let (small, out) = Linked-first m w n x zs l a in
    let to_n : get next x (join x n m) ≡ n = get-set next x n (relink n x m) small in
    let kept : get prev x (join x n m) ≡ back =
      get-set_ne prev x next x n (relink n x m) (omega arith) ∙ get-relink prev x n x m out ∙ e.3 in
    let tail : Linked (join x n m) x n zs =
      Linked-set_next (relink n x m) x n zs x n a (Linked-relink m w n x zs e.2 s l) in
    (e.0, e.1, e.2, kept, subst (λ t. Linked (join x n m) x t zs) (sym to_n) tail)

get-join :
    (f : Field) (x q n : ℕ) (m : Mem)
    → Clear24 x q
    → (n ≡ 0) ⊎ Clear24 x n
    → get f x (join q n m) ≡ get f x m
get-join next x q n m h k =
    get-set_ne next x next q n (relink n q m) (omega arith) ∙ get-relink next x n q m k
get-join f x q n m h k =
    get-set_ne f x next q n (relink n q m) (omega arith) ∙ get-relink f x n q m k

-- What stands around a block of the list behind `y`, seen from a block `x` before `y`.
unlink-clear :
    (m : Mem) (back x y p b : ℕ) (ys : List ℕ)
    → Linked m back p (y ∷ ys)
    → Spread (x ∷ y ∷ ys)
    → has b ys ≡ true
    → Clear24 x (get prev b m) × ((get next b m ≡ 0) ⊎ Clear24 x (get next b m))
unlink-clear m back x y p b ys l s h =
    let q = prev-has m back p y b ys l h in
    let c = Apart-has x (get prev b m) (y ∷ ys) s.0 q in
    ground (arith, c, next-has m y (get next y m) b ys, Apart-has x (get next b m) (y ∷ ys))

-- `detach` of a block behind the first one takes it out of the list.
Linked-unlink :
    (m : Mem) (back p x b : ℕ) (xs : List ℕ)
    → Linked m back p (x ∷ xs)
    → Spread (x ∷ xs)
    → has b xs ≡ true
    → Linked (unlink b m) back p (x ∷ erase b xs)
unfolding erase
Linked-unlink m back p x b [] l s h = cc
Linked-unlink m back p x b (y ∷ ys) l s h = elim (Bool-cases (y == b)) [
  | inl hit ↦
      let e : y ≡ b = ground arith in
      let around : join x (get next y m) m ≡ unlink b m =
        ap₂ (λ c t. join c (get next t m) m) (sym l.4.3 ∙ ap (λ t. get prev t m) e) e in
      rw hit (
        subst (λ t. Linked t back p (x ∷ ys)) around
          (Linked-join m back y p x (get next y m) ys (l.0, l.1, l.2, l.3) l.4.4 s.0.1 s.1.1))
  | inr miss ↦
      let below : has b ys ≡ true = ground arith in
      let c = unlink-clear m x x y (get next x m) b ys l.4 s below in
      let kept = get-join prev x (get prev b m) (get next b m) m c.0 c.1 in
      let same = get-join next x (get prev b m) (get next b m) m c.0 c.1 in
      rw (miss, kept, same)
        (l.0, l.1, l.2, l.3, Linked-unlink m x (get next x m) y b ys l.4 s.1 below)
]

-- `detach` of the first block, and of a block behind it, as one write each.
pub detach_first :
    (h : Heap) (b : ℕ)
    → get prev b h.mem ≡ 0
    → (get next b h.mem ≡ 0) ⊎ Clear24 b (get next b h.mem)
    → detach b h ≡ record h { mem = relink (get next b h.mem) 0 h.mem; flist = get next b h.mem }
unfolding detach
detach_first h b e c =
    let n = get next b h.mem in
    rw e (rw (get-relink prev b n 0 h.mem c, get-relink next b n 0 h.mem c, e))

pub detach_inner :
    (h : Heap) (b : ℕ)
    → 0 < get prev b h.mem
    → (get next b h.mem ≡ 0) ⊎ Clear24 b (get next b h.mem)
    → detach b h ≡ record h { mem = unlink b h.mem }
unfolding detach
detach_inner h b e c =
    let n = get next b h.mem in
    let q = get prev b h.mem in
    let off : (q == 0) ≡ false = ground arith in
    rw (get-relink prev b n q h.mem c, get-relink next b n q h.mem c, off)

-- `detach` takes a block out of a free list, wherever it stands, and leaves the others in order.
pub detach-erase :
    (h : Heap) (b : ℕ) (xs : List ℕ)
    → IsFreeList h xs
    → Spread xs
    → has b xs ≡ true
    → IsFreeList (detach b h) (erase b xs)
unfolding erase
detach-erase h b [] l s i = cc
detach-erase h b (x ∷ xs) l s i = elim (Bool-cases (x == b)) [
  | inl hit ↦
      let e : x ≡ b = ground arith in
      let l' : Linked h.mem b (get next b h.mem) xs =
        subst (λ t. Linked h.mem t (get next t h.mem) xs) e l.4 in
      let out = Linked-first h.mem b (get next b h.mem) b xs l' (subst (λ t. Apart t xs) e s.0) in
      rw (hit, detach_first h b (rw e at l.3) out.1)
        (Linked-relink h.mem b (get next b h.mem) 0 xs (omega arith) s.1 l')
  | inr miss ↦
      let below : has b xs ≡ true = ground arith in
      let q = prev-has h.mem 0 h.flist x b xs l below in
      let pos = Linked-has h.mem 0 h.flist (get prev b h.mem) (x ∷ xs) l q in
      let out : (get next b h.mem ≡ 0) ⊎ Clear24 b (get next b h.mem) =
        ground (arith, next-has h.mem 0 h.flist b (x ∷ xs) l s i) in
      rw miss (
        subst (λ t. IsFreeList t (x ∷ erase b xs)) (sym (detach_inner h b pos.0 out))
          (Linked-unlink h.mem 0 h.flist x b xs l s below))
]
