-- ===== src/Dlmalloc/Allocate/Carve.antt =====
-- `split`, and the part of `find` of seminar2/dlmalloc.c that calls it.
use id.Base.{
  ℕ, ◌+◌, ◌-◌, ◌^◌, ◌≤◌, ◌<◌, ◌≡◌, ◌⊎◌, inl, inr, ap, ◌∙◌, Bool-cases, ◌==◌, List, [], ◌∷◌, arith,
}
use id.Dlmalloc.{
  Field, bfree, bsize, free, size, next, prev, get, set, Heap, head_size, int_of, size_t_of, after,
  split, insert, carve,
}
use id.Dlmalloc.Memory.{Mem}
use id.Dlmalloc.Fields.{Clear, get-set, get-set_ne, set_comm}
use id.Dlmalloc.FreeList.{relink}
use id.Dlmalloc.Writes.{Write, write, apply}
use id.Dlmalloc.Cut.{cuts}

abbrev fours : ℕ → ℕ → List Write
fours s r = write bfree s 1 ∷ write bsize s r ∷ write free s 0 ∷ []

abbrev fives : ℕ → ℕ → ℕ → List Write
fives s r n = write bfree s 1 ∷ write bsize s r ∷ write free s 0 ∷ write size s n ∷ []

-- The writes of `split`.
abbrev six : ℕ → ℕ → ℕ → List Write
six p r n =
    let s : ℕ = p + r + head_size in
    write size p r
    ∷ write bfree s 1
    ∷ write bsize s r
    ∷ write free s 0
    ∷ write size s n
    ∷ write bsize (s + n + head_size) n
    ∷ []

-- The free block `b` of payload `p` is split: what `split` returns, and its writes.
pub split_lem :
    (b n p : ℕ) (m : Mem)
    → get size b m ≡ p
    → get free b m ≡ 1
    → n + head_size ≤ p
    → p < 2 ^ 16
    → split b n m ≡ (b + (p - n - head_size) + head_size, apply (six b (p - n - head_size) n) m)
unfolding split after
split_lem b n p m sz fr fits small =
    let r : ℕ = p - n - head_size in
    let s : ℕ = b + r + head_size in
    let m1 = set size b r m in
    let m2 = set bfree s 1 m1 in
    let m3 = set bsize s r m2 in
    let m4 = set free s 0 m3 in
    let rest : int_of (p + 2 ^ 64 - size_t_of n + 2 ^ 64 - head_size) ≡ r = ground arith in
    let kept : get size b m1 ≡ r = get-set size b r m (omega arith) in
    let still : get free b m1 ≡ 1 = get-set_ne free b size b r m (omega arith) ∙ fr in
    let kept2 : get size b m2 ≡ r = get-set_ne size b bfree s 1 m1 (omega arith) ∙ kept in
    let new : get size s (set size s n m4) ≡ n = get-set size s n m4 (omega arith) in
    rw (sz, rest, kept, still, kept2, new)

-- A write beside the links that `insert` writes may as well come before them.
module _ (h : Heap) (b : ℕ) (g : Field) (x : ℕ) (at_prev : Clear g x prev b)
    (at_next : Clear g x next b) (at_first : (h.flist ≡ 0) ⊎ Clear g x prev h.flist) where
  relink_comm :
      (v w : ℕ) (m : Mem) → set g x v (relink h.flist w m) ≡ relink h.flist w (set g x v m)
  relink_comm v w m = elim (Bool-cases (h.flist == 0)) [
    | inl null ↦ rw null
    | inr live ↦ rw live (set_comm g x v prev h.flist w m (ground arith))
  ]

  pub insert-set :
      (v : ℕ)
      → record (insert b h) { mem = set g x v (insert b h).mem }
        ≡ insert b (record h { mem = set g x v h.mem })
  unfolding insert
  insert-set v =
      let m1 = set next b h.flist h.mem in
      ap (λ m. record { mem = m; arena = h.arena; flist = b })
        (relink_comm v b (set prev b 0 m1)
          ∙ ap (λ m. relink h.flist b m)
              (set_comm g x v prev b 0 m1 at_prev
                ∙ ap (λ m. set prev b 0 m) (set_comm g x v next b h.flist h.mem at_next)))

  pub insert-get : get g x (insert b h).mem ≡ get g x h.mem
  unfolding insert
  insert-get =
      let m1 = set next b h.flist h.mem in
      let m2 = set prev b 0 m1 in
      let link : get g x (relink h.flist b m2) ≡ get g x m2 =
        ground (arith, get-set_ne g x prev h.flist b m2) in
      link ∙ get-set_ne g x prev b 0 m1 at_prev ∙ get-set_ne g x next b h.flist h.mem at_next

module _ (h : Heap) (b n p : ℕ) (sz : get size b h.mem ≡ p) (fr : get free b h.mem ≡ 1)
    (fits : n + 24 ≤ p) (small : p < 2 ^ 16)
    (first : (h.flist ≡ 0) ⊎ ((h.flist + 24 ≤ b) ⊎ (b + p + head_size ≤ h.flist))) where
  -- The writes of `carve` to headers may all come before its call of `insert`.
  pub carve_lem : carve b n h ≡ (
    b + (p - n - head_size) + head_size,
    insert b (record h { mem = apply (cuts b (p - n - head_size) n) h.mem }),
  )
  unfolding carve after
  carve_lem =
      let r : ℕ = p - n - head_size in
      let s : ℕ = b + r + head_size in
      let t : ℕ = s + n + head_size in
      let same : int_of n ≡ n = omega arith in
      let m6 = apply (six b r n) h.mem in
      let m7 = set bfree t 0 m6 in
      let h6 : Heap = record h { mem = m6 } in
      let h7 : Heap = record h { mem = m7 } in
      let new : get size s m6 ≡ n =
        get-set_ne size s bsize t n (apply (fives s r n) (set size b r h.mem)) (omega arith)
        ∙ get-set size s n (apply (fours s r) (set size b r h.mem)) (omega arith) in
      let read : get size s (insert b h6).mem ≡ n =
        insert-get h6 b size s (omega arith) (omega arith) (omega arith) ∙ new in
      let tagged = insert-set h6 b bfree t (omega arith) (omega arith) (omega arith) 0 in
      let taken = insert-set h7 b free s (omega arith) (omega arith) (omega arith) 0 in
      rw (same, split_lem b n p h.mem sz fr (omega arith) small, read)
        (ap (λ (x : Heap). (s, record x { mem = set free s 0 x.mem })) tagged
          ∙ ap (λ (x : Heap). (s, x)) taken)
