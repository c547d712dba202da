-- ===== src/Dlmalloc/Cut.antt =====
-- The header writes of `split` and `find` that cut a taken block off a free one, in
-- seminar2/dlmalloc.c.
use mathlib.Core.Path.{subst, subst₂}
use id.Base.{
  ℕ, ◌+◌, ◌-◌, ◌^◌, ◌≤◌, ◌<◌, ◌≡◌, ◌≢◌, inl, inr, refl, sym, ap, ◌∙◌, true, false, List, [], ◌∷◌,
  arith, ◌==◌, if◌then◌else◌,
}
use id.Dlmalloc.{bfree, bsize, free, size, set, head_size}
use id.Dlmalloc.Memory.{Mem}
use id.Dlmalloc.Blocks.{
  Block, Header, Header-set-free, Header-set_size, Chain, Chain-set_below, Chain-set_bfree,
  Chain-set_bsize, BlockAt, BlockAt-bounds, Sized, span,
}
use id.Dlmalloc.Writes.{Write, write, apply, Header-apply, Chain-apply, Header-header}

-- Of the payload of the block at `p` its last `n` bytes become a taken block of their own.
unfoldable pub cut : ℕ → ℕ → ℕ → List Block → List Block
cut p n a [] = []
cut p n a (k ∷ ks) =
    if p == a
    then record { payload = k.payload - n - head_size; is_free = k.is_free }
      ∷ record { payload = n; is_free = 0 }
      ∷ ks
    else k ∷ cut p n (a + k.payload + head_size) ks

-- The writes for a free block at `p`, of which `r` bytes are kept.
abbrev pub cuts : ℕ → ℕ → ℕ → List Write
cuts p r n =
    let s : ℕ = p + r + head_size in
    let t : ℕ = s + n + head_size in
    write size p r
    ∷ write bfree s 1
    ∷ write bsize s r
    ∷ write free s 0
    ∷ write size s n
    ∷ write bsize t n
    ∷ write bfree t 0
    ∷ write free s 0
    ∷ []

Chain-cut_first :
    (m : Mem) (a bf bs r n : ℕ) (k : Block) (ks : List Block)
    → k.is_free ≡ 1
    → r + n + head_size ≡ k.payload
    → k.payload < 2 ^ 16
    → Chain m a bf bs (k ∷ ks)
    → Chain
        (apply (cuts a r n) m)
        a
        bf
        bs
        (record { payload = r; is_free = 1 } ∷ record { payload = n; is_free = 0 } ∷ ks)
Chain-cut_first m a bf bs r n k ks one e small c =
    let s : ℕ = a + r + head_size in
    let t : ℕ = s + n + head_size in
    let m1 = set size a r m in
    let m6 = apply (write bfree s 1 ∷ write bsize s r ∷ write free s 0 ∷ write size s n ∷ []) m1 in
    let m8 = set bfree t 0 (set bsize t n m6) in
    let kept =
      Header-set_size m a bf bs 1 k.payload r (omega arith)
        (subst (λ f. Header m a bf bs f k.payload) one c.0) in
    let new =
      Header-apply (write bsize t n ∷ write bfree t 0 ∷ []) m6 s 1 r 0 n (omega arith)
        (Header-header m1 s 1 r 0 n (omega arith) (omega arith) (omega arith) (omega arith)) in
    let at_t : Chain m t 1 k.payload ks =
      subst₂ (λ x f. Chain m x f k.payload ks) (omega arith) one c.1 in
    let rest =
      Chain-apply
        (write size a r ∷ write bfree s 1 ∷ write bsize s r ∷ write free s 0 ∷ write size s n ∷ [])
        m t 1 k.payload ks (omega arith) at_t in
    let tagged =
      Chain-set_bfree (set bsize t n m6) t 1 n 0 ks (omega arith)
        (Chain-set_bsize m6 t 1 k.payload n ks (omega arith) rest) in
    (
      Header-apply
          (write bfree s 1
            ∷ write bsize s r
            ∷ write free s 0
            ∷ write size s n
            ∷ write bsize t n
            ∷ write bfree t 0
            ∷ write free s 0
            ∷ [])
          m1 a bf bs 1 r (omega arith) kept,
      (
        Header-set-free m8 s 1 r 0 n 0 (omega arith) new,
        Chain-set_below m8 t 0 n ks free s 0 (omega arith) tagged,
      ),
    )

cut_first :
    (a n : ℕ) (k : Block) (ks : List Block)
    → cut a n a (k ∷ ks)
      ≡ record { payload = k.payload - n - head_size; is_free = k.is_free }
        ∷ record { payload = n; is_free = 0 }
        ∷ ks
unfolding cut
cut_first a n k ks = let hit : (a == a) ≡ true = ground arith in rw hit

cut_later :
    (a p n : ℕ) (k : Block) (ks : List Block)
    → a < p
    → cut p n a (k ∷ ks) ≡ k ∷ cut p n (a + k.payload + head_size) ks
unfolding cut
cut_later a p n k ks h = let off : (p == a) ≡ false = ground arith in rw off

Chain-cut_here :
    (m : Mem) (a bf bs n : ℕ) (k : Block) (ks : List Block)
    → k.is_free ≡ 1
    → n + head_size ≤ k.payload
    → k.payload < 2 ^ 16
    → Chain m a bf bs (k ∷ ks)
    → Chain (apply (cuts a (k.payload - n - head_size) n) m) a bf bs (cut a n a (k ∷ ks))
Chain-cut_here m a bf bs n k ks one fits small c =
    let r : ℕ = k.payload - n - head_size in
    let new : Block = record { payload = n; is_free = 0 } in
    let blocks : cut a n a (k ∷ ks) ≡ record { payload = r; is_free = 1 } ∷ new ∷ ks =
      cut_first a n k ks ∙ ap (λ f. record { payload = r; is_free = f } ∷ new ∷ ks) one in
    subst (λ l. Chain (apply (cuts a r n) m) a bf bs l) (sym blocks)
      (Chain-cut_first m a bf bs r n k ks one (omega arith) small c)

-- The writes for the block `k` at `p` turn the chain into that with `k` cut.
pub Chain-cut :
    (m : Mem) (a bf bs p n : ℕ) (k : Block) (ks : List Block)
    → BlockAt a ks p k
    → k.is_free ≡ 1
    → n + head_size ≤ k.payload
    → k.payload < 2 ^ 16
    → Chain m a bf bs ks
    → Chain (apply (cuts p (k.payload - n - head_size) n) m) a bf bs (cut p n a ks)
Chain-cut m a bf bs p n k [] at one fits small c = absurd at
Chain-cut m a bf bs p n k (j ∷ ks) (inl e) one fits small c =
    subst₂
      (λ q (l : Block).
        Chain (apply (cuts q (l.payload - n - head_size) n) m) a bf bs (cut q n a (j ∷ ks)))
      (sym e.0) e.1
      (Chain-cut_here m a bf bs n j ks (subst (λ (l : Block). l.is_free ≡ 1) (sym e.1) one)
        (subst (λ (l : Block). n + head_size ≤ l.payload) (sym e.1) fits)
        (subst (λ (l : Block). l.payload < 2 ^ 16) (sym e.1) small) c)
Chain-cut m a bf bs p n k (j ∷ ks) (inr at) one fits small c =
    let x : ℕ = a + j.payload + head_size in
    let from = BlockAt-bounds x p k ks at in
    subst (λ l. Chain (apply (cuts p (k.payload - n - head_size) n) m) a bf bs l)
      (sym (cut_later a p n j ks (omega (arith, from))))
      (
        Header-apply (cuts p (k.payload - n - head_size) n) m a bf bs j.is_free j.payload
            (omega (arith, from)) c.0,
        Chain-cut m x j.is_free j.payload p n k ks at one fits small c.1,
      )

-- Where the blocks stand after a cut.
module _ (p n : ℕ) (k : Block) (fits : n + head_size ≤ k.payload) where
  pub BlockAt-cut_kept :
      (a : ℕ) (ks : List Block)
      → BlockAt a ks p k
      → BlockAt a (cut p n a ks) p (record k { payload = k.payload - n - head_size })
  BlockAt-cut_kept a [] at = absurd at
  BlockAt-cut_kept a (j ∷ ks) (inl e) =
      subst
        (λ q. BlockAt a (cut q n a (j ∷ ks)) q (record k { payload = k.payload - n - head_size }))
        (sym e.0)
        (subst (λ l. BlockAt a l a (record k { payload = k.payload - n - head_size }))
          (sym (cut_first a n j ks))
          (inl (refl, ap (λ (l : Block). record l { payload = l.payload - n - head_size }) e.1)))
  BlockAt-cut_kept a (j ∷ ks) (inr at) =
      let x : ℕ = a + j.payload + head_size in
      subst (λ l. BlockAt a l p (record k { payload = k.payload - n - head_size }))
        (sym (cut_later a p n j ks (omega (arith, BlockAt-bounds x p k ks at))))
        (inr (BlockAt-cut_kept x ks at))

  pub BlockAt-cut_new :
      (a : ℕ) (ks : List Block)
      → BlockAt a ks p k
      → BlockAt a
          (cut p n a ks)
          (p + (k.payload - n - head_size) + head_size)
          (record { payload = n; is_free = 0 })
  BlockAt-cut_new a [] at = absurd at
  BlockAt-cut_new a (j ∷ ks) (inl e) =
      subst
        (λ q.
          BlockAt a (cut q n a (j ∷ ks)) (q + (k.payload - n - head_size) + head_size)
            (record { payload = n; is_free = 0 }))
        (sym e.0)
        (subst
          (λ l.
            BlockAt a l (a + (k.payload - n - head_size) + head_size)
              (record { payload = n; is_free = 0 }))
          (sym (cut_first a n j ks))
          (inr (
            inl (ap (λ (l : Block). a + (l.payload - n - head_size) + head_size) (sym e.1), refl))))
  BlockAt-cut_new a (j ∷ ks) (inr at) =
      let x : ℕ = a + j.payload + head_size in
      subst
        (λ l.
          BlockAt a l (p + (k.payload - n - head_size) + head_size)
            (record { payload = n; is_free = 0 }))
        (sym (cut_later a p n j ks (omega (arith, BlockAt-bounds x p k ks at))))
        (inr (BlockAt-cut_new x ks at))

  pub BlockAt-cut_ne :
      (a q : ℕ) (l : Block) (ks : List Block)
      → BlockAt a ks p k
      → p ≢ q
      → BlockAt a ks q l
      → BlockAt a (cut p n a ks) q l
  BlockAt-cut_ne a q l [] at ne other = absurd at
  BlockAt-cut_ne a q l (j ∷ ks) (inl e) ne (inl f) = absurd (ne (e.0 ∙ sym f.0))
  BlockAt-cut_ne a q l (j ∷ ks) (inl e) ne (inr other) =
      let fits' : n + head_size ≤ j.payload =
        subst (λ (l : Block). n + head_size ≤ l.payload) (sym e.1) fits in
      let r : ℕ = j.payload - n - head_size in
      let moved : a + j.payload + head_size ≡ a + r + head_size + n + head_size = omega arith in
      subst (λ x. BlockAt a (cut x n a (j ∷ ks)) q l) (sym e.0)
        (subst (λ x. BlockAt a x q l) (sym (cut_first a n j ks))
          (inr (inr (subst (λ x. BlockAt x ks q l) moved other))))
  BlockAt-cut_ne a q l (j ∷ ks) (inr at) ne other =
      let x : ℕ = a + j.payload + head_size in
      let later = cut_later a p n j ks (omega (arith, BlockAt-bounds x p k ks at)) in
      subst (λ t. BlockAt a t q l) (sym later)
        (elim other [ inl f ↦ inl f | inr o ↦ inr (BlockAt-cut_ne x q l ks at ne o) ])

  pub Sized-cut :
      (a : ℕ) (ks : List Block)
      → BlockAt a ks p k
      → 16 ≤ n
      → n + 24 ≤ k.payload
      → Sized ks
      → Sized (cut p n a ks)
  unfolding cut
  Sized-cut a [] at big room s = absurd at
  Sized-cut a (j ∷ ks) at big room s = ground (
    arith,
    Sized-cut (a + j.payload + head_size) ks,
    BlockAt-bounds (a + j.payload + head_size) p k ks,
  )

  pub span-cut : (a : ℕ) (ks : List Block) → BlockAt a ks p k → span (cut p n a ks) ≡ span ks
  unfolding cut span
  span-cut a [] at = absurd at
  span-cut a (j ∷ ks) at = ground (
    arith,
    span-cut (a + j.payload + head_size) ks,
    BlockAt-bounds (a + j.payload + head_size) p k ks,
  )
