-- ===== src/Dlmalloc/Blocks.antt =====
-- The blocks of the arena of seminar2/dlmalloc.c, as their headers describe them, and what the
-- writes of the allocator do to the headers.
use id.Base.{
  ℕ, ◌+◌, ◌^◌, ◌≤◌, ◌<◌, ◌≡◌, ◌≢◌, ◌⊎◌, inl, inr, refl, sym, ap, ◌∙◌, true, false, List, [], ◌∷◌,
  arith, ◌==◌, Bool-cases, if◌then◌else◌,
}
use mathlib.Core.Path.{subst, subst₂}
use id.Dlmalloc.{Field, bfree, bsize, free, size, offset, width, get, set, head_size}
use id.Dlmalloc.Memory.{Mem}
use id.Dlmalloc.Fields.{get-set, get-set_ne}

pub record Block : Type 0 where
  pub payload : ℕ
  pub is_free : ℕ

-- The four members of the header at `a`.
pub record Header (m : Mem) (a bf bs f s : ℕ) : Type 0 where
  pub has_bfree : get bfree a m ≡ bf
  pub has_bsize : get bsize a m ≡ bs
  pub has_free : get free a m ≡ f
  pub has_size : get size a m ≡ s

-- From `a` on the memory holds the blocks `ks`, one behind the other, and the sentinel; `bf` and
-- `bs` are the status and the size of the block before `a`.
abbrev pub Chain : Mem → ℕ → ℕ → ℕ → List Block → Type 0
Chain m a bf bs [] = Header m a bf bs 0 0
Chain m a bf bs (k ∷ ks) =
    Header m a bf bs k.is_free k.payload
    × Chain m (a + k.payload + head_size) k.is_free k.payload ks

-- Every payload has room for the two links.
abbrev pub Sized : List Block → Type 0
Sized [] = Unit
Sized (k ∷ ks) = (16 ≤ k.payload) × (k.payload < 2 ^ 16) × (k.is_free < 2) × Sized ks

-- The block `k` stands at `p`.
abbrev pub BlockAt : ℕ → List Block → ℕ → Block → Type 0
BlockAt a [] p k = ⊥
BlockAt a (j ∷ ks) p k = ((p ≡ a) × (j ≡ k)) ⊎ BlockAt (a + j.payload + head_size) ks p k

-- The bytes of the blocks, the sentinel left out.
unfoldable pub span : List Block → ℕ
span [] = 0
span (k ∷ ks) = k.payload + head_size + span ks

pub BlockAt-bounds :
    (a p : ℕ) (k : Block) (ks : List Block)
    → BlockAt a ks p k
    → (a ≤ p) × (p + k.payload + head_size ≤ a + span ks)
unfolding span
BlockAt-bounds a p k [] b = absurd b
BlockAt-bounds a p k (j ∷ ks) b = ground (arith, BlockAt-bounds (a + j.payload + head_size) p k ks)

pub BlockAt-Sized :
    (a p : ℕ) (k : Block) (ks : List Block)
    → BlockAt a ks p k
    → Sized ks
    → (16 ≤ k.payload) × (k.payload < 2 ^ 16) × (k.is_free < 2)
BlockAt-Sized a p k [] b s = absurd b
BlockAt-Sized a p k (j ∷ ks) b s = ground (arith, BlockAt-Sized (a + j.payload + head_size) p k ks)

-- Two blocks are one, or the first ends before the second begins, or the other way round.
pub BlockAt-disjoint :
    (a p q : ℕ) (k l : Block) (ks : List Block)
    → BlockAt a ks p k
    → BlockAt a ks q l
    → (((p ≡ q) × (k ≡ l)) ⊎ (p + k.payload + head_size ≤ q)) ⊎ (q + l.payload + head_size ≤ p)
BlockAt-disjoint a p q k l [] b c = absurd b
BlockAt-disjoint a p q k l (j ∷ ks) b c =
    let n : ℕ = a + j.payload + head_size in
    ground (arith, BlockAt-disjoint n p q k l ks, BlockAt-bounds n p k ks, BlockAt-bounds n q l ks)

-- A write to a member that ends before the header, or begins behind it, keeps the header.
pub Header-set :
    (m : Mem) (a bf bs f s : ℕ) (g : Field) (x v : ℕ)
    → (a + head_size ≤ x + offset g) ⊎ (x + offset g + width g ≤ a)
    → Header m a bf bs f s
    → Header (set g x v m) a bf bs f s
Header-set m a bf bs f s g x v c h = ground (
  arith,
  get-set_ne bfree a g x v m,
  get-set_ne bsize a g x v m,
  get-set_ne free a g x v m,
  get-set_ne size a g x v m,
)

-- The header with one member written.
module _ (m : Mem) (a bf bs f s v : ℕ) (small : v < 2 ^ 16) (h : Header m a bf bs f s) where
  pub Header-set_bfree : Header (set bfree a v m) a v bs f s
  Header-set_bfree = record {
    has_bfree = get-set bfree a v m small;
    has_bsize = get-set_ne bsize a bfree a v m (omega arith) ∙ h.has_bsize;
    has_free = get-set_ne free a bfree a v m (omega arith) ∙ h.has_free;
    has_size = get-set_ne size a bfree a v m (omega arith) ∙ h.has_size;
  }

  pub Header-set_bsize : Header (set bsize a v m) a bf v f s
  Header-set_bsize = record {
    has_bfree = get-set_ne bfree a bsize a v m (omega arith) ∙ h.has_bfree;
    has_bsize = get-set bsize a v m small;
    has_free = get-set_ne free a bsize a v m (omega arith) ∙ h.has_free;
    has_size = get-set_ne size a bsize a v m (omega arith) ∙ h.has_size;
  }

  pub Header-set-free : Header (set free a v m) a bf bs v s
  Header-set-free = record {
    has_bfree = get-set_ne bfree a free a v m (omega arith) ∙ h.has_bfree;
    has_bsize = get-set_ne bsize a free a v m (omega arith) ∙ h.has_bsize;
    has_free = get-set free a v m small;
    has_size = get-set_ne size a free a v m (omega arith) ∙ h.has_size;
  }

  pub Header-set_size : Header (set size a v m) a bf bs f v
  Header-set_size = record {
    has_bfree = get-set_ne bfree a size a v m (omega arith) ∙ h.has_bfree;
    has_bsize = get-set_ne bsize a size a v m (omega arith) ∙ h.has_bsize;
    has_free = get-set_ne free a size a v m (omega arith) ∙ h.has_free;
    has_size = get-set size a v m small;
  }

pub Chain-set_below :
    (m : Mem) (a bf bs : ℕ) (ks : List Block) (g : Field) (x v : ℕ)
    → x + offset g + width g ≤ a
    → Chain m a bf bs ks
    → Chain (set g x v m) a bf bs ks
Chain-set_below m a bf bs [] g x v c h = Header-set m a bf bs 0 0 g x v (inr c) h
Chain-set_below m a bf bs (k ∷ ks) g x v c h = (
  Header-set m a bf bs k.is_free k.payload g x v (inr c) h.0,
  Chain-set_below m (a + k.payload + head_size) k.is_free k.payload ks g x v (omega arith) h.1,
)

-- The tags of the first header, which describe the block before it.
pub Chain-set_bfree :
    (m : Mem) (a bf bs v : ℕ) (ks : List Block)
    → v < 2 ^ 16
    → Chain m a bf bs ks
    → Chain (set bfree a v m) a v bs ks
Chain-set_bfree m a bf bs v [] small h = Header-set_bfree m a bf bs 0 0 v small h
Chain-set_bfree m a bf bs v (k ∷ ks) small h = (
  Header-set_bfree m a bf bs k.is_free k.payload v small h.0,
  Chain-set_below m (a + k.payload + head_size) k.is_free k.payload ks bfree a v (omega arith) h.1,
)

pub Chain-set_bsize :
    (m : Mem) (a bf bs v : ℕ) (ks : List Block)
    → v < 2 ^ 16
    → Chain m a bf bs ks
    → Chain (set bsize a v m) a bf v ks
Chain-set_bsize m a bf bs v [] small h = Header-set_bsize m a bf bs 0 0 v small h
Chain-set_bsize m a bf bs v (k ∷ ks) small h = (
  Header-set_bsize m a bf bs k.is_free k.payload v small h.0,
  Chain-set_below m (a + k.payload + head_size) k.is_free k.payload ks bsize a v (omega arith) h.1,
)

-- A member that lies in the payload of a block.
abbrev pub InPayload : Field → Type 0
InPayload f = (head_size ≤ offset f) × (offset f + width f ≤ 24)

-- A write to the links of a block keeps all headers.
pub Chain-set_link :
    (m : Mem) (a bf bs : ℕ) (ks : List Block) (g : Field) (p v : ℕ) (k : Block)
    → InPayload g
    → BlockAt a ks p k
    → Sized ks
    → Chain m a bf bs ks
    → Chain (set g p v m) a bf bs ks
Chain-set_link m a bf bs [] g p v k i b s h = absurd b
Chain-set_link m a bf bs (j ∷ ks) g p v k i (inl e) s h = (
  Header-set m a bf bs j.is_free j.payload g p v (inl (omega arith)) h.0,
  Chain-set_below m (a + j.payload + head_size) j.is_free j.payload ks g p v (omega arith) h.1,
)
Chain-set_link m a bf bs (j ∷ ks) g p v k i (inr b) s h = (
  Header-set m a bf bs j.is_free j.payload g p v
      (inl (omega (arith, BlockAt-bounds (a + j.payload + head_size) p k ks b))) h.0,
  Chain-set_link m (a + j.payload + head_size) j.is_free j.payload ks g p v k i b s.3 h.1,
)

-- The blocks with the status of the one at `p` replaced.
unfoldable pub mark : ℕ → ℕ → ℕ → List Block → List Block
mark p v a [] = []
mark p v a (k ∷ ks) =
    if p == a then record k { is_free = v } ∷ ks else k ∷ mark p v (a + k.payload + head_size) ks

-- Both copies of a block's status are written: that in its own header, and that in the next one.
abbrev pub set_status : ℕ → ℕ → ℕ → Mem → Mem
set_status p aft v m = set bfree aft v (set free p v m)

mark_first :
    (a v : ℕ) (k : Block) (ks : List Block) → mark a v a (k ∷ ks) ≡ record k { is_free = v } ∷ ks
unfolding mark
mark_first a v k ks = ground arith

mark_later :
    (a p v : ℕ) (k : Block) (ks : List Block)
    → a < p
    → mark p v a (k ∷ ks) ≡ k ∷ mark p v (a + k.payload + head_size) ks
unfolding mark
mark_later a p v k ks h = let off : (p == a) ≡ false = ground arith in rw off

Chain-set_status_first :
    (m : Mem) (a bf bs : ℕ) (k : Block) (ks : List Block) (v : ℕ)
    → v < 2
    → Chain m a bf bs (k ∷ ks)
    → Chain (set_status a (a + k.payload + head_size) v m) a bf bs (mark a v a (k ∷ ks))
Chain-set_status_first m a bf bs k ks v small h =
    let n : ℕ = a + k.payload + head_size in
    let m1 = set free a v m in
    let head = Header-set-free m a bf bs k.is_free k.payload v (omega arith) h.0 in
    let tail = Chain-set_below m n k.is_free k.payload ks free a v (omega arith) h.1 in
    subst (λ l. Chain (set_status a n v m) a bf bs l) (sym (mark_first a v k ks))
      (
        Header-set m1 a bf bs v k.payload bfree n v (inl (omega arith)) head,
        Chain-set_bfree m1 n k.is_free k.payload v ks (omega arith) tail,
      )

pub Chain-set_status :
    (m : Mem) (a bf bs : ℕ) (ks : List Block) (p v : ℕ) (k : Block)
    → v < 2
    → BlockAt a ks p k
    → Chain m a bf bs ks
    → Chain (set_status p (p + k.payload + head_size) v m) a bf bs (mark p v a ks)
Chain-set_status m a bf bs [] p v k small b h = absurd b
Chain-set_status m a bf bs (j ∷ ks) p v k small (inl e) h =
    subst₂
      (λ q l. Chain (set_status q (q + l.payload + head_size) v m) a bf bs (mark q v a (j ∷ ks)))
      (sym e.0) e.1 (Chain-set_status_first m a bf bs j ks v small h)
Chain-set_status m a bf bs (j ∷ ks) p v k small (inr b) h =
    let n : ℕ = a + j.payload + head_size in
    let aft : ℕ = p + k.payload + head_size in
    let from = BlockAt-bounds n p k ks b in
    let head = Header-set m a bf bs j.is_free j.payload free p v (inl (omega (arith, from))) h.0 in
    subst (λ l. Chain (set_status p aft v m) a bf bs l)
      (sym (mark_later a p v j ks (omega (arith, from))))
      (
        Header-set (set free p v m) a bf bs j.is_free j.payload bfree aft v
            (inl (omega (arith, from))) head,
        Chain-set_status m n j.is_free j.payload ks p v k small b h.1,
      )

-- Marking a block changes its own status, and leaves every other block.
pub BlockAt-mark_self :
    (a p v : ℕ) (k : Block) (ks : List Block)
    → BlockAt a ks p k
    → BlockAt a (mark p v a ks) p (record k { is_free = v })
unfolding mark
BlockAt-mark_self a p v k [] b = absurd b
BlockAt-mark_self a p v k (j ∷ ks) (inl e) =
    let hit : (p == a) ≡ true = ground arith in
    rw hit (inl (e.0, ap (λ l. record { payload = l.payload; is_free = v }) e.1))
BlockAt-mark_self a p v k (j ∷ ks) (inr b) =
    let n : ℕ = a + j.payload + head_size in
    let miss : (p == a) ≡ false = ground (arith, BlockAt-bounds n p k ks b) in
    rw miss (inr (BlockAt-mark_self n p v k ks b))

pub BlockAt-mark_ne :
    (a p q v : ℕ) (k : Block) (ks : List Block)
    → p ≢ q
    → BlockAt a ks q k
    → BlockAt a (mark p v a ks) q k
unfolding mark
BlockAt-mark_ne a p q v k [] ne b = absurd b
BlockAt-mark_ne a p q v k (j ∷ ks) ne (inl e) =
    let miss : (p == a) ≡ false = ground arith in rw miss (inl e)
BlockAt-mark_ne a p q v k (j ∷ ks) ne (inr b) = elim (Bool-cases (p == a)) [
  | inl hit ↦ rw hit (inr b)
  | inr miss ↦ rw miss (inr (BlockAt-mark_ne (a + j.payload + head_size) p q v k ks ne b))
]

pub Sized-mark : (a p v : ℕ) (ks : List Block) → v < 2 → Sized ks → Sized (mark p v a ks)
unfolding mark
Sized-mark a p v [] small s = s
Sized-mark a p v (k ∷ ks) small s =
    ground (arith, Sized-mark (a + k.payload + head_size) p v ks small)

pub span-mark : (a p v : ℕ) (ks : List Block) → span (mark p v a ks) ≡ span ks
unfolding mark span
span-mark a p v [] = refl
span-mark a p v (k ∷ ks) = ground (arith, span-mark (a + k.payload + head_size) p v ks)
