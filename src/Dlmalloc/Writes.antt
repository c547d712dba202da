-- ===== src/Dlmalloc/Writes.antt =====
-- Runs of writes to headers of seminar2/dlmalloc.c, and what they leave alone.
use id.Base.{ℕ, ◌+◌, ◌^◌, ◌≤◌, ◌<◌, ◌≡◌, ◌⊎◌, refl, ◌∙◌, List, [], ◌∷◌, arith}
use id.Dlmalloc.{Field, bfree, bsize, free, size, offset, width, get, set, head_size}
use id.Dlmalloc.Memory.{Mem}
use id.Dlmalloc.Fields.{Clear, get-set, get-set_ne}
use id.Dlmalloc.Blocks.{Block, Header, Header-set, Chain, Chain-set_below}
use id.Dlmalloc.FreeList.{OffLinks, Linked, Linked-set}

pub record Write : Type 0 where
  pub field : Field
  pub block : ℕ
  pub value : ℕ

abbrev pub write : Field → ℕ → ℕ → Write
write f b v = record { field = f; block = b; value = v }

-- The writes one after the other, the first one first.
abbrev pub apply : List Write → Mem → Mem
apply [] m = m
apply (w ∷ ws) m = apply ws (set w.field w.block w.value m)

abbrev pub Each : (Write → Type 0) → List Write → Type 0
Each P [] = Unit
Each P (w ∷ ws) = P w × Each P ws

abbrev pub Beside : ℕ → Write → Type 0
Beside a w =
    (a + head_size ≤ w.block + offset w.field) ⊎ (w.block + offset w.field + width w.field ≤ a)

abbrev pub Below : ℕ → Write → Type 0
Below a w = w.block + offset w.field + width w.field ≤ a

pub Header-apply :
    (ws : List Write) (m : Mem) (a bf bs f s : ℕ)
    → Each (Beside a) ws
    → Header m a bf bs f s
    → Header (apply ws m) a bf bs f s
Header-apply [] m a bf bs f s e h = h
Header-apply (w ∷ ws) m a bf bs f s e h =
    Header-apply ws (set w.field w.block w.value m) a bf bs f s e.1
      (Header-set m a bf bs f s w.field w.block w.value e.0 h)

pub Chain-apply :
    (ws : List Write) (m : Mem) (a bf bs : ℕ) (ks : List Block)
    → Each (Below a) ws
    → Chain m a bf bs ks
    → Chain (apply ws m) a bf bs ks
Chain-apply [] m a bf bs ks e c = c
Chain-apply (w ∷ ws) m a bf bs ks e c =
    Chain-apply ws (set w.field w.block w.value m) a bf bs ks e.1
      (Chain-set_below m a bf bs ks w.field w.block w.value e.0 c)

pub Linked-apply :
    (ws : List Write) (m : Mem) (back p : ℕ) (xs : List ℕ)
    → Each (λ w. OffLinks w.field w.block xs) ws
    → Linked m back p xs
    → Linked (apply ws m) back p xs
Linked-apply [] m back p xs e l = l
Linked-apply (w ∷ ws) m back p xs e l =
    Linked-apply ws (set w.field w.block w.value m) back p xs e.1
      (Linked-set m back p xs w.field w.block w.value e.0 l)

pub get-apply :
    (ws : List Write) (m : Mem) (f : Field) (a : ℕ)
    → Each (λ w. Clear f a w.field w.block) ws
    → get f a (apply ws m) ≡ get f a m
get-apply [] m f a e = refl
get-apply (w ∷ ws) m f a e =
    get-apply ws (set w.field w.block w.value m) f a e.1
    ∙ get-set_ne f a w.field w.block w.value m e.0

-- The writes of a whole header.
abbrev pub header : ℕ → ℕ → ℕ → ℕ → ℕ → List Write
header a bf bs f s = write bfree a bf ∷ write bsize a bs ∷ write free a f ∷ write size a s ∷ []

pub Header-header :
    (m : Mem) (a bf bs f s : ℕ)
    → bf < 2 ^ 16
    → bs < 2 ^ 16
    → f < 2 ^ 16
    → s < 2 ^ 16
    → Header (apply (header a bf bs f s) m) a bf bs f s
Header-header m a bf bs f s h1 h2 h3 h4 =
    let m1 = set bfree a bf m in
    let m2 = set bsize a bs m1 in
    let m3 = set free a f m2 in
    record {
      has_bfree =
          get-set_ne bfree a size a s m3 (omega arith)
          ∙ get-set_ne bfree a free a f m2 (omega arith)
          ∙ get-set_ne bfree a bsize a bs m1 (omega arith)
          ∙ get-set bfree a bf m h1;
      has_bsize =
          get-set_ne bsize a size a s m3 (omega arith)
          ∙ get-set_ne bsize a free a f m2 (omega arith)
          ∙ get-set bsize a bs m1 h2;
      has_free = get-set_ne free a size a s m3 (omega arith) ∙ get-set free a f m2 h3;
      has_size = get-set size a s m3 h4;
    }
