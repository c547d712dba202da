-- ===== src/Links.antt =====
-- Chains of `next` pointers, as lists of addresses: the queues of seminar3/green.c and the free list
-- of mylloc-assignment/mhysa.c. NULL is 0.
use mathlib.Core.Path.{subst}
use id.Base.{ℕ, ◌≡◌, ◌≢◌, ◌⊎◌, inl, inr, sym, ◌==◌, if◌then◌else◌, List, [], ◌∷◌, arith}

-- A write to a member.
abbrev pub at {ℓ} : {A : Type ℓ} → (ℕ → A) → ℕ → A → ℕ → A
at f k v i = if i == k then v else f i

-- The addresses that a chain from `head` visits.
unfoldable pub Queue : List ℕ → ℕ → (ℕ → ℕ) → Type 0
Queue [] head next = head ≡ 0
Queue (x ∷ xs) head next = (head ≡ x) × (x ≢ 0) × Queue xs (next x) next

-- `t` is not one of the addresses.
unfoldable pub Absent : ℕ → List ℕ → Type 0
Absent t [] = Unit
Absent t (x ∷ xs) = (t ≢ x) × Absent t xs

-- No address occurs twice.
unfoldable pub Distinct : List ℕ → Type 0
unfolding Absent
Distinct [] = Unit
Distinct (x ∷ xs) = Absent x xs × Distinct xs

-- A write to an address that is not in the queue leaves the queue as it is.
pub Queue-at :
    (xs : List ℕ) (h k v : ℕ) (next : ℕ → ℕ)
    → Queue xs h next
    → Absent k xs
    → Queue xs h (at next k v)
unfolding Queue Absent
Queue-at [] h k v next q a = q
Queue-at (x ∷ xs) h k v next (e, x≢0, q) (k≢x, a) = (
  e,
  x≢0,
  subst (λ n. Queue xs n (at next k v)) (ground arith) (Queue-at xs (next x) k v next q a),
)

-- `l` is one of the addresses.
unfoldable pub Among : ℕ → List ℕ → Type 0
Among l [] = ⊥
Among l (x ∷ xs) = (l ≡ x) ⊎ Among l xs

-- The lists share no address.
unfoldable pub Disjoint : List ℕ → List ℕ → Type 0
unfolding Absent
Disjoint [] ys = Unit
Disjoint (x ∷ xs) ys = Absent x ys × Disjoint xs ys

pub Disjoint-Absent : (l : ℕ) (xs ys : List ℕ) → Among l xs → Disjoint xs ys → Absent l ys
unfolding Among Disjoint
Disjoint-Absent l [] ys i d = elim i [ ]
Disjoint-Absent l (x ∷ xs) ys (inl e) (a, d) = subst (λ k. Absent k ys) (sym e) a
Disjoint-Absent l (x ∷ xs) ys (inr i) (a, d) = Disjoint-Absent l xs ys i d

pub Absent-ne : (x l : ℕ) (xs : List ℕ) → Absent x xs → Among l xs → x ≢ l
unfolding Absent Among
Absent-ne x l [] a i = elim i [ ]
Absent-ne x l (y ∷ ys) (x≢y, a) (inl e) = subst (λ k. x ≢ k) (sym e) x≢y
Absent-ne x l (y ∷ ys) (x≢y, a) (inr i) = Absent-ne x l ys a i
