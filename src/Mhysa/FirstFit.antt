-- ===== src/Mhysa/FirstFit.antt =====
-- `malloc` of mylloc-assignment/mhysa.c takes the first chunk of the free list that is large enough.
use mathlib.Core.Path.{subst}
use id.Base.{
  ℕ, zero, suc, ◌<◌, ◌≡◌, ◌≢◌, inl, inr, refl, sym, ap, ◌∙◌, leb, Bool-cases, true, false, some,
  List, [], ◌∷◌, arith, length, if◌then◌else◌,
}
use id.Links.{at, Queue, Absent, Distinct, Queue-at}
use id.Mhysa.{Heap, size_t_of, unlink, search}

-- The first chunk with room for `bytes`, or 0, and the list without it.
abbrev pub first_fit : ℕ → (ℕ → ℕ) → List ℕ → ℕ
first_fit bytes size [] = 0
first_fit bytes size (x ∷ xs) =
    if leb bytes (size_t_of (size x)) then x else first_fit bytes size xs

abbrev pub others : ℕ → (ℕ → ℕ) → List ℕ → List ℕ
others bytes size [] = []
others bytes size (x ∷ xs) = if leb bytes (size_t_of (size x)) then xs else x ∷ others bytes size xs

-- The search behind the chunk `prev`, which links to the chunks `xs`, takes `p` and leaves `rest`.
unfoldable pub Searches : ℕ → ℕ → ℕ → ℕ → List ℕ → List ℕ → Heap → Type 0
unfolding search Queue
Searches fuel prev bytes p rest xs h =
    (h' : Heap) × (search fuel (h.next prev) prev bytes h ≡ some (p, h'))
    × Queue rest (h'.next prev) h'.next
    × (h' ≡ record h { next = h'.next })
    × ((k : ℕ) → Absent k (prev ∷ xs) → h'.next k ≡ h.next k)

pub search_nil :
    (k cur prev bytes : ℕ) (h : Heap) → cur ≡ 0 → search (suc k) cur prev bytes h ≡ some (0, h)
unfolding search
search_nil k cur prev bytes h e = ground (arith, e)

pub search_fit :
    (k cur prev bytes : ℕ) (h : Heap)
    → cur ≢ 0
    → leb bytes (size_t_of (h.size cur)) ≡ true
    → search (suc k) cur prev bytes h ≡ some (cur, unlink prev cur h)
unfolding search
search_fit k cur prev bytes h c≢0 e = ground (arith, c≢0, e)

pub search_skip :
    (k cur prev bytes : ℕ) (h : Heap)
    → cur ≢ 0
    → leb bytes (size_t_of (h.size cur)) ≡ false
    → search (suc k) cur prev bytes h ≡ search k (h.next cur) cur bytes h
unfolding search
search_skip k cur prev bytes h c≢0 e = ground (arith, c≢0, e)

unlink_cons :
    (prev cur : ℕ) (h : Heap)
    → prev ≢ 0
    → unlink prev cur h ≡ record h { next = at h.next prev (h.next cur) }
unfolding unlink
unlink_cons prev cur h p≢0 = ground (arith, p≢0)

-- The two cases of `first_fit` and `others`, for a property of both.
pub fit_case :
    (bytes x : ℕ) (size : ℕ → ℕ) (xs : List ℕ) (P : ℕ → List ℕ → Type 0)
    → leb bytes (size_t_of (size x)) ≡ true
    → P x xs
    → P (first_fit bytes size (x ∷ xs)) (others bytes size (x ∷ xs))
fit_case bytes x size xs P e p =
    subst
      (λ b.
        P (if b then x else first_fit bytes size xs) (if b then xs else x ∷ others bytes size xs))
      (sym e) p

pub skip_case :
    (bytes x : ℕ) (size : ℕ → ℕ) (xs : List ℕ) (P : ℕ → List ℕ → Type 0)
    → leb bytes (size_t_of (size x)) ≡ false
    → P (first_fit bytes size xs) (x ∷ others bytes size xs)
    → P (first_fit bytes size (x ∷ xs)) (others bytes size (x ∷ xs))
skip_case bytes x size xs P e p =
    subst
      (λ b.
        P (if b then x else first_fit bytes size xs) (if b then xs else x ∷ others bytes size xs))
      (sym e) p

Absent-tail : (j x : ℕ) (xs : List ℕ) → Absent j (x ∷ xs) → Absent j xs
unfolding Absent
Absent-tail j x xs (_, a) = a

pub Queue-parts :
    (x : ℕ) (xs : List ℕ) (head : ℕ) (next : ℕ → ℕ)
    → Queue (x ∷ xs) head next
    → (head ≡ x) × (x ≢ 0) × Queue xs (next x) next
unfolding Queue
Queue-parts x xs head next q = q

search_end :
    (k prev bytes : ℕ) (h : Heap)
    → Queue [] (h.next prev) h.next
    → Searches (suc k) prev bytes 0 [] [] h
unfolding Searches Queue
search_end k prev bytes h q = (h, search_nil k (h.next prev) prev bytes h q, q, refl, λ j a. refl)

search_here :
    (k prev bytes x : ℕ) (xs : List ℕ) (h : Heap)
    → prev ≢ 0
    → Absent prev (x ∷ xs)
    → Queue (x ∷ xs) (h.next prev) h.next
    → leb bytes (size_t_of (h.size x)) ≡ true
    → Searches (suc k) prev bytes x xs (x ∷ xs) h
unfolding Searches Queue Absent
search_here k prev bytes x xs h p≢0 (p≢x, ap_) (e, x≢0, q) fits =
    let h1 : Heap = record h { next = at h.next prev (h.next x) } in
    (
      h1,
      subst (λ c. search (suc k) c prev bytes h ≡ some (x, h1)) (sym e)
          (search_fit k x prev bytes h x≢0 fits ∙ ap (λ g. some (x, g)) (unlink_cons prev x h p≢0)),
      subst (λ c. Queue xs c h1.next) (ground arith)
          (Queue-at xs (h.next x) prev (h.next x) h.next q ap_),
      refl,
      λ j (j≢p, _). ground (arith, j≢p),
    )

search_on :
    (k prev bytes x p : ℕ) (rest xs : List ℕ) (h : Heap)
    → Absent prev (x ∷ xs)
    → h.next prev ≡ x
    → x ≢ 0
    → leb bytes (size_t_of (h.size x)) ≡ false
    → Searches k x bytes p rest xs h
    → Searches (suc k) prev bytes p (x ∷ rest) (x ∷ xs) h
unfolding Searches Queue
search_on k prev bytes x p rest xs h a e x≢0 tight (h1, run, queue, same, frame) = (
  h1,
  subst (λ c. search (suc k) c prev bytes h ≡ some (p, h1)) (sym e)
      (search_skip k x prev bytes h x≢0 tight ∙ run),
  (frame prev a ∙ e, x≢0, queue),
  same,
  λ j aj. frame j (Absent-tail j prev (x ∷ xs) aj),
)

pub search_lem :
    (fuel prev bytes : ℕ) (xs : List ℕ) (h : Heap)
    → length xs < fuel
    → prev ≢ 0
    → Distinct (prev ∷ xs)
    → Queue xs (h.next prev) h.next
    → Searches fuel prev bytes (first_fit bytes h.size xs) (others bytes h.size xs) xs h
unfolding Distinct
search_lem zero prev bytes xs h lt p≢0 d q = elim lt [ ]
search_lem (suc k) prev bytes [] h lt p≢0 d q = search_end k prev bytes h q
search_lem (suc k) prev bytes (x ∷ xs) h lt p≢0 (ap_, d) q =
    let (e, x≢0, q') = Queue-parts x xs (h.next prev) h.next q in
    elim (Bool-cases (leb bytes (size_t_of (h.size x)))) [
      | inl fits ↦
          fit_case bytes x h.size xs (λ p r. Searches (suc k) prev bytes p r (x ∷ xs) h) fits
            (search_here k prev bytes x xs h p≢0 ap_ q fits)
      | inr tight ↦
          skip_case bytes x h.size xs (λ p r. Searches (suc k) prev bytes p r (x ∷ xs) h) tight
            (search_on k prev bytes x (first_fit bytes h.size xs) (others bytes h.size xs) xs h ap_
              e x≢0 tight (search_lem k x bytes xs h (omega (arith, lt)) x≢0 d q'))
    ]
