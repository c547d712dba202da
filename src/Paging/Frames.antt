-- ===== src/Paging/Frames.antt =====
-- The pages that `simulate` of swapping-assignment/bench.c holds, and its hits.
use id.Base.{
  ℕ, zero, suc, ◌+◌, ◌≤◌, ◌<◌, ◌≡◌, ◌≢◌, inl, inr, refl, sym, ap, ◌∙◌, none, some, List, [], ◌∷◌,
  ◌==◌, ◌||◌, ◌&&◌, ltb, Bool, false, arith, length, Bool-cases, count, one_if, SameBut,
  count-SameBut, count-le, count_none,
}
use id.Paging.{set_present, clear_page_table, Memory, refer, simulate_from, simulate}

-- The pages below `pgs` that are present.
abbrev pub resident : ℕ → (ℕ → ℕ) → ℕ
resident pgs tbl = count (λ p. tbl p == 1) pgs

-- Every page of the sequence is below `pgs`.
unfoldable pub Below : ℕ → List ℕ → Type 0
Below pgs [] = Unit
Below pgs (next ∷ seq) = (next < pgs) × Below pgs seq

present-SameBut :
    (page v : ℕ) (tbl : ℕ → ℕ) → SameBut page (λ p. tbl p == 1) (λ p. set_present page v tbl p == 1)
present-SameBut page v tbl k ne = ground (arith, ne)

resident_present :
    (pgs page : ℕ) (tbl : ℕ → ℕ)
    → page < pgs
    → tbl page ≢ 1
    → resident pgs (set_present page 1 tbl) ≡ resident pgs tbl + 1
resident_present pgs page tbl lt ne =
    let moved =
      count-SameBut pgs page (λ p. tbl p == 1) (λ p. set_present page 1 tbl p == 1) lt
        (present-SameBut page 1 tbl) in
    let was : one_if (tbl page == 1) ≡ 0 = ground (arith, ne) in
    let is : one_if (set_present page 1 tbl page == 1) ≡ 1 = ground arith in
    omega (arith, moved, was, is)

-- The page is one of the references.
abbrev pub among : ℕ → List ℕ → Bool
among p [] = false
among p (x ∷ xs) = (p == x) || among p xs

-- `simulate` returns. The pages below `pgs` that are present are those of the sequence, each of them
-- holds a frame, and every reference but the first one to each of them is a hit.
unfoldable pub Fits : ℕ → ℕ → ℕ → List ℕ → (ℕ → ℕ) → Type 0
unfolding simulate clear_page_table
Fits evict frms pgs seq tbl =
    (m : Memory) × (simulate evict frms seq (clear_page_table pgs tbl) ≡ some m)
    × ((p : ℕ) → (ltb p pgs && (m.tbl p == 1)) ≡ among p seq)
    × (m.hits + count (λ p. among p seq) pgs ≡ length seq)
    × (m.allocated ≡ resident pgs m.tbl)
    × (m.allocated ≤ pgs)

cleared : (pgs k : ℕ) (tbl : ℕ → ℕ) → k < pgs → clear_page_table pgs tbl k ≡ 0
unfolding clear_page_table
cleared zero k tbl lt = elim lt [ ]
cleared (suc n) k tbl lt = elim (Bool-cases (k == n)) [
  | inl e ↦ ground (arith, e)
  | inr ne ↦ ground (arith, ne, cleared n k tbl (ground (arith, ne, lt)))
]

-- The state after the rounds for `seq`, from `m` on.
Goes : ℕ → ℕ → ℕ → List ℕ → Memory → Type 0
unfolding simulate_from
Goes evict frms pgs seq m =
    (m' : Memory) × (simulate_from evict frms seq m ≡ some m')
    × (m'.hits + m'.allocated ≡ m.hits + m.allocated + length seq)
    × (resident pgs m'.tbl ≡ m'.allocated)
    × ((p : ℕ) → (m'.tbl p == 1) ≡ ((m.tbl p == 1) || among p seq))

after_round :
    (evict frms next : ℕ) (seq : List ℕ) (m m1 : Memory)
    → refer evict frms next m ≡ some m1
    → simulate_from evict frms (next ∷ seq) m ≡ simulate_from evict frms seq m1
unfolding simulate_from
after_round evict frms next seq m m1 e =
    ap (λ o. elim o [ none ↦ none | some m' ↦ simulate_from evict frms seq m' ]) e

refer_hit :
    (evict frms next : ℕ) (m : Memory)
    → m.tbl next ≡ 1
    → refer evict frms next m ≡ some (record m { hits = m.hits + 1 })
unfolding refer
refer_hit evict frms next m e = ground (arith, e)

refer_miss :
    (evict frms next : ℕ) (m : Memory)
    → m.tbl next ≢ 1
    → m.allocated < frms
    → refer evict frms next m
      ≡ some (record m { allocated = m.allocated + 1; tbl = set_present next 1 m.tbl })
unfolding refer
refer_miss evict frms next m ne lt = ground (arith, ne, lt)

simulate_lem :
    (evict frms pgs : ℕ) (seq : List ℕ) (m : Memory)
    → pgs ≤ frms
    → Below pgs seq
    → resident pgs m.tbl ≡ m.allocated
    → Goes evict frms pgs seq m
unfolding Goes Below
simulate_lem evict frms pgs [] m le b c = (m, refl, omega arith, c, λ p. ground arith)
simulate_lem evict frms pgs (next ∷ seq) m le (lt, b) c = elim (Bool-cases (m.tbl next == 1)) [
  | inl e ↦
      let present : m.tbl next ≡ 1 = ground (arith, e) in
      let (m', run, sum, c', pages) =
        simulate_lem evict frms pgs seq (record m { hits = m.hits + 1 }) le b c in
      (
        m',
        after_round evict frms next seq m (record m { hits = m.hits + 1 })
              (refer_hit evict frms next m present)
            ∙ run,
        omega (arith, sum),
        c',
        λ p. ground (arith, pages p, present),
      )
  | inr e ↦
      let absent : m.tbl next ≢ 1 = ground (arith, e) in
      let m1 : Memory = record m { allocated = m.allocated + 1; tbl = set_present next 1 m.tbl } in
      let more = resident_present pgs next m.tbl lt absent in
      let room : m.allocated < frms =
        omega (arith, le, c, more, count-le pgs (λ p. set_present next 1 m.tbl p == 1)) in
      let (m', run, sum, c', pages) =
        simulate_lem evict frms pgs seq m1 le b (omega (arith, more, c)) in
      (
        m',
        after_round evict frms next seq m m1 (refer_miss evict frms next m absent room) ∙ run,
        omega (arith, sum),
        c',
        λ p. ground (arith, pages p),
      )
]

Below-among : (pgs p : ℕ) (seq : List ℕ) → Below pgs seq → pgs ≤ p → among p seq ≡ false
unfolding Below
Below-among pgs p [] b le = refl
Below-among pgs p (x ∷ xs) (lt, b) le = ground (arith, lt, le, Below-among pgs p xs b le)

count_same : (n : ℕ) (f g : ℕ → Bool) → ((k : ℕ) → k < n → f k ≡ g k) → count f n ≡ count g n
count_same zero f g h = refl
count_same (suc n) f g h =
    let rest = count_same n f g (λ k lt. h k (omega (arith, lt))) in
    let e : one_if (f n) ≡ one_if (g n) = ap one_if (h n (omega arith)) in omega (arith, rest, e)

-- With a frame for each of the `pgs` pages, for references below `pgs`, and from a table that
-- `clear_page_table` has cleared, `simulate` returns whatever `evict` is. The pages below `pgs`
-- that are then present are the ones referred to, the allocated frames are as many as these, and the
-- hits are the references less one for each of these pages.
pub simulate-Fits :
    (evict frms pgs : ℕ) (seq : List ℕ) (tbl : ℕ → ℕ)
    → pgs ≤ frms
    → Below pgs seq
    → Fits evict frms pgs seq tbl
unfolding Fits Goes simulate
simulate-Fits evict frms pgs seq tbl le b =
    let t : ℕ → ℕ = clear_page_table pgs tbl in
    let empty : resident pgs t ≡ 0 =
      count_none pgs (λ p. t p == 1) (λ k lt. ground (arith, cleared pgs k tbl lt)) in
    let (m, run, sum, c, pages) =
      simulate_lem evict frms pgs seq (record { hits = 0; allocated = 0; tbl = t }) le b empty in
    let clean = λ (k : ℕ) (lt : k < pgs). cleared pgs k tbl lt in
    let held = λ (k : ℕ) (lt : k < pgs).
      (let e : (m.tbl k == 1) ≡ among k seq = ground (arith, pages k, clean k lt) in e) in
    let same = count_same pgs (λ p. m.tbl p == 1) (λ p. among p seq) held in
    (
      m,
      run,
      λ p. elim (Bool-cases (ltb p pgs)) [
        | inl e ↦ ground (arith, e, held p (ground (arith, e)))
        | inr e ↦ ground (arith, e, Below-among pgs p seq b (ground (arith, e)))
      ],
      omega (arith, sum, c, same),
      sym c,
      omega (arith, c, count-le pgs (λ p. m.tbl p == 1)),
    )
