-- ===== src/Mhysa/Malloc.antt =====
-- `malloc` and `free` of mylloc-assignment/mhysa.c as operations on the list of free chunks.
use mathlib.Core.Path.{subst}
use id.Base.{
  ℕ, zero, suc, ◌+◌, ◌-◌, ◌≤◌, ◌<◌, ◌≡◌, ◌≢◌, inl, inr, refl, sym, ap, ◌∙◌, ◌==◌, leb, Bool-cases,
  true, false, some, List, [], ◌∷◌, arith, length, if◌then◌else◌,
}
use id.Links.{Absent, Queue-at, at, Queue, Distinct}
use id.Mhysa.{Heap, chunk_size, size_t_of, unlink, search, grow, malloc, free}
use id.Mhysa.FirstFit.{
  first_fit, others, search_nil, search_fit, search_skip, fit_case, skip_case, Queue-parts,
  search_lem, Searches,
}

-- The search from the head of the free list.
Scans : ℕ → ℕ → ℕ → List ℕ → Heap → Type 0
unfolding search Queue
Scans fuel bytes p rest h =
    (h' : Heap) × (search fuel h.flist 0 bytes h ≡ some (p, h'))
    × Queue rest h'.flist h'.next
    × (h'.size ≡ h.size)

scan_here :
    (k bytes x : ℕ) (xs : List ℕ) (h : Heap)
    → Queue (x ∷ xs) h.flist h.next
    → leb bytes (size_t_of (h.size x)) ≡ true
    → Scans (suc k) bytes x xs h
unfolding Scans Queue unlink
scan_here k bytes x xs h (e, x≢0, q) fits = (
  record h { flist = h.next x },
  subst (λ c. search (suc k) c 0 bytes h ≡ some (x, record h { flist = h.next x })) (sym e)
      (search_fit k x 0 bytes h x≢0 fits),
  q,
  refl,
)

scan_on :
    (k bytes x p : ℕ) (rest xs : List ℕ) (h : Heap)
    → h.flist ≡ x
    → x ≢ 0
    → leb bytes (size_t_of (h.size x)) ≡ false
    → Searches k x bytes p rest xs h
    → Scans (suc k) bytes p (x ∷ rest) h
unfolding Scans Searches Queue
scan_on k bytes x p rest xs h e x≢0 tight (h1, run, queue, same, frame) = (
  h1,
  subst (λ c. search (suc k) c 0 bytes h ≡ some (p, h1)) (sym e)
      (search_skip k x 0 bytes h x≢0 tight ∙ run),
  (ap (λ (g : Heap). g.flist) same ∙ e, x≢0, queue),
  ap (λ (g : Heap). g.size) same,
)

scan_end : (k bytes : ℕ) (h : Heap) → Queue [] h.flist h.next → Scans (suc k) bytes 0 [] h
unfolding Scans Queue
scan_end k bytes h q = (h, search_nil k h.flist 0 bytes h q, q, refl)

scan_lem :
    (fuel bytes : ℕ) (xs : List ℕ) (h : Heap)
    → length xs < fuel
    → Distinct xs
    → Queue xs h.flist h.next
    → Scans fuel bytes (first_fit bytes h.size xs) (others bytes h.size xs) h
unfolding Distinct
scan_lem zero bytes xs h lt d q = elim lt [ ]
scan_lem (suc k) bytes [] h lt d q = scan_end k bytes h q
scan_lem (suc k) bytes (x ∷ xs) h lt d q =
    let (e, x≢0, q') = Queue-parts x xs h.flist h.next q in
    elim (Bool-cases (leb bytes (size_t_of (h.size x)))) [
      | inl fits ↦
          fit_case bytes x h.size xs (λ p r. Scans (suc k) bytes p r h) fits
            (scan_here k bytes x xs h q fits)
      | inr tight ↦
          skip_case bytes x h.size xs (λ p r. Scans (suc k) bytes p r h) tight
            (scan_on k bytes x (first_fit bytes h.size xs) (others bytes h.size xs) xs h e x≢0 tight
              (search_lem k x bytes xs h (omega (arith, lt)) x≢0 d q'))
    ]

-- `malloc` returns the payload of the chunk `p`, or grows the heap if that is 0, and `rest` stays on
-- the free list.
unfoldable pub Allocates : ℕ → ℕ → ℕ → ℕ → List ℕ → Heap → Type 0
unfolding malloc Queue
Allocates fuel bytes memory p rest h =
    (h' : Heap) × (malloc fuel bytes memory h
      ≡ some (if p == 0 then grow bytes memory h' else (p + chunk_size, h')))
    × Queue rest h'.flist h'.next
    × (h'.size ≡ h.size)

malloc_scan :
    (fuel bytes memory p : ℕ) (h h' : Heap)
    → bytes ≢ 0
    → search fuel h.flist 0 bytes h ≡ some (p, h')
    → malloc fuel bytes memory h
      ≡ some (if p == 0 then grow bytes memory h' else (p + chunk_size, h'))
unfolding malloc
malloc_scan fuel bytes memory p h h' b≢0 e = ground (arith, b≢0, e)

-- For a request that is not 0, a free list of distinct chunks, and more fuel than it is long,
-- `malloc` ends. It takes the first chunk that is large enough and leaves the others on the list in
-- their order, with their sizes; only if no chunk is large enough it grows the heap by what sbrk
-- returns.
pub malloc_first_fit :
    (fuel bytes memory : ℕ) (xs : List ℕ) (h : Heap)
    → bytes ≢ 0
    → length xs < fuel
    → Distinct xs
    → Queue xs h.flist h.next
    → Allocates fuel bytes memory (first_fit bytes h.size xs) (others bytes h.size xs) h
unfolding Allocates Scans
malloc_first_fit fuel bytes memory xs h b≢0 lt d q =
    let (h', run, queue, sizes) = scan_lem fuel bytes xs h lt d q in
    (h', malloc_scan fuel bytes memory (first_fit bytes h.size xs) h h' b≢0 run, queue, sizes)

le-leb : (a b : ℕ) → a ≤ b → leb a b ≡ true
le-leb a b le = ground (arith, le)

free_cons :
    (block : ℕ) (h : Heap)
    → chunk_size < block
    → free block h
      ≡ record h { next = at h.next (block - chunk_size) h.flist; flist = block - chunk_size }
unfolding free
free_cons block h lb = ground (arith, lb)

payload_pair :
    (block bytes memory : ℕ) (h : Heap)
    → chunk_size < block
    → (if block - chunk_size == 0
        then grow bytes memory h
        else (block - chunk_size + chunk_size, h))
      ≡ (block, h)
payload_pair block bytes memory h lb = ground (arith, lb)

payload :
    (block bytes memory : ℕ) (h : Heap)
    → chunk_size < block
    → some (
        if block - chunk_size == 0
        then grow bytes memory h
        else (block - chunk_size + chunk_size, h))
      ≡ some (block, h)
payload block bytes memory h lb = ap some (payload_pair block bytes memory h lb)

-- A chunk that is not on the free list is, once `free` has put it there, the one that the next `malloc` returns, if it is large
-- enough for a request that is not 0, and the free list is then as before.
pub malloc-free :
    (fuel bytes memory block : ℕ) (xs : List ℕ) (h : Heap)
    → 0 < fuel
    → bytes ≢ 0
    → chunk_size < block
    → Queue xs h.flist h.next
    → Absent (block - chunk_size) xs
    → bytes ≤ size_t_of (h.size (block - chunk_size))
    → (h' : Heap) × (malloc fuel bytes memory (free block h) ≡ some (block, h'))
      × Queue xs h'.flist h'.next
      × (h'.size ≡ h.size)
unfolding malloc free search unlink
malloc-free zero bytes memory block xs h lt b≢0 lb q away fits = elim lt [ ]
malloc-free (suc k) bytes memory block xs h lt b≢0 lb q away fits =
    let c = block - chunk_size in
    let h1 : Heap = record h { next = at h.next c h.flist; flist = c } in
    let h2 : Heap = record h1 { flist = h1.next c } in
    let c≢0 : c ≢ 0 = omega (arith, lb) in
    (
      h2,
      subst (λ g. malloc (suc k) bytes memory g ≡ some (block, h2)) (sym (free_cons block h lb))
          (malloc_scan (suc k) bytes memory c h1 h2 b≢0
              (search_fit k c 0 bytes h1 c≢0 (le-leb bytes (size_t_of (h.size c)) fits))
            ∙ payload block bytes memory h2 lb),
      subst (λ v. Queue xs v h1.next) (ground arith) (Queue-at xs h.flist c h.flist h.next q away),
      refl,
    )
