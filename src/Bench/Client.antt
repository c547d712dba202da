-- ===== src/Bench/Client.antt =====
-- The benchmark of seminar2/bench.c as a client of seminar2/dlmalloc.c.
use mathlib.Core.Path.{subst}
use id.Base.{
  if_ind, ℕ, suc, ◌+◌, ◌^◌, ◌%◌, ◌-◌, ◌≤◌, ◌<◌, ◌≡◌, ◌≢◌, refl, sym, ap, ◌∙◌, inl, inr, ◌==◌, true,
  Option, none, some, List, [], ◌∷◌, arith, length,
}
use id.Links.{at}
use id.Dlmalloc.{Heap, head_size, arena_size, align, init, dalloc, dfree, adjust}
use id.Dlmalloc.Memory.{store}
use id.Dlmalloc.Blocks.{Block, mark, BlockAt-mark_ne}
use id.Dlmalloc.State.{IsValid}
use id.Dlmalloc.Free.{dfree-IsValid}
use id.Dlmalloc.Allocate.Find.{Served, first_fit, allocate}
use id.Dlmalloc.Request.{Returns, dalloc-Returns, adjust_bounds, allocate-taken, allocate-others}
use id.Dlmalloc.Payload.{store-IsValid}
use id.Dlmalloc.Init.{init-IsValid}
use id.Bench.{Call, Run, buffer_size, release, obtain, round, bench, empty}
use id.Bench.Arena.{dl_allocator}
use id.Bench.Ownership.{Payload, Owns, IsOwner, Asked, length-serve, Owns-at}

-- `dfree` of what a place holds.
module _ (fuel n base index : ℕ) (r : Run (Option Heap)) (own : IsOwner n base r)
    (held : r.buffer index ≢ 0) where
  release-IsOwner : IsOwner (suc n) base (release (dl_allocator fuel) index r)
  unfolding IsOwner Owns Payload
  release-IsOwner =
      let (h, ks, xs, here, v, short, (owns, single)) = own in
      let (q, k, e, at_q, taken) : Payload base ks (r.buffer index) = elim (owns index) [
        | inl z ↦ absurd (held z)
        | inr w ↦ w
      ] in
      let same : dfree (r.buffer index) h ≡ dfree (q + head_size) h = ap (λ p. dfree p h) e in
      (
        dfree (q + head_size) h,
        mark q 1 base ks,
        q ∷ xs,
        ap (λ o. (dl_allocator fuel).free (r.buffer index) o) here ∙ ap some same,
        dfree-IsValid h base q k ks xs v at_q taken,
        omega (arith, short),
        Owns-at base (mark q 1 base ks) r.buffer index 0 (inl refl)
            (λ j ne. elim (owns j) [
              | inl z ↦ inl z
              | inr (p, l, e', at_p, taken') ↦ elim (single j index) [
                | inl z ↦ absurd (ne z)
                | inr (inl z) ↦ inl z
                | inr (inr other) ↦ inr (
                  p,
                  l,
                  e',
                  BlockAt-mark_ne base q p 1 l ks
                      (λ z. other (e' ∙ ap (λ t. t + head_size) (sym z) ∙ sym e)) at_p,
                  taken',
                )
              ]
            ])
            (λ j ne. inl refl) single,
      )

obtain_served :
    (fuel index bytes p : ℕ) (r : Run (Option Heap)) (h g : Heap)
    → r.heap ≡ some h
    → dalloc fuel bytes h ≡ some (p, g)
    → p ≢ 0
    → obtain (dl_allocator fuel) index bytes r ≡ record r {
      buffer = at r.buffer index p;
      heap = some (record g { mem = store 4 p 123 g.mem });
      calls = Call.allocated p ∷ r.calls;
    }
obtain_served fuel index bytes p r h g here run p≢0 = ground (arith, here, run, p≢0)

obtain_refused :
    (fuel index bytes p : ℕ) (r : Run (Option Heap)) (h g : Heap)
    → r.heap ≡ some h
    → dalloc fuel bytes h ≡ some (p, g)
    → p ≡ 0
    → obtain (dl_allocator fuel) index bytes r ≡ record r { heap = some g; failed = true }
obtain_refused fuel index bytes p r h g here run p0 = ground (arith, here, run, p0)

module _ (fuel n base index bytes : ℕ) (r : Run (Option Heap)) (free_place : r.buffer index ≡ 0)
    (big : 16 ≤ bytes) (small : bytes < 2 ^ 31 - align) where
  obtained-IsOwner :
      (h g : Heap) (ks : List Block) (xs : List ℕ) (p : ℕ) (o : Option Served)
      → r.heap ≡ some h
      → IsValid h base ks xs
      → length xs ≤ n
      → Owns base ks r.buffer
      → dalloc fuel bytes h ≡ some (p, g)
      → allocate (adjust bytes) base ks xs ≡ o
      → Returns h base o (p, g)
      → IsOwner (suc n) base (obtain (dl_allocator fuel) index bytes r)
  unfolding IsOwner Owns Payload
  obtained-IsOwner h g ks xs p none here v short owns run e (p0, same) =
      subst (λ t. IsOwner (suc n) base t)
        (sym (obtain_refused fuel index bytes p r h g here run p0))
        (h, ks, xs, ap some same, v, omega (arith, short), owns)
  obtained-IsOwner h g ks xs p (some (q, ks', xs')) here v short (owns, single) run e (at_p, v') =
      let m : ℕ = adjust bytes in
      let (k, at_q, taken, large) = allocate-taken h base m q ks ks' xs xs' v e in
      let enough = adjust_bounds bytes big small in
      let others = allocate-others h base m q ks ks' xs xs' v e in
      let g' : Heap = record g { mem = store 4 p 123 g.mem } in
      subst (λ t. IsOwner (suc n) base t)
        (sym (obtain_served fuel index bytes p r h g here run (omega (arith, at_p))))
        (
          g',
          ks',
          xs',
          refl,
          store-IsValid g base q 4 p 123 k ks' xs' v' at_q taken (omega (arith, at_p))
              (omega (arith, at_p, large, enough)),
          omega (arith, short, length-serve m base q ks ks' xs xs' (first_fit m base ks xs) e),
          Owns-at base ks' r.buffer index p (inr (q, k, at_p, at_q, taken))
              (λ j ne. elim (owns j) [
                | inl z ↦ inl z
                | inr (p', l, e', at', taken') ↦ inr (p', l, e', (others p' l at' taken').0, taken')
              ])
              (λ j ne. elim (owns j) [
                | inl z ↦ inr (λ z'. let z'' = sym z ∙ z' in omega (arith, at_p, z''))
                | inr (p', l, e', at', taken') ↦ inr (λ z'.
                    (others p' l at' taken').1 (let z'' = sym e' ∙ z' ∙ at_p in omega (arith, z'')))
              ])
              single,
        )

  obtain-IsOwner :
      IsOwner n base r → n < fuel → IsOwner (suc n) base (obtain (dl_allocator fuel) index bytes r)
  unfolding IsOwner
  obtain-IsOwner (h, ks, xs, here, v, short, owns) enough =
      let (res, run, back) =
        dalloc-Returns h base bytes fuel ks xs v big small (omega (arith, short, enough)) in
      obtained-IsOwner h res.1 ks xs res.0 (allocate (adjust bytes) base ks xs) here v short owns
        run refl back

IsOwner-suc : (n base : ℕ) (r : Run (Option Heap)) → IsOwner n base r → IsOwner (suc n) base r
unfolding IsOwner
IsOwner-suc n base r (h, ks, xs, here, v, short, owns) =
    (h, ks, xs, here, v, omega (arith, short), owns)

round-IsOwner :
    (fuel n base rnd bytes : ℕ) (r : Run (Option Heap))
    → IsOwner n base r
    → n < fuel
    → 16 ≤ bytes
    → bytes < 2 ^ 31 - align
    → IsOwner (suc n) base (round (dl_allocator fuel) rnd bytes r)
unfolding round
round-IsOwner fuel n base rnd bytes r own enough big small =
    let index : ℕ = rnd % buffer_size in
    if_ind (λ t. IsOwner (suc n) base t) r.failed _ _ (λ e. IsOwner-suc n base r own)
      (λ e.
        if_ind (λ t. IsOwner (suc n) base t) (r.buffer index == 0) _ _
          (λ z. obtain-IsOwner fuel n base index bytes r (ground (arith, z)) big small own enough)
          (λ z. release-IsOwner fuel n base index r own (ground (arith, z))))

rounds-IsOwner :
    (fuel n base : ℕ) (ops : List (ℕ × ℕ)) (r : Run (Option Heap))
    → IsOwner n base r
    → n + length ops ≤ fuel
    → Asked ops
    → IsOwner (n + length ops) base (bench (dl_allocator fuel) ops r)
unfolding bench Asked
rounds-IsOwner fuel n base [] r own enough asked = subst (λ m. IsOwner m base r) (omega arith) own
rounds-IsOwner fuel n base ((rnd, bytes) ∷ ops) r own enough (big, small, asked) =
    subst (λ m. IsOwner m base (bench (dl_allocator fuel) ((rnd, bytes) ∷ ops) r)) (omega arith)
      (rounds-IsOwner fuel (suc n) base ops (round (dl_allocator fuel) rnd bytes r)
        (round-IsOwner fuel n base rnd bytes r own (omega (arith, enough)) big small)
        (omega (arith, enough)) asked)

-- When no arena is allocated yet, mmap returns an address other than NULL with the arena below
-- 2 ^ 64, and every request is of 16 bytes or more and leaves room in an `int`: after any number of
-- rounds of the benchmark, with fuel for one round of a search more than there are rounds, no fuel has
-- run out, the heap is valid, with at most one free block more than rounds, every place of the buffer
-- is NULL or holds the payload of a taken block, and no two places hold the same one
pub bench-IsOwner :
    (fuel mapped : ℕ) (ops : List (ℕ × ℕ)) (h : Heap)
    → h.arena ≡ 0
    → h.flist ≡ 0
    → 0 < mapped
    → mapped + arena_size < 2 ^ 64
    → Asked ops
    → 1 + length ops ≤ fuel
    → IsOwner (1 + length ops) mapped (bench (dl_allocator fuel) ops (empty (some (init mapped h))))
unfolding IsOwner Owns
bench-IsOwner fuel mapped ops h none_yet null pos room asked enough =
    let v = init-IsValid mapped h none_yet null pos room in
    rounds-IsOwner fuel 1 mapped ops (empty (some (init mapped h)))
      (
        init mapped h,
        record { payload = 65520; is_free = 1 } ∷ [],
        mapped ∷ [],
        refl,
        v,
        omega arith,
        ((λ i. inl refl), λ i j. inr (inl refl)),
      )
      enough asked
