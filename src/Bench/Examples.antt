-- ===== src/Bench/Examples.antt =====
-- The benchmark with an allocator that hands out fresh addresses.
use id.Base.{ℕ, ◌+◌, ◌≡◌, refl, some, List, [], ◌∷◌, arith}
use id.Dlmalloc.{Heap, init}
use id.Dlmalloc.State.{IsValid}
use id.Bench.Taken.{benchtaken, arena, stack, benchtaken-IsValid}
use id.Bench.{Allocator, bench, empty}
use id.Bench.Arena.{dl_allocator}
use id.Bench.Ownership.{IsOwner, Asked}
use id.Bench.Client.{bench-IsOwner}
use id.Bench.Balance.{IsBalanced, bench-IsBalanced}

abbrev fresh : Allocator ℕ
fresh = record {
  malloc = λ bytes top. (top + 16, top + 16 + bytes);
  free = λ memory top. top;
  write = λ memory top. top;
}

abbrev three_rounds : List (ℕ × ℕ)
three_rounds = (5, 40) ∷ (105, 8) ∷ (7, 24) ∷ []

bench-IsBalanced_example : IsBalanced 1016 (bench fresh three_rounds (empty 1000))
bench-IsBalanced_example = bench-IsBalanced fresh 1016 three_rounds 1000 (omega arith)

abbrev unmapped : Heap
unmapped = record { mem = λ _. 0; arena = 0; flist = 0 }

benchtaken-IsValid_example :
    (g : Heap) × (benchtaken 2 4096 unmapped ≡ some g)
    × IsValid g 4096 (arena 41520 (stack 1000 [])) (4096 ∷ [])
benchtaken-IsValid_example =
    benchtaken-IsValid 2 4096 unmapped refl refl (omega arith) (omega arith) (omega arith)

abbrev requests : List (ℕ × ℕ)
requests = (5, 40) ∷ (105, 16) ∷ (7, 24) ∷ []

bench-IsOwner_example :
    IsOwner 4 4096 (bench (dl_allocator 4) requests (empty (some (init 4096 unmapped))))
unfolding Asked
bench-IsOwner_example =
    bench-IsOwner 4 4096 requests unmapped refl refl (omega arith) (omega arith)
      (omega arith, omega arith, (omega arith, omega arith, (omega arith, omega arith, tt)))
      (omega arith)
