-- ===== src/Paging/Examples.antt =====
-- The theorems on swapping-assignment at concrete inputs.
use id.Base.{◌≡◌, ◌*◌, [], ◌∷◌, arith, length}
use id.Paging.{init}
use id.Paging.Frames.{Below, Fits, simulate-Fits}
use id.Paging.Sequence.{init-Below}

simulate-Fits_example : Fits 0 4 3 (2 ∷ 0 ∷ 2 ∷ []) (λ _. 1)
unfolding Below
simulate-Fits_example =
    simulate-Fits 0 4 3 (2 ∷ 0 ∷ 2 ∷ []) (λ _. 1) (omega arith)
      (omega arith, (omega arith, (omega arith, tt)))

init-Below_example :
    Below 100 (init (λ k. k * 7919) 20 10 100) × (length (init (λ k. k * 7919) 20 10 100) ≡ 10)
init-Below_example = init-Below (λ k. k * 7919) 20 10 100 (omega arith) (omega arith)
