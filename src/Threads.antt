-- ===== src/Threads.antt =====
-- The two threads of locks-assignment/peterson.c and locks-assignment/swap.c.
use id.Base.{Bool, true, false}

-- The identifiers 0 and 1 of the two threads, and `1 - id`.
pub data Thread : Type 0 where
  first second : Thread

abbrev pub other : Thread → Thread
other first = second
other second = first

abbrev pub same : Thread → Thread → Bool
same first first = true
same second second = true
same _ _ = false

-- An array of two elements with one element written.
abbrev pub put {ℓ} : {A : Type ℓ} → (Thread → A) → Thread → A → Thread → A
put f first a first = a
put f first a second = f second
put f second a first = f first
put f second a second = a
