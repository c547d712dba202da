-- ===== src/Green/System/Guarded.antt =====
-- When every mutex of seminar3/green.c is taken, or has no thread that waits for it.
use mathlib.Core.Path.{subst}
use id.Base.{
  ℕ, ◌≡◌, ◌≢◌, ◌⊎◌, inl, inr, refl, sym, ap, ◌∙◌, ◌==◌, true, false, Bool-cases, if_ind,
  if◌then◌else◌, Option, none, some, arith,
}
use id.Links.{at}
use id.Green.{
  State, Place, ready, waiting, blocked_on, Result, ok, null_access, failed_assert, out_of_fuel,
  Context, at_place, dequeue, enqueue, last, dispatch, and_then,
}

-- Every mutex is exempt, or taken, or no thread waits for it.
unfoldable pub IsCovered : (ℕ → Type 0) → State → Type 0
IsCovered Exempt s =
    (mutex : ℕ) → Exempt mutex ⊎ ((s.taken mutex ≡ true) ⊎ (s.head (blocked_on mutex) ≡ 0))

-- What an operation ends in, if it ends in a state.
unfoldable pub Covers : (ℕ → Type 0) → Result State → Type 0
unfolding IsCovered
Covers Exempt (ok s) = IsCovered Exempt s
Covers Exempt _ = Unit

-- A queue that is not that of a mutex.
unfoldable pub IsOther : Place → Type 0
IsOther ready = Unit
IsOther (waiting c) = Unit
IsOther (blocked_on m) = ⊥

other_head :
    (p : Place) (head : Place → ℕ) (v m : ℕ)
    → IsOther p
    → at_place head p v (blocked_on m) ≡ head (blocked_on m)
unfolding IsOther
other_head ready head v m o = refl
other_head (waiting c) head v m o = refl
other_head (blocked_on n) head v m o = elim o [ ]

module _ (Exempt : ℕ → Type 0) where
  pub and_then-Covers :
      (r : Result State) (f : State → Result State)
      → Covers Exempt r
      → ((s : State) → IsCovered Exempt s → Covers Exempt (f s))
      → Covers Exempt (and_then r f)
  unfolding Covers
  and_then-Covers (ok s) f g h = h s g
  and_then-Covers null_access f g h = tt
  and_then-Covers failed_assert f g h = tt
  and_then-Covers out_of_fuel f g h = tt

  -- A change of the head of another queue.
  pub other-Covered :
      (p : Place) (v : ℕ) (next : ℕ → ℕ) (s : State)
      → IsOther p
      → IsCovered Exempt s
      → IsCovered Exempt (record s { head = at_place s.head p v; next = next })
  unfolding IsCovered
  other-Covered p v next s o g m = elim (g m) [
    | inl k ↦ inl k
    | inr (inl k) ↦ inr (inl k)
    | inr (inr k) ↦ inr (inr (other_head p s.head v m o ∙ k))
  ]

  -- A change of the head of the queue of a mutex that may have threads waiting.
  busy-Covered :
      (n v : ℕ) (next : ℕ → ℕ) (s : State)
      → Exempt n ⊎ (s.taken n ≡ true)
      → IsCovered Exempt s
      → IsCovered Exempt (record s { head = at_place s.head (blocked_on n) v; next = next })
  unfolding IsCovered
  busy-Covered n v next s busy g m = elim (Bool-cases (m == n)) [
    | inl e ↦
        let e' : n ≡ m = ground (arith, e) in
        elim busy [ inl k ↦ inl (subst Exempt e' k) | inr k ↦ inr (inl (sym (ap s.taken e') ∙ k)) ]
    | inr e ↦ elim (g m) [
      | inl k ↦ inl k
      | inr (inl k) ↦ inr (inl k)
      | inr (inr k) ↦ inr (inr (ap (λ b. if b then v else s.head (blocked_on m)) e ∙ k))
    ]
  ]

  enqueue-Covers :
      (fuel : ℕ) (p : Place) (t : ℕ) (s : State)
      → IsCovered Exempt (record s { head = at_place s.head p t })
      → IsCovered Exempt s
      → Covers Exempt (enqueue fuel p t s)
  unfolding enqueue Covers IsCovered
  enqueue-Covers fuel p t s h g =
      if_ind (λ r. Covers Exempt r) (s.head p == 0) _ _ (λ e. h)
        (λ e. found (last fuel (s.head p) s.next))
    where
      found :
          (o : Option ℕ)
          → Covers Exempt (elim o [
            | none ↦ out_of_fuel
            | some susp ↦ ok (record s { next = at s.next susp t })
          ])
      found none = tt
      found (some susp) = g

  pub enqueue_other :
      (fuel : ℕ) (p : Place) (t : ℕ) (s : State)
      → IsOther p
      → IsCovered Exempt s
      → Covers Exempt (enqueue fuel p t s)
  enqueue_other fuel p t s o g = enqueue-Covers fuel p t s (other-Covered p t s.next s o g) g

  -- A thread may wait for a mutex that is taken.
  pub enqueue_busy :
      (fuel n t : ℕ) (s : State)
      → s.taken n ≡ true
      → IsCovered Exempt s
      → Covers Exempt (enqueue fuel (blocked_on n) t s)
  enqueue_busy fuel n t s busy g =
      enqueue-Covers fuel (blocked_on n) t s (busy-Covered n t s.next s (inr busy) g) g

  pub dequeue_other :
      (p : Place) (s : State) → IsOther p → IsCovered Exempt s → IsCovered Exempt ((dequeue p s).1)
  unfolding dequeue
  dequeue_other p s o g =
      if_ind (λ (r : ℕ × State). IsCovered Exempt r.1) (s.head p == 0) _ _ (λ e. g)
        (λ e. other-Covered p (s.next (s.head p)) (at s.next (s.head p) 0) s o g)

  pub dequeue_busy :
      (n : ℕ) (s : State)
      → Exempt n ⊎ (s.taken n ≡ true)
      → IsCovered Exempt s
      → IsCovered Exempt ((dequeue (blocked_on n) s).1)
  unfolding dequeue
  dequeue_busy n s busy g =
      if_ind (λ (r : ℕ × State). IsCovered Exempt r.1) (s.head (blocked_on n) == 0) _ _ (λ e. g)
        (λ e.
          busy-Covered n (s.next (s.head (blocked_on n))) (at s.next (s.head (blocked_on n)) 0) s
            busy g)

  pub dispatch-Covers :
      (fault : Result State) (cx : Context) (s : State)
      → Covers Exempt fault
      → IsCovered Exempt s
      → Covers Exempt (dispatch fault cx s)
  unfolding dispatch Covers IsOther IsCovered
  dispatch-Covers fault cx s bad g =
      if_ind (λ r. Covers Exempt r) ((dequeue ready s).0 == 0) _ _ (λ e. bad)
        (λ e. dequeue_other ready s tt g)

abbrev pub NoneExempt : ℕ → Type 0
NoneExempt m = ⊥

-- Every mutex is taken, or no thread waits for it.
unfoldable pub IsGuarded : State → Type 0
IsGuarded s = (mutex : ℕ) → (s.taken mutex ≡ true) ⊎ (s.head (blocked_on mutex) ≡ 0)

pub IsCovered-IsGuarded : (s : State) → IsCovered NoneExempt s → IsGuarded s
unfolding IsGuarded IsCovered
IsCovered-IsGuarded s g m = elim (g m) [ inl k ↦ elim k [ ] | inr k ↦ k ]

abbrev pub Guards : Result State → Type 0
Guards r = Covers NoneExempt r

-- The mutex `n` is given back to nobody, and its queue emptied.
pub cleared-IsCovered :
    (n : ℕ) (s : State)
    → IsCovered (λ m. n ≡ m) s
    → IsCovered NoneExempt (record s { head = at_place s.head (blocked_on n) 0 })
unfolding IsCovered
cleared-IsCovered n s g m = elim (Bool-cases (m == n)) [
  | inl e ↦ inr (inr (ap (λ b. if b then 0 else s.head (blocked_on m)) e))
  | inr e ↦ elim (g m) [
    | inl k ↦ absurd (let ne : n ≢ m = ground (arith, e) in ne k)
    | inr (inl k) ↦ inr (inl k)
    | inr (inr k) ↦ inr (inr (ap (λ b. if b then 0 else s.head (blocked_on m)) e ∙ k))
  ]
]

pub freed-IsCovered :
    (n : ℕ) (s : State)
    → IsCovered NoneExempt s
    → IsCovered (λ m. n ≡ m) (record s { taken = at s.taken n false })
unfolding IsCovered
freed-IsCovered n s g m = elim (Bool-cases (m == n)) [
  | inl e ↦ inl (ground (arith, e))
  | inr e ↦ elim (g m) [
    | inl k ↦ elim k [ ]
    | inr (inl k) ↦ inr (inl (ap (λ b. if b then false else s.taken m) e ∙ k))
    | inr (inr k) ↦ inr (inr k)
  ]
]

pub taken-IsCovered :
    (n : ℕ) (s : State)
    → IsCovered NoneExempt s
    → IsCovered NoneExempt (record s { taken = at s.taken n true })
unfolding IsCovered
taken-IsCovered n s g m = elim (Bool-cases (m == n)) [
  | inl e ↦ inr (inl (ap (λ b. if b then true else s.taken m) e))
  | inr e ↦ elim (g m) [
    | inl k ↦ inl k
    | inr (inl k) ↦ inr (inl (ap (λ b. if b then true else s.taken m) e ∙ k))
    | inr (inr k) ↦ inr (inr k)
  ]
]
