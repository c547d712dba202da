-- ===== src/Green/Exclusion/Departures.antt =====
-- How a thread of seminar3/green.c leaves a mutex, and how one enters that waited.
use mathlib.Core.Path.{subst}
use mathlib.Core.List.{append_assoc}
use id.Base.{
  ℕ, ◌≡◌, sym, ap, ◌∙◌, ◌==◌, true, false, List, [], ◌∷◌, ◌++◌, arith, if◌then◌else◌, Bool-cases,
  inl, inr,
}
use id.Links.{Absent}
use id.Green.{blocked_on, Result, ok, null_access, failed_assert, out_of_fuel}
use id.Green.Scheduler.{Schedule, hand_over, go_on}
use id.Green.Scheduler.Heads.{hand_over_nil, hand_over_cons}
use id.Green.System.{put_queue_self}
use id.Green.Exclusion.{Log, member, erase, enter}
use id.Green.Exclusion.Keeps.{Shows, IfOk}
use id.Green.Exclusion.Others.{go_on-Shows}
use id.Green.Exclusion.Steps.{
  vacant, held, granted, same-IsOrdered, Absent-member, Holds, IsOrdered,
}

-- `green_mutex_unlock` of the mutex by a thread inside.
module _ (m : ℕ) (g : Log) (a : Schedule) (y : IsOrdered m g a)
    (inside : member a.running g.inside ≡ true) where
  left : (o : ℕ) → g.inside ≡ o ∷ [] → erase a.running g.inside ≡ []
  left o i =
      let here : member a.running (o ∷ []) ≡ true =
        subst (λ l. member a.running l ≡ true) i inside in
      ap (λ l. erase a.running l) i ∙ ground (arith, here)

  unlock_from :
      (o : ℕ) (l : List ℕ)
      → Shows m true l a
      → g.inside ≡ o ∷ []
      → g.trying ≡ l
      → Holds m (record g { inside = erase a.running g.inside }) (hand_over m a)
  unlock_from o [] k i t =
      subst (λ r. Holds m (record g { inside = erase a.running g.inside }) r)
        (sym (hand_over_nil a m k.queue))
        (vacant (record { taken = ground arith; queue = k.queue; returns = k.returns }) (left o i)
          t)
  unlock_from o (x ∷ xs) k i t =
      subst (λ r. Holds m (record g { inside = erase a.running g.inside }) r)
        (sym (hand_over_cons a m x xs k.queue))
        (granted x xs
          (record {
            taken = k.taken;
            queue = put_queue_self a.queue (blocked_on m) xs;
            returns = k.returns;
          })
          (left o i) t)

  nobody_inside : g.inside ≡ [] → ⊥
  nobody_inside i =
      let here : member a.running [] ≡ true = subst (λ l. member a.running l ≡ true) i inside in cc

  pub unlock-IsOrdered :
      IsOrdered m (record g { inside = erase a.running g.inside }) (hand_over m a)
  unlock-IsOrdered = record {
    holds = elim y.holds [
      | vacant k i t ↦ absurd (nobody_inside i)
      | held o l k i t ↦ unlock_from o l k i t
      | granted o l k i t ↦ absurd (nobody_inside i)
    ];
    order = y.order;
  }

-- The running thread continues.
module _ (m : ℕ) (g : Log) (a : Schedule) (away : Absent a.running (a.queue (blocked_on m)))
    (y : IsOrdered m g a) where
  abbrev continue_log : Log
  continue_log =
      if member a.running g.trying
      then enter a.running (record g { trying = erase a.running g.trying })
      else g

  unchanged :
      (r : Result Schedule)
      → member a.running g.trying ≡ false
      → IfOk (IsOrdered m g) r
      → IfOk (IsOrdered m continue_log) r
  unchanged r e k =
      subst
        (λ b.
          IfOk
            (IsOrdered m
              (if b then enter a.running (record g { trying = erase a.running g.trying }) else g))
            r)
        (sym e) k

  not_queued : (l : List ℕ) → a.queue (blocked_on m) ≡ l → member a.running l ≡ false
  not_queued l q = Absent-member a.running l (subst (λ l. Absent a.running l) q away)

  -- The thread to which the mutex was handed is inside.
  entered_lem :
      (l : List ℕ) (a' : Schedule)
      → g.inside ≡ []
      → g.trying ≡ a.running ∷ l
      → Shows m true l a'
      → IsOrdered m continue_log a'
  entered_lem l a' i t k =
      let r : ℕ = a.running in
      let first : member r (r ∷ l) ≡ true = ground arith in
      let here : member r g.trying ≡ true = ap (λ l. member r l) t ∙ first in
      let rest : erase r (r ∷ l) ≡ l = ground arith in
      let others : erase r g.trying ≡ l = ap (λ l. erase r l) t ∙ rest in
      subst
        (λ b. IsOrdered m (if b then enter r (record g { trying = erase r g.trying }) else g) a')
        (sym here)
        (record {
          holds = held r l k (ap (λ l. r ∷ l) i) others;
          order =
              y.order
              ∙ ap (λ l. g.entered ++ l) t
              ∙ sym (append_assoc g.entered (r ∷ []) l)
              ∙ ap (λ l. (g.entered ++ (r ∷ [])) ++ l) (sym others);
        })

  entered_ok :
      (l : List ℕ) (r : Result Schedule)
      → g.inside ≡ []
      → g.trying ≡ a.running ∷ l
      → IfOk (Shows m true l) r
      → IfOk (IsOrdered m continue_log) r
  unfolding IfOk
  entered_ok l (ok a') i t k = entered_lem l a' i t k
  entered_ok l null_access i t k = tt
  entered_ok l failed_assert i t k = tt
  entered_ok l out_of_fuel i t k = tt

  stays_out : member a.running g.trying ≡ false → IfOk (IsOrdered m continue_log) (go_on a)
  stays_out e =
      unchanged (go_on a) e (same-IsOrdered m g a (go_on a) y (λ b l k. go_on-Shows m b l a k))

  pub continue-IsOrdered : IfOk (IsOrdered m continue_log) (go_on a)
  continue-IsOrdered = elim y.holds [
    | vacant k i t ↦ stays_out (ap (λ l. member a.running l) t)
    | held o l k i t ↦ stays_out (ap (λ l. member a.running l) t ∙ not_queued l k.queue)
    | granted o l k i t ↦ elim (Bool-cases (a.running == o)) [
      | inl e ↦
          let e' : o ≡ a.running = ground (arith, e) in
          entered_ok l (go_on a) i (t ∙ ap (λ x. x ∷ l) e') (go_on-Shows m true l a k)
      | inr e ↦ stays_out (
          ap (λ l. member a.running l) t
          ∙ ap (λ b. if b then true else member a.running l) e
          ∙ not_queued l k.queue)
    ]
  ]
