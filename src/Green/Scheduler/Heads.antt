-- ===== src/Green/Scheduler/Heads.antt =====
-- The scheduler of seminar3/green.c on a queue that is empty, or begins with a thread.
use id.Base.{ℕ, ◌≡◌, ap, true, false, none, some, List, [], ◌∷◌}
use id.Links.{at}
use id.Green.{Place, ready, waiting, blocked_on, Context, Result, ok, null_access}
use id.Green.Scheduler.{
  Schedule, put_queue, append, first, switch_to, succeed, wake, signal_one, hand_over,
}

pub first_nil : (p : Place) (a : Schedule) → a.queue p ≡ [] → first p a ≡ none
unfolding first
first_nil p a e =
    ap (λ l. elim l [ [] ↦ none | x ∷ xs ↦ some (x, record a { queue = put_queue a.queue p xs }) ])
      e

pub first_cons :
    (p : Place) (x : ℕ) (xs : List ℕ) (a : Schedule)
    → a.queue p ≡ x ∷ xs
    → first p a ≡ some (x, record a { queue = put_queue a.queue p xs })
unfolding first
first_cons p x xs a e =
    ap (λ l. elim l [ [] ↦ none | x ∷ xs ↦ some (x, record a { queue = put_queue a.queue p xs }) ])
      e

module _ (fault : Result Schedule) (c : Context) (a : Schedule) where
  pub switch_nil : a.queue ready ≡ [] → switch_to fault c a ≡ fault
  unfolding switch_to
  switch_nil e =
      ap
        (λ o. elim o [
          | none ↦ fault
          | some (x, a1) ↦ ok (record a1 { running = x; context = at a1.context a1.running c })
        ])
        (first_nil ready a e)

  pub switch_cons :
      (x : ℕ) (xs : List ℕ)
      → a.queue ready ≡ x ∷ xs
      → switch_to fault c a
        ≡ ok (record a {
          queue = put_queue a.queue ready xs;
          running = x;
          context = at a.context a.running c;
        })
  unfolding switch_to
  switch_cons x xs e =
      ap
        (λ o. elim o [
          | none ↦ fault
          | some (x, a1) ↦ ok (record a1 { running = x; context = at a1.context a1.running c })
        ])
        (first_cons ready x xs a e)

module _ (a : Schedule) where
  pub succeed_nil : a.queue ready ≡ [] → succeed a ≡ null_access
  unfolding succeed
  succeed_nil e =
      ap
        (λ o. elim o [
          | none ↦ null_access
          | some (x, a1) ↦ ok (record a1 { running = x; masked = true })
        ])
        (first_nil ready a e)

  pub succeed_cons :
      (x : ℕ) (xs : List ℕ)
      → a.queue ready ≡ x ∷ xs
      → succeed a ≡ ok (record a { queue = put_queue a.queue ready xs; running = x; masked = true })
  unfolding succeed
  succeed_cons x xs e =
      ap
        (λ o. elim o [
          | none ↦ null_access
          | some (x, a1) ↦ ok (record a1 { running = x; masked = true })
        ])
        (first_cons ready x xs a e)

  pub wake_nil : (p : Place) → a.queue p ≡ [] → wake p a ≡ a
  unfolding wake
  wake_nil p e = ap (λ o. elim o [ none ↦ a | some (x, a1) ↦ append ready x a1 ]) (first_nil p a e)

  pub wake_cons :
      (p : Place) (x : ℕ) (xs : List ℕ)
      → a.queue p ≡ x ∷ xs
      → wake p a ≡ append ready x (record a { queue = put_queue a.queue p xs })
  unfolding wake
  wake_cons p x xs e =
      ap (λ o. elim o [ none ↦ a | some (x, a1) ↦ append ready x a1 ]) (first_cons p x xs a e)

  pub signal_one_nil :
      (c : ℕ) → a.queue (waiting c) ≡ [] → signal_one c a ≡ record a { masked = true }
  unfolding signal_one
  signal_one_nil c e =
      ap
        (λ o. elim o [
          | none ↦ record a { masked = true }
          | some (x, a1) ↦ append ready x (record a1 { masked = false })
        ])
        (first_nil (waiting c) a e)

  pub signal_one_cons :
      (c x : ℕ) (xs : List ℕ)
      → a.queue (waiting c) ≡ x ∷ xs
      → signal_one c a
        ≡ append ready x (record a { queue = put_queue a.queue (waiting c) xs; masked = false })
  unfolding signal_one
  signal_one_cons c x xs e =
      ap
        (λ o. elim o [
          | none ↦ record a { masked = true }
          | some (x, a1) ↦ append ready x (record a1 { masked = false })
        ])
        (first_cons (waiting c) x xs a e)

  pub hand_over_nil :
      (m : ℕ)
      → a.queue (blocked_on m) ≡ []
      → hand_over m a ≡ record a { masked = false; taken = at a.taken m false }
  unfolding hand_over
  hand_over_nil m e =
      ap
        (λ o. elim o [
          | none ↦ record a { masked = false; taken = at a.taken m false }
          | some (x, a1) ↦ append ready x (record a1 { masked = false })
        ])
        (first_nil (blocked_on m) a e)

  pub hand_over_cons :
      (m x : ℕ) (xs : List ℕ)
      → a.queue (blocked_on m) ≡ x ∷ xs
      → hand_over m a
        ≡ append ready x (record a { queue = put_queue a.queue (blocked_on m) xs; masked = false })
  unfolding hand_over
  hand_over_cons m x xs e =
      ap
        (λ o. elim o [
          | none ↦ record a { masked = false; taken = at a.taken m false }
          | some (x, a1) ↦ append ready x (record a1 { masked = false })
        ])
        (first_cons (blocked_on m) x xs a e)
