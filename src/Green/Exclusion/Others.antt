-- ===== src/Green/Exclusion/Others.antt =====
-- The events of the scheduler of seminar3/green.c that concern another mutex.
use mathlib.Core.Path.{subst}
use id.Base.{
  ℕ, ◌≡◌, refl, sym, ap, ◌∙◌, ◌==◌, Bool, true, false, if_ind, List, [], ◌∷◌, arith, if◌then◌else◌,
}
use id.Links.{at}
use id.Green.{
  Place, waiting, blocked_on, Context, entry, in_yield, in_join, in_wait, in_lock, released, Result,
  ok, null_access, failed_assert,
}
use id.Green.Scheduler.{
  Schedule, put_queue, append, clear, deliver, wake, let_go, suspend_on, contend, hand_over, go_on,
}
use id.Green.Scheduler.Heads.{wake_nil, wake_cons, hand_over_nil, hand_over_cons}
use id.Green.Exclusion.Keeps.{
  returns_to, IfOk, other_place, switch-Shows, blocked-Shows, deliver-Shows, Shows,
}

-- What concerns another mutex.
module _ (m n : ℕ) (e : (n == m) ≡ false) (b : Bool) (l : List ℕ) where
  taken_other : (f : ℕ → Bool) (v : Bool) → at f n v m ≡ f m
  taken_other f v = ground (arith, e)

  queue_other :
      (q : Place → List ℕ) (xs : List ℕ)
      → put_queue q (blocked_on n) xs (blocked_on m) ≡ q (blocked_on m)
  queue_other q xs = ap (λ c. if c then xs else q (blocked_on m)) (other_place m n e)

  pub freed-Shows :
      (v : Bool) (a : Schedule)
      → Shows m b l a
      → Shows m b l (record a { taken = at a.taken n v; masked = false })
  freed-Shows v a k = record {
    taken = taken_other a.taken v ∙ k.taken;
    queue = k.queue;
    returns = k.returns;
  }

  pub contend-Shows :
      (f : Result Schedule) (a : Schedule)
      → IfOk (Shows m b l) f
      → Shows m b l a
      → IfOk (Shows m b l) (contend f n a)
  unfolding contend IfOk
  contend-Shows f a bad k =
      if_ind (λ r. IfOk (Shows m b l) r) (a.taken n) _ _
        (λ t.
          switch-Shows m b l f in_lock (append (blocked_on n) a.running a) bad refl
            (blocked-Shows m b l n a.running a e k))
        (λ t. freed-Shows true a k)

  pub unlock-Shows : (a : Schedule) → Shows m b l a → Shows m b l (hand_over n a)
  unlock-Shows a k = from (a.queue (blocked_on n)) refl
    where
      from : (xs : List ℕ) → a.queue (blocked_on n) ≡ xs → Shows m b l (hand_over n a)
      from [] q = subst (λ r. Shows m b l r) (sym (hand_over_nil a n q)) (freed-Shows false a k)
      from (x ∷ xs) q =
          subst (λ r. Shows m b l r) (sym (hand_over_cons a n x xs q))
            (record {
              taken = k.taken;
              queue = queue_other a.queue xs ∙ k.queue;
              returns = k.returns;
            })

  pub clear-Shows : (a : Schedule) → Shows m b l a → Shows m b l (clear (blocked_on n) a)
  clear-Shows a k = record {
    taken = k.taken;
    queue = queue_other a.queue [] ∙ k.queue;
    returns = k.returns;
  }

  wake-Shows : (a : Schedule) → Shows m b l a → Shows m b l (wake (blocked_on n) a)
  wake-Shows a k = from (a.queue (blocked_on n)) refl
    where
      from : (xs : List ℕ) → a.queue (blocked_on n) ≡ xs → Shows m b l (wake (blocked_on n) a)
      from [] q = subst (λ r. Shows m b l r) (sym (wake_nil a (blocked_on n) q)) k
      from (x ∷ xs) q =
          subst (λ r. Shows m b l r) (sym (wake_cons a (blocked_on n) x xs q))
            (record {
              taken = k.taken;
              queue = queue_other a.queue xs ∙ k.queue;
              returns = k.returns;
            })

  let_go-Shows : (a : Schedule) → Shows m b l a → Shows m b l (let_go n a)
  unfolding let_go
  let_go-Shows a k =
      let freed : Schedule = record a { taken = at a.taken n false } in
      if_ind (λ r. Shows m b l r) (n == 0) a _ (λ z. k)
        (λ z. clear-Shows (wake (blocked_on n) freed) (
          wake-Shows freed (record {
            taken = taken_other a.taken false ∙ k.taken;
            queue = k.queue;
            returns = k.returns;
          })))

  pub suspend-Shows : (c : ℕ) (a : Schedule) → Shows m b l a → IfOk (Shows m b l) (suspend_on c n a)
  unfolding suspend_on IfOk
  suspend-Shows c a k =
      let waits : Schedule = append (waiting c) a.running (record a { masked = true }) in
      switch-Shows m b l failed_assert (in_wait n) (let_go n waits) tt e
        (let_go-Shows waits (record { taken = k.taken; queue = k.queue; returns = k.returns }))

-- What a thread does when it runs again.
pub go_on-Shows :
    (m : ℕ) (b : Bool) (l : List ℕ) (a : Schedule) → Shows m b l a → IfOk (Shows m b l) (go_on a)
unfolding go_on IfOk
go_on-Shows m b l a k = at_context (a.context a.running) (k.returns a.running)
  where
    unmasked : (v : Bool) → Shows m b l (record a { masked = v })
    unmasked v = record { taken = k.taken; queue = k.queue; returns = k.returns }

    at_context :
        (c : Context)
        → returns_to m c ≡ false
        → IfOk (Shows m b l) (elim c [
          | entry ↦ if a.fun a.running == 0 then failed_assert else ok (record a { masked = true })
          | in_yield ↦ ok (record a { masked = false })
          | in_join thread res ↦ deliver thread res a
          | in_wait mutex ↦
              if mutex == 0 then ok (record a { masked = false }) else contend null_access mutex a
          | in_lock ↦ ok (record a { masked = false })
          | released ↦ null_access
        ])
    at_context entry e =
        if_ind (λ r. IfOk (Shows m b l) r) (a.fun a.running == 0) failed_assert _ (λ z. tt)
          (λ z. unmasked true)
    at_context in_yield e = unmasked false
    at_context (in_join thread res) e = deliver-Shows m b l thread res a k
    at_context (in_wait n) e =
        if_ind (λ r. IfOk (Shows m b l) r) (n == 0) _ _ (λ z. unmasked false)
          (λ z. contend-Shows m n e b l null_access a tt k)
    at_context in_lock e = unmasked false
    at_context released e = tt
