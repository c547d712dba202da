-- ===== src/Green/Exclusion/Reactions.antt =====
-- What each event of the green threads of seminar3/green.c does to the log of one mutex.
use mathlib.Core.Path.{subst}
use id.Base.{
  ℕ, ◌≡◌, refl, sym, ◌==◌, Bool, true, false, ◌&&◌, List, [], ◌∷◌, arith, if◌then◌else◌, Bool-cases,
  inl, inr,
}
use id.Links.{at, Absent}
use id.Green.{Place, ready, waiting, blocked_on, Result, ok, failed_assert}
use id.Green.Events.{Call}
use id.Green.Scheduler.{
  Schedule, clear, suspend_on, spawn, rotate, tick, await, terminate, signal_one, contend,
  hand_over, react,
}
use id.Green.Exclusion.{Log, member, erase, is_empty, observe, allowed}
use id.Green.Exclusion.Keeps.{
  Shows, IfOk, deref-IfOk, rotate-Shows, tick-Shows, await-Shows, terminate-Shows, signal-Shows,
  spawn-Shows,
}
use id.Green.Exclusion.Others.{contend-Shows, unlock-Shows, clear-Shows, freed-Shows, suspend-Shows}
use id.Green.Exclusion.Steps.{
  vacant, held, granted, IsOrdered, same-IsOrdered, lock-IsOrdered, lock_log,
}
use id.Green.Exclusion.Departures.{unlock-IsOrdered, continue-IsOrdered}

-- What an event of the running thread leaves.
unfoldable pub Follows : ℕ → Log → Call → Schedule → Result Schedule → Type 0
Follows m g c a r = IfOk (λ a'. IsOrdered m (observe m c a.running a'.running g) a') r

-- An event about a mutex concerns this one, or another one.
by_mutex :
    (P : Bool → Type 0) (m n : ℕ) → (m ≡ n → P true) → ((n == m) ≡ false → P false) → P (n == m)
by_mutex P m n this other = elim (Bool-cases (n == m)) [
  | inl e ↦ subst P (sym e) (this (ground (arith, e)))
  | inr e ↦ subst P (sym e) (other e)
]

empty_nil : (xs : List ℕ) → is_empty xs ≡ true → xs ≡ []
empty_nil [] e = refl
empty_nil (x ∷ xs) e = absurd (cc)

pub both : (a b : Bool) → a && b ≡ true → (a ≡ true) × (b ≡ true)
both true b e = (refl, e)
both false b e = absurd (cc)

module _ (m : ℕ) (g : Log) (a : Schedule) (away : (p : Place) → Absent a.running (a.queue p))
    (y : IsOrdered m g a) where
  keeps :
      (r : Result Schedule)
      → ((b : Bool) (l : List ℕ) → Shows m b l a → IfOk (Shows m b l) r)
      → IfOk (IsOrdered m g) r
  keeps r f = same-IsOrdered m g a r y f

  masked_lem : (v : Bool) → IsOrdered m g (record a { masked = v })
  unfolding IfOk
  masked_lem v =
      keeps (ok (record a { masked = v }))
        (λ b l k. record { taken = k.taken; queue = k.queue; returns = k.returns })

  lock-Follows :
      (n : ℕ)
      → Follows m g (Call.mutex_lock n) a (contend failed_assert n (record a { masked = true }))
  unfolding Follows observe IfOk
  lock-Follows n =
      let a0 : Schedule = record a { masked = true } in
      by_mutex
        (λ b.
          IfOk (λ a'. IsOrdered m (if b then lock_log a.running a'.running g else g) a')
            (contend failed_assert n a0))
        m n
        (λ e.
          subst
            (λ k.
              IfOk (λ a'. IsOrdered m (lock_log a.running a'.running g) a')
                (contend failed_assert k a0))
            e (lock-IsOrdered m g a0 (away ready) (masked_lem true)))
        (λ e. keeps (contend failed_assert n a0) (λ b l k.
          contend-Shows m n e b l failed_assert a0 tt
            (record { taken = k.taken; queue = k.queue; returns = k.returns })))

  unlock-Follows :
      (n : ℕ)
      → allowed m (Call.mutex_unlock n) a.running g ≡ true
      → Follows m g (Call.mutex_unlock n) a (ok (hand_over n a))
  unfolding Follows observe allowed IfOk
  unlock-Follows n =
      by_mutex
        (λ b.
          (if b then member a.running g.inside else true) ≡ true
          → IsOrdered m (if b then record g { inside = erase a.running g.inside } else g)
              (hand_over n a))
        m n
        (λ e i.
          subst (λ k. IsOrdered m (record g { inside = erase a.running g.inside }) (hand_over k a))
            e (unlock-IsOrdered m g a y i))
        (λ e i. keeps (ok (hand_over n a)) (λ b l k. unlock-Shows m n e b l a k))

  -- The mutex is free and has no queue.
  cleared_lem :
      (v : ℕ)
      → is_empty g.inside && is_empty g.trying ≡ true
      → m ≡ v
      → IsOrdered m g
          (clear (blocked_on v) (record a { masked = false; taken = at a.taken v false }))
  cleared_lem v alone e =
      let (i, t) = both (is_empty g.inside) (is_empty g.trying) alone in
      record {
        holds =
            vacant
              (record {
                taken = ground (arith, e);
                queue = ground (arith, e);
                returns = elim y.holds [
                  | vacant k _ _ ↦ k.returns
                  | held _ _ k _ _ ↦ k.returns
                  | granted _ _ k _ _ ↦ k.returns
                ];
              })
              (empty_nil g.inside i) (empty_nil g.trying t);
        order = y.order;
      }

  init-Follows :
      (n : ℕ)
      → allowed m (Call.mutex_init n) a.running g ≡ true
      → Follows m g
          (Call.mutex_init n)
          a
          (ok (clear (blocked_on n) (record a { masked = false; taken = at a.taken n false })))
  unfolding Follows observe allowed IfOk
  init-Follows n =
      let a1 : Schedule = record a { masked = false; taken = at a.taken n false } in
      by_mutex
        (λ b.
          (if b then is_empty g.inside && is_empty g.trying else true) ≡ true
          → IsOrdered m g (clear (blocked_on n) a1))
        m n (λ e alone. cleared_lem n alone e)
        (λ e alone.
          keeps (ok (clear (blocked_on n) a1))
            (λ b l k. clear-Shows m n e b l a1 (freed-Shows m n e b l false a k)))

  wait-Follows :
      (c n : ℕ)
      → allowed m (Call.cond_wait c n) a.running g ≡ true
      → Follows m g (Call.cond_wait c n) a (suspend_on c n a)
  unfolding Follows observe allowed
  wait-Follows c n ne =
      keeps (suspend_on c n a) (λ b l k. suspend-Shows m n (ground (arith, ne)) b l c a k)

  pub react-Follows : (c : Call) → allowed m c a.running g ≡ true → Follows m g c a (react c a)
  unfolding react Follows observe IfOk
  react-Follows (Call.create new f x) e =
      keeps (ok (spawn new f x a)) (λ b l k. spawn-Shows m b l new f x a k)
  react-Follows Call.yield e = keeps (rotate a) (λ b l k. rotate-Shows m b l a k)
  react-Follows Call.interrupt e = keeps (tick a) (λ b l k. tick-Shows m b l a k)
  react-Follows Call.continue e = continue-IsOrdered m g a (away (blocked_on m)) y
  react-Follows (Call.join thread res) e =
      deref-IfOk _ thread _ (keeps (await thread res a) (λ b l k. await-Shows m b l thread res a k))
  react-Follows (Call.exit res) e = keeps (terminate res a) (λ b l k. terminate-Shows m b l res a k)
  react-Follows (Call.cond_init c) e = deref-IfOk _ c _ (
      keeps (ok (clear (waiting c) (record a { masked = false })))
        (λ b l k. record { taken = k.taken; queue = k.queue; returns = k.returns }))
  react-Follows (Call.cond_signal c) e =
      deref-IfOk _ c _ (keeps (ok (signal_one c a)) (λ b l k. signal-Shows m b l c a k))
  react-Follows (Call.mutex_init n) e = deref-IfOk _ n _ (init-Follows n e)
  react-Follows (Call.mutex_lock n) e = deref-IfOk _ n _ (lock-Follows n)
  react-Follows (Call.mutex_unlock n) e = deref-IfOk _ n _ (unlock-Follows n e)
  react-Follows (Call.cond_wait c n) e = deref-IfOk _ c _ (wait-Follows c n e)
