-- ===== src/Green/Exclusion/Keeps.antt =====
-- The events of the scheduler of seminar3/green.c that leave one mutex alone.
use mathlib.Core.Path.{subst}
use id.Base.{
  ℕ, ◌≡◌, refl, sym, ap, ◌∙◌, ◌==◌, Bool, true, false, if_ind, List, [], ◌∷◌, ◌++◌, arith,
  if◌then◌else◌,
}
use id.Links.{at}
use id.Green.{
  ready, waiting, blocked_on, Context, entry, in_yield, in_join, in_wait, released, Result, ok,
  null_access, failed_assert, out_of_fuel, same_place, is_released, deref,
}
use id.Green.Scheduler.{
  Schedule, put_queue, append, switch_to, spawn, rotate, tick, deliver, await, succeed, terminate,
  signal_one,
}
use id.Green.Scheduler.Heads.{
  switch_nil, switch_cons, succeed_nil, succeed_cons, signal_one_nil, signal_one_cons,
}

-- A thread that comes back to the mutex at the end of `green_cond_wait`.
abbrev pub returns_to : ℕ → Context → Bool
returns_to mutex (in_wait m) = m == mutex
returns_to mutex _ = false

-- The mutex is taken or not, its queue is `l`, and no thread comes back to it from `green_cond_wait`.
pub record Shows (mutex : ℕ) (b : Bool) (l : List ℕ) (a : Schedule) : Type 0 where
  pub taken : a.taken mutex ≡ b
  pub queue : a.queue (blocked_on mutex) ≡ l
  pub returns : (t : ℕ) → returns_to mutex (a.context t) ≡ false

-- What holds of the schedule that an operation ends in, if it ends in one.
unfoldable pub IfOk : (Schedule → Type 0) → Result Schedule → Type 0
IfOk P (ok a) = P a
IfOk P null_access = Unit
IfOk P failed_assert = Unit
IfOk P out_of_fuel = Unit

-- A call that reads through NULL ends in no schedule.
pub deref-IfOk :
    (P : Schedule → Type 0) (p : ℕ) (r : Result Schedule) → IfOk P r → IfOk P (deref p r)
unfolding IfOk
deref-IfOk P p r x = if_ind (λ o. IfOk P o) (p == 0) null_access r (λ e. tt) (λ e. x)

pub returns_at :
    (mutex : ℕ) (f : ℕ → Context) (k : ℕ) (c : Context)
    → returns_to mutex c ≡ false
    → ((t : ℕ) → returns_to mutex (f t) ≡ false)
    → (t : ℕ) → returns_to mutex (at f k c t) ≡ false
returns_at mutex f k c e h t =
    if_ind (λ x. returns_to mutex x ≡ false) (t == k) c (f t) (λ _. e) (λ _. h t)

-- The queue of another mutex.
pub other_place : (m n : ℕ) → (n == m) ≡ false → same_place (blocked_on m) (blocked_on n) ≡ false
other_place m n e = ground (arith, e)

module _ (m : ℕ) (b : Bool) (l : List ℕ) where
  ready_Shows :
      (xs : List ℕ) (a : Schedule)
      → Shows m b l a
      → Shows m b l (record a { queue = put_queue a.queue ready xs })
  ready_Shows xs a k = record { taken = k.taken; queue = k.queue; returns = k.returns }

  pub switch-Shows :
      (f : Result Schedule) (c : Context) (a : Schedule)
      → IfOk (Shows m b l) f
      → returns_to m c ≡ false
      → Shows m b l a
      → IfOk (Shows m b l) (switch_to f c a)
  unfolding IfOk
  switch-Shows f c a bad e k = from (a.queue ready) refl
    where
      from : (xs : List ℕ) → a.queue ready ≡ xs → IfOk (Shows m b l) (switch_to f c a)
      from [] q = subst (λ r. IfOk (Shows m b l) r) (sym (switch_nil f c a q)) bad
      from (x ∷ xs) q =
          subst (λ r. IfOk (Shows m b l) r) (sym (switch_cons f c a x xs q))
            (record {
              taken = k.taken;
              queue = k.queue;
              returns = returns_at m a.context a.running c e k.returns;
            })

  succeed-Shows : (a : Schedule) → Shows m b l a → IfOk (Shows m b l) (succeed a)
  unfolding IfOk
  succeed-Shows a k = from (a.queue ready) refl
    where
      from : (xs : List ℕ) → a.queue ready ≡ xs → IfOk (Shows m b l) (succeed a)
      from [] q = subst (λ r. IfOk (Shows m b l) r) (sym (succeed_nil a q)) tt
      from (x ∷ xs) q =
          subst (λ r. IfOk (Shows m b l) r) (sym (succeed_cons a x xs q))
            (record { taken = k.taken; queue = k.queue; returns = k.returns })

  -- A thread joins the queue of another mutex.
  pub blocked-Shows :
      (n t : ℕ) (a : Schedule)
      → (n == m) ≡ false
      → Shows m b l a
      → Shows m b l (append (blocked_on n) t a)
  blocked-Shows n t a e k = record {
    taken = k.taken;
    queue =
        ap (λ c. if c then a.queue (blocked_on n) ++ (t ∷ []) else a.queue (blocked_on m))
          (other_place m n e)
        ∙ k.queue;
    returns = k.returns;
  }

  pub rotate-Shows : (a : Schedule) → Shows m b l a → IfOk (Shows m b l) (rotate a)
  unfolding rotate IfOk
  rotate-Shows a k =
      switch-Shows null_access in_yield (append ready a.running (record a { masked = true })) tt
        refl (record { taken = k.taken; queue = k.queue; returns = k.returns })

  pub tick-Shows : (a : Schedule) → Shows m b l a → IfOk (Shows m b l) (tick a)
  unfolding tick IfOk
  tick-Shows a k =
      if_ind (λ r. IfOk (Shows m b l) r) a.masked (ok a) (rotate a) (λ e. k) (λ e. rotate-Shows a k)

  pub deliver-Shows :
      (thread res : ℕ) (a : Schedule) → Shows m b l a → IfOk (Shows m b l) (deliver thread res a)
  unfolding deliver IfOk
  deliver-Shows thread res a k =
      let back = returns_at m a.context thread released refl k.returns in
      if_ind (λ r. IfOk (Shows m b l) r) (is_released (a.context thread)) null_access _ (λ e. tt)
        (λ e.
          if_ind (λ r. IfOk (Shows m b l) r) (a.retval thread == 0) _ _
            (λ e. record { taken = k.taken; queue = k.queue; returns = back })
            (λ e.
              if_ind (λ r. IfOk (Shows m b l) r) (res == 0) null_access _ (λ e. tt)
                (λ e. record { taken = k.taken; queue = k.queue; returns = back })))

  pub await-Shows :
      (thread res : ℕ) (a : Schedule) → Shows m b l a → IfOk (Shows m b l) (await thread res a)
  unfolding await IfOk
  await-Shows thread res a k =
      if_ind (λ r. IfOk (Shows m b l) r) (a.zombie thread) _ _
        (λ e.
          deliver-Shows thread res (record a { masked = true })
            (record { taken = k.taken; queue = k.queue; returns = k.returns }))
        (λ e.
          switch-Shows null_access (in_join thread res)
            (record a { masked = true; join = at a.join thread a.running }) tt refl
            (record { taken = k.taken; queue = k.queue; returns = k.returns }))

  pub terminate-Shows :
      (res : ℕ) (a : Schedule) → Shows m b l a → IfOk (Shows m b l) (terminate res a)
  unfolding terminate
  terminate-Shows res a k =
      let ended : Schedule = record a {
        retval = at a.retval a.running res;
        zombie = at a.zombie a.running true;
      } in
      let joined : Schedule = append ready (a.join a.running) ended in
      if_ind (λ r. IfOk (Shows m b l) (succeed r)) (a.join a.running == 0) ended joined
        (λ e.
          succeed-Shows ended (record { taken = k.taken; queue = k.queue; returns = k.returns }))
        (λ e.
          succeed-Shows joined (record { taken = k.taken; queue = k.queue; returns = k.returns }))

  pub signal-Shows : (c : ℕ) (a : Schedule) → Shows m b l a → Shows m b l (signal_one c a)
  signal-Shows c a k = from (a.queue (waiting c)) refl
    where
      from : (xs : List ℕ) → a.queue (waiting c) ≡ xs → Shows m b l (signal_one c a)
      from [] q =
          subst (λ r. Shows m b l r) (sym (signal_one_nil a c q))
            (record { taken = k.taken; queue = k.queue; returns = k.returns })
      from (x ∷ xs) q =
          subst (λ r. Shows m b l r) (sym (signal_one_cons a c x xs q))
            (record { taken = k.taken; queue = k.queue; returns = k.returns })

  pub spawn-Shows : (new f x : ℕ) (a : Schedule) → Shows m b l a → Shows m b l (spawn new f x a)
  unfolding spawn
  spawn-Shows new f x a k = record {
    taken = k.taken;
    queue = k.queue;
    returns = returns_at m a.context new entry refl k.returns;
  }
