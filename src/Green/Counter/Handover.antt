-- ===== src/Green/Counter/Handover.antt =====
-- How a thread of seminar3/test_mutex.c leaves its section, and how one enters that waited.
use mathlib.Core.Path.{subst}
use id.Base.{
  ℕ, ◌+◌, ◌≡◌, sym, ap, ◌∙◌, ◌==◌, true, false, not, ◌||◌, List, [], ◌∷◌, arith, if◌then◌else◌,
  Bool-cases, inl, inr,
}
use id.Links.{at, Absent}
use id.Green.{State, blocked_on}
use id.Green.Scheduler.{Schedule}
use id.Green.Exclusion.{Log, member, erase, enter}
use id.Green.Exclusion.Steps.{Holds, vacant, held, granted, Absent-member}
use id.Green.Counter.{Machine, locking, counting, unlocking}
use id.Green.Counter.Locked.{
  critical, pending, total, Adds, IsCounted, at_ind, member_self, member_other, alone, moved_waits,
  still_gone,
}

module _ {m : ℕ} {g : Log} {k : Machine} {a : Schedule} (h : Holds m g a) (y : IsCounted g k)
    (this : ℕ) (gone : member this g.trying ≡ false) where
  -- The call of `green_mutex_unlock`.
  pub unlock_step :
      (left : ℕ → ℕ) (s' : State)
      → k.point this ≡ unlocking
      → IsCounted
          (record g { inside = erase this g.inside })
          (record k {
            point = at k.point this locking;
            left = left;
            lib = s';
            resumes = not (s'.running == this);
          })
  unfolding Adds
  unlock_step left s' here =
      let i : g.inside ≡ this ∷ [] = alone h y this gone (ap critical here) in
      let self : erase this (this ∷ []) ≡ [] = ground arith in
      let none : erase this g.inside ≡ [] = ap (λ l. erase this l) i ∙ self in
      let (sum, reg) = subst (λ l. Adds l k) i y.adds in
      let k' : Machine = record k {
        point = at k.point this locking;
        left = left;
        lib = s';
        resumes = not (s'.running == this);
      } in
      record {
        places =
            at_ind k.point this locking
              (λ t x. critical x ≡ (member t (erase this g.inside) || member t g.trying))
              (ground (arith, ap (λ l. member this l) none, gone))
              (λ t ne.
                y.places t
                ∙ ap (λ b. b || member t g.trying)
                    (ap (λ l. member t l) i
                      ∙ member_other this t [] ne
                      ∙ sym (ap (λ l. member t l) none)));
        waits = moved_waits h y this gone locking;
        back = still_gone this s'.running g.trying gone;
        adds =
            let now : k.shared ≡ total k =
              omega (arith, sum, ap (λ x. k.shared + pending x) here) in
            subst (λ l. Adds l k') (sym none) now;
      }

-- A thread continues.
module _ {m : ℕ} {g : Log} {k : Machine} {a : Schedule} (h : Holds m g a) (y : IsCounted g k)
    (away : Absent a.running (a.queue (blocked_on m))) where
  abbrev after_continue : State → Machine
  after_continue s' = record k { lib = s'; resumes = not (s'.running == a.running) }

  not_waiting : (l : List ℕ) → a.queue (blocked_on m) ≡ l → member a.running l ≡ false
  not_waiting l q = Absent-member a.running l (subst (λ l. Absent a.running l) q away)

  -- It waited for the mutex, which was handed to it.
  handed :
      (s' : State) (l : List ℕ)
      → g.inside ≡ []
      → g.trying ≡ a.running ∷ l
      → member a.running l ≡ false
      → IsCounted
          (enter a.running (record g { trying = erase a.running g.trying }))
          (after_continue s')
  unfolding Adds
  handed s' l i t gone =
      let r : ℕ = a.running in
      let self : erase r (r ∷ l) ≡ l = ground arith in
      let rest : erase r g.trying ≡ l = ap (λ l. erase r l) t ∙ self in
      let first : member r (r ∷ l) ≡ true = member_self r l in
      let point : k.point r ≡ counting = y.waits r (ap (λ l. member r l) t ∙ first) in
      record {
        places = λ u.
            let before : critical (k.point u) ≡ (member u [] || member u (r ∷ l)) =
              y.places u
              ∙ ap (λ b. b || member u g.trying) (ap (λ l. member u l) i)
              ∙ ap (λ b. member u [] || b) (ap (λ l. member u l) t) in
            let after : (member u (r ∷ g.inside) || member u (erase r g.trying))
                ≡ (member u (r ∷ []) || member u l) =
              ap (λ b. b || member u (erase r g.trying)) (ap (λ l. member u (r ∷ l)) i)
              ∙ ap (λ b. member u (r ∷ []) || b) (ap (λ l. member u l) rest) in
            before ∙ ground arith ∙ sym after;
        waits = λ u e.
            let e' : member u l ≡ true = sym (ap (λ l. member u l) rest) ∙ e in
            let e'' : member u (r ∷ l) ≡ true = ground (arith, e') in
            y.waits u (ap (λ l. member u l) t ∙ e'');
        back = still_gone r s'.running (erase r g.trying) (ap (λ l. member r l) rest ∙ gone);
        adds =
            let sum : k.shared ≡ total k = subst (λ l. Adds l k) i y.adds in
            (ap (λ x. k.shared + pending x) point ∙ omega (arith, sum), λ e. absurd (cc));
      }

  -- It did not wait for the mutex.
  went_on : (s' : State) → member a.running g.trying ≡ false → IsCounted g (after_continue s')
  unfolding Adds
  went_on s' gone = record {
    places = y.places;
    waits = y.waits;
    back = still_gone a.running s'.running g.trying gone;
    adds =
        elim g.inside as (λ l. Adds l k → Adds l (after_continue s')) [
          | [] ↦ λ e. e
          | o ∷ l ↦ λ e. e
        ]
          y.adds;
  }

  abbrev continue_log : Log
  continue_log =
      if member a.running g.trying
      then enter a.running (record g { trying = erase a.running g.trying })
      else g

  as_before :
      (s' : State) → member a.running g.trying ≡ false → IsCounted continue_log (after_continue s')
  as_before s' e =
      subst
        (λ b.
          IsCounted
            (if b then enter a.running (record g { trying = erase a.running g.trying }) else g)
            (after_continue s'))
        (sym e) (went_on s' e)

  pub continue_step : (s' : State) → IsCounted continue_log (after_continue s')
  continue_step s' = elim h [
    | vacant s i t ↦ as_before s' (ap (λ l. member a.running l) t)
    | held o l s i t ↦ as_before s' (ap (λ l. member a.running l) t ∙ not_waiting l s.queue)
    | granted o l s i t ↦ elim (Bool-cases (a.running == o)) [
      | inl e ↦
          let e' : o ≡ a.running = ground (arith, e) in
          let t' : g.trying ≡ a.running ∷ l = t ∙ ap (λ x. x ∷ l) e' in
          let first : member a.running (a.running ∷ l) ≡ true = member_self a.running l in
          subst
            (λ b.
              IsCounted
                (if b then enter a.running (record g { trying = erase a.running g.trying }) else g)
                (after_continue s'))
            (sym (ap (λ l. member a.running l) t' ∙ first))
            (handed s' l i t' (not_waiting l s.queue))
      | inr e ↦
          as_before s'
            (ap (λ l. member a.running l) t ∙ member_other o a.running l e ∙ not_waiting l s.queue)
    ]
  ]
