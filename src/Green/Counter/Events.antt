-- ===== src/Green/Counter/Events.antt =====
-- What the calls of the library in seminar3/test_mutex.c do to the sections of its threads.
use mathlib.Core.Path.{subst}
use id.Base.{
  ℕ, ◌+◌, ◌≡◌, refl, sym, ap, ◌∙◌, ◌==◌, Bool, true, false, not, ◌||◌, List, [], ◌∷◌, ◌++◌, arith,
  if◌then◌else◌, Bool-cases, inl, inr,
}
use id.Links.{at}
use id.Green.{State}
use id.Green.Scheduler.{Schedule}
use id.Green.Events.{Call}
use id.Green.Exclusion.{Log, member, enter, arrive}
use id.Green.Exclusion.Steps.{Holds, vacant, held, granted, lock_log}
use id.Green.Counter.{Machine, Point, locking, counting}
use id.Green.Counter.Locked.{
  critical, pending, total, Adds, IsCounted, at_same, at_other, at_ind, member_self, member_other,
  member-append,
}

module _ {g : Log} {k : Machine} (y : IsCounted g k) where
  -- An event that leaves the log alone.
  pub library_step :
      (s' : State) (r : Bool) (todo : List Call)
      → (r ≡ false → member s'.running g.trying ≡ false)
      → IsCounted g (record k { lib = s'; resumes = r; todo = todo })
  unfolding Adds
  library_step s' r todo back = record {
    places = y.places;
    waits = y.waits;
    back = back;
    adds =
        elim g.inside
            as (λ l. Adds l k → Adds l (record k { lib = s'; resumes = r; todo = todo })) [
              | [] ↦ λ e. e
              | o ∷ l ↦ λ e. e
            ]
          y.adds;
  }

  -- A thread inside is in its critical section.
  inside_critical : (o : ℕ) (l : List ℕ) → g.inside ≡ o ∷ l → critical (k.point o) ≡ true
  inside_critical o l i =
      let here : member o g.inside ≡ true = ap (λ l. member o l) i ∙ member_self o l in
      y.places o ∙ ap (λ b. b || member o g.trying) here

  -- A step of another thread leaves what the thread inside is about to add.
  moved-Adds :
      (this : ℕ) (p : Point) (k' : Machine) (l : List ℕ)
      → g.inside ≡ l
      → critical (k.point this) ≡ false
      → k'.point ≡ at k.point this p
      → k'.shared ≡ k.shared
      → total k' ≡ total k
      → k'.register ≡ k.register
      → Adds l k'
  unfolding Adds
  moved-Adds this p k' [] i c ep es et er = es ∙ subst (λ l. Adds l k) i y.adds ∙ sym et
  moved-Adds this p k' (o ∷ l) i c ep es et er =
      let (sum, reg) = subst (λ l. Adds l k) i y.adds in
      let apart : (o == this) ≡ false = elim (Bool-cases (o == this)) [
        | inl e ↦
            let e' : o ≡ this = ground (arith, e) in
            let f = inside_critical o l i in
            let f' : critical (k.point this) ≡ true =
              subst (λ x. critical (k.point x) ≡ true) e' f in
            absurd (cc)
        | inr e ↦ e
      ] in
      let same : k'.point o ≡ k.point o = ap (λ f. f o) ep ∙ at_other k.point this p o apart in
      (
        ap (λ x. k'.shared + pending x) same ∙ ap (λ x. x + pending (k.point o)) es ∙ sum ∙ sym et,
        λ e. ap (λ f. f o) er ∙ reg (sym same ∙ e) ∙ sym es,
      )

  -- A step outside the critical section.
  pub outside_step :
      (this : ℕ) (p : Point)
      → critical (k.point this) ≡ false
      → critical p ≡ false
      → member this g.trying ≡ false
      → IsCounted g (record k { point = at k.point this p })
  outside_step this p c c' gone = record {
    places =
        at_ind k.point this p (λ t x. critical x ≡ (member t g.inside || member t g.trying))
          (c' ∙ sym c ∙ y.places this) (λ t ne. y.places t);
    waits =
        at_ind k.point this p (λ t x. member t g.trying ≡ true → x ≡ counting) (λ e. absurd (cc))
          (λ t ne e. y.waits t e);
    back = y.back;
    adds =
        moved-Adds this p (record k { point = at k.point this p }) g.inside refl c refl refl refl
          refl;
  }

abbrev pub after_lock : ℕ → Machine → State → Machine
after_lock this k s' = record k {
  point = at k.point this counting;
  lib = s';
  resumes = not (s'.running == this);
}

-- The call of `green_mutex_lock`.
module _ (m : ℕ) {g : Log} {k : Machine} (y : IsCounted g k) (this : ℕ)
    (gone : member this g.trying ≡ false) (here : k.point this ≡ locking) where
  returned :
      (a : Schedule) (s' : State)
      → s'.running ≡ this
      → Holds m (enter this (arrive this g)) a
      → IsCounted (enter this (arrive this g)) (after_lock this k s')
  unfolding Adds
  returned a s' runs h =
      let free : g.inside ≡ [] = elim h [
        | vacant s i t ↦ absurd (cc)
        | held o l s i t ↦ cc
        | granted o l s i t ↦ absurd (cc)
      ] in
      record {
        places =
            at_ind k.point this counting
              (λ t x. critical x ≡ (member t (this ∷ g.inside) || member t g.trying))
              (ap (λ b. b || member this g.trying) (sym (member_self this g.inside)))
              (λ t ne.
                y.places t
                ∙ ap (λ b. b || member t g.trying) (sym (member_other this t g.inside ne)));
        waits =
            at_ind k.point this counting (λ t x. member t g.trying ≡ true → x ≡ counting)
              (λ e. refl) (λ t ne e. y.waits t e);
        back = λ r. ap (λ t. member t g.trying) runs ∙ gone;
        adds =
            let sum : k.shared ≡ total k = subst (λ l. Adds l k) free y.adds in
            let point : at k.point this counting this ≡ counting = at_same k.point this counting in
            (ap (λ x. k.shared + pending x) point ∙ omega (arith, sum), λ e. absurd (cc));
      }

  waiting_lem :
      (s' : State)
      → (s'.running == this) ≡ false
      → IsCounted
          (record (arrive this g) { trying = g.trying ++ (this ∷ []) })
          (after_lock this k s')
  waiting_lem s' other =
      let l : List ℕ = g.trying ++ (this ∷ []) in
      let outside : critical (k.point this) ≡ false = ap critical here in
      record {
        places =
            at_ind k.point this counting (λ t x. critical x ≡ (member t g.inside || member t l))
              (ground (arith, member-append this this g.trying))
              (λ t ne.
                y.places t
                ∙ ap (λ b. member t g.inside || b)
                    (ground (arith, member-append t this g.trying, ne)));
        waits =
            at_ind k.point this counting (λ t x. member t l ≡ true → x ≡ counting) (λ e. refl)
              (λ t ne e. y.waits t (ground (arith, member-append t this g.trying, ne, e)));
        back = λ r. absurd (ground (arith, other, r));
        adds =
            moved-Adds y this counting (after_lock this k s') g.inside refl outside refl refl refl
              refl;
      }

  pub lock_step :
      (a : Schedule) (s' : State)
      → Holds m (lock_log this s'.running g) a
      → IsCounted (lock_log this s'.running g) (after_lock this k s')
  lock_step a s' h = elim (Bool-cases (s'.running == this)) [
    | inl e ↦
        let log = λ (b : Bool).
          if b
          then enter this (arrive this g)
          else record (arrive this g) { trying = g.trying ++ (this ∷ []) } in
        subst (λ b. IsCounted (log b) (after_lock this k s')) (sym e)
          (returned a s' (ground (arith, e)) (subst (λ b. Holds m (log b) a) e h))
    | inr e ↦
        let log = λ (b : Bool).
          if b
          then enter this (arrive this g)
          else record (arrive this g) { trying = g.trying ++ (this ∷ []) } in
        subst (λ b. IsCounted (log b) (after_lock this k s')) (sym e) (waiting_lem s' e)
  ]
