-- ===== src/Green/Counter/Locked.antt =====
-- The loop of `test` of seminar3/test_mutex.c, beside the log of its mutex.
use mathlib.Core.Path.{subst}
use id.Base.{
  ℕ, ◌+◌, ◌≡◌, refl, sym, ap, ◌∙◌, ◌==◌, Bool, true, false, not, ◌||◌, List, [], ◌∷◌, ◌++◌, arith,
  if◌then◌else◌, Bool-cases, inl, inr,
}
use id.Links.{at}
use id.Green.{State}
use id.Green.Scheduler.{Schedule}
use id.Green.Exclusion.{Log, member}
use id.Green.Exclusion.Steps.{Holds, vacant, held, granted}
use id.Green.Counter.{Machine, Point, locking, counting, loading, storing, ended}

-- Behind the call of `green_mutex_lock`, up to that of `green_mutex_unlock`.
abbrev pub critical : Point → Bool
critical locking = false
critical ended = false
critical _ = true

-- What the thread has counted and not yet added to `shared`.
abbrev pub pending : Point → ℕ
pending loading = 1
pending storing = 1
pending _ = 0

abbrev pub total : Machine → ℕ
total k = k.zeros + k.ones + k.twos

-- `shared` is the sum of the three counters, but for what the thread inside is about to add.
unfoldable pub Adds : List ℕ → Machine → Type 0
Adds [] k = k.shared ≡ total k
Adds (o ∷ _) k =
    (k.shared + pending (k.point o) ≡ total k) × (k.point o ≡ storing → k.register o ≡ k.shared)

-- A thread is in its critical section when it is inside or waits; one that waits has not counted yet.
pub record IsCounted (g : Log) (k : Machine) : Type 0 where
  pub places : (t : ℕ) → critical (k.point t) ≡ (member t g.inside || member t g.trying)
  pub waits : (t : ℕ) → member t g.trying ≡ true → k.point t ≡ counting
  pub back : k.resumes ≡ false → member k.lib.running g.trying ≡ false
  pub adds : Adds g.inside k

module _ {A : Type 0} (f : ℕ → A) (t : ℕ) (v : A) where
  pub at_same : at f t v t ≡ v
  at_same = ground arith

  pub at_other : (u : ℕ) → (u == t) ≡ false → at f t v u ≡ f u
  at_other u e = ap (λ b. if b then v else f u) e

  -- A property of a function after a write.
  pub at_ind :
      (P : ℕ → A → Type 0)
      → P t v
      → ((u : ℕ) → (u == t) ≡ false → P u (f u))
      → (u : ℕ) → P u (at f t v u)
  at_ind P here there u = elim (Bool-cases (u == t)) [
    | inl e ↦
        let e' : u ≡ t = ground (arith, e) in
        subst (λ w. P w (at f t v w)) (sym e') (subst (λ x. P t x) (sym at_same) here)
    | inr e ↦ subst (λ x. P u x) (sym (at_other u e)) (there u e)
  ]

pub member_self : (t : ℕ) (l : List ℕ) → member t (t ∷ l) ≡ true
member_self t l = ground arith

pub member_other : (t u : ℕ) (l : List ℕ) → (u == t) ≡ false → member u (t ∷ l) ≡ member u l
member_other t u l e = ap (λ b. if b then true else member u l) e

pub member-append : (t x : ℕ) (l : List ℕ) → member t (l ++ (x ∷ [])) ≡ (member t l || (t == x))
member-append t x [] = ground arith
member-append t x (y ∷ l) = ground (arith, member-append t x l)

pub or_right : (a b : Bool) → b ≡ false → (a || b) ≡ a
or_right true b e = refl
or_right false b e = e

-- A thread that is still the one that does not wait.
pub still_gone :
    (this next : ℕ) (l : List ℕ)
    → member this l ≡ false
    → not (next == this) ≡ false
    → member next l ≡ false
still_gone this next l gone r = elim (Bool-cases (next == this)) [
  | inl e ↦ let same : next ≡ this = ground (arith, e) in ap (λ t. member t l) same ∙ gone
  | inr e ↦ absurd (let f : not (next == this) ≡ true = ap not e in cc)
]

-- What the mutex tells when the running thread is in its critical section and does not wait.
module _ {m : ℕ} {g : Log} {a : Schedule} (h : Holds m g a) {k : Machine} (y : IsCounted g k)
    (this : ℕ) (gone : member this g.trying ≡ false) where
  pub alone : critical (k.point this) ≡ true → g.inside ≡ this ∷ []
  alone e =
      let inside : member this g.inside ≡ true =
        sym (or_right (member this g.inside) (member this g.trying) gone)
        ∙ sym (y.places this)
        ∙ e in
      let nobody : g.inside ≡ [] → ⊥ =
        λ i. let f : member this [] ≡ true = subst (λ l. member this l ≡ true) i inside in cc in
      elim h [
        | vacant s i t ↦ absurd (nobody i)
        | granted o l s i t ↦ absurd (nobody i)
        | held o l s i t ↦
            let f : member this (o ∷ []) ≡ true = subst (λ l. member this l ≡ true) i inside in
            let same : o ≡ this = ground (arith, f) in i ∙ ap (λ x. x ∷ []) same
      ]

  -- The places and the waiting threads after a step of the thread.
  moved_places :
      (p : Point)
      → critical (k.point this) ≡ critical p
      → (t : ℕ) → critical (at k.point this p t) ≡ (member t g.inside || member t g.trying)
  moved_places p e =
      at_ind k.point this p (λ t x. critical x ≡ (member t g.inside || member t g.trying))
        (sym e ∙ y.places this) (λ t ne. y.places t)

  pub moved_waits : (p : Point) (t : ℕ) → member t g.trying ≡ true → at k.point this p t ≡ counting
  moved_waits p =
      at_ind k.point this p (λ t x. member t g.trying ≡ true → x ≡ counting) (λ e. absurd (cc))
        (λ t ne e. y.waits t e)

  -- A step inside the critical section.
  pub section_step :
      (p : Point) (k' : Machine)
      → critical (k.point this) ≡ true
      → critical p ≡ true
      → k'.point ≡ at k.point this p
      → k'.lib ≡ k.lib
      → k'.resumes ≡ k.resumes
      → (k.shared + pending (k.point this) ≡ total k
          → (k.point this ≡ storing → k.register this ≡ k.shared)
          → (k'.shared + pending p ≡ total k') × (p ≡ storing → k'.register this ≡ k'.shared))
      → IsCounted g k'
  unfolding Adds
  section_step p k' c c' ep el er next =
      let i = alone c in
      let (sum, reg) = subst (λ l. Adds l k) i y.adds in
      let (sum', reg') = next sum reg in
      record {
        places = λ t.
            subst (λ f. critical (f t) ≡ (member t g.inside || member t g.trying)) (sym ep)
              (moved_places p (c ∙ sym c') t);
        waits = λ t w. subst (λ f. f t ≡ counting) (sym ep) (moved_waits p t w);
        back = λ r. ap (λ (s : State). member s.running g.trying) el ∙ y.back (sym er ∙ r);
        adds =
            subst (λ l. Adds l k') (sym i)
              (subst
                (λ f.
                  (k'.shared + pending (f this) ≡ total k')
                  × (f this ≡ storing → k'.register this ≡ k'.shared))
                (sym ep)
                (subst
                  (λ x.
                    (k'.shared + pending x ≡ total k')
                    × (x ≡ storing → k'.register this ≡ k'.shared))
                  (sym (at_same k.point this p)) (sum', reg')));
      }
