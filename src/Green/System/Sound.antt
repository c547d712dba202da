-- ===== src/Green/System/Sound.antt =====
-- What it means that an operation of seminar3/green.c does what the scheduler on lists does.
use mathlib.Core.Path.{subst₂, subst}
use id.Base.{
  ℕ, suc, ◌≤◌, ◌≡◌, ◌⊎◌, refl, sym, ap, ◌∙◌, Bool, true, false, List, arith, if◌then◌else◌, ◌==◌,
}
use id.Links.{Queue}
use id.Green.{State, Place, Result, ok, null_access, failed_assert, out_of_fuel, deref}
use id.Green.Scheduler.{Schedule, view}
use id.Green.System.{Home, joining, IsCore, IsSystem}

-- An operation that does not run out of fuel, and ends as the scheduler does: with the same fault, or
-- in a system that the schedule shows.
unfoldable pub Sound : ℕ → List ℕ → Result Schedule → Result State → Type 0
Sound n news a (ok s) =
    (q : Place → List ℕ) × (home : ℕ → Home) × IsSystem n news q home s × (a ≡ ok (view q s))
Sound n news a null_access = a ≡ null_access
Sound n news a failed_assert = a ≡ failed_assert
Sound n news a out_of_fuel = ⊥

pub Sound-if :
    (n : ℕ) (news : List ℕ) (b : Bool) (x x' : Result Schedule) (y y' : Result State)
    → (b ≡ true → Sound n news x y)
    → (b ≡ false → Sound n news x' y')
    → Sound n news (if b then x else x') (if b then y else y')
Sound-if n news true x x' y y' t f = t refl
Sound-if n news false x x' y y' t f = f refl

-- An operation that first reads through a pointer.
pub deref-Sound :
    (n : ℕ) (news : List ℕ) (p : ℕ) (a : Result Schedule) (r : Result State)
    → Sound n news a r
    → Sound n news (deref p a) (deref p r)
unfolding Sound
deref-Sound n news p a r x =
    Sound-if n news (p == 0) null_access a null_access r (λ e. refl) (λ e. x)

-- The core reads four members of the state, and a larger bound serves as well.
pub IsCore-same :
    {n m : ℕ} {news : List ℕ} {q : Place → List ℕ} {home : ℕ → Home} {s : State} (s' : State)
    → IsCore n news q home s
    → n ≤ m
    → s'.head ≡ s.head
    → s'.next ≡ s.next
    → s'.join ≡ s.join
    → s'.zombie ≡ s.zombie
    → IsCore m news q home s'
IsCore-same {n} {m} {news} {q} {home} {s} s' c le eh en ej ez = record {
  queues = λ p. subst₂ (λ h x. Queue (q p) (h p) x) (sym eh) (sym en) (c.queues p);
  distinct = c.distinct;
  homes = c.homes;
  short = λ p. omega (arith, c.short p, le);
  null = c.null;
  clear = λ t i. ap (λ f. f t) en ∙ c.clear t i;
  joins = λ t z.
      subst (λ f. (f t ≡ 0) ⊎ (home (f t) ≡ joining t)) (sym ej)
        (c.joins t (sym (ap (λ f. f t) ez) ∙ z));
  alive = λ t nf ne. ap (λ f. f t) ez ∙ c.alive t nf ne;
  coming = c.coming;
}

pub IsSystem-same :
    {n m : ℕ} {news : List ℕ} {q : Place → List ℕ} {home : ℕ → Home} {s : State} (s' : State)
    → IsSystem n news q home s
    → n ≤ m
    → s'.running ≡ s.running
    → s'.head ≡ s.head
    → s'.next ≡ s.next
    → s'.join ≡ s.join
    → s'.zombie ≡ s.zombie
    → IsSystem m news q home s'
IsSystem-same {home = home} {s = s} s' y le er eh en ej ez = record {
  core = IsCore-same s' y.core le eh en ej ez;
  runs = ap home er ∙ y.runs;
  only = λ t a. y.only t a ∙ sym er;
}

pub Sound-le :
    (n m : ℕ) (news : List ℕ) (a : Result Schedule) (r : Result State)
    → n ≤ m
    → Sound n news a r
    → Sound m news a r
unfolding Sound
Sound-le n m news a (ok s) le (q, home, y, e) =
    (q, home, IsSystem-same s y le refl refl refl refl refl, e)
Sound-le n m news a null_access le x = x
Sound-le n m news a failed_assert le x = x
Sound-le n m news a out_of_fuel le x = x

-- Operations that leave the queues, the joins and the running thread alone.
pub ok-Sound :
    {n : ℕ} {news : List ℕ} {q : Place → List ℕ} {home : ℕ → Home} {s : State} (s' : State)
    → IsSystem n news q home s
    → s'.running ≡ s.running
    → s'.head ≡ s.head
    → s'.next ≡ s.next
    → s'.join ≡ s.join
    → s'.zombie ≡ s.zombie
    → Sound (suc n) news (ok (view q s')) (ok s')
unfolding Sound
ok-Sound {q = q} {home = home} s' y er eh en ej ez =
    (q, home, IsSystem-same s' y (omega arith) er eh en ej ez, refl)

-- A result and a schedule that are equal to such ones.
pub Sound-subst :
    (n : ℕ) (news : List ℕ) (a b : Result Schedule) (r t : Result State)
    → a ≡ b
    → r ≡ t
    → Sound n news b t
    → Sound n news a r
Sound-subst n news a b r t e f x = subst₂ (λ u v. Sound n news u v) (sym e) (sym f) x
