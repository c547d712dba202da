-- ===== src/Green/System/Resume.antt =====
-- What a thread of seminar3/green.c does when it runs again.
use id.Base.{ℕ, suc, ◌≤◌, refl, ◌==◌, List, if◌then◌else◌}
use id.Green.{
  State, Place, ok, null_access, failed_assert, Context, block, unblock, retake, in_wait, in_join,
  entry, green_thread, collect, resume, released,
}
use id.Green.System.{Home, IsSystem}
use id.Green.Scheduler.{go_on, deliver, contend, view}
use id.Green.System.Sound.{Sound, Sound-if, ok-Sound}
use id.Green.System.Switch.{retake-Sound}
use id.Green.System.Spawn.{collect-Sound}

thread-Sound :
    {n : ℕ} {news : List ℕ} {q : Place → List ℕ} {home : ℕ → Home} {s : State}
    → IsSystem n news q home s
    → Sound
        (suc n)
        news
        (if s.fun s.running == 0 then failed_assert else ok (view q (block s)))
        (green_thread s)
unfolding green_thread Sound
thread-Sound {n} {news} {s = s} y =
    Sound-if (suc n) news (s.fun s.running == 0) failed_assert _ failed_assert _ (λ e. refl)
      (λ e. ok-Sound (block s) y refl refl refl refl refl)

resume_at :
    {n : ℕ} {news : List ℕ} {q : Place → List ℕ} {home : ℕ → Home} {s : State} (fuel : ℕ)
    → IsSystem n news q home s
    → n ≤ fuel
    → (c : Context)
    → Sound
        (suc n)
        news
        (elim c [
          | entry ↦ if s.fun s.running == 0 then failed_assert else ok (view q (block s))
          | Context.in_yield ↦ ok (view q (unblock s))
          | in_join thread res ↦ deliver thread res (view q s)
          | in_wait mutex ↦
              if mutex == 0 then ok (view q (unblock s)) else contend null_access mutex (view q s)
          | Context.in_lock ↦ ok (view q (unblock s))
          | released ↦ null_access
        ])
        (elim c [
          | entry ↦ green_thread s
          | Context.in_yield ↦ ok (unblock s)
          | in_join thread res ↦ collect thread res s
          | in_wait mutex ↦ retake fuel mutex s
          | Context.in_lock ↦ ok (unblock s)
          | released ↦ null_access
        ])
unfolding Sound
resume_at fuel y le entry = thread-Sound y
resume_at {s = s} fuel y le Context.in_yield = ok-Sound (unblock s) y refl refl refl refl refl
resume_at fuel y le (in_join thread res) = collect-Sound thread res y
resume_at fuel y le (in_wait mutex) = retake-Sound y fuel le mutex
resume_at {s = s} fuel y le Context.in_lock = ok-Sound (unblock s) y refl refl refl refl refl
resume_at fuel y le released = refl

pub resume-Sound :
    {n : ℕ} {news : List ℕ} {q : Place → List ℕ} {home : ℕ → Home} {s : State} (fuel : ℕ)
    → IsSystem n news q home s
    → n ≤ fuel
    → Sound (suc n) news (go_on (view q s)) (resume fuel s)
unfolding resume go_on
resume-Sound {n} {news} {s = s} fuel y le = resume_at fuel y le (s.context s.running)
