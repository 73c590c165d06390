-- ===== src/Sagas/Step/Tests.antt =====
-- A step whose operation succeeds the third time, and its theorem there.
use tri_ad_backend.Base.{ℕ, ◌+◌, ◌*◌, ◌≡◌, refl, ◌==◌, leb, if◌then◌else◌}
use tri_ad_backend.Shared.Errors.{Result, saga_timeout, other, ok, err}
use tri_ad_backend.Sagas.Step.{Pace, race, or_next, last_error, attempts_from, execute_saga_step}
use tri_ad_backend.Sagas.Step.Attempts.{Outcome, execute_saga_step-Outcome}

-- The world counts the runs.
abbrev third : ℕ → Result ℕ × ℕ
third w = (if leb 2 w then ok w else err (other w), w + 1)

-- An attempt every 100 milliseconds; the timer of the second fires first.
abbrev pace : Pace
pace = record { now = λ k. k * 100; late = λ k. k == 1 }

third_ok : execute_saga_step third 3 pace 1_000 0 ≡ (ok 2, 3)
unfolding execute_saga_step attempts_from race or_next last_error
third_ok = refl

-- The deadline passes before the third attempt.
third_timeout : execute_saga_step third 3 pace 200 0 ≡ (err saga_timeout, 2)
unfolding execute_saga_step attempts_from race or_next last_error
third_timeout = refl

execute_saga_step-Outcome_example :
    let out = execute_saga_step third 3 pace 1_000 0 in Outcome third pace 1_000 3 0 0 out.0 out.1
execute_saga_step-Outcome_example = execute_saga_step-Outcome third pace 1_000 3 0
