-- ===== src/Sagas/Step.antt =====
-- src/shared/application/saga/saga-state.ts: running a step of a saga, with attempts, a timer and a
-- deadline. The delays between attempts only move the clock.
pub mod Attempts
mod Tests
use tri_ad_backend.Base.{ℕ, zero, suc, Bool, true, false, leb, if◌then◌else◌}
use tri_ad_backend.Shared.Errors.{Error, saga_timeout, other, Result, ok, err}

-- What the environment of a step supplies: the clock before each attempt, and whether the timer of
-- an attempt fires before its operation settles.
pub record Pace : Type 0 where
  pub now : ℕ → ℕ
  pub late : ℕ → Bool

module _ {W A : Type 0} where
  -- `Promise.race`: a timer that fires first rejects. The operation is not stopped by it: what it
  -- does to the world happens all the same.
  unfoldable pub race : Bool → Result A × W → Result A × W
  race false out = out
  race true (r, w) = (err saga_timeout, w)

  -- What an attempt leaves to do: nothing when it succeeded.
  unfoldable pub or_next : Result A × W → Result A × W → Result A × W
  or_next (ok a, w) rest = (ok a, w)
  or_next (err e, w) rest = rest

  -- The error of the last attempt, for the case that no attempt is left.
  unfoldable pub last_error : Error → Result A × W → Error
  last_error before (ok a, w) = before
  last_error before (err e, w) = e

  -- The loop, by the attempts that are left, the number of the attempt and the last error.
  unfoldable pub attempts_from : (W → Result A × W) → Pace → ℕ → ℕ → ℕ → Error → W → Result A × W
  attempts_from operation pace deadline zero k last w = (err last, w)
  attempts_from operation pace deadline (suc n) k last w =
      let out = race (pace.late k) (operation w) in
      let rest = attempts_from operation pace deadline n (suc k) (last_error last out) out.1 in
      if leb deadline (pace.now k) then (err saga_timeout, w) else or_next out rest

  -- `executeSagaStep`
  unfoldable pub execute_saga_step : (W → Result A × W) → ℕ → Pace → ℕ → W → Result A × W
  execute_saga_step operation max_attempts pace deadline w =
      attempts_from operation pace deadline max_attempts 0 (other 0) w
