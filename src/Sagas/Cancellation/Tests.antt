-- ===== src/Sagas/Cancellation/Tests.antt =====
-- Two executions of the saga, of which the first fails, and its theorem there.
use tri_ad_backend.Base.{ℕ, ◌*◌, ◌≡◌, refl, false, Option, none, some, List, [], ◌∷◌, map}
use tri_ad_backend.Shared.Errors.{Error, other}
use tri_ad_backend.Sagas.Step.{race, or_next, last_error, attempts_from, execute_saga_step}
use tri_ad_backend.Sagas.Cancellation.{
  Port, cancel_order, release_stock, refund, save, Entry, World, Environment, answered, call, due,
  due_at, stage, finish, execute_from, execute,
}
use tri_ad_backend.Sagas.Cancellation.Order.{IsSound}
use tri_ad_backend.Sagas.Cancellation.Resumed.{executions, executions-IsSound}

abbrev nothing : World
nothing = record { log = []; stored = none }

-- No stock is released.
abbrev stuck : List Entry → Port → Option Error
stuck es (release_stock o) = some (other 1)
stuck es _ = none

abbrev failing : Environment
failing = record {
  answer = stuck;
  pace = λ s. record { now = λ k. k * 200; late = λ k. false };
  now = 0;
}

abbrev working : Environment
working = record {
  answer = λ es p. none;
  pace = λ s. record { now = λ k. k * 200; late = λ k. false };
  now = 9_000;
}

-- What a call is about.
abbrev kind : Entry → ℕ
kind e = elim e.port [ cancel_order o ↦ 1 | release_stock o ↦ 2 | refund p ↦ 3 | save s ↦ 0 ]

-- The second execution goes on with the release of the stock, and refunds the payment then.
resumed :
    map kind (executions 1 40 (some 8) (failing ∷ working ∷ []) nothing).log
    ≡ 0 ∷ 0 ∷ 3 ∷ 0 ∷ 2 ∷ 2 ∷ 2 ∷ 2 ∷ 0 ∷ 1 ∷ []
unfolding executions execute execute_from stage due due_at finish call answered execute_saga_step
    attempts_from race or_next last_error
resumed = refl

executions-IsSound_example : IsSound 40 (executions 1 40 (some 8) (failing ∷ working ∷ []) nothing)
executions-IsSound_example =
    executions-IsSound 1 40 (some 8) (failing ∷ working ∷ []) nothing
      (record { in_order = tt; reached = tt })
