-- ===== src/Sagas/Checkout/Tests.antt =====
-- Runs of the checkout saga, and its theorems there.
use tri_ad_backend.Base.{ℕ, ◌+◌, ◌*◌, ◌≡◌, refl, false, none, some, List, [], ◌∷◌, map}
use tri_ad_backend.Shared.Errors.{other, saga_timeout, Result, ok, err}
use tri_ad_backend.Sagas.Step.{race, or_next, last_error, attempts_from, execute_saga_step}
use tri_ad_backend.Sagas.Checkout.{
  stock_reserved, compensated, State, Input, Port, reserve_stock, place_order, authorize_payment,
  confirm_order, release_stock, cancel_order, refund_payment, save, Entry, World, Environment, call,
  proceed, bare, assign, step, save_state, reserve, place, authorize, confirm, forward, undo,
  compensate, settle, outcome, execute_saved, execute_from, execute,
}
use tri_ad_backend.Sagas.Checkout.Undoing.{IsTold}
use tri_ad_backend.Sagas.Checkout.Executions.{executions, executions-IsTold}
use tri_ad_backend.Sagas.Checkout.Resuming.{resumed, logged, execute_late}
use tri_ad_backend.Sagas.Checkout.Confirming.{completed_of, confirmed, execute_confirms}

abbrev nothing : World
nothing = record { log = []; stored = none }

abbrev card : Input
card = record { saga_id = 1; is_cod = false }

-- The identifiers that the ports give.
abbrev working : List Entry → Port → Result ℕ
working es reserve_stock = ok 11
working es place_order = ok 22
working es (authorize_payment o) = ok 33
working es _ = ok 0

-- No order can be confirmed.
abbrev refusing : List Entry → Port → Result ℕ
refusing es (confirm_order o) = err (other 1)
refusing es p = working es p

abbrev at : ℕ → (List Entry → Port → Result ℕ) → Environment
at t answers = record {
  answer = answers;
  pace = λ p. record { now = λ k. t + k * 200; late = λ k. false };
  now = t;
}

-- What a call is about.
abbrev kind : Entry → ℕ
kind e = elim e.port [
  | save s ↦ 0
  | reserve_stock ↦ 1
  | place_order ↦ 2
  | authorize_payment o ↦ 3
  | confirm_order o ↦ 4
  | refund_payment p ↦ 5
  | cancel_order o ↦ 6
  | release_stock r ↦ 7
]

-- A saga that is refused is undone in the reverse order, and confirmed by the next execution.
refused_and_resumed :
    map kind (executions card (at 0 refusing ∷ at 9_000 working ∷ []) nothing).log
    ≡ 0 ∷ 4 ∷ 0 ∷ 0 ∷ 7 ∷ 6 ∷ 5 ∷ 4 ∷ 4 ∷ 4 ∷ 0 ∷ 3 ∷ 0 ∷ 2 ∷ 0 ∷ 1 ∷ 0 ∷ []
unfolding executions execute execute_from execute_saved outcome settle forward compensate undo
    confirm authorize place reserve save_state step assign bare proceed call execute_saga_step
    attempts_from race or_next last_error
refused_and_resumed = refl

executions-IsTold_example : IsTold (executions card (at 0 refusing ∷ at 9_000 working ∷ []) nothing)
executions-IsTold_example =
    executions-IsTold card (at 0 refusing ∷ at 9_000 working ∷ []) nothing tt

-- A saga that has been undone.
abbrev undone : State
undone = record {
  saga_id = 1;
  order_id = some 22;
  step = compensated;
  reservation_id = some 11;
  payment_id = some 33;
  deadline_at = some 120_000;
}

abbrev after_undoing : World
after_undoing = record { log = []; stored = some undone }

execute_confirms_example : execute card (at 9_000 working) after_undoing ≡ (
  ok (completed_of 9_000 undone),
  logged
      (save (completed_of 9_000 undone))
      (ok 0)
      (confirmed (at 9_000 working) 0 0 undone after_undoing),
)
execute_confirms_example =
    execute_confirms card (at 9_000 working) after_undoing undone 11 22 33 0 0 0 refl refl refl refl
      refl refl refl refl refl

-- A saga that has reserved stock when its deadline passes.
abbrev reserved : State
reserved = record undone { order_id = none; step = stock_reserved; payment_id = none }

execute_late_example :
    execute card (at 120_000 working) (record { log = []; stored = some reserved }) ≡ (
      err saga_timeout,
      logged (save (resumed 120_000 reserved)) (ok 0) (record { log = []; stored = some reserved }),
    )
execute_late_example =
    execute_late card (at 120_000 working) (record { log = []; stored = some reserved }) reserved 11
      0 refl refl refl (λ p. refl)
