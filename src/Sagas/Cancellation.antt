-- ===== src/Sagas/Cancellation.antt =====
-- src/modules/orders/application/cancellation-refund.saga.ts: the saga that cancels an order,
-- releases its stock and refunds its payment. Spans and counters are left out. The ports and the
-- state store answer as they like, by the calls before; a call is logged, the last one first.
pub mod Order
pub mod Steps
pub mod Stages
pub mod Resumed
mod Tests
use tri_ad_backend.Base.{ℕ, ◌+◌, Bool, true, false, Option, none, some, List, [], ◌∷◌}
use tri_ad_backend.Shared.Errors.{Error, Result, ok, err}
use tri_ad_backend.Sagas.Step.{Pace, execute_saga_step}

-- `CancellationRefundStep`
pub data Step : Type 0 where
  started order_cancelled stock_released refunded completed : Step

-- `CancellationRefundState`; an absent or empty payment is `none`.
pub record State : Type 0 where
  pub saga_id : ℕ
  pub order_id : ℕ
  pub step : Step
  pub payment_id : Option ℕ
  pub deadline_at : Option ℕ

-- The calls of `CancellationRefundPorts`, and `save` of the state store.
pub data Port : Type 0 where
  cancel_order release_stock refund : ℕ → Port
  save : State → Port

-- A call and whether it succeeded.
pub record Entry : Type 0 where
  pub port : Port
  pub succeeded : Bool

pub record World : Type 0 where
  pub log : List Entry
  pub stored : Option State

-- What the environment of an execution supplies: the answer to a call, the pace of each step, and
-- the clock at the start.
pub record Environment : Type 0 where
  pub answer : List Entry → Port → Option Error
  pub pace : Step → Pace
  pub now : ℕ

abbrev pub saga_timeout_ms : ℕ
saga_timeout_ms = 120_000

abbrev pub max_attempts : ℕ
max_attempts = 3

abbrev pub stored_after : Port → Option State → Option State
stored_after (save s) before = some s
stored_after _ before = before

-- The world after a call that is answered.
pub answered : Port → World → Option Error → Result (Unit {0}) × World
answered p w none = (
  ok tt,
  record { log = record { port = p; succeeded = true } ∷ w.log; stored = stored_after p w.stored },
)
answered p w (some e) =
    (err e, record { log = record { port = p; succeeded = false } ∷ w.log; stored = w.stored })

pub call : (List Entry → Port → Option Error) → Port → World → Result (Unit {0}) × World
unfolding answered
call answer p w = answered p w (answer w.log p)

-- What follows a call: nothing after a throw.
abbrev pub next :
    {A B : Type 0} → Result A × World → (A → World → Result B × World) → Result B × World
next (ok a, w) rest = rest a w
next (err e, w) rest = (err e, w)

-- `state.deadlineAt ?? Date.now() + SAGA_TIMEOUT_MS`
abbrev pub deadline_of : ℕ → Option ℕ → ℕ
deadline_of now none = now + saga_timeout_ms
deadline_of now (some t) = t

-- The state that `load` returns, or a new one.
abbrev pub state_of : ℕ → ℕ → Option ℕ → ℕ → Option State → State
state_of saga order payment now (some s) = s
state_of saga order payment now none = record {
  saga_id = saga;
  order_id = order;
  step = started;
  payment_id = payment;
  deadline_at = some (now + saga_timeout_ms);
}

-- The condition of the `if` at a step: the call that is due at the current step, and the step that
-- it leads to.
pub due_at : Step → Step → ℕ → Option ℕ → Option (Port × Step)
due_at started started order payment = some (cancel_order order, order_cancelled)
due_at order_cancelled order_cancelled order payment = some (release_stock order, stock_released)
due_at stock_released stock_released order (some p) = some (refund p, refunded)
due_at _ _ order payment = none

pub due : Step → State → Option (Port × Step)
due at s = due_at at s.step s.order_id s.payment_id

-- One of the three `if`s of `execute`: the call, its new state and the save, if it is due.
pub stage : Environment → ℕ → Step → State → Option (Port × Step) → World → Result State × World
stage env deadline at s none w = (ok s, w)
stage env deadline at s (some (p, new)) w =
    next (execute_saga_step (call env.answer p) max_attempts (env.pace at) deadline w) λ _ w.
      next (call env.answer (save (record s { step = new })) w)
        λ _ w. (ok (record s { step = new }), w)

unfoldable pub finish : Environment → State → World → Result State × World
finish env s w =
    next (call env.answer (save (record s { step = completed })) w)
      λ _ w. (ok (record s { step = completed }), w)

-- `execute`, from the state with its deadline.
pub execute_from : Environment → ℕ → State → World → Result State × World
execute_from env deadline s w = next (stage env deadline started s (due started s) w) λ s w.
    next (stage env deadline order_cancelled s (due order_cancelled s) w) λ s w.
      next (stage env deadline stock_released s (due stock_released s) w) λ s w. finish env s w

-- `CancellationRefundSaga.execute`
pub execute : ℕ → ℕ → Option ℕ → Environment → World → Result State × World
execute saga order payment env w =
    let s = state_of saga order payment env.now w.stored in
    let deadline = deadline_of env.now s.deadline_at in
    execute_from env deadline (record s { deadline_at = some deadline }) w
