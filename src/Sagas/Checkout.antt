-- ===== src/Sagas/Checkout.antt =====
-- src/modules/checkout/application/checkout.saga.ts: the saga that reserves stock, places an order,
-- authorizes its payment and confirms it, and undoes these when one of them throws. Spans and
-- counters are left out. The ports and the state store answer as they like, by the calls before; a
-- call is logged, the last one first.
pub mod Undoing
mod Blocks
pub mod Executions
pub mod Resuming
pub mod Confirming
mod Tests
use tri_ad_backend.Base.{ℕ, ◌+◌, Bool, true, false, Option, none, some, List, [], ◌∷◌}
use tri_ad_backend.Shared.Errors.{Error, Result, ok, err}
use tri_ad_backend.Sagas.Step.{Pace, execute_saga_step}

-- `CheckoutSagaStep`
pub data Step : Type 0 where
  started stock_reserved order_placed payment_authorized completed compensated : Step

-- `CheckoutSagaState`; an absent or empty identifier is `none`.
pub record State : Type 0 where
  pub saga_id : ℕ
  pub order_id : Option ℕ
  pub step : Step
  pub reservation_id : Option ℕ
  pub payment_id : Option ℕ
  pub deadline_at : Option ℕ

-- The part of the input that the saga itself reads.
pub record Input : Type 0 where
  pub saga_id : ℕ
  pub is_cod : Bool

-- The calls of `CheckoutSagaPorts`, and `save` of the state store.
pub data Port : Type 0 where
  reserve_stock place_order : Port
  authorize_payment confirm_order : Option ℕ → Port
  release_stock cancel_order refund_payment : ℕ → Port
  save : State → Port

-- A call and its answer: an identifier, which only the first three calls use, or what it throws.
pub record Entry : Type 0 where
  pub port : Port
  pub answer : Result ℕ

pub record World : Type 0 where
  pub log : List Entry
  pub stored : Option State

-- What the environment of an execution supplies: the answer to a call, the pace of each step, and
-- the clock at the start and at the compensation.
pub record Environment : Type 0 where
  pub answer : List Entry → Port → Result ℕ
  pub pace : Port → Pace
  pub now : ℕ

abbrev pub saga_timeout_ms : ℕ
saga_timeout_ms = 120_000

abbrev pub max_attempts : ℕ
max_attempts = 3

abbrev pub stored_after : Port → Result ℕ → Option State → Option State
stored_after (save s) (ok n) before = some s
stored_after _ _ before = before

unfoldable pub call : (List Entry → Port → Result ℕ) → Port → World → Result ℕ × World
call answer p w =
    let a = answer w.log p in
    (
      a,
      record { log = record { port = p; answer = a } ∷ w.log; stored = stored_after p a w.stored },
    )

-- The block of `try`, or of `compensate`, as far as it came: what it threw, if anything, and the
-- state that the variable `state` had then.
pub record Progress : Type 0 where
  pub thrown : Option Error
  pub state : State
  pub world : World

-- What follows a part of the block: nothing after a throw.
pub proceed : Progress → (State → World → Progress) → Progress
proceed p rest = elim p.thrown [ none ↦ rest p.state p.world | some e ↦ p ]

-- A call whose answer is not used.
pub bare : State → Result ℕ × World → Progress
bare s (ok n, w) = record { thrown = none; state = s; world = w }
bare s (err e, w) = record { thrown = some e; state = s; world = w }

-- A call whose answer goes into the state, before that is saved.
pub assign : State → (ℕ → State) → Result ℕ × World → (State → World → Progress) → Progress
assign s new (ok n, w) rest = rest (new n) w
assign s new (err e, w) rest = record { thrown = some e; state = s; world = w }

-- `state.deadlineAt ?? Date.now() + SAGA_TIMEOUT_MS`
abbrev pub deadline_of : ℕ → Option ℕ → ℕ
deadline_of now none = now + saga_timeout_ms
deadline_of now (some t) = t

-- The state that `load` returns, or a new one.
abbrev pub state_of : ℕ → ℕ → Option State → State
state_of saga now (some s) = s
state_of saga now none = record {
  saga_id = saga;
  order_id = none;
  step = started;
  reservation_id = none;
  payment_id = none;
  deadline_at = some (now + saga_timeout_ms);
}

module _ (env : Environment) (deadline : ℕ) where
  -- `executeSagaStep` for a port.
  pub step : Port → World → Result ℕ × World
  step p w = execute_saga_step (call env.answer p) max_attempts (env.pace p) deadline w

  pub save_state : State → World → Progress
  save_state s w = bare s (call env.answer (save s) w)

  -- `if (!state.reservationId) …`
  pub reserve : Option ℕ → State → World → Progress
  reserve (some r) s w = record { thrown = none; state = s; world = w }
  reserve none s w =
      assign s (λ r. record s { step = stock_reserved; reservation_id = some r })
        (step reserve_stock w) save_state

  -- `if (!state.orderId) …`
  unfoldable pub place : Option ℕ → State → World → Progress
  place (some o) s w = record { thrown = none; state = s; world = w }
  place none s w =
      assign s (λ o. record s { step = order_placed; order_id = some o }) (step place_order w)
        save_state

  -- `if (!state.paymentId && input.paymentMethod !== "COD") …`
  pub authorize : Bool → Option ℕ → State → World → Progress
  authorize true payment s w = record { thrown = none; state = s; world = w }
  authorize false (some p) s w = record { thrown = none; state = s; world = w }
  authorize false none s w =
      assign s (λ p. record s { step = payment_authorized; payment_id = some p })
        (step (authorize_payment s.order_id) w) save_state

  unfoldable pub confirm : State → World → Progress
  confirm s w =
      assign s (λ n. record s { step = completed }) (step (confirm_order s.order_id) w) save_state

  -- The block of `try`.
  pub forward : Bool → State → World → Progress
  forward is_cod s w = proceed (reserve s.reservation_id s w) λ s w.
      proceed (place s.order_id s w) λ s w. proceed (authorize is_cod s.payment_id s w) confirm

  -- The three `if`s of `compensate`.
  pub undo : (ℕ → Port) → Option ℕ → State → World → Progress
  undo port none s w = record { thrown = none; state = s; world = w }
  undo port (some i) s w = bare s (step (port i) w)

  -- `compensate`
  pub compensate : State → World → Progress
  compensate s w = proceed (undo refund_payment s.payment_id s w) λ s w.
      proceed (undo cancel_order s.order_id s w) λ s w.
        proceed (undo release_stock s.reservation_id s w)
          λ s w. save_state (record s { step = compensated }) w

-- The `catch` of `execute`: a compensation that throws replaces the error.
pub settle : Error → Progress → Result State × World
settle e p = elim p.thrown [ none ↦ (err e, p.world) | some x ↦ (err x, p.world) ]

pub outcome : Environment → ℕ → Progress → Result State × World
outcome env deadline p = elim p.thrown [
  | none ↦ (ok p.state, p.world)
  | some e ↦ settle e (compensate env deadline p.state p.world)
]

-- `execute` behind the first save, which no compensation follows.
pub execute_saved : Environment → ℕ → Bool → Progress → Result State × World
execute_saved env deadline is_cod p = elim p.thrown [
  | none ↦ outcome env deadline (forward env deadline is_cod p.state p.world)
  | some e ↦ (err e, p.world)
]

-- `execute` from the state that was loaded or made.
unfoldable pub execute_from : Input → Environment → State → World → Result State × World
execute_from input env s w =
    let deadline = deadline_of env.now s.deadline_at in
    execute_saved env deadline input.is_cod
      (save_state env deadline (record s { deadline_at = some deadline }) w)

-- `CheckoutSaga.execute`
unfoldable pub execute : Input → Environment → World → Result State × World
execute input env w = execute_from input env (state_of input.saga_id env.now w.stored) w
