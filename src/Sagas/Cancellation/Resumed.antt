-- ===== src/Sagas/Cancellation/Resumed.antt =====
-- src/modules/orders/application/cancellation-refund.saga.ts: executions, from whatever step the
-- store has.
use tri_ad_backend.Base.{ℕ, ◌≡◌, refl, Option, none, some, List, [], ◌∷◌}
use tri_ad_backend.Sagas.Cancellation.{State, Entry, World, Environment, execute, state_of}
use tri_ad_backend.Sagas.Cancellation.Order.{IsSound, Reached, StoredReached}
use tri_ad_backend.Sagas.Cancellation.Stages.{execute_from-Good}

state_of-Reached :
    (saga order : ℕ) (payment : Option ℕ) (now : ℕ) (o : Option State) (es : List Entry)
    → StoredReached order o es
    → let s = state_of saga order payment now o in
      (s.order_id ≡ order) × Reached order s.step s.payment_id es
state_of-Reached saga order payment now none es r = (refl, tt)
state_of-Reached saga order payment now (some s) es r = r

execute-IsSound :
    (saga order : ℕ) (payment : Option ℕ) (env : Environment) (w : World)
    → IsSound order w
    → IsSound order (execute saga order payment env w).1
unfolding execute
execute-IsSound saga order payment env w x =
    let (i, r) = state_of-Reached saga order payment env.now w.stored w.log x.reached in
    (execute_from-Good order env _ _ w x i r).0

-- The world after some executions, each of which goes on from what the ones before have stored.
unfoldable pub executions : ℕ → ℕ → Option ℕ → List Environment → World → World
executions saga order payment [] w = w
executions saga order payment (env ∷ envs) w =
    executions saga order payment envs (execute saga order payment env w).1

-- However often the saga is executed, and whatever fails, is cut off or is resumed on the way, its
-- calls stay in order: the order is cancelled and its stock released, no other's; the stock is
-- released only after a call to cancel the order has succeeded, and a payment is refunded only after
-- a call to release the stock has. The stored state is of the order, and its step is one
-- that successful calls have reached: the cancellation for ORDER_CANCELLED, the release for
-- STOCK_RELEASED, and for REFUNDED and COMPLETED the release and, if the saga has a payment, the
-- refund of that payment.
pub executions-IsSound :
    (saga order : ℕ) (payment : Option ℕ) (envs : List Environment) (w : World)
    → IsSound order w
    → IsSound order (executions saga order payment envs w)
unfolding executions
executions-IsSound saga order payment [] w x = x
executions-IsSound saga order payment (env ∷ envs) w x =
    executions-IsSound saga order payment envs (execute saga order payment env w).1
      (execute-IsSound saga order payment env w x)
