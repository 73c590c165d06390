-- ===== src/Sagas/Checkout/Confirming.antt =====
-- src/modules/checkout/application/checkout.saga.ts: executions that find every identifier in the
-- stored state.
use tri_ad_backend.Base.{ℕ, ◌≡◌, refl, ap, ◌∙◌, Bool, true, false, Option, none, some, leb}
use tri_ad_backend.Shared.Errors.{ok}
use tri_ad_backend.Sagas.Step.{execute_saga_step}
use tri_ad_backend.Sagas.Checkout.{
  completed, State, Input, Port, confirm_order, save, World, Environment, call, assign, deadline_of,
  step, reserve, place, authorize, confirm, forward, outcome, execute,
}
use tri_ad_backend.Sagas.Step.{execute_saga_step, attempts_from}
use tri_ad_backend.Sagas.Step.{race, or_next}
use tri_ad_backend.Sagas.Checkout.Resuming.{
  resumed, logged, went, save_ok, proceed-went, execute-saved,
}

-- A step whose first call is made in time and succeeds.
step_ok :
    (env : Environment) (deadline n : ℕ) (p : Port) (w : World)
    → leb deadline ((env.pace p).now 0) ≡ false
    → (env.pace p).late 0 ≡ false
    → env.answer w.log p ≡ ok n
    → step env deadline p w ≡ (ok n, logged p (ok n) w)
unfolding step execute_saga_step attempts_from race or_next call
step_ok env deadline n p w b l a = rw b (rw l (rw a refl))

-- The parts of the block that have nothing to do.
module _ (env : Environment) (deadline : ℕ) where
  reserve_done :
      (o : Option ℕ) (i : ℕ) (s : State) (w : World)
      → o ≡ some i
      → reserve env deadline o s w ≡ went s w
  unfolding reserve
  reserve_done none i s w h = cc
  reserve_done (some x) i s w h = refl

  place_done :
      (o : Option ℕ) (i : ℕ) (s : State) (w : World)
      → o ≡ some i
      → place env deadline o s w ≡ went s w
  unfolding place
  place_done none i s w h = cc
  place_done (some x) i s w h = refl

  authorize_done :
      (cod : Bool) (o : Option ℕ) (i : ℕ) (s : State) (w : World)
      → o ≡ some i
      → authorize env deadline cod o s w ≡ went s w
  unfolding authorize
  authorize_done true o i s w h = refl
  authorize_done false none i s w h = cc
  authorize_done false (some x) i s w h = refl

  forward_done :
      (cod : Bool) (r o p : ℕ) (s : State) (w : World)
      → s.reservation_id ≡ some r
      → s.order_id ≡ some o
      → s.payment_id ≡ some p
      → forward env deadline cod s w ≡ confirm env deadline s w
  unfolding forward
  forward_done cod r o p s w hr ho hp =
      proceed-went (reserve env deadline s.reservation_id s w) _ s w
        (reserve_done s.reservation_id r s w hr)
      ∙ proceed-went (place env deadline s.order_id s w) _ s w (place_done s.order_id o s w ho)
      ∙ proceed-went (authorize env deadline cod s.payment_id s w) _ s w
          (authorize_done cod s.payment_id p s w hp)

  confirm_ok :
      (n m : ℕ) (s : State) (w : World)
      → leb deadline ((env.pace (confirm_order s.order_id)).now 0) ≡ false
      → (env.pace (confirm_order s.order_id)).late 0 ≡ false
      → env.answer w.log (confirm_order s.order_id) ≡ ok n
      → (let done : State = record s { step = completed } in
          let w' = logged (confirm_order s.order_id) (ok n) w in
          env.answer w'.log (save done) ≡ ok m
          → confirm env deadline s w ≡ went done (logged (save done) (ok m) w'))
  unfolding confirm assign
  confirm_ok n m s w b l a saved =
      let w' = logged (confirm_order s.order_id) (ok n) w in
      rw (step_ok env deadline n (confirm_order s.order_id) w b l a)
        (save_ok env deadline m (record s { step = completed }) w' saved)

-- The completed state, and the worlds after the first save and after the confirmation.
abbrev pub completed_of : ℕ → State → State
completed_of now s = record (resumed now s) { step = completed }

abbrev pub saved_once : Environment → ℕ → State → World → World
saved_once env k s w = logged (save (resumed env.now s)) (ok k) w

abbrev pub confirmed : Environment → ℕ → ℕ → State → World → World
confirmed env k n s w = logged (confirm_order s.order_id) (ok n) (saved_once env k s w)

-- An execution that finds a reservation, an order and a payment in the stored state, whatever the
-- stored step, asks for none of them again: it confirms the order, if that is answered in time,
-- and completes. A saga stored as compensated is no exception, though what the identifiers stand
-- for was undone.
pub execute_confirms :
    (input : Input) (env : Environment) (w : World) (s : State) (r o p k n m : ℕ)
    → w.stored ≡ some s
    → s.reservation_id ≡ some r
    → s.order_id ≡ some o
    → s.payment_id ≡ some p
    → env.answer w.log (save (resumed env.now s)) ≡ ok k
    → leb (deadline_of env.now s.deadline_at) ((env.pace (confirm_order s.order_id)).now 0) ≡ false
    → (env.pace (confirm_order s.order_id)).late 0 ≡ false
    → env.answer (saved_once env k s w).log (confirm_order s.order_id) ≡ ok n
    → env.answer (confirmed env k n s w).log (save (completed_of env.now s)) ≡ ok m
    → execute input env w ≡ (
      ok (completed_of env.now s),
      logged (save (completed_of env.now s)) (ok m) (confirmed env k n s w),
    )
unfolding outcome
execute_confirms input env w s r o p k n m st hr ho hp saved b l a done =
    let deadline = deadline_of env.now s.deadline_at in
    let first = resumed env.now s in
    let w1 = saved_once env k s w in
    execute-saved input env w s k st saved
    ∙ ap (outcome env deadline) (forward_done env deadline input.is_cod r o p first w1 hr ho hp)
    ∙ ap (outcome env deadline) (confirm_ok env deadline n m first w1 b l a done)
