-- ===== src/Sagas/Checkout/Resuming.antt =====
-- src/modules/checkout/application/checkout.saga.ts: executions that resume a stored state.
use tri_ad_backend.Base.{
  ℕ, ◌≡◌, refl, ap, ◌∙◌, Bool, true, false, Option, none, some, ◌∷◌, arith, leb, inl, inr, ◌⊎◌,
}
use tri_ad_backend.Shared.Errors.{Error, Result, ok, err, saga_timeout}
use tri_ad_backend.Sagas.Step.{execute_saga_step}
use tri_ad_backend.Sagas.Checkout.{
  State, Input, Port, place_order, authorize_payment, confirm_order, release_stock, cancel_order,
  refund_payment, save, World, Environment, stored_after, call, Progress, proceed, bare, assign,
  deadline_of, state_of, step, save_state, reserve, place, authorize, confirm, forward, undo,
  compensate, settle, outcome, execute_saved, execute_from, execute,
}
use tri_ad_backend.Sagas.Step.{execute_saga_step, attempts_from}

-- The state with which an execution resumes a stored one.
abbrev pub resumed : ℕ → State → State
resumed now s = record s { deadline_at = some (deadline_of now s.deadline_at) }

-- A step that begins at or after its deadline makes no call.
step_late :
    (env : Environment) (deadline : ℕ) (p : Port) (w : World)
    → leb deadline ((env.pace p).now 0) ≡ true
    → step env deadline p w ≡ (err saga_timeout, w)
unfolding step execute_saga_step attempts_from
step_late env deadline p w h = rw h refl

-- A call that is made: its answer and the log.
abbrev pub logged : Port → Result ℕ → World → World
logged p a w = record {
  log = record { port = p; answer = a } ∷ w.log;
  stored = stored_after p a w.stored;
}

pub save_ok :
    (env : Environment) (deadline n : ℕ) (s : State) (w : World)
    → env.answer w.log (save s) ≡ ok n
    → save_state env deadline s w
      ≡ record { thrown = none; state = s; world = logged (save s) (ok n) w }
unfolding save_state bare call
save_ok env deadline n s w h = ground arith

-- A part of the block that went through, and one that threw.
abbrev pub went : State → World → Progress
went s w = record { thrown = none; state = s; world = w }

abbrev stopped : Error → State → World → Progress
stopped e s w = record { thrown = some e; state = s; world = w }

pub proceed-went :
    (p : Progress) (rest : State → World → Progress) (s : State) (w : World)
    → p ≡ went s w
    → proceed p rest ≡ rest s w
unfolding proceed
proceed-went p rest s w h = rw h refl

proceed-stopped :
    (p : Progress) (rest : State → World → Progress) (e : Error) (s : State) (w : World)
    → p ≡ stopped e s w
    → proceed p rest ≡ stopped e s w
unfolding proceed
proceed-stopped p rest e s w h = rw h refl

assign_err :
    (s : State) (new : ℕ → State) (out : Result ℕ × World) (rest : State → World → Progress)
    (e : Error) (w : World)
    → out ≡ (err e, w)
    → assign s new out rest ≡ stopped e s w
unfolding assign
assign_err s new out rest e w h = rw h refl

-- Past the deadline, for every port.
abbrev pub IsLate : Environment → ℕ → Type 0
IsLate env deadline = (p : Port) → leb deadline ((env.pace p).now 0) ≡ true

module _ (env : Environment) (deadline : ℕ) (late : IsLate env deadline) where
  reserve_known :
      (o : Option ℕ) (r : ℕ) (s : State) (w : World)
      → o ≡ some r
      → reserve env deadline o s w ≡ went s w
  unfolding reserve
  reserve_known none r s w h = cc
  reserve_known (some x) r s w h = refl

  place_late :
      (o : Option ℕ) (s : State) (w : World)
      → (place env deadline o s w ≡ went s w)
        ⊎ (place env deadline o s w ≡ stopped saga_timeout s w)
  unfolding place
  place_late (some x) s w = inl refl
  place_late none s w =
      inr (
        assign_err s _ _ _ saga_timeout w (step_late env deadline place_order w (late place_order)))

  authorize_late :
      (cod : Bool) (o : Option ℕ) (s : State) (w : World)
      → (authorize env deadline cod o s w ≡ went s w)
        ⊎ (authorize env deadline cod o s w ≡ stopped saga_timeout s w)
  unfolding authorize
  authorize_late true o s w = inl refl
  authorize_late false (some x) s w = inl refl
  authorize_late false none s w = inr (
      assign_err s _ _ _ saga_timeout w (
        step_late env deadline (authorize_payment s.order_id) w
          (late (authorize_payment s.order_id))))

  confirm_late : (s : State) (w : World) → confirm env deadline s w ≡ stopped saga_timeout s w
  unfolding confirm
  confirm_late s w =
      assign_err s _ _ _ saga_timeout w
        (step_late env deadline (confirm_order s.order_id) w (late (confirm_order s.order_id)))

  forward_late :
      (cod : Bool) (s : State) (w : World) (r : ℕ)
      → s.reservation_id ≡ some r
      → forward env deadline cod s w ≡ stopped saga_timeout s w
  unfolding forward
  forward_late cod s w r h =
      proceed-went (reserve env deadline s.reservation_id s w) _ s w
        (reserve_known s.reservation_id r s w h)
      ∙ elim (place_late s.order_id s w) [
        | inr e ↦ proceed-stopped (place env deadline s.order_id s w) _ saga_timeout s w e
        | inl e ↦
            proceed-went (place env deadline s.order_id s w) _ s w e
            ∙ elim (authorize_late cod s.payment_id s w) [
              | inr f ↦
                  proceed-stopped (authorize env deadline cod s.payment_id s w) _ saga_timeout s w f
              | inl f ↦
                  proceed-went (authorize env deadline cod s.payment_id s w) _ s w f
                  ∙ confirm_late s w
            ]
      ]

  undo_late :
      (port : ℕ → Port) (o : Option ℕ) (s : State) (w : World)
      → ((o ≡ none) × (undo env deadline port o s w ≡ went s w))
        ⊎ (undo env deadline port o s w ≡ stopped saga_timeout s w)
  unfolding undo bare
  undo_late port none s w = inl (refl, refl)
  undo_late port (some i) s w = inr (rw (step_late env deadline (port i) w (late (port i))) refl)

  compensate_late :
      (s : State) (w : World) (r : ℕ)
      → s.reservation_id ≡ some r
      → compensate env deadline s w ≡ stopped saga_timeout s w
  unfolding compensate
  compensate_late s w r h = elim (undo_late refund_payment s.payment_id s w) [
    | inr e ↦ proceed-stopped _ _ saga_timeout s w e
    | inl (x, e) ↦
        proceed-went (undo env deadline refund_payment s.payment_id s w) _ s w e
        ∙ elim (undo_late cancel_order s.order_id s w) [
          | inr f ↦
              proceed-stopped (undo env deadline cancel_order s.order_id s w) _ saga_timeout s w f
          | inl (y, f) ↦
              proceed-went (undo env deadline cancel_order s.order_id s w) _ s w f
              ∙ elim (undo_late release_stock s.reservation_id s w) [
                | inr g ↦
                    proceed-stopped (undo env deadline release_stock s.reservation_id s w) _
                      saga_timeout s w g
                | inl (z, g) ↦ absurd (ground arith)
              ]
        ]
  ]

outcome_late :
    (env : Environment) (deadline : ℕ) (s : State) (w : World) (p : Progress)
    → p ≡ stopped saga_timeout s w
    → compensate env deadline s w ≡ stopped saga_timeout s w
    → outcome env deadline p ≡ (err saga_timeout, w)
unfolding outcome settle
outcome_late env deadline s w p e h = ap (outcome env deadline) e ∙ ap (settle saga_timeout) h

pub execute-saved :
    (input : Input) (env : Environment) (w : World) (s : State) (n : ℕ)
    → w.stored ≡ some s
    → env.answer w.log (save (resumed env.now s)) ≡ ok n
    → execute input env w ≡ (
        let deadline = deadline_of env.now s.deadline_at in
        outcome env deadline (
          forward env deadline input.is_cod
            (resumed env.now s)
            (logged (save (resumed env.now s)) (ok n) w)))
unfolding execute execute_from execute_saved
execute-saved input env w s n st saved =
    let deadline = deadline_of env.now s.deadline_at in
    ap (λ (o : Option State). execute_from input env (state_of input.saga_id env.now o) w) st
    ∙ ap (execute_saved env deadline input.is_cod)
        (save_ok env deadline n (resumed env.now s) w saved)

-- An execution that resumes a state which holds a reservation once its deadline has passed, in a
-- store that can be written: it saves the state and makes no other call. So nothing is undone.
pub execute_late :
    (input : Input) (env : Environment) (w : World) (s : State) (r n : ℕ)
    → w.stored ≡ some s
    → s.reservation_id ≡ some r
    → env.answer w.log (save (resumed env.now s)) ≡ ok n
    → IsLate env (deadline_of env.now s.deadline_at)
    → execute input env w ≡ (err saga_timeout, logged (save (resumed env.now s)) (ok n) w)
execute_late input env w s r n st res saved late =
    let deadline = deadline_of env.now s.deadline_at in
    let s' = resumed env.now s in
    let w' = logged (save s') (ok n) w in
    execute-saved input env w s n st saved
    ∙ outcome_late env deadline s' w' (forward env deadline input.is_cod s' w')
        (forward_late env deadline late input.is_cod s' w' r res)
        (compensate_late env deadline late s' w' r res)
