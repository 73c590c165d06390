-- ===== src/Sagas/Checkout/Executions.antt =====
-- src/modules/checkout/application/checkout.saga.ts: executions, from whatever state the store has.
use tri_ad_backend.Base.{
  ℕ, sym, ◌∙◌, Option, none, some, List, [], ◌∷◌, arith, inl, inr, Option-cases,
}
use mathlib.Core.Path.{subst}
use tri_ad_backend.Sagas.Checkout.{
  Step, started, stock_reserved, order_placed, payment_authorized, completed, compensated, State,
  Input, release_stock, cancel_order, refund_payment, Entry, World, Environment, Progress,
  deadline_of, state_of, save_state, forward, undo, compensate, settle, outcome, execute_saved,
  execute_from, execute,
}
use tri_ad_backend.Sagas.Checkout.Undoing.{
  is_refund, is_cancel, is_release, Undone, Told, StoredTold, IsTold, Undone-mono,
}
use tri_ad_backend.Sagas.Checkout.Blocks.{
  proceed-lem, Grows-trans, save_state-Good, forward-Good, undo-Good,
}

module _ (env : Environment) (deadline : ℕ) where
  -- The undoing, with what each part has undone for the state as it was at the start.
  compensate-Good : (s : State) (w : World) → IsTold w → IsTold (compensate env deadline s w).world
  unfolding compensate
  compensate-Good s w t =
      let G = λ (q : Progress). IsTold q.world in
      let p1 = undo env deadline refund_payment s.payment_id s w in
      let ((t1, g1), r1) =
        undo-Good env deadline refund_payment is_refund s.payment_id s w (λ i es. tt)
          (λ i. ground arith) t in
      proceed-lem G p1 _
        (λ e1.
          (let (same1, refunded) = r1 e1 in
            let p2 = undo env deadline cancel_order p1.state.order_id p1.state p1.world in
            let ((t2, g2), r2) =
              undo-Good env deadline cancel_order is_cancel p1.state.order_id p1.state p1.world
                (λ i es. tt) (λ i. ground arith) t1 in
            proceed-lem G p2 _
              (λ e2.
                (let (same2, cancelled) = r2 e2 in
                  let p3 =
                    undo env deadline release_stock p2.state.reservation_id p2.state p2.world in
                  let ((t3, g3), r3) =
                    undo-Good env deadline release_stock is_release p2.state.reservation_id p2.state
                      p2.world (λ i es. tt) (λ i. ground arith) t2 in
                  proceed-lem G p3 _
                    (λ e3.
                      (let (same3, released) = r3 e3 in
                        (save_state-Good env deadline (record p3.state { step = compensated })
                          p3.world t3
                          (
                            subst (λ (x : State). Undone is_refund x.payment_id p3.world.log)
                                (sym (same3 ∙ same2 ∙ same1))
                                (Undone-mono is_refund s.payment_id p1.world p3.world
                                  (Grows-trans p1.world p2.world p3.world g2 g3) refunded),
                            subst (λ (x : State). Undone is_cancel x.order_id p3.world.log)
                                (sym (same3 ∙ same2))
                                (Undone-mono is_cancel p1.state.order_id p2.world p3.world g3
                                  cancelled),
                            subst (λ (x : State). Undone is_release x.reservation_id p3.world.log)
                                (sym same3) released,
                          )).0))
                    (λ x e. t3)))
              (λ x e. t2)))
        (λ x e. t1)

  outcome-Good : (p : Progress) → IsTold p.world → IsTold (outcome env deadline p).1
  unfolding outcome settle
  outcome-Good p t = elim (Option-cases p.thrown) [
    | inl e ↦ rw (e, outcome) t
    | inr (x, e) ↦
        let c = compensate env deadline p.state p.world in
        let done = compensate-Good p.state p.world t in
        elim (Option-cases c.thrown) [
          | inl f ↦ rw (e, outcome) (rw (f, settle) done)
          | inr (y, f) ↦ rw (e, outcome) (rw (f, settle) done)
        ]
  ]

state_of-Told :
    (saga now : ℕ) (o : Option State) (es : List Entry)
    → StoredTold o es
    → Told (state_of saga now o).step (state_of saga now o) es
state_of-Told saga now none es t = tt
state_of-Told saga now (some s) es t = t

-- The claims of a step do not read the deadline.
Told-deadline :
    (t : Step) (s : State) (d : Option ℕ) (es : List Entry)
    → Told t s es
    → Told t (record s { deadline_at = d }) es
Told-deadline completed s d es h = h
Told-deadline compensated s d es h = h
Told-deadline started s d es h = tt
Told-deadline stock_reserved s d es h = tt
Told-deadline order_placed s d es h = tt
Told-deadline payment_authorized s d es h = tt

execute-IsTold :
    (input : Input) (env : Environment) (w : World) → IsTold w → IsTold (execute input env w).1
unfolding execute execute_from execute_saved
execute-IsTold input env w t =
    let s = state_of input.saga_id env.now w.stored in
    let deadline = deadline_of env.now s.deadline_at in
    let s' : State = record s { deadline_at = some deadline } in
    let p = save_state env deadline s' w in
    let (saved, g) = save_state-Good env deadline s' w t (
      Told-deadline s.step s (some deadline) w.log
        (state_of-Told input.saga_id env.now w.stored w.log t)) in
    elim (Option-cases p.thrown) [
      | inr (x, e) ↦ rw (e, execute_saved) saved
      | inl e ↦
          rw (e, execute_saved)
            (outcome-Good env deadline (forward env deadline input.is_cod p.state p.world)
              (forward-Good env deadline input.is_cod p.state p.world saved))
    ]

-- The world after some executions, each of which goes on from what the ones before have stored.
unfoldable pub executions : Input → List Environment → World → World
executions input [] w = w
executions input (env ∷ envs) w = executions input envs (execute input env w).1

-- However often the saga is executed, and whatever fails, is cut off or is resumed on the way, the
-- stored step is true of the calls: a saga stored as completed has had a successful call to confirm
-- its order, and one stored as compensated has had, for each identifier that its state holds, a
-- successful call to refund that payment, to cancel that order, or to release that reservation.
pub executions-IsTold :
    (input : Input) (envs : List Environment) (w : World)
    → IsTold w
    → IsTold (executions input envs w)
unfolding executions
executions-IsTold input [] w t = t
executions-IsTold input (env ∷ envs) w t =
    executions-IsTold input envs (execute input env w).1 (execute-IsTold input env w t)
