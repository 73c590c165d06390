-- ===== src/Sagas/Cancellation/Steps.antt =====
-- src/modules/orders/application/cancellation-refund.saga.ts: the attempts of a step, and what they
-- have done.
use tri_ad_backend.Base.{
  ℕ, zero, suc, ◌≡◌, refl, ap, ◌∙◌, true, Option, none, some, List, equal_self,
}
use tri_ad_backend.Shared.Errors.{Error, ok}
use tri_ad_backend.Sagas.Step.{Pace, execute_saga_step}
use tri_ad_backend.Sagas.Step.Attempts.{times, times_last, execute_saga_step-Outcome}
use tri_ad_backend.Sagas.Cancellation.{
  Port, cancel_order, release_stock, refund, save, Entry, World, answered, call,
}
use tri_ad_backend.Sagas.Cancellation.Order.{
  cancelled, released, paid_back, Allowed, Needs, IsSound, answered-Extends, answered-IsSound,
  Allowed-mono,
}

-- For the order that a saga cancels.
module _ (order : ℕ) where
  -- What a successful call adds.
  unfoldable pub Done : Port → List Entry → Type 0
  Done (cancel_order o) es = cancelled order es ≡ true
  Done (release_stock o) es = released order es ≡ true
  Done (refund p) es = paid_back order p es ≡ true
  Done (save s) es = Unit

  answered-Done :
      (p : Port) (w : World) (o : Option Error)
      → Allowed order p w.log
      → (answered p w o).0 ≡ ok tt
      → Done p (answered p w o).1.log
  unfolding answered Done
  answered-Done p w (some e) a h = cc
  answered-Done (cancel_order o) w none a h = rw (a, equal_self order) refl
  answered-Done (release_stock o) w none a h = rw (a.0, equal_self order) refl
  answered-Done (refund o) w none a h = rw (equal_self o) refl
  answered-Done (save s) w none a h = tt

  -- A call that needs nothing but what is allowed, some times.
  times-IsSound :
      (answer : List Entry → Port → Option Error) (p : Port)
      → ((es : List Entry) → Needs order p es)
      → (n : ℕ) (w : World) → IsSound order w
      → Allowed order p w.log
      → IsSound order (times (call answer p) n w) × Allowed order p (times (call answer p) n w).log
  unfolding times call
  times-IsSound answer p free zero w x a = (x, a)
  times-IsSound answer p free (suc n) w x a =
      let o = answer w.log p in
      times-IsSound answer p free n (answered p w o).1
        (answered-IsSound order p w o x a (free w.log))
        (Allowed-mono order p w (answered p w o).1 (answered-Extends order p w o) a)

  pub step-IsSound :
      (answer : List Entry → Port → Option Error) (p : Port) (m : ℕ) (pace : Pace) (deadline : ℕ)
      (w : World)
      → ((es : List Entry) → Needs order p es)
      → IsSound order w
      → Allowed order p w.log
      → let out = execute_saga_step (call answer p) m pace deadline w in
        IsSound order out.1 × Allowed order p out.1.log × (out.0 ≡ ok tt → Done p out.1.log)
  unfolding call
  step-IsSound answer p m pace deadline w free x a =
      let out = execute_saga_step (call answer p) m pace deadline w in
      let oc = execute_saga_step-Outcome (call answer p) pace deadline m w in
      let (sound, allowed) = times-IsSound answer p free oc.ran w x a in
      (
        rw oc.world sound,
        rw oc.world allowed,
        λ h.
            (let (j, r, done, late, before) = oc.succeeded tt h in
              let before_last = times (call answer p) j w in
              let world : out.1 ≡ (call answer p before_last).1 =
                oc.world
                ∙ ap (λ (n : ℕ). times (call answer p) n w) r
                ∙ times_last (call answer p) j w in
              rw world (
                answered-Done p before_last (answer before_last.log p)
                  (times-IsSound answer p free j w x a).1 done)),
      )
