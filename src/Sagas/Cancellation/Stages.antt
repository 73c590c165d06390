-- ===== src/Sagas/Cancellation/Stages.antt =====
-- src/modules/orders/application/cancellation-refund.saga.ts: the `if`s of an execution, from whatever
-- step it starts at.
use tri_ad_backend.Base.{ℕ, ◌≡◌, refl, Bool, true, false, Option, none, some, List}
use tri_ad_backend.Shared.Errors.{Error, Result, ok, err}
use tri_ad_backend.Sagas.Step.{execute_saga_step}
use tri_ad_backend.Sagas.Cancellation.{
  Step, started, order_cancelled, stock_released, refunded, completed, State, Port, save, Entry,
  World, Environment, answered, call, next, due, due_at, stage, finish, execute_from, max_attempts,
}
use tri_ad_backend.Sagas.Cancellation.Order.{
  IsSound, Reached, Allowed, Needs, answered-IsSound, answered-Extends, Reached-mono,
}
use tri_ad_backend.Sagas.Cancellation.Steps.{Done, step-IsSound}

next-lem :
    {A B : Type 0} (G : Result B × World → Type 0) (out : Result A × World)
    (rest : A → World → Result B × World)
    → ((a : A) → out.0 ≡ ok a → G (rest a out.1))
    → ((e : Error) → out.0 ≡ err e → G (err e, out.1))
    → G (next out rest)
next-lem G (ok a, w) rest f g = f a refl
next-lem G (err e, w) rest f g = g e refl

-- Is the `if` at the first step behind a state at the second one?
abbrev past : Step → Step → Option ℕ → Bool
past started started payment = false
past order_cancelled started payment = false
past order_cancelled order_cancelled payment = false
past stock_released started payment = false
past stock_released order_cancelled payment = false
past stock_released stock_released (some p) = false
past _ _ payment = true

module _ (order : ℕ) where
  -- The world is sound, and the step of the state that is returned was reached and is past an `if`.
  abbrev Good : Step → Result State × World → Type 0
  Good at (r, w) =
      IsSound order w
      × ((s : State)
          → r ≡ ok s
          → (s.order_id ≡ order)
            × Reached order s.step s.payment_id w.log
            × (past at s.step s.payment_id ≡ true))

  Good-err : (at : Step) (e : Error) (w : World) → IsSound order w → Good at (err e, w)
  Good-err at e w x = (x, λ s h. cc)

  -- A call that is due, and the step that it leads to.
  record Fits (at : Step) (payment : Option ℕ) (p : Port) (new : Step) (w : World) : Type 0 where
    free : (es : List Entry) → Needs order p es
    allowed : Allowed order p w.log
    leads : (es : List Entry) → Allowed order p es → Done order p es → Reached order new payment es
    goes_on : past at new payment ≡ true

  abbrev FitsDue : Step → Step → Option ℕ → Option (Port × Step) → World → Type 0
  FitsDue at current payment none w = past at current payment ≡ true
  FitsDue at current payment (some (p, new)) w = Fits at payment p new w

  -- What the `if`s before leave.
  abbrev Before : Step → Step → Option ℕ → Type 0
  Before order_cancelled current payment = past started current payment ≡ true
  Before stock_released current payment = past order_cancelled current payment ≡ true
  Before _ current payment = Unit

  save-Good :
      (env : Environment) (at : Step) (s : State) (w : World)
      → IsSound order w
      → s.order_id ≡ order
      → Reached order s.step s.payment_id w.log
      → past at s.step s.payment_id ≡ true
      → Good at (next (call env.answer (save s) w) λ _ w. (ok s, w))
  unfolding call
  save-Good env at s w x i r b =
      let o = env.answer w.log (save s) in
      let out = answered (save s) w o in
      let after = answered-IsSound order (save s) w o x tt (i, r) in
      next-lem (Good at) out (λ _ w. (ok s, w))
        (λ a h. (
          after,
          λ t g.
              (let same : s ≡ t = cc g in
                rw (← same) (
                  i,
                  Reached-mono order s.step s.payment_id w out.1
                      (answered-Extends order (save s) w o) r,
                  b,
                )),
        ))
        (λ e h. Good-err at e out.1 after)

  stage-Good :
      (env : Environment) (deadline : ℕ) (at : Step) (s : State) (d : Option (Port × Step))
      (w : World)
      → IsSound order w
      → s.order_id ≡ order
      → Reached order s.step s.payment_id w.log
      → FitsDue at s.step s.payment_id d w
      → Good at (stage env deadline at s d w)
  unfolding stage
  stage-Good env deadline at s none w x i r f =
      (x, λ t g. (let same : s ≡ t = cc g in rw (← same) (i, r, f)))
  stage-Good env deadline at s (some (p, new)) w x i r f =
      let out = execute_saga_step (call env.answer p) max_attempts (env.pace at) deadline w in
      let (after, allowed, done) =
        step-IsSound order env.answer p max_attempts (env.pace at) deadline w f.free x f.allowed in
      next-lem (Good at) out _
        (λ a h.
          save-Good env at (record s { step = new }) out.1 after i
            (f.leads out.1.log allowed (done h)) f.goes_on)
        (λ e h. Good-err at e out.1 after)

  due_at-Fits :
      (at current : Step) (id : ℕ) (payment : Option ℕ) (w : World)
      → Reached order current payment w.log
      → id ≡ order
      → Before at current payment
      → FitsDue at current payment (due_at at current id payment) w
  unfolding due_at Done
  due_at-Fits started started id payment w r i b = record {
    free = λ es. tt;
    allowed = i;
    leads = λ es a h. h;
    goes_on = refl;
  }
  due_at-Fits started order_cancelled id payment w r i b = refl
  due_at-Fits started stock_released id payment w r i b = refl
  due_at-Fits started refunded id payment w r i b = refl
  due_at-Fits started completed id payment w r i b = refl
  due_at-Fits order_cancelled started id payment w r i b = b
  due_at-Fits order_cancelled order_cancelled id payment w r i b = record {
    free = λ es. tt;
    allowed = (i, r);
    leads = λ es a h. h;
    goes_on = refl;
  }
  due_at-Fits order_cancelled stock_released id payment w r i b = refl
  due_at-Fits order_cancelled refunded id payment w r i b = refl
  due_at-Fits order_cancelled completed id payment w r i b = refl
  due_at-Fits stock_released started id payment w r i b = b
  due_at-Fits stock_released order_cancelled id payment w r i b = b
  due_at-Fits stock_released stock_released id none w r i b = refl
  due_at-Fits stock_released stock_released id (some p) w r i b = record {
    free = λ es. tt;
    allowed = r;
    leads = λ es a h. (a, h);
    goes_on = refl;
  }
  due_at-Fits stock_released refunded id payment w r i b = refl
  due_at-Fits stock_released completed id payment w r i b = refl
  due_at-Fits refunded current id payment w r i b = refl
  due_at-Fits completed current id payment w r i b = refl

  due-Good :
      (env : Environment) (deadline : ℕ) (at : Step) (s : State) (w : World)
      → IsSound order w
      → s.order_id ≡ order
      → Reached order s.step s.payment_id w.log
      → Before at s.step s.payment_id
      → Good at (stage env deadline at s (due at s) w)
  unfolding due
  due-Good env deadline at s w x i r b =
      stage-Good env deadline at s (due at s) w x i r
        (due_at-Fits at s.step s.order_id s.payment_id w r i b)

  -- Past the refund, the saga may be completed.
  Reached-completed :
      (s : Step) (payment : Option ℕ) (es : List Entry)
      → Reached order s payment es
      → past stock_released s payment ≡ true
      → Reached order completed payment es
  Reached-completed started payment es r = λ b. cc
  Reached-completed order_cancelled payment es r = λ b. cc
  Reached-completed stock_released none es r = λ b. (r, tt)
  Reached-completed stock_released (some p) es r = λ b. cc
  Reached-completed refunded payment es r = λ b. r
  Reached-completed completed payment es r = λ b. r

  pub execute_from-Good :
      (env : Environment) (deadline : ℕ) (s : State) (w : World)
      → IsSound order w
      → s.order_id ≡ order
      → Reached order s.step s.payment_id w.log
      → Good completed (execute_from env deadline s w)
  unfolding execute_from finish
  execute_from-Good env deadline s w x i r =
      let first = stage env deadline started s (due started s) w in
      let (x1, r1) = due-Good env deadline started s w x i r tt in
      next-lem (Good completed) first _
        (λ s1 h1.
          (let second = stage env deadline order_cancelled s1 (due order_cancelled s1) first.1 in
            let (i1, q1, b1) = r1 s1 h1 in
            let (x2, r2) = due-Good env deadline order_cancelled s1 first.1 x1 i1 q1 b1 in
            next-lem (Good completed) second _
              (λ s2 h2.
                (let third =
                    stage env deadline stock_released s2 (due stock_released s2) second.1 in
                  let (i2, q2, b2) = r2 s2 h2 in
                  let (x3, r3) = due-Good env deadline stock_released s2 second.1 x2 i2 q2 b2 in
                  next-lem (Good completed) third _
                    (λ s3 h3.
                      (let (i3, q3, b3) = r3 s3 h3 in
                        save-Good env completed (record s3 { step = completed }) third.1 x3 i3
                          (Reached-completed s3.step s3.payment_id third.1.log q3 b3) refl))
                    (λ e h. Good-err completed e third.1 x3)))
              (λ e h. Good-err completed e second.1 x2)))
        (λ e h. Good-err completed e first.1 x1)
