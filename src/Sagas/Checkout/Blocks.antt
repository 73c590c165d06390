-- ===== src/Sagas/Checkout/Blocks.antt =====
-- src/modules/checkout/application/checkout.saga.ts: the parts of an execution and the stored step.
use tri_ad_backend.Base.{
  ℕ, ◌≡◌, refl, sym, ap, Bool, true, false, Option, none, some, List, arith, inl, inr, Option-cases,
}
use tri_ad_backend.Shared.Errors.{Error, Result, ok, err}
use tri_ad_backend.Sagas.Step.Attempts.{execute_saga_step-keeps}
use tri_ad_backend.Sagas.Checkout.{
  State, Port, reserve_stock, place_order, authorize_payment, confirm_order, save, Entry, World,
  Environment, call, Progress, proceed, bare, assign, step, save_state, reserve, place, authorize,
  confirm, forward, undo, max_attempts,
}
use tri_ad_backend.Sagas.Checkout.Undoing.{
  succeeded, is_confirm, same_id, Undone, Told, IsTold, Grows, Needs, call-Grows, call-IsTold,
  call-succeeded,
}

pub proceed-lem :
    (G : Progress → Type 0) (p : Progress) (rest : State → World → Progress)
    → (p.thrown ≡ none → G (rest p.state p.world))
    → ((e : Error) → p.thrown ≡ some e → G p)
    → G (proceed p rest)
unfolding proceed
proceed-lem G p rest f g = elim (Option-cases p.thrown) [
  | inl e ↦ rw (e, proceed) (f e)
  | inr (x, e) ↦ rw (e, proceed) (g x e)
]

pub Grows-trans : (u v w : World) → Grows u v → Grows v w → Grows u w
Grows-trans u v w g h f e = h f (g f e)

-- The world of the progress is told, and more calls succeeded than before.
abbrev pub Good : World → Progress → Type 0
Good w p = IsTold p.world × Grows w p.world

bare-world : (s : State) (out : Result ℕ × World) → (bare s out).world ≡ out.1
unfolding bare
bare-world s (ok n, w) = refl
bare-world s (err e, w) = refl

bare-ok :
    (s : State) (out : Result ℕ × World)
    → (bare s out).thrown ≡ none
    → ((n : ℕ) × (out.0 ≡ ok n)) × ((bare s out).state ≡ s)
unfolding bare
bare-ok s (ok n, w) h = ((n, refl), refl)
bare-ok s (err e, w) h = cc

assign-lem :
    (G : Progress → Type 0) (s : State) (new : ℕ → State) (out : Result ℕ × World)
    (rest : State → World → Progress)
    → ((n : ℕ) → out.0 ≡ ok n → G (rest (new n) out.1))
    → ((e : Error) → G (record { thrown = some e; state = s; world = out.1 }))
    → G (assign s new out rest)
unfolding assign
assign-lem G s new (ok n, w) rest f g = f n refl
assign-lem G s new (err e, w) rest f g = g e

same_id_refl : (o : Option ℕ) → same_id o o ≡ true
same_id_refl none = refl
same_id_refl (some i) = ground arith

module _ (env : Environment) (deadline : ℕ) where
  step-Good :
      (p : Port) (w : World)
      → ((es : List Entry) → Needs p es)
      → IsTold w
      → IsTold (step env deadline p w).1
        × Grows w (step env deadline p w).1
        × ((n : ℕ) (f : Port → Bool)
            → f p ≡ true
            → (step env deadline p w).0 ≡ ok n
            → succeeded f (step env deadline p w).1.log ≡ true)
  unfolding step
  step-Good p w free t =
      let ((told, grows), last) =
        execute_saga_step-keeps (call env.answer p) (λ (v : World). IsTold v × Grows w v)
          (λ v (t, g). (
            call-IsTold env.answer p v t (free v.log),
            Grows-trans w v (call env.answer p v).1 g (call-Grows env.answer p v),
          ))
          max_attempts (env.pace p) deadline w (t, λ f h. h) in
      (
        told,
        grows,
        λ n f e h.
            (let (v, (tv, gv), done) = last n h in
              let world : (step env deadline p w).1 ≡ (call env.answer p v).1 =
                sym (ap (λ (x : Result ℕ × World). x.1) done) in
              rw world
                (call-succeeded env.answer p v f n e (ap (λ (x : Result ℕ × World). x.0) done))),
      )

  pub save_state-Good :
      (s : State) (w : World)
      → IsTold w
      → Told s.step s w.log
      → Good w (save_state env deadline s w)
  unfolding save_state
  save_state-Good s w t h =
      let out = call env.answer (save s) w in
      rw (bare-world s out)
        (call-IsTold env.answer (save s) w t h, call-Grows env.answer (save s) w)

  -- A step whose answer goes into the state, which is saved: its step claims nothing.
  assigned-Good :
      (p : Port) (s : State) (new : ℕ → State) (w : World)
      → ((es : List Entry) → Needs p es)
      → ((n : ℕ) (v : World)
          → ((f : Port → Bool) → f p ≡ true → succeeded f v.log ≡ true)
          → Told (new n).step (new n) v.log)
      → IsTold w
      → IsTold (assign s new (step env deadline p w) (save_state env deadline)).world
  assigned-Good p s new w free claims t =
      let (told, grows, counted) = step-Good p w free t in
      assign-lem (λ q. IsTold q.world) s new (step env deadline p w) (save_state env deadline)
        (λ n e.
          (save_state-Good (new n) (step env deadline p w).1 told
            (claims n (step env deadline p w).1 (λ f h. counted n f h e))).0)
        (λ e. told)

  reserve-Good :
      (o : Option ℕ) (s : State) (w : World) → IsTold w → IsTold (reserve env deadline o s w).world
  unfolding reserve
  reserve-Good (some r) s w t = t
  reserve-Good none s w t = assigned-Good reserve_stock s _ w (λ es. tt) (λ n v h. tt) t

  place-Good :
      (o : Option ℕ) (s : State) (w : World) → IsTold w → IsTold (place env deadline o s w).world
  unfolding place
  place-Good (some r) s w t = t
  place-Good none s w t = assigned-Good place_order s _ w (λ es. tt) (λ n v h. tt) t

  authorize-Good :
      (cod : Bool) (o : Option ℕ) (s : State) (w : World)
      → IsTold w
      → IsTold (authorize env deadline cod o s w).world
  unfolding authorize
  authorize-Good true o s w t = t
  authorize-Good false (some p) s w t = t
  authorize-Good false none s w t =
      assigned-Good (authorize_payment s.order_id) s _ w (λ es. tt) (λ n v h. tt) t

  confirm-Good : (s : State) (w : World) → IsTold w → IsTold (confirm env deadline s w).world
  unfolding confirm
  confirm-Good s w t =
      assigned-Good (confirm_order s.order_id) s _ w (λ es. tt)
        (λ n v h. h (is_confirm s.order_id) (same_id_refl s.order_id)) t

  pub forward-Good :
      (cod : Bool) (s : State) (w : World) → IsTold w → IsTold (forward env deadline cod s w).world
  unfolding forward
  forward-Good cod s w t =
      let G = λ (q : Progress). IsTold q.world in
      let p1 = reserve env deadline s.reservation_id s w in
      let t1 = reserve-Good s.reservation_id s w t in
      proceed-lem G p1 _
        (λ e.
          (let p2 = place env deadline p1.state.order_id p1.state p1.world in
            let t2 = place-Good p1.state.order_id p1.state p1.world t1 in
            proceed-lem G p2 _
              (λ e.
                (let p3 = authorize env deadline cod p2.state.payment_id p2.state p2.world in
                  let t3 = authorize-Good cod p2.state.payment_id p2.state p2.world t2 in
                  proceed-lem G p3 _ (λ e. confirm-Good p3.state p3.world t3) (λ x e. t3)))
              (λ x e. t2)))
        (λ x e. t1)

  pub undo-Good :
      (port : ℕ → Port) (test : ℕ → Port → Bool) (o : Option ℕ) (s : State) (w : World)
      → ((i : ℕ) (es : List Entry) → Needs (port i) es)
      → ((i : ℕ) → test i (port i) ≡ true)
      → IsTold w
      → Good w (undo env deadline port o s w)
        × ((undo env deadline port o s w).thrown ≡ none
            → ((undo env deadline port o s w).state ≡ s)
              × Undone test o (undo env deadline port o s w).world.log)
  unfolding undo
  undo-Good port test none s w free hit t = ((t, λ f h. h), λ e. (refl, tt))
  undo-Good port test (some i) s w free hit t =
      let out = step env deadline (port i) w in
      let (told, grows, counted) = step-Good (port i) w (free i) t in
      (
        rw (bare-world s out) (told, grows),
        λ e.
            (let ((n, g), same) = bare-ok s out e in
              (same, rw (bare-world s out) (counted n (test i) (hit i) g))),
      )
