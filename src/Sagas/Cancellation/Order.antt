-- ===== src/Sagas/Cancellation/Order.antt =====
-- src/modules/orders/application/cancellation-refund.saga.ts: the order of the calls, for a call and
-- for a step.
use tri_ad_backend.Base.{
  ℕ, ◌≡◌, Bool, true, false, Option, none, some, List, [], ◌∷◌, ◌&&◌, ◌||◌, ◌==◌, arith,
}
use tri_ad_backend.Shared.Errors.{Error}
use tri_ad_backend.Sagas.Cancellation.{
  Step, started, order_cancelled, stock_released, refunded, completed, State, Port, cancel_order,
  release_stock, refund, save, Entry, World, answered,
}

-- For the order that a saga cancels.
module _ (order : ℕ) where
  -- Has a call to cancel the order succeeded?
  abbrev pub cancelled : List Entry → Bool
  cancelled [] = false
  cancelled (e ∷ es) = elim e.port [
    | cancel_order o ↦ (e.succeeded && o == order) || cancelled es
    | _ ↦ cancelled es
  ]

  -- Has a call to release the stock succeeded?
  abbrev pub released : List Entry → Bool
  released [] = false
  released (e ∷ es) = elim e.port [
    | release_stock o ↦ (e.succeeded && o == order) || released es
    | _ ↦ released es
  ]

  -- Has a call to refund the payment succeeded?
  abbrev pub paid_back : ℕ → List Entry → Bool
  paid_back p [] = false
  paid_back p (e ∷ es) = elim e.port [
    | refund q ↦ (e.succeeded && q == p) || paid_back p es
    | _ ↦ paid_back p es
  ]

  -- May the call be made after those of the log?
  abbrev pub Allowed : Port → List Entry → Type 0
  Allowed (cancel_order o) es = o ≡ order
  Allowed (release_stock o) es = (o ≡ order) × (cancelled es ≡ true)
  Allowed (refund p) es = released es ≡ true
  Allowed (save s) es = Unit

  abbrev pub InOrder : List Entry → Type 0
  InOrder [] = Unit
  InOrder (e ∷ es) = Allowed e.port es × InOrder es

  -- The payment was refunded, if there is one.
  abbrev pub IsSettled : Option ℕ → List Entry → Type 0
  IsSettled none es = Unit
  IsSettled (some p) es = paid_back p es ≡ true

  -- What a step says of the calls before it, for a payment.
  abbrev pub Reached : Step → Option ℕ → List Entry → Type 0
  Reached started payment es = Unit
  Reached order_cancelled payment es = cancelled es ≡ true
  Reached stock_released payment es = released es ≡ true
  Reached refunded payment es = (released es ≡ true) × IsSettled payment es
  Reached completed payment es = (released es ≡ true) × IsSettled payment es

  abbrev pub StoredReached : Option State → List Entry → Type 0
  StoredReached none es = Unit
  StoredReached (some s) es = (s.order_id ≡ order) × Reached s.step s.payment_id es

  -- All calls were made for the order and in order, and the stored step was reached.
  pub record IsSound (w : World) : Type 0 where
    pub in_order : InOrder w.log
    pub reached : StoredReached w.stored w.log

  -- A call adds to what was done.
  pub record Extends (w w' : World) : Type 0 where
    keeps_cancelled : cancelled w.log ≡ true → cancelled w'.log ≡ true
    keeps_released : released w.log ≡ true → released w'.log ≡ true
    keeps_paid_back : (p : ℕ) → paid_back p w.log ≡ true → paid_back p w'.log ≡ true

  abbrev pub Needs : Port → List Entry → Type 0
  Needs (save s) es = (s.order_id ≡ order) × Reached s.step s.payment_id es
  Needs p es = Unit

  pub answered-Extends : (p : Port) (w : World) (o : Option Error) → Extends w (answered p w o).1
  unfolding answered
  answered-Extends (cancel_order x) w none = record {
    keeps_cancelled = λ h. ground arith;
    keeps_released = λ h. h;
    keeps_paid_back = λ p h. h;
  }
  answered-Extends (cancel_order x) w (some e) = record {
    keeps_cancelled = λ h. h;
    keeps_released = λ h. h;
    keeps_paid_back = λ p h. h;
  }
  answered-Extends (release_stock x) w none = record {
    keeps_cancelled = λ h. h;
    keeps_released = λ h. ground arith;
    keeps_paid_back = λ p h. h;
  }
  answered-Extends (release_stock x) w (some e) = record {
    keeps_cancelled = λ h. h;
    keeps_released = λ h. h;
    keeps_paid_back = λ p h. h;
  }
  answered-Extends (refund x) w none = record {
    keeps_cancelled = λ h. h;
    keeps_released = λ h. h;
    keeps_paid_back = λ p h. ground arith;
  }
  answered-Extends (refund x) w (some e) = record {
    keeps_cancelled = λ h. h;
    keeps_released = λ h. h;
    keeps_paid_back = λ p h. h;
  }
  answered-Extends (save s) w none = record {
    keeps_cancelled = λ h. h;
    keeps_released = λ h. h;
    keeps_paid_back = λ p h. h;
  }
  answered-Extends (save s) w (some e) = record {
    keeps_cancelled = λ h. h;
    keeps_released = λ h. h;
    keeps_paid_back = λ p h. h;
  }

  IsSettled-mono :
      (payment : Option ℕ) (w w' : World)
      → Extends w w'
      → IsSettled payment w.log
      → IsSettled payment w'.log
  IsSettled-mono none w w' x h = tt
  IsSettled-mono (some p) w w' x h = x.keeps_paid_back p h

  pub Reached-mono :
      (s : Step) (payment : Option ℕ) (w w' : World)
      → Extends w w'
      → Reached s payment w.log
      → Reached s payment w'.log
  Reached-mono started payment w w' x h = tt
  Reached-mono order_cancelled payment w w' x h = x.keeps_cancelled h
  Reached-mono stock_released payment w w' x h = x.keeps_released h
  Reached-mono refunded payment w w' x h = (x.keeps_released h.0, IsSettled-mono payment w w' x h.1)
  Reached-mono completed payment w w' x h =
      (x.keeps_released h.0, IsSettled-mono payment w w' x h.1)

  StoredReached-mono :
      (s : Option State) (w w' : World)
      → Extends w w'
      → StoredReached s w.log
      → StoredReached s w'.log
  StoredReached-mono none w w' x h = tt
  StoredReached-mono (some s) w w' x h = (h.0, Reached-mono s.step s.payment_id w w' x h.1)

  pub Allowed-mono : (p : Port) (w w' : World) → Extends w w' → Allowed p w.log → Allowed p w'.log
  Allowed-mono (cancel_order o) w w' x h = h
  Allowed-mono (release_stock o) w w' x h = (h.0, x.keeps_cancelled h.1)
  Allowed-mono (refund p) w w' x h = x.keeps_released h
  Allowed-mono (save s) w w' x h = tt

  pub answered-IsSound :
      (p : Port) (w : World) (o : Option Error)
      → IsSound w
      → Allowed p w.log
      → Needs p w.log
      → IsSound (answered p w o).1
  unfolding answered
  answered-IsSound p w (some e) x a n = record {
    in_order = (a, x.in_order);
    reached = StoredReached-mono w.stored w _ (answered-Extends p w (some e)) x.reached;
  }
  answered-IsSound (save s) w none x a n = record {
    in_order = (a, x.in_order);
    reached = (n.0, Reached-mono s.step s.payment_id w _ (answered-Extends (save s) w none) n.1);
  }
  answered-IsSound (cancel_order o) w none x a n = record {
    in_order = (a, x.in_order);
    reached = StoredReached-mono w.stored w _ (answered-Extends (cancel_order o) w none) x.reached;
  }
  answered-IsSound (release_stock o) w none x a n = record {
    in_order = (a, x.in_order);
    reached = StoredReached-mono w.stored w _ (answered-Extends (release_stock o) w none) x.reached;
  }
  answered-IsSound (refund o) w none x a n = record {
    in_order = (a, x.in_order);
    reached = StoredReached-mono w.stored w _ (answered-Extends (refund o) w none) x.reached;
  }
