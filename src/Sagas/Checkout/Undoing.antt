-- ===== src/Sagas/Checkout/Undoing.antt =====
-- src/modules/checkout/application/checkout.saga.ts: what the stored step says of the calls, over any
-- number of executions.
use tri_ad_backend.Base.{
  ℕ, ◌≡◌, Bool, true, false, Option, none, some, List, [], ◌∷◌, ◌||◌, ◌==◌, arith, inl, inr,
}
use tri_ad_backend.Shared.Errors.{Result, ok, err, Result-cases}
use tri_ad_backend.Sagas.Checkout.{
  Step, started, stock_reserved, order_placed, payment_authorized, completed, compensated, State,
  Port, confirm_order, release_stock, cancel_order, refund_payment, save, Entry, World,
  stored_after, call,
}

-- Has a call that passes the test succeeded?
abbrev pub succeeded : (Port → Bool) → List Entry → Bool
succeeded f [] = false
succeeded f (e ∷ es) = elim e.answer [ ok n ↦ f e.port || succeeded f es | err x ↦ succeeded f es ]

abbrev pub is_refund : ℕ → Port → Bool
is_refund i (refund_payment j) = i == j
is_refund i _ = false

abbrev pub is_cancel : ℕ → Port → Bool
is_cancel i (cancel_order j) = i == j
is_cancel i _ = false

abbrev pub is_release : ℕ → Port → Bool
is_release i (release_stock j) = i == j
is_release i _ = false

abbrev pub same_id : Option ℕ → Option ℕ → Bool
same_id none none = true
same_id (some i) (some j) = i == j
same_id _ _ = false

abbrev pub is_confirm : Option ℕ → Port → Bool
is_confirm o (confirm_order p) = same_id o p
is_confirm o _ = false

-- What an identifier stands for was undone.
abbrev pub Undone : (ℕ → Port → Bool) → Option ℕ → List Entry → Type 0
Undone test none es = Unit
Undone test (some i) es = succeeded (test i) es ≡ true

-- What the step of a state says of the calls: a completed saga has confirmed its order, and a
-- compensated one has undone whatever it holds an identifier of.
abbrev pub Told : Step → State → List Entry → Type 0
Told completed s es = succeeded (is_confirm s.order_id) es ≡ true
Told compensated s es =
    Undone is_refund s.payment_id es
    × Undone is_cancel s.order_id es
    × Undone is_release s.reservation_id es
Told started s es = Unit
Told stock_reserved s es = Unit
Told order_placed s es = Unit
Told payment_authorized s es = Unit

abbrev pub StoredTold : Option State → List Entry → Type 0
StoredTold none es = Unit
StoredTold (some s) es = Told s.step s es

-- The stored step is true of the calls.
abbrev pub IsTold : World → Type 0
IsTold w = StoredTold w.stored w.log

-- The calls that succeeded in the one world did in the other.
abbrev pub Grows : World → World → Type 0
Grows w w' = (f : Port → Bool) → succeeded f w.log ≡ true → succeeded f w'.log ≡ true

pub call-Grows :
    (answer : List Entry → Port → Result ℕ) (p : Port) (w : World) → Grows w (call answer p w).1
unfolding call
call-Grows answer p w f h = elim (Result-cases (answer w.log p)) [
  | inl (n, e) ↦ rw (e, call) (ground arith)
  | inr (x, e) ↦ rw (e, call) h
]

pub Undone-mono :
    (test : ℕ → Port → Bool) (o : Option ℕ) (w w' : World)
    → Grows w w'
    → Undone test o w.log
    → Undone test o w'.log
Undone-mono test none w w' g h = tt
Undone-mono test (some i) w w' g h = g (test i) h

pub Told-mono :
    (t : Step) (s : State) (w w' : World) → Grows w w' → Told t s w.log → Told t s w'.log
Told-mono completed s w w' g h = g (is_confirm s.order_id) h
Told-mono compensated s w w' g (a, b, c) = (
  Undone-mono is_refund s.payment_id w w' g a,
  Undone-mono is_cancel s.order_id w w' g b,
  Undone-mono is_release s.reservation_id w w' g c,
)
Told-mono started s w w' g h = tt
Told-mono stock_reserved s w w' g h = tt
Told-mono order_placed s w w' g h = tt
Told-mono payment_authorized s w w' g h = tt

pub StoredTold-mono :
    (o : Option State) (w w' : World) → Grows w w' → StoredTold o w.log → StoredTold o w'.log
StoredTold-mono none w w' g h = tt
StoredTold-mono (some s) w w' g h = Told-mono s.step s w w' g h

-- What a call needs: a state that is saved tells the truth.
abbrev pub Needs : Port → List Entry → Type 0
Needs (save s) es = Told s.step s es
Needs _ es = Unit

stored_after-Told :
    (p : Port) (a : Result ℕ) (w w' : World)
    → Grows w w'
    → IsTold w
    → Needs p w.log
    → StoredTold (stored_after p a w.stored) w'.log
stored_after-Told (save s) (ok n) w w' g t h = Told-mono s.step s w w' g h
stored_after-Told (save s) (err x) w w' g t h = StoredTold-mono w.stored w w' g t
stored_after-Told p a w w' g t h = StoredTold-mono w.stored w w' g t

pub call-IsTold :
    (answer : List Entry → Port → Result ℕ) (p : Port) (w : World)
    → IsTold w
    → Needs p w.log
    → IsTold (call answer p w).1
unfolding call
call-IsTold answer p w t h =
    stored_after-Told p (answer w.log p) w (call answer p w).1 (call-Grows answer p w) t h

-- A successful call counts.
pub call-succeeded :
    (answer : List Entry → Port → Result ℕ) (p : Port) (w : World) (f : Port → Bool) (n : ℕ)
    → f p ≡ true
    → (call answer p w).0 ≡ ok n
    → succeeded f (call answer p w).1.log ≡ true
unfolding call
call-succeeded answer p w f n h e = rw (e, call) (ground arith)
