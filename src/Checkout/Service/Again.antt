-- ===== src/Checkout/Service/Again.antt =====
-- src/modules/checkout/checkout.service.ts: repeated and failing checkouts.
use tri_ad_backend.Base.{
  ℕ, ◌+◌, ◌≡◌, refl, Bool, true, Option, none, some, List, [], ◌∷◌, arith, inl, inr, Option-cases,
}
use tri_ad_backend.Shared.Text.{Unicode}
use tri_ad_backend.Shared.Errors.{Result, ok, err, idempotency_conflict}
use tri_ad_backend.Orders.Order.{Order}
use tri_ad_backend.Checkout.Db.{Db, CartRow, OrderRow}
use tri_ad_backend.Checkout.Stock.Reservation.{IsKeyed}
use tri_ad_backend.Checkout.Pricing.{Doubles}
use tri_ad_backend.Checkout.Save.{find_by_key, find_by_id}
use tri_ad_backend.Checkout.Service.{
  User, CheckoutInput, Attempt, existing_order, finish, execute_with_retry, checkout_cart,
  checkout_new, checkout, cart_rows, max_retries,
}
use tri_ad_backend.Checkout.Service.Placing.{place_order_lem}
use tri_ad_backend.Checkout.Service.Found.{placed-found}
use tri_ad_backend.Checkout.Service.Retry.{execute_with_retry-ok}

module _ (u : Unicode) (d : Doubles) where
  open d use {Double}

  -- The tables are those of a keyed database whatever the other requests do.
  module _ (input : CheckoutInput) (user_id : ℕ) (env : ℕ → Attempt Double) (P : Db Double → Type 0)
      (kept : (k : ℕ) (db : Db Double) → P db → P ((env k).meanwhile db))
      (keyed : (db : Db Double) → P db → IsKeyed db.products) where
    finish-ok :
        (r : Result Order) (db db' : Db Double) (k : ℕ) (row : OrderRow) (b : Bool)
        → input.idempotency_key ≡ some k
        → ((o : Order)
            → r ≡ ok o
            → (x : OrderRow) × (find_by_id o.id db.orders ≡ some x)
              × ((k : ℕ)
                  → input.idempotency_key ≡ some k
                  → find_by_key user_id k db.orders ≡ some x))
        → finish u d user_id input.idempotency_key r db ≡ (ok (row, b), db')
        → find_by_key user_id k db'.orders ≡ some row
    unfolding finish existing_order
    finish-ok (ok o) db db' k row b key found h =
        let (x, f, g) = found o refl in let q = g k key in ground arith
    finish-ok (err idempotency_conflict) db db' k row b key found h =
        elim (Option-cases (find_by_key user_id k db.orders)) [
          | inl e ↦
              absurd
                (let g = rw (key, existing_order) at h in let g2 = rw (e, finish) at g in cc g2)
          | inr (x, e) ↦
              (let g = rw (key, existing_order) at h in
                let g2 = rw (e, finish) at g in ground arith)
        ]
    finish-ok (err x) db db' k row b key found h = absurd (ground arith)

    at-found :
        (user : User) (cart : ℕ) (items : List CartRow) (n : ℕ) (db db' : Db Double) (o : Order)
        → P db
        → execute_with_retry u d input user_id user cart items env n 0 db ≡ (ok o, db')
        → (x : OrderRow) × (find_by_id o.id db'.orders ≡ some x)
          × ((k : ℕ) → input.idempotency_key ≡ some k → find_by_key user_id k db'.orders ≡ some x)
    at-found user cart items n db db' o p h =
        let (j, l, mid, q, done) =
          execute_with_retry-ok u d input user_id user cart items env P kept n 0 db db' o p h in
        placed-found u d input user_id user cart items (env (0 + j)) o mid db' (
          place_order_lem u d input user_id user cart items (env (0 + j)) o mid db' (keyed mid q)
            done)

    checkout_cart-ok :
        (user : User) (cart : ℕ) (items : List CartRow) (db db' : Db Double) (k : ℕ)
        (row : OrderRow) (b : Bool)
        → P db
        → input.idempotency_key ≡ some k
        → checkout_cart u d user_id input user cart items env db ≡ (ok (row, b), db')
        → find_by_key user_id k db'.orders ≡ some row
    unfolding checkout_cart
    checkout_cart-ok user cart [] db db' k row b p key h = absurd (ground arith)
    checkout_cart-ok user cart (i ∷ is) db db' k row b p key h =
        let out = execute_with_retry u d input user_id user cart (i ∷ is) env max_retries 0 db in
        finish-ok out.0 out.1 db' k row b key
          (λ o f. at-found user cart (i ∷ is) max_retries db out.1 o p (cc f)) h

    checkout_new-ok :
        (user : Option User) (db db' : Db Double) (k : ℕ) (row : OrderRow) (b : Bool)
        → P db
        → input.idempotency_key ≡ some k
        → checkout_new u d user_id input user env db ≡ (ok (row, b), db')
        → find_by_key user_id k db'.orders ≡ some row
    unfolding checkout_new
    checkout_new-ok none db db' k row b p key h = absurd (ground arith)
    checkout_new-ok (some user) db db' k row b p key h = elim (Option-cases user.cart) [
      | inl c ↦ absurd (let g = rw (c, checkout_new) at h in cc g)
      | inr (cart, c) ↦
          checkout_cart-ok user cart (cart_rows cart db.cart_items) db db' k row b p key
            (rw (c, checkout_new) at h)
    ]

    -- After a checkout with a key that returned an order, any further checkout of that user with
    -- that key, whatever else it asks for and whatever happens meanwhile, returns the same order,
    -- marked as a replay, and changes nothing.
    pub checkout_again :
        (user : Option User) (db db' : Db Double) (k : ℕ) (row : OrderRow) (b : Bool)
        (input' : CheckoutInput) (user' : Option User) (env' : ℕ → Attempt Double)
        → P db
        → input.idempotency_key ≡ some k
        → input'.idempotency_key ≡ some k
        → checkout u d user_id input user env db ≡ (ok (row, b), db')
        → checkout u d user_id input' user' env' db' ≡ (ok (row, true), db')
    unfolding checkout existing_order
    checkout_again user db db' k row b input' user' env' p key key' h =
        let found : find_by_key user_id k db'.orders ≡ some row =
          elim (Option-cases (find_by_key user_id k db.orders)) [
            | inl e ↦
                checkout_new-ok user db db' k row b p key
                  (rw (e, checkout) at (rw (key, checkout) at h))
            | inr (x, e) ↦ (let g = rw (e, checkout) at (rw (key, checkout) at h) in ground arith)
          ] in
        rw (key', checkout) (rw (found, checkout) refl)
