-- ===== src/Checkout/Service.antt =====
-- src/modules/checkout/checkout.service.ts: placing an order. Spans and counters are left out, and
-- the wait between attempts is what other requests do meanwhile.
pub mod Placing
pub mod Retry
pub mod Found
pub mod Again
mod Tests
use tri_ad_backend.Base.{
  ℕ, zero, suc, ◌+◌, Bool, true, false, not, Option, none, some, List, [], ◌∷◌, ◌++◌, ◌==◌,
  if◌then◌else◌,
}
use tri_ad_backend.Base.Int.{ℤ}
use tri_ad_backend.Shared.Number.{integer}
use tri_ad_backend.Shared.Money.{Money, vnd}
use tri_ad_backend.Shared.Money
use tri_ad_backend.Shared.Text.{Text, Unicode}
use tri_ad_backend.Shared.Errors.{
  Error, application, validation, resource_not_found, conflict, idempotency_conflict, other, Result,
  ok, err, throw_if, or_throw,
}
use tri_ad_backend.Shared.Errors
use tri_ad_backend.Orders.Order.{Order, Pricing, subtotal, total, add_item, apply_pricing}
use tri_ad_backend.Orders.Order
use tri_ad_backend.Orders.Lifecycle.{place}
use tri_ad_backend.Checkout.Db.{Db, Tx, ProductRow, CartRow, OrderRow, pure, lift, ◌>>=◌, ◌>>◌}
use tri_ad_backend.Checkout.Stock.{find_product, reserve_stock}
use tri_ad_backend.Checkout.Pricing.{Doubles, calculate_pricing}
use tri_ad_backend.Checkout.Save.{find_by_key, find_by_id, save_new_order, clear_cart_items, run}

-- The user of `findUserCartForCheckout`, with the cart if there is one.
pub record User : Type 0 where
  pub full_name : Text
  pub email : Text
  pub phone : Option Text
  pub cart : Option ℕ

-- `CheckoutInput`; an absent or empty key is `none`.
pub record CheckoutInput : Type 0 where
  pub idempotency_key : Option ℕ
  pub payment_method : ℕ
  pub address : Text
  pub phone : Text
  pub notes : Option Text
  pub discount_code : Option Text
  pub expected_total : Option ℕ

-- `input.phone || user.phone || ""`
pub order_phone : Text → Option Text → Text
order_phone (c ∷ t) user = c ∷ t
order_phone [] none = []
order_phone [] (some t) = t

-- The loop that adds the cart's items to the order, at the prices of the locked rows.
pub add_cart_items : List ProductRow → List CartRow → Order → Result Order
add_cart_items locked [] o = ok o
add_cart_items locked (i ∷ is) o =
    Errors.◌>>=◌ (or_throw (find_product i.product_id locked) (application resource_not_found)) λ r.
      Errors.◌>>=◌ (Money.create r.price vnd) λ price.
        Errors.◌>>=◌ (add_item i.product_id r.name (integer i.quantity) price o)
          λ o'. add_cart_items locked is o'

pub check_expected : Option ℕ → Order → Result (Unit {0})
check_expected none o = ok tt
check_expected (some n) o =
    Errors.◌>>=◌ (total o) λ t. throw_if (not (t.amount == n)) (application validation)

-- What the environment of an attempt supplies: the flag of the discount system, the clock,
-- `crypto.randomUUID()`, the order number generator, whether the database aborts the transaction,
-- and what other requests commit while the attempt before it waits.
pub record Attempt (D : Type 0) : Type 0 where
  pub enabled : Bool
  pub now : ℕ
  pub id : ℕ
  pub order_number : Text
  pub aborts : Bool
  pub meanwhile : Db D → Db D

-- `MAX_RETRIES`
abbrev pub max_retries : ℕ
max_retries = 5

-- The order of a key, for a request that has one.
pub existing_order : ℕ → Option ℕ → List OrderRow → Option OrderRow
existing_order user_id none rs = none
existing_order user_id (some k) rs = find_by_key user_id k rs

-- The rows of one cart.
pub cart_rows : ℕ → List CartRow → List CartRow
cart_rows c [] = []
cart_rows c (i ∷ is) = if i.cart_id == c then i ∷ cart_rows c is else cart_rows c is

-- The `catch` of `executeWithRetry`: the rest follows a `ConflictError` only.
pub retry_on : {D A : Type 0} → Result A → Db D → Result A × Db D → Result A × Db D
retry_on (err (application conflict)) db rest = rest
retry_on (err e) db rest = (err e, db)
retry_on (ok a) db rest = (ok a, db)

module _ (u : Unicode) (d : Doubles) where
  open d use {Double}

  -- The new order of an attempt, with the items of the cart.
  pub build_order :
      CheckoutInput → ℕ → User → List CartRow → Attempt Double → List ProductRow → Result Order
  build_order input user_id user items a locked =
      Errors.◌>>=◌
        (Order.create u (record {
          id = a.id;
          user_id = user_id;
          order_number = a.order_number;
          now = a.now;
          customer_name = user.full_name;
          customer_email = user.email;
          customer_phone = order_phone input.phone user.phone;
          customer_address = input.address;
          payment_method = input.payment_method;
          notes = input.notes;
        }))
        (add_cart_items locked items)

  -- The order priced and placed.
  pub price_order : CheckoutInput → Attempt Double → Order → Tx Double Order
  price_order input a filled = do
    sub ← lift (subtotal filled)
    pricing ← calculate_pricing d a.enabled a.now sub input.discount_code
    priced ← lift (apply_pricing pricing filled)
    lift (check_expected input.expected_total priced)
    lift (place priced)

  -- The order stored, and the cart cleared.
  pub store_order : CheckoutInput → ℕ → Order → Tx Double Order
  store_order input cart placed = do
    saved ← save_new_order placed input.idempotency_key
    clear_cart_items cart
    pure saved

  -- The transaction of one attempt.
  pub place_order : CheckoutInput → ℕ → User → ℕ → List CartRow → Attempt Double → Tx Double Order
  place_order input user_id user cart items a = do
    locked ← reserve_stock items
    filled ← lift (build_order input user_id user items a locked)
    placed ← price_order input a filled
    store_order input cart placed

  -- `executeWithRetry`, by the retries left and the number of the attempt.
  pub execute_with_retry :
      CheckoutInput → ℕ → User → ℕ → List CartRow → (ℕ → Attempt Double) → ℕ → ℕ → Tx Double Order
  execute_with_retry input user_id user cart items env zero k db =
      run (env k).aborts (place_order input user_id user cart items (env k)) ((env k).meanwhile db)
  execute_with_retry input user_id user cart items env (suc n) k db =
      let (r, db') =
        run (env k).aborts (place_order input user_id user cart items (env k))
          ((env k).meanwhile db) in
      let rest = execute_with_retry input user_id user cart items env n (suc k) db' in
      retry_on r db' rest

  -- What `checkout` makes of the outcome of the attempts.
  pub finish : ℕ → Option ℕ → Result Order → Tx Double (OrderRow × Bool)
  finish user_id key (ok o) db = elim (find_by_id o.id db.orders) [
    | none ↦ (err (other 500), db)
    | some r ↦ (ok (r, false), db)
  ]
  finish user_id key (err idempotency_conflict) db = elim (existing_order user_id key db.orders) [
    | none ↦ (err idempotency_conflict, db)
    | some r ↦ (ok (r, true), db)
  ]
  finish user_id key (err e) db = (err e, db)

  -- The checkout of a cart with the given items.
  pub checkout_cart :
      ℕ
      → CheckoutInput
      → User
      → ℕ
      → List CartRow
      → (ℕ → Attempt Double)
      → Tx Double (OrderRow × Bool)
  checkout_cart user_id input user cart [] env db = (err (application validation), db)
  checkout_cart user_id input user cart (i ∷ is) env db =
      let (r, db') = execute_with_retry input user_id user cart (i ∷ is) env max_retries 0 db in
      finish user_id input.idempotency_key r db'

  -- `checkout` behind the lookup of the key, for the user that was found.
  pub checkout_new :
      ℕ → CheckoutInput → Option User → (ℕ → Attempt Double) → Tx Double (OrderRow × Bool)
  checkout_new user_id input none env db = (err (application validation), db)
  checkout_new user_id input (some user) env db = elim user.cart [
    | none ↦ (err (application validation), db)
    | some cart ↦ checkout_cart user_id input user cart (cart_rows cart db.cart_items) env db
  ]

  pub checkout :
      ℕ → CheckoutInput → Option User → (ℕ → Attempt Double) → Tx Double (OrderRow × Bool)
  checkout user_id input user env db =
      elim (existing_order user_id input.idempotency_key db.orders) [
        | none ↦ checkout_new user_id input user env db
        | some r ↦ (ok (r, true), db)
      ]
