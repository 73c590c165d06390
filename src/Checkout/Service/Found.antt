-- ===== src/Checkout/Service/Found.antt =====
-- src/modules/checkout/checkout.service.ts: looking up the order that a checkout has stored.
use tri_ad_backend.Base.{
  ℕ, ◌≡◌, refl, ap, ◌∙◌, false, none, some, List, [], ◌∷◌, ◌++◌, arith, inl, inr, Option-cases,
}
use tri_ad_backend.Shared.Text.{Unicode}
use tri_ad_backend.Shared.Number.{integer}
use tri_ad_backend.Shared.Money.{Money, vnd}
use tri_ad_backend.Shared.Money
use tri_ad_backend.Shared.ValueObjects.{new_order_number, new_email, new_phone_number, new_address}
use tri_ad_backend.Shared.Errors.{application, resource_not_found, ok, or_throw, >>=-eq-ok}
use tri_ad_backend.Shared.Aggregate.{pull_events}
use tri_ad_backend.Orders.Order.{Order, OrderProps, create, add_item}
use tri_ad_backend.Orders.Lifecycle.Trail.{adds, prices, places, perform, perform-Extends}
use tri_ad_backend.Checkout.Db.{Db, ProductRow, CartRow, OrderRow}
use tri_ad_backend.Checkout.Stock.{find_product}
use tri_ad_backend.Checkout.Pricing.{Doubles}
use tri_ad_backend.Checkout.Save.{find_by_key, find_by_id, key_taken, id_taken}
use tri_ad_backend.Checkout.Service.{User, CheckoutInput, Attempt, add_cart_items, build_order}
use tri_ad_backend.Checkout.Service.Placing.{Placement}

find_by_id-append :
    (i : ℕ) (rs : List OrderRow) (r : OrderRow)
    → find_by_id i rs ≡ none
    → r.order.id ≡ i
    → find_by_id i (rs ++ r ∷ []) ≡ some r
unfolding find_by_id
find_by_id-append i [] r h e = ground arith
find_by_id-append i (x ∷ rs) r h e = ground (arith, find_by_id-append i rs r)

find_by_key-append :
    (user k : ℕ) (rs : List OrderRow) (r : OrderRow)
    → find_by_key user k rs ≡ none
    → r.order.user_id ≡ user
    → r.idempotency_key ≡ some k
    → find_by_key user k (rs ++ r ∷ []) ≡ some r
unfolding find_by_key
find_by_key-append user k [] r h e f = rw (e, f) (ground arith)
find_by_key-append user k (x ∷ rs) r h e f = ground (arith, find_by_key-append user k rs r)

add_cart_items-user :
    (locked : List ProductRow) (items : List CartRow) (o o' : Order)
    → add_cart_items locked items o ≡ ok o'
    → o'.user_id ≡ o.user_id
unfolding add_cart_items perform
add_cart_items-user locked [] o o' h = ground arith
add_cart_items-user locked (i ∷ is) o o' h =
    let (r, e, h1) =
      >>=-eq-ok (or_throw (find_product i.product_id locked) (application resource_not_found)) _
        h in
    let (p, f, h2) = >>=-eq-ok (Money.create r.price vnd) _ h1 in
    let (x, g, h3) = >>=-eq-ok (add_item i.product_id r.name (integer i.quantity) p o) _ h2 in
    add_cart_items-user locked is x o' h3
    ∙ (perform-Extends (adds i.product_id r.name (integer i.quantity) p) o x g).same_user

create-user : (u : Unicode) (p : OrderProps) (o : Order) → create u p ≡ ok o → o.user_id ≡ p.user_id
unfolding create
create-user u p o h =
    let (a, e1, h1) = >>=-eq-ok (new_order_number u p.order_number) _ h in
    let (b, e2, h2) = >>=-eq-ok (new_email u p.customer_email) _ h1 in
    let (c, e3, h3) = >>=-eq-ok (new_phone_number p.customer_phone) _ h2 in
    let (e, e4, h4) = >>=-eq-ok (new_address p.customer_address) _ h3 in ground arith

id_taken-free : (o : Order) (rs : List OrderRow) → id_taken o rs ≡ false → find_by_id o.id rs ≡ none
unfolding id_taken
id_taken-free o rs h = elim (Option-cases (find_by_id o.id rs)) [
  | inl e ↦ e
  | inr (r, e) ↦ absurd (ground arith)
]

key_taken-free :
    (user k : ℕ) (rs : List OrderRow)
    → key_taken user (some k) rs ≡ false
    → find_by_key user k rs ≡ none
unfolding key_taken
key_taken-free user k rs h = elim (Option-cases (find_by_key user k rs)) [
  | inl e ↦ e
  | inr (r, e) ↦ absurd (ground arith)
]

module _ (u : Unicode) (d : Doubles) where
  open d use {Double}

  module _ (input : CheckoutInput) (user_id : ℕ) (user : User) (cart : ℕ) (items : List CartRow)
      (a : Attempt Double) (saved : Order) (db db' : Db Double)
      (at : Placement u d input user_id user cart items a saved db db') where
    placed-user : at.placed.user_id ≡ user_id
    unfolding build_order perform
    placed-user =
        let (o, e, h) = >>=-eq-ok (create u _) (add_cart_items at.locked items) at.built in
        (perform-Extends places at.prices.priced at.placed at.prices.placing).same_user
        ∙ (perform-Extends (prices at.prices.pricing) at.filled at.prices.priced
            at.prices.applied).same_user
        ∙ add_cart_items-user at.locked items o at.filled h
        ∙ create-user u _ o e

    pub placed-found :
        (r : OrderRow) × (find_by_id saved.id db'.orders ≡ some r)
        × ((k : ℕ) → input.idempotency_key ≡ some k → find_by_key user_id k db'.orders ≡ some r)
    unfolding pull_events
    placed-found =
        let r : OrderRow = record {
          order = saved;
          subtotal = at.sub.amount;
          total = at.tot.amount;
          idempotency_key = input.idempotency_key;
        } in
        let user : saved.user_id ≡ user_id =
          ap (λ (o : Order). o.user_id) at.is_saved ∙ placed-user in
        let same : saved.id ≡ at.placed.id = ap (λ (o : Order). o.id) at.is_saved in
        let fresh : find_by_id saved.id db.orders ≡ none =
          rw same (id_taken-free at.placed db.orders at.id_free) in
        (
          r,
          rw at.stored (find_by_id-append saved.id db.orders r fresh refl),
          λ k e. rw at.stored (
              find_by_key-append user_id k db.orders r
                (key_taken-free user_id k db.orders (rw (e, placed-user) at at.key_free)) user e),
        )
