-- ===== src/Checkout/Service/Placing.antt =====
-- src/modules/checkout/checkout.service.ts: the transaction of a checkout and the tables.
use tri_ad_backend.Base.{
  ℕ, ◌≡◌, ◌≢◌, refl, ap, ◌∙◌, false, Option, List, [], ◌∷◌, ◌++◌, map, arith, inl, inr,
}
use tri_ad_backend.Shared.Money.{Money}
use tri_ad_backend.Shared.Text.{Unicode}
use tri_ad_backend.Shared.Errors.{Result, ok, Result-cases}
use tri_ad_backend.Orders.Order.{Order, Pricing, subtotal, total, apply_pricing}
use tri_ad_backend.Orders.Lifecycle.{place}
use tri_ad_backend.Checkout.Db.{Db, ProductRow, CartRow, lift, locked_rows, ◌>>=◌, ◌>>◌, >>=-eq-ok}
use tri_ad_backend.Checkout.Stock.{check_items, reserve_stock}
use tri_ad_backend.Checkout.Stock.Reservation.{IsKeyed, sell, sale_events, reserve_stock_lem}
use tri_ad_backend.Checkout.Pricing.{Doubles, calculate_pricing}
use tri_ad_backend.Checkout.Pricing.Keeps.{SameButDiscounts, calculate_pricing-keeps}
use tri_ad_backend.Checkout.Pricing.Usage.{Redeemed, calculate_pricing-Redeemed}
use tri_ad_backend.Checkout.Save.{
  key_taken, id_taken, event_rows, pulled, save_new_order, other_carts, clear_cart_items,
}
use tri_ad_backend.Checkout.Service.{
  User, CheckoutInput, Attempt, check_expected, build_order, price_order, store_order, place_order,
}

module _ {D : Type 0} where
  -- A successful `saveNewOrder`: neither the key nor the identity was taken, and the tables have the
  -- order, at its subtotal and total, and its events.
  pub save_new_order_lem :
      (o saved : Order) (key : Option ℕ) (db db' : Db D)
      → save_new_order o key db ≡ (ok saved, db')
      → (sub tot : Money) × (subtotal o ≡ ok sub)
        × (total o ≡ ok tot)
        × (key_taken o.user_id key db.orders ≡ false)
        × (id_taken o db.orders ≡ false)
        × (saved ≡ pulled o)
        × (db' ≡ record db {
          orders =
              db.orders
              ++ record {
                order = pulled o;
                subtotal = sub.amount;
                total = tot.amount;
                idempotency_key = key;
              }
                ∷ [];
          outbox = db.outbox ++ event_rows 0 o.domain_events;
        })
  unfolding save_new_order
  save_new_order_lem o saved key db db' h = elim (Result-cases (subtotal o)) [
    | inr (x, e) ↦ absurd (ground arith)
    | inl (sub, e) ↦ elim (Result-cases (total o)) [
      | inr (x, f) ↦ absurd (ground arith)
      | inl (tot, f) ↦ (sub, tot, e, f, ground arith, ground arith, ground arith, ground arith)
    ]
  ]

module _ (u : Unicode) (d : Doubles) where
  open d use {Double}

  -- What pricing and placing an order has done, from some tables to others: the pricing is that of
  -- the order's subtotal, with the use of its discount counted.
  pub record Prices (input : CheckoutInput) (a : Attempt Double) (filled placed : Order)
      (db db' : Db Double) : Type 0 where
    pub base : Money
    pub priced : Order
    pub pricing : Pricing
    pub is_base : subtotal filled ≡ ok base
    pub calculated :
        calculate_pricing d a.enabled a.now base input.discount_code db ≡ (ok pricing, db')
    pub redeemed :
        Redeemed a.enabled a.now base.amount input.discount_code db.discounts db'.discounts
    pub applied : apply_pricing pricing filled ≡ ok priced
    pub expected : check_expected input.expected_total priced ≡ ok tt
    pub placing : place priced ≡ ok placed

  price_order_lem :
      (input : CheckoutInput) (a : Attempt Double) (filled placed : Order) (db db' : Db Double)
      → price_order u d input a filled db ≡ (ok placed, db')
      → Prices input a filled placed db db' × SameButDiscounts db db'
  unfolding price_order
  price_order_lem input a filled placed db db' h = elim (Result-cases (subtotal filled)) [
    | inr (x, e) ↦ absurd (ground arith)
    | inl (sub, e) ↦
        let priced_at = calculate_pricing d a.enabled a.now sub input.discount_code in
        elim (Result-cases (priced_at db).0) [
          | inr (x, f) ↦ absurd (ground arith)
          | inl (pricing, f) ↦ elim (Result-cases (apply_pricing pricing filled)) [
            | inr (x, g) ↦ absurd (ground arith)
            | inl (priced, g) ↦
                let final : db' ≡ (priced_at db).1 = ground arith in
                let at : priced_at db ≡ (ok pricing, db') = ground arith in
                (
                  record {
                    base = sub;
                    priced = priced;
                    pricing = pricing;
                    is_base = e;
                    calculated = at;
                    redeemed =
                        calculate_pricing-Redeemed d a.enabled a.now sub input.discount_code db db'
                          pricing at;
                    applied = g;
                    expected = ground arith;
                    placing = ground arith;
                  },
                  rw final (calculate_pricing-keeps d a.enabled a.now sub input.discount_code db),
                )
          ]
        ]
  ]

  -- What the commit of `place_order` has done.
  pub record Placement (input : CheckoutInput) (user_id : ℕ) (user : User) (cart : ℕ)
      (items : List CartRow) (a : Attempt Double) (saved : Order) (db db' : Db Double)
      : Type 0 where
    pub locked : List ProductRow
    pub filled : Order
    pub placed : Order
    pub sub : Money
    pub tot : Money
    pub some_items : items ≢ []
    pub rows : locked ≡ locked_rows (map (λ (i : CartRow). i.product_id) items) db.products
    pub built : build_order u d input user_id user items a locked ≡ ok filled
    pub after_price : Db Double
    pub prices :
        Prices input a filled placed
          (record db {
            products = sell items db.products;
            outbox = db.outbox ++ sale_events locked items;
          })
          after_price
    pub is_saved : saved ≡ pulled placed
    pub is_subtotal : subtotal placed ≡ ok sub
    pub is_total : total placed ≡ ok tot
    pub key_free : key_taken placed.user_id input.idempotency_key db.orders ≡ false
    pub id_free : id_taken placed db.orders ≡ false
    pub sold : db'.products ≡ sell items db.products
    pub discounted : db'.discounts ≡ after_price.discounts
    pub cleared : db'.cart_items ≡ other_carts cart db.cart_items
    pub stored :
        db'.orders
        ≡ db.orders
          ++ record {
            order = saved;
            subtotal = sub.amount;
            total = tot.amount;
            idempotency_key = input.idempotency_key;
          }
            ∷ []
    pub published :
        db'.outbox ≡ (db.outbox ++ sale_events locked items) ++ event_rows 0 placed.domain_events

  assemble :
      (input : CheckoutInput) (user_id : ℕ) (user : User) (cart : ℕ) (items : List CartRow)
      (a : Attempt Double) (locked : List ProductRow) (filled placed s saved : Order)
      (db db1 db2 db3 db4 db' : Db Double)
      → (items ≢ [])
        × (locked ≡ locked_rows (map (λ (i : CartRow). i.product_id) items) db.products)
        × (check_items locked items ≡ ok tt)
        × (db1 ≡ record db {
          products = sell items db.products;
          outbox = db.outbox ++ sale_events locked items;
        })
      → lift (build_order u d input user_id user items a locked) db1 ≡ (ok filled, db2)
      → price_order u d input a filled db2 ≡ (ok placed, db3)
      → save_new_order placed input.idempotency_key db3 ≡ (ok s, db4)
      → (clear_cart_items cart
            >> (λ (db : Db Double). (let r : Result Order × Db Double = (ok s, db) in r)))
          db4
        ≡ (ok saved, db')
      → Placement input user_id user cart items a saved db db'
  unfolding clear_cart_items
  assemble input user_id user cart items a locked filled placed s saved db db1 db2 db3 db4 db'
        (some_items, rows, checked, m1) e2 e3 e4 h4 =
      let (prices, keeps) = price_order_lem input a filled placed db2 db3 e3 in
      let (sub, tot, is_sub, is_tot, kf, idf, is_saved, m3) =
        save_new_order_lem placed s input.idempotency_key db3 db4 e4 in
      let untouched : db2 ≡ db1 = cc in
      let same_saved : saved ≡ s = ground arith in
      let emptied : db' ≡ record db4 { cart_items = other_carts cart db4.cart_items } =
        ground arith in
      let orders_eq : db3.orders ≡ db.orders =
        keeps.same_orders ∙ ap (λ (x : Db Double). x.orders) (untouched ∙ m1) in
      record {
        locked = locked;
        filled = filled;
        placed = placed;
        sub = sub;
        tot = tot;
        some_items = some_items;
        rows = rows;
        built = cc e2;
        after_price = db3;
        prices = rw (← (untouched ∙ m1)) prices;
        is_saved = same_saved ∙ is_saved;
        is_subtotal = is_sub;
        is_total = is_tot;
        key_free = rw (← orders_eq) kf;
        id_free = rw (← orders_eq) idf;
        sold = rw (emptied, m3, keeps.same_products, untouched, m1) refl;
        discounted = rw (emptied, m3) refl;
        cleared = rw (emptied, m3, keeps.same_cart_items, untouched, m1) refl;
        stored = rw (emptied, m3, orders_eq, same_saved, is_saved) refl;
        published = rw (emptied, m3, keeps.same_outbox, untouched, m1) refl;
      }

  -- A transaction of a checkout that returns an order, from keyed products, was made for a non-empty
  -- cart. The order was built from the cart, and priced by `calculate_pricing` at its subtotal, on
  -- the discounts of the tables; if the discounts are enabled, a code that it has names an active,
  -- unexpired discount with a use left and a minimum that the subtotal reaches, and this discount
  -- has one use more, and otherwise no discount has changed; the order was checked against the
  -- expected total and placed. The transaction has sold exactly the cart's items, emptied the cart,
  -- appended the order at its subtotal and total under a free key and identity, and appended the
  -- events of the sale and of the order to the outbox.
  pub place_order_lem :
      (input : CheckoutInput) (user_id : ℕ) (user : User) (cart : ℕ) (items : List CartRow)
      (a : Attempt Double) (saved : Order) (db db' : Db Double)
      → IsKeyed db.products
      → place_order u d input user_id user cart items a db ≡ (ok saved, db')
      → Placement input user_id user cart items a saved db db'
  unfolding place_order store_order clear_cart_items
  place_order_lem input user_id user cart items a saved db db' k h =
      let (locked, db1, e1, h1) =
        >>=-eq-ok (reserve_stock items)
          (λ locked. do
            filled ← lift (build_order u d input user_id user items a locked)
            placed ← price_order u d input a filled
            store_order u d input cart placed)
          db db' h in
      let (filled, db2, e2, h2) =
        >>=-eq-ok (lift (build_order u d input user_id user items a locked))
          (λ filled. do placed ← price_order u d input a filled; store_order u d input cart placed)
          db1 db' h1 in
      let (placed, db3, e3, h3) =
        >>=-eq-ok (price_order u d input a filled) (λ placed. store_order u d input cart placed) db2
          db' h2 in
      let (s, db4, e4, h4) =
        >>=-eq-ok (save_new_order placed input.idempotency_key)
          (λ (saved : Order). do
            clear_cart_items cart
            λ (db : Db Double). (let r : Result Order × Db Double = (ok saved, db) in r))
          db3 db' h3 in
      assemble input user_id user cart items a locked filled placed s saved db db1 db2 db3 db4 db'
        (reserve_stock_lem items locked db db1 k e1) e2 e3 e4 h4
