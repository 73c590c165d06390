-- ===== src/Checkout/Stock/Reservation.antt =====
-- src/modules/checkout/services/stock-reservation.service.ts: what a reservation does to the tables.
use tri_ad_backend.Base.{
  ℕ, ◌+◌, ◌≡◌, ◌≢◌, refl, sym, ap, ◌∙◌, true, false, none, some, List, [], ◌∷◌, ◌++◌, map, arith,
  ◌==◌, if◌then◌else◌, Option-cases, inl, inr,
}
use mathlib.Core.List.{append_assoc, append-nil}
use tri_ad_backend.Shared.Events.{product_updated}
use tri_ad_backend.Shared.Errors.{Result, ok, Result-cases}
use tri_ad_backend.Checkout.Db.{
  Db, ProductRow, CartRow, EventRow, minus, locked_rows, selects, decrement_row,
  lock_products_for_update, >>=-eq-ok,
}
use tri_ad_backend.Checkout.Stock.{
  find_product, check_items, quantity, take_item, take_items, do_reserve_stock, reserve_stock,
}

-- `id` is a primary key.
abbrev pub IsKeyed : List ProductRow → Type 0
IsKeyed [] = Unit
IsKeyed (r ∷ rs) = (find_product r.id rs ≡ none) × IsKeyed rs

-- A product after the sale of one item: its stock falls, its version grows.
abbrev pub sell_one : CartRow → ProductRow → ProductRow
sell_one i r =
    if r.id == i.product_id
    then record r { stock = minus r.stock (quantity i); version = r.version + 1 }
    else r

abbrev pub sell : List CartRow → List ProductRow → List ProductRow
sell [] rs = rs
sell (i ∷ is) rs = sell is (map (sell_one i) rs)

-- The outbox rows of a reservation: one per item, at the version that the sale gives.
abbrev pub next_version : ℕ → List ProductRow → ℕ
next_version p locked = elim (find_product p locked) [ none ↦ 0 | some r ↦ r.version + 1 ]

abbrev pub sale_event : List ProductRow → CartRow → EventRow
sale_event locked i = record {
  event = product_updated i.product_id;
  source_version = next_version i.product_id locked;
}

abbrev pub sale_events : List ProductRow → List CartRow → List EventRow
sale_events locked [] = []
sale_events locked (i ∷ is) = sale_event locked i ∷ sale_events locked is

absent-decrement :
    (p v q : ℕ) (rs : List ProductRow)
    → find_product p rs ≡ none
    → (map (decrement_row p v q) rs ≡ rs) × (selects p v rs ≡ false)
unfolding find_product decrement_row selects
absent-decrement p v q [] h = (refl, refl)
absent-decrement p v q (r ∷ rs) h = ground (arith, absent-decrement p v q rs)

absent-sell_one :
    (i : CartRow) (rs : List ProductRow)
    → find_product i.product_id rs ≡ none
    → map (sell_one i) rs ≡ rs
unfolding find_product
absent-sell_one i [] h = refl
absent-sell_one i (r ∷ rs) h = ground (arith, absent-sell_one i rs)

decrement-sell_one :
    (i : CartRow) (v : ℕ) (rs : List ProductRow)
    → IsKeyed rs
    → selects i.product_id v rs ≡ true
    → map (decrement_row i.product_id v (quantity i)) rs ≡ map (sell_one i) rs
unfolding decrement_row selects
decrement-sell_one i v [] k h = cc
decrement-sell_one i v (r ∷ rs) k h = ground (
  arith,
  absent-decrement i.product_id v (quantity i) rs,
  absent-sell_one i rs,
  decrement-sell_one i v rs k.1,
)

find_product-sell_one :
    (p : ℕ) (i : CartRow) (rs : List ProductRow)
    → find_product p rs ≡ none
    → find_product p (map (sell_one i) rs) ≡ none
unfolding find_product
find_product-sell_one p i [] h = refl
find_product-sell_one p i (r ∷ rs) h = ground (arith, find_product-sell_one p i rs)

sell_one-IsKeyed : (i : CartRow) (rs : List ProductRow) → IsKeyed rs → IsKeyed (map (sell_one i) rs)
unfolding find_product
sell_one-IsKeyed i [] k = tt
sell_one-IsKeyed i (r ∷ rs) k =
    ground (arith, sell_one-IsKeyed i rs k.1, find_product-sell_one r.id i rs k.0)

module _ {D : Type 0} where
  pub take_item_lem :
      (i : CartRow) (r : ProductRow) (db db' : Db D)
      → take_item i r db ≡ (ok tt, db')
      → (selects i.product_id r.version db.products ≡ true)
        × (db' ≡ record db {
          products = map (decrement_row i.product_id r.version (quantity i)) db.products;
          outbox =
              db.outbox
              ++ record { event = product_updated i.product_id; source_version = r.version + 1 }
                ∷ [];
        })
  unfolding take_item
  take_item_lem i r db db' h = ground arith

  take_items_lem :
      (locked : List ProductRow) (is : List CartRow) (db db' : Db D)
      → IsKeyed db.products
      → take_items locked is db ≡ (ok tt, db')
      → db'
        ≡ record db { products = sell is db.products; outbox = db.outbox ++ sale_events locked is }
  unfolding take_items
  take_items_lem locked [] db db' k h = ground (arith, append-nil db.outbox)
  take_items_lem locked (i ∷ is) db db' k h =
      elim (Option-cases (find_product i.product_id locked)) [
        | inl e ↦ absurd (ground arith)
        | inr (r, e) ↦
            let (u, mid, taken, rest) =
              >>=-eq-ok (take_item i r) (λ _. take_items locked is) db db' (rw e at h) in
            let (hit, m) = take_item_lem i r db mid taken in
            let sold = decrement-sell_one i r.version db.products k hit in
            let products : mid.products ≡ map (sell_one i) db.products = rw m sold in
            let keyed : IsKeyed mid.products = rw products (sell_one-IsKeyed i db.products k) in
            let ih = take_items_lem locked is mid db' keyed rest in
            let events =
              append_assoc db.outbox
                (record { event = product_updated i.product_id; source_version = r.version + 1 }
                  ∷ [])
                (sale_events locked is) in
            ground arith
      ]

  -- The parts of a successful reservation.
  pub reserve_stock_steps :
      (items : List CartRow) (locked : List ProductRow) (db db' : Db D)
      → reserve_stock items db ≡ (ok locked, db')
      → (items ≢ [])
        × (locked ≡ locked_rows (map (λ (i : CartRow). i.product_id) items) db.products)
        × (check_items locked items ≡ ok tt)
        × (take_items locked items db ≡ (ok tt, db'))
  unfolding reserve_stock do_reserve_stock lock_products_for_update
  reserve_stock_steps [] locked db db' h = absurd (ground arith)
  reserve_stock_steps (i ∷ is) locked db db' h =
      let ids = i.product_id ∷ map (λ (i : CartRow). i.product_id) is in
      let rows = locked_rows ids db.products in
      elim (Result-cases (check_items rows (i ∷ is))) [
        | inr (x, e) ↦ absurd (let g = rw (e, do_reserve_stock) at h in cc g)
        | inl (u, e) ↦
            let (u', mid, taken, rest) =
              >>=-eq-ok (take_items rows (i ∷ is)) (λ _. λ (d : Db D). (ok rows, d)) db db'
                (rw (e, do_reserve_stock) at h) in
            let same : rows ≡ locked = ground arith in
            let same_db : mid ≡ db' = ground arith in
            let run = λ (l : List ProductRow). take_items l (i ∷ is) db in
            let result = λ (d : Db D). (let out : Result (Unit {0}) × Db D = (ok tt, d) in out) in
            ((λ x. cc), sym same, rw (← same) e, sym (ap run same) ∙ taken ∙ ap result same_db)
      ]

  -- A successful reservation was made for a non-empty cart; it returns the rows that it locked,
  -- takes each item off its product and counts up that product's version, and appends one outbox
  -- row per item. Nothing else in the tables changes.
  pub reserve_stock_lem :
      (items : List CartRow) (locked : List ProductRow) (db db' : Db D)
      → IsKeyed db.products
      → reserve_stock items db ≡ (ok locked, db')
      → (items ≢ [])
        × (locked ≡ locked_rows (map (λ (i : CartRow). i.product_id) items) db.products)
        × (check_items locked items ≡ ok tt)
        × (db' ≡ record db {
          products = sell items db.products;
          outbox = db.outbox ++ sale_events locked items;
        })
  reserve_stock_lem items locked db db' k h =
      let (some_items, rows, checked, taken) = reserve_stock_steps items locked db db' h in
      (some_items, rows, checked, take_items_lem locked items db db' k taken)
