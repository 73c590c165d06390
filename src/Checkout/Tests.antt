-- ===== src/Checkout/Tests.antt =====
-- A shop with one product in the cart, and the checkout's theorems there.
use tri_ad_backend.Base.{
  ℕ, ◌+◌, ◌*◌, ◌/◌, ◌≡◌, ◌≢◌, ◌↔◌, refl, true, false, some, [], ◌∷◌, ◌++◌, map, All,
}
use tri_ad_backend.Base.Int.{pos}
use tri_ad_backend.Shared.Text.{same_text}
use tri_ad_backend.Shared.Money.{Money, vnd}
use tri_ad_backend.Shared.Money
use tri_ad_backend.Shared.Errors.{ok}
use tri_ad_backend.Checkout.Db.{
  Db, ProductRow, DiscountRow, CartRow, locked_rows, selects, lock_products_for_update,
  decrement_product_stock, persist_product_event,
}
use tri_ad_backend.Orders.Order.{Pricing}
use tri_ad_backend.Checkout.Stock.{
  find_product, positive, is_short, check_item, check_items, take_item, take_items,
  do_reserve_stock, reserve_stock,
}
use tri_ad_backend.Checkout.Stock.Reservation.{sell, sale_events, reserve_stock_lem}
use tri_ad_backend.Checkout.Stock.Nonneg.{IsNonneg, reserve_stock-IsNonneg}
use tri_ad_backend.Checkout.Pricing.{
  Doubles, calculate_pricing, preview_pricing, price, price_code, price_discount,
  find_discount_by_code, find_by_code, check_discount, use_discount, increment_discount_usage,
  can_use, has_uses, raw_amount, multiply_double, create_double,
}
use tri_ad_backend.Checkout.Pricing.Bounds.{IsPrice, price-IsPrice}
use tri_ad_backend.Checkout.Pricing.Preview.{preview_agrees}

-- Numbers in hundredths in place of doubles.
abbrev pub hundredths : Doubles
hundredths = record {
  Double = ℕ;
  tax_rate = 10;
  percent = λ n. n / 100;
  times = λ n f. n * f;
  is_finite = λ n. true;
  is_negative = λ n. false;
  round = λ n. (n + 50) / 100;
}

abbrev pub tea : ProductRow
tea = record {
  id = 7;
  name = [];
  price = pos 150_000;
  stock = pos 10;
  version = 3;
  is_active = true;
}

-- A discount of 10 per cent that can be used once more.
abbrev pub tenth : DiscountRow ℕ
tenth = record {
  id = 1;
  code = b'T' ∷ [];
  is_active = true;
  expires_at = some 900;
  min_order_amount = some 200_000;
  max_uses = some 5;
  used_count = 4;
  is_percentage = true;
  value = 1_000;
}

abbrev pub two_teas : CartRow
two_teas = record { cart_id = 1; product_id = 7; quantity = pos 2 }

abbrev pub shop : Db ℕ
shop = record {
  products = tea ∷ record tea { id = 8; version = 0 } ∷ [];
  discounts = tenth ∷ [];
  cart_items = two_teas ∷ record two_teas { cart_id = 2 } ∷ [];
  orders = [];
  outbox = [];
}

abbrev after_sale : Db ℕ
after_sale = (reserve_stock (two_teas ∷ []) shop).1

reserve_stock_lem_example :
    ((two_teas ∷ []) ≢ [])
    × (tea ∷ [] ≡ locked_rows (map (λ (i : CartRow). i.product_id) (two_teas ∷ [])) shop.products)
    × (check_items (tea ∷ []) (two_teas ∷ []) ≡ ok tt)
    × (after_sale ≡ record shop {
      products = sell (two_teas ∷ []) shop.products;
      outbox = shop.outbox ++ sale_events (tea ∷ []) (two_teas ∷ []);
    })
unfolding reserve_stock do_reserve_stock lock_products_for_update locked_rows check_items check_item
    find_product positive is_short take_items take_item decrement_product_stock selects
    persist_product_event
reserve_stock_lem_example =
    reserve_stock_lem (two_teas ∷ []) (tea ∷ []) shop after_sale (refl, (refl, tt)) refl

reserve_stock-IsNonneg_example : All IsNonneg after_sale.products
unfolding reserve_stock do_reserve_stock lock_products_for_update locked_rows check_items check_item
    find_product positive is_short take_items take_item decrement_product_stock selects
    persist_product_event
reserve_stock-IsNonneg_example =
    reserve_stock-IsNonneg (two_teas ∷ []) (tea ∷ []) shop after_sale (refl, (refl, tt))
      (refl, (refl, tt)) refl

abbrev pub subtotal : Money
subtotal = record { amount = 300_000; currency = vnd }

abbrev pub priced : Pricing
priced = record {
  tax = record { amount = 30_000; currency = vnd };
  shipping_fee = record { amount = 30_000; currency = vnd };
  discount_amount = record { amount = 30_000; currency = vnd };
  discount_code = some (b'T' ∷ []);
}

price-IsPrice_example : IsPrice hundredths subtotal priced
unfolding price multiply_double create_double price_code price_discount find_discount_by_code
    find_by_code same_text check_discount use_discount increment_discount_usage can_use has_uses
    raw_amount Money.create Money.less_than
price-IsPrice_example =
    price-IsPrice hundredths true 500 subtotal (some (b'T' ∷ [])) true shop
      (price hundredths true 500 subtotal (some (b'T' ∷ [])) true shop).1 priced refl refl

preview_agrees_example :
    ((preview_pricing hundredths true 500 subtotal (some (b'T' ∷ [])) shop).0 ≡ ok priced)
    ↔ ((calculate_pricing hundredths true 500 subtotal (some (b'T' ∷ [])) shop).0 ≡ ok priced)
preview_agrees_example =
    preview_agrees hundredths true 500 subtotal (some (b'T' ∷ [])) shop priced (refl, tt)
