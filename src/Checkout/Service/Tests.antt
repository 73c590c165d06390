-- ===== src/Checkout/Service/Tests.antt =====
-- A checkout of two teas, and the theorems of the service there.
use tri_ad_backend.Base.{ℕ, zero, suc, ◌+◌, ◌≤◌, ◌≡◌, refl, Bool, true, false, none, some, [], ◌∷◌}
use tri_ad_backend.Shared.Money
use tri_ad_backend.Shared.Errors.{Result, ok, pending}
use tri_ad_backend.Shared.Events.{PaymentStatus}
use tri_ad_backend.Shared.Tests.{ascii, email_text, email, number_text, number, phone_text, phone}
use tri_ad_backend.Orders.Order.{Order}
use tri_ad_backend.Orders.Order
use tri_ad_backend.Checkout.Db.{Db, OrderRow}
use tri_ad_backend.Checkout.Stock.Reservation.{IsKeyed}
use tri_ad_backend.Checkout.Tests.{hundredths, shop, two_teas, priced}
use tri_ad_backend.Checkout.Service.{User, CheckoutInput, Attempt}
use tri_ad_backend.Checkout.Service.Placing.{Placement, place_order_lem}
use tri_ad_backend.Checkout.Service.Retry.{execute_with_retry-ok}
use tri_ad_backend.Checkout.Service.Again.{checkout_again}
use tri_ad_backend.Shared.Number.{positive_safe, nonneg_safe}
use tri_ad_backend.Shared.Text.{
  is_space, is_digit, is_capital, trim_start, trim, remove_all, collapse_from, collapse_spaces,
  same_text,
}
use tri_ad_backend.Shared.ValueObjects.{
  is_plain, has_inner_dot, is_domain, has_at, matches_email, new_email, new_address, is_order_char,
  matches_order_number, new_order_number, is_phone_separator, is_phone_digits, matches_phone,
  new_phone_number,
}
use tri_ad_backend.Shared.Aggregate.{new_root, raise, pull_events}
use tri_ad_backend.Orders.Order.{
  item_total, sum_items, subtotal, total, assert_mutable, find_item, replace_item, merge_item,
  add_item, apply_pricing,
}
use tri_ad_backend.Orders.Lifecycle.{snapshot, placed_event, place}
use tri_ad_backend.Checkout.Db.{
  locked_rows, selects, decrement_row, lock_products_for_update, decrement_product_stock,
  persist_product_event,
}
use tri_ad_backend.Checkout.Stock.{
  find_product, positive, is_short, check_item, check_items, take_item, take_items,
  do_reserve_stock, reserve_stock,
}
use tri_ad_backend.Checkout.Pricing.{
  has_uses, find_by_code, can_use, count_use, find_discount_by_code, increment_discount_usage,
  use_discount, check_discount, create_double, multiply_double, raw_amount, price_discount,
  price_code, price, calculate_pricing,
}
use tri_ad_backend.Checkout.Save.{
  find_by_key, find_by_id, key_taken, number_taken, id_taken, event_rows, other_carts,
  save_new_order, clear_cart_items, commit, run,
}
use tri_ad_backend.Checkout.Service.{
  order_phone, add_cart_items, check_expected, existing_order, cart_rows, retry_on, build_order,
  price_order, store_order, place_order, execute_with_retry, finish, checkout_cart, checkout_new,
  checkout,
}

abbrev an : User
an = record { full_name = []; email = email_text; phone = none; cart = some 1 }

abbrev input : CheckoutInput
input = record {
  idempotency_key = some 77;
  payment_method = 0;
  address = b'H' ∷ b'N' ∷ [];
  phone = phone_text;
  notes = none;
  discount_code = some (b'T' ∷ []);
  expected_total = some 330_000;
}

-- The database aborts the first attempt.
abbrev env : ℕ → Attempt ℕ
env k = record {
  enabled = true;
  now = 500;
  id = 40 + k;
  order_number = number_text;
  aborts = elim k [ zero ↦ true | suc n ↦ false ];
  meanwhile = λ db. db;
}

-- The order as it is stored.
abbrev bought : Order
bought = record {
  root = record { id = 41; domain_events = []; version = 0 };
  user_id = 5;
  order_number = number;
  status = pending;
  created_at = 500;
  customer_name = [];
  customer_email = email;
  customer_phone = phone;
  customer_address = b'H' ∷ b'N' ∷ [];
  payment_method = 0;
  payment_status = PaymentStatus.pending;
  discount_amount = priced.discount_amount;
  shipping_fee = priced.shipping_fee;
  tax = priced.tax;
  notes = none;
  discount_code = some (b'T' ∷ []);
  items =
      record {
        product_id = 7;
        product_name = [];
        quantity = 2;
        unit_price = record { amount = 150_000; currency = Money.vnd };
      }
      ∷ [];
  has_been_placed = true;
}

abbrev bought_row : OrderRow
bought_row = record {
  order = bought;
  subtotal = 300_000;
  total = 330_000;
  idempotency_key = some 77;
}

abbrev later : Db ℕ
later = (place_order ascii hundredths input 5 an 1 (two_teas ∷ []) (env 1) shop).1

-- The run of its transaction, of the attempts and of the checkout.
runs :
    (place_order ascii hundredths input 5 an 1 (two_teas ∷ []) (env 1) shop ≡ (ok bought, later))
    × (execute_with_retry ascii hundredths input 5 an 1 (two_teas ∷ []) env 5 0 shop
        ≡ (ok bought, later))
    × (checkout ascii hundredths 5 input (some an) env shop ≡ (ok (bought_row, false), later))
unfolding Money.create Money.add Money.subtract Money.multiply Money.less_than positive_safe
    nonneg_safe is_space is_digit is_capital trim_start trim remove_all collapse_from
    collapse_spaces is_plain has_inner_dot is_domain has_at matches_email new_email new_address
    is_order_char matches_order_number new_order_number is_phone_separator is_phone_digits
    matches_phone new_phone_number new_root raise pull_events item_total sum_items subtotal total
    assert_mutable find_item replace_item merge_item add_item apply_pricing Order.create snapshot
    placed_event place locked_rows selects decrement_row lock_products_for_update
    decrement_product_stock persist_product_event find_product positive is_short check_item
    check_items take_item take_items do_reserve_stock reserve_stock same_text has_uses find_by_code
    can_use count_use find_discount_by_code increment_discount_usage use_discount check_discount
    create_double multiply_double raw_amount price_discount price_code price calculate_pricing
    find_by_key find_by_id key_taken number_taken id_taken event_rows other_carts save_new_order
    clear_cart_items commit run order_phone add_cart_items check_expected existing_order cart_rows
    retry_on build_order price_order store_order place_order execute_with_retry finish checkout_cart
    checkout_new checkout
runs = (refl, refl, refl)

-- A database whose products are keyed.
abbrev Keyed : Db ℕ → Type 0
Keyed db = IsKeyed db.products

shop-Keyed : Keyed shop
unfolding find_product
shop-Keyed = (refl, (refl, tt))

place_order_lem_example :
    Placement ascii hundredths input 5 an 1 (two_teas ∷ []) (env 1) bought shop later
place_order_lem_example =
    place_order_lem ascii hundredths input 5 an 1 (two_teas ∷ []) (env 1) bought shop later
      shop-Keyed runs.0

execute_with_retry-ok_example :
    (j : ℕ) × (j ≤ 5)
    × (mid : Db ℕ) × Keyed mid
    × (place_order ascii hundredths input 5 an 1 (two_teas ∷ []) (env (0 + j)) mid
        ≡ (ok bought, later))
execute_with_retry-ok_example =
    execute_with_retry-ok ascii hundredths input 5 an 1 (two_teas ∷ []) env Keyed (λ k db h. h) 5 0
      shop later bought shop-Keyed runs.1

-- A checkout with another cart and no price expected, of the same key.
abbrev again : CheckoutInput
again = record input { expected_total = none; discount_code = none }

checkout_again_example :
    checkout ascii hundredths 5 again none env later ≡ (ok (bought_row, true), later)
checkout_again_example =
    checkout_again ascii hundredths input 5 env Keyed (λ k db h. h) (λ db h. h) (some an) shop later
      77 bought_row false again none env shop-Keyed refl refl runs.2

-- A checkout at a total that is no longer right.
abbrev outdated : CheckoutInput
outdated = record input { expected_total = some 1 }

abbrev refusal : Result (OrderRow × Bool) × Db ℕ
refusal = checkout ascii hundredths 5 outdated (some an) env shop
