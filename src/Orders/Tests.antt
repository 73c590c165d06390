-- ===== src/Orders/Tests.antt =====
-- Runs of the order aggregate, and its theorems at concrete orders.
use tri_ad_backend.Base.{ℕ, ◌≡◌, ◌↔◌, refl, inl, true, false, none, some, [], ◌∷◌, arith}
use tri_ad_backend.Base.Int.{pos}
use tri_ad_backend.Shared.Number.{integer, not_integer, positive_safe}
use tri_ad_backend.Shared.Money.{Money, zero_money}
use tri_ad_backend.Shared.Money
use tri_ad_backend.Shared.Events.{PaymentStatus}
use tri_ad_backend.Shared.Errors.{
  pending, delivered, already_placed, domain, order_not_mutable, invalid_order_item, ok, err,
}
use tri_ad_backend.Orders.Order.{
  Order, OrderItem, add_item, remove_item, splice_item, sum_items, item_total, subtotal, total,
  assert_mutable, find_item, replace_item, merge_item,
}
use tri_ad_backend.Orders.Order.Totals.{IsInVnd, vnd_money}
use tri_ad_backend.Orders.Order.Items.{AreValid, Adds, Drops, add_item_lem, remove_item_lem}
use tri_ad_backend.Orders.Lifecycle.{place}
use tri_ad_backend.Orders.Lifecycle.Trail.{
  Extends, removes, places, confirms, ships, delivers, cancels, run, run-Extends,
}
use tri_ad_backend.Orders.Lifecycle.Stages.{
  CanPlace, placed, place_exactly, SamePrice, run-SamePrice, run_final,
}

abbrev tea : OrderItem
tea = record { product_id = 7; product_name = []; quantity = 2; unit_price = vnd_money 150_000 }

abbrev cup : OrderItem
cup = record { product_id = 9; product_name = []; quantity = 1; unit_price = vnd_money 80_000 }

-- A draft with a tax of 10 per cent, a fee of 30,000 and a discount of 20,000.
abbrev draft : Order
draft = record {
  root = record { id = 1; domain_events = []; version = 0 };
  user_id = 5;
  order_number = [];
  status = pending;
  created_at = 0;
  customer_name = [];
  customer_email = [];
  customer_phone = [];
  customer_address = [];
  payment_method = 0;
  payment_status = PaymentStatus.pending;
  discount_amount = vnd_money 20_000;
  shipping_fee = vnd_money 30_000;
  tax = vnd_money 38_000;
  notes = none;
  discount_code = none;
  items = tea ∷ cup ∷ [];
  has_been_placed = false;
}

abbrev sent : Order
sent = record draft { has_been_placed = true; status = delivered }

draft_total : total draft ≡ ok (vnd_money 428_000)
unfolding total subtotal sum_items item_total Money.multiply Money.add Money.subtract
draft_total = refl

-- An item after placing is refused, with the reason.
add_to_placed :
    add_item 3 [] (integer (pos 1)) zero_money sent
    ≡ err (domain (order_not_mutable already_placed))
unfolding add_item assert_mutable
add_to_placed = refl

-- NaN is no quantity.
add_nothing : add_item 3 [] not_integer zero_money draft ≡ err (domain invalid_order_item)
unfolding add_item assert_mutable positive_safe
add_nothing = refl

draft-IsInVnd : IsInVnd draft
draft-IsInVnd = record {
  prices = (refl, (refl, tt));
  tax_vnd = refl;
  fee_vnd = refl;
  discount_vnd = refl;
}

draft-AreValid : AreValid draft.items
unfolding find_item
draft-AreValid = (refl, omega arith, omega arith, (refl, omega arith, omega arith, tt))

place_exactly_example :
    (place draft ≡ ok (placed draft)) ↔ (CanPlace draft × (placed draft ≡ placed draft))
place_exactly_example = place_exactly draft (placed draft) draft-IsInVnd

run-Extends_example :
    Extends draft (run draft (places ∷ ships ∷ confirms ∷ cancels ∷ delivers ∷ []))
run-Extends_example = run-Extends draft (places ∷ ships ∷ confirms ∷ cancels ∷ delivers ∷ [])

run-SamePrice_example : SamePrice sent (run sent (removes 7 ∷ cancels ∷ []))
run-SamePrice_example = run-SamePrice sent (removes 7 ∷ cancels ∷ []) refl

run_final_example : run sent (cancels ∷ confirms ∷ removes 7 ∷ []) ≡ sent
run_final_example = run_final sent (cancels ∷ confirms ∷ removes 7 ∷ []) (inl refl)

abbrev more_tea : Order
more_tea = record draft { items = record tea { quantity = 5 } ∷ cup ∷ [] }

add_item_lem_example :
    (q : ℕ) × (positive_safe (integer (pos 3)) ≡ some q)
    × AreValid more_tea.items
    × Adds 7 q draft more_tea
unfolding add_item assert_mutable positive_safe find_item merge_item replace_item
add_item_lem_example =
    add_item_lem 7 [] (integer (pos 3)) (vnd_money 150_000) draft more_tea refl draft-AreValid

abbrev no_tea : Order
no_tea = record draft { items = cup ∷ [] }

remove_item_lem_example : AreValid no_tea.items × Drops 7 draft no_tea
unfolding remove_item assert_mutable splice_item
remove_item_lem_example = remove_item_lem 7 draft no_tea refl draft-AreValid
