-- ===== src/Orders/Order.antt =====
-- src/modules/orders/domain/order.entity.ts: the items of an order, its totals, and its mutation
-- before it is placed. A method returns the new order or what it throws; in the source each throw
-- stands before the first assignment, so an error carries no order.
pub mod Totals
pub mod Items
use tri_ad_backend.Base.{
  ℕ, ◌+◌, ◌≡◌, Bool, true, false, not, ◌||◌, Option, none, some, List, [], ◌∷◌, ◌++◌, map, ltb, leb,
  ◌==◌, if◌then◌else◌, length,
}
use tri_ad_backend.Base.Int.{ℤ, pos}
use tri_ad_backend.Shared.Number.{Number, positive_safe, max_safe}
use tri_ad_backend.Shared.Money.{Money, vnd, zero_money}
use tri_ad_backend.Shared.Money
use tri_ad_backend.Shared.Text.{Text, Unicode}
use tri_ad_backend.Shared.ValueObjects.{new_email, new_address, new_order_number, new_phone_number}
use tri_ad_backend.Shared.Aggregate.{AggregateRoot, new_root, raise, set_version_from_persistence}
use tri_ad_backend.Shared.Events.{
  PaymentStatus, order_placed, order_status_changed, order_cancelled,
}
use tri_ad_backend.Shared.Errors.{
  OrderStatus, pending, processing, shipped, delivered, cancelled, already_placed, not_pending,
  already_delivered, already_cancelled, domain, order_not_mutable, invalid_order_item,
  invalid_discount, empty_order, order_already_placed, invalid_order_transition,
  order_not_cancellable, Result, ok, err, ◌>>=◌, ◌>>◌, throw_if, or_throw,
}

pub record OrderItem : Type 0 where
  pub product_id : ℕ
  pub product_name : Text
  pub quantity : ℕ
  pub unit_price : Money

pub record Order : Type 0 where
  pub root : AggregateRoot
  pub open root use *
  pub user_id : ℕ
  pub order_number : Text
  pub status : OrderStatus
  pub created_at : ℕ
  pub customer_name : Text
  pub customer_email : Text
  pub customer_phone : Text
  pub customer_address : Text
  pub payment_method : ℕ
  pub payment_status : PaymentStatus
  pub discount_amount : Money
  pub shipping_fee : Money
  pub tax : Money
  pub notes : Option Text
  pub discount_code : Option Text
  pub items : List OrderItem
  pub has_been_placed : Bool

-- The argument of `Order.create`, with the time that `new Date()` gives.
pub record OrderProps : Type 0 where
  pub id : ℕ
  pub user_id : ℕ
  pub order_number : Text
  pub now : ℕ
  pub customer_name : Text
  pub customer_email : Text
  pub customer_phone : Text
  pub customer_address : Text
  pub payment_method : ℕ
  pub notes : Option Text

unfoldable pub create : Unicode → OrderProps → Result Order
unfolding new_root
create u p = do
  order_number ← new_order_number u p.order_number
  email ← new_email u p.customer_email
  phone ← new_phone_number p.customer_phone
  address ← new_address p.customer_address
  ok (record {
    root = new_root p.id;
    user_id = p.user_id;
    order_number = order_number;
    status = pending;
    created_at = p.now;
    customer_name = p.customer_name;
    customer_email = email;
    customer_phone = phone;
    customer_address = address;
    payment_method = p.payment_method;
    payment_status = PaymentStatus.pending;
    discount_amount = zero_money;
    shipping_fee = zero_money;
    tax = zero_money;
    notes = p.notes;
    discount_code = none;
    items = [];
    has_been_placed = false;
  })

-- `OrderItem.total`
unfoldable pub item_total : OrderItem → Result Money
item_total i = Money.multiply i.unit_price (pos i.quantity)

-- The `reduce` of `subtotal`, from the sum so far.
unfoldable pub sum_items : Money → List OrderItem → Result Money
sum_items sum [] = ok sum
sum_items sum (i ∷ is) = do t ← item_total i; s ← Money.add sum t; sum_items s is

unfoldable pub subtotal : Order → Result Money
subtotal o = sum_items zero_money o.items

unfoldable pub total : Order → Result Money
total o = do
  sub ← subtotal o
  taxed ← Money.add sub o.tax
  gross ← Money.add taxed o.shipping_fee
  throw_if (ltb gross.amount o.discount_amount.amount) (domain invalid_discount)
  Money.subtract gross o.discount_amount

-- The position of a status in the declaration, by which statuses are compared.
abbrev pub status_index : OrderStatus → ℕ
status_index pending = 0
status_index processing = 1
status_index shipped = 2
status_index delivered = 3
status_index cancelled = 4

abbrev pub same_status : OrderStatus → OrderStatus → Bool
same_status s t = status_index s == status_index t

unfoldable pub assert_mutable : Order → Result (Unit {0})
assert_mutable o = do
  throw_if o.has_been_placed (domain (order_not_mutable already_placed))
  throw_if (not (same_status o.status pending)) (domain (order_not_mutable not_pending))

-- `_items.find((item) => item.productId === productId)`
unfoldable pub find_item : ℕ → List OrderItem → Option OrderItem
find_item p [] = none
find_item p (i ∷ is) = if i.product_id == p then some i else find_item p is

-- `_items[idx] = item` for the index of the first item with the product.
unfoldable pub replace_item : ℕ → OrderItem → List OrderItem → List OrderItem
replace_item p new [] = []
replace_item p new (i ∷ is) = if i.product_id == p then new ∷ is else i ∷ replace_item p new is

-- The items after a quantity has been merged with what `find` returned, or pushed.
unfoldable pub merge_item :
    ℕ → Text → ℕ → Money → Option OrderItem → List OrderItem → Result (List OrderItem)
merge_item p name q price none items =
    ok (
      items
      ++ record { product_id = p; product_name = name; quantity = q; unit_price = price } ∷ [])
merge_item p name q price (some i) items = do
  throw_if (not (i.unit_price.amount == price.amount)) (domain invalid_order_item)
  throw_if (ltb max_safe (i.quantity + q)) (domain invalid_order_item)
  ok (replace_item p (record i { quantity = i.quantity + q }) items)

unfoldable pub add_item : ℕ → Text → Number → Money → Order → Result Order
unfolding merge_item
add_item p name n price o = do
  assert_mutable o
  q ← or_throw (positive_safe n) (domain invalid_order_item)
  items ← merge_item p name q price (find_item p o.items) o.items
  ok (record o { items = items })

-- `findIndex` and `splice`: the first item with the product goes.
unfoldable pub splice_item : ℕ → List OrderItem → List OrderItem
splice_item p [] = []
splice_item p (i ∷ is) = if i.product_id == p then is else i ∷ splice_item p is

unfoldable pub remove_item : ℕ → Order → Result Order
remove_item p o = do assert_mutable o; ok (record o { items = splice_item p o.items })

pub record Pricing : Type 0 where
  pub tax : Money
  pub shipping_fee : Money
  pub discount_amount : Money
  pub discount_code : Option Text

unfoldable pub apply_pricing : Pricing → Order → Result Order
apply_pricing pricing o = do
  assert_mutable o
  sub ← subtotal o
  throw_if (ltb sub.amount pricing.discount_amount.amount) (domain invalid_discount)
  ok (record o {
    tax = pricing.tax;
    shipping_fee = pricing.shipping_fee;
    discount_amount = pricing.discount_amount;
    discount_code = pricing.discount_code;
  })
