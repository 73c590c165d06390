-- ===== src/Orders/Lifecycle.antt =====
-- src/modules/orders/domain/order.entity.ts, second half: placing an order, the status machine and
-- the reconstruction of a stored order.
pub mod Trail
pub mod Stages
use tri_ad_backend.Base.{
  ℕ, Bool, true, false, not, ◌||◌, Option, none, some, List, [], ◌∷◌, ◌++◌, map, ◌==◌,
  if◌then◌else◌, length,
}
use tri_ad_backend.Base.Int.{ℤ}
use tri_ad_backend.Shared.Money.{Money, vnd}
use tri_ad_backend.Shared.Money
use tri_ad_backend.Shared.Text.{Text, Unicode}
use tri_ad_backend.Shared.ValueObjects.{new_email, new_address, new_order_number, new_phone_number}
use tri_ad_backend.Shared.Aggregate.{new_root, raise, set_version_from_persistence}
use tri_ad_backend.Shared.Events.{
  PaymentStatus, ItemSnapshot, DomainEvent, order_placed, order_status_changed, order_cancelled,
}
use tri_ad_backend.Shared.Errors.{
  OrderStatus, pending, processing, shipped, delivered, cancelled, not_pending, already_delivered,
  already_cancelled, domain, order_not_mutable, empty_order, order_already_placed,
  invalid_order_transition, order_not_cancellable, Result, ok, err, ◌>>=◌, ◌>>◌, throw_if,
}
use tri_ad_backend.Orders.Order.{Order, OrderItem, subtotal, total, same_status}

unfoldable pub snapshot : OrderItem → ItemSnapshot
snapshot i = record {
  product_id = i.product_id;
  product_name = i.product_name;
  quantity = i.quantity;
  unit_price = i.unit_price.amount;
}

abbrev pub with_event : DomainEvent → Order → Order
with_event e o = record o { root = raise e o.root }

-- The event that `place` raises for the totals that it has computed.
unfoldable pub placed_event : Order → ℕ → ℕ → DomainEvent
placed_event o sub tot = order_placed (record {
  order_id = o.id;
  user_id = o.user_id;
  order_number = o.order_number;
  customer_name = o.customer_name;
  customer_email = o.customer_email;
  payment_status = o.payment_status;
  subtotal = sub;
  tax = o.tax.amount;
  shipping_fee = o.shipping_fee.amount;
  total = tot;
  items = map snapshot o.items;
})

unfoldable pub place : Order → Result Order
place o = do
  throw_if o.has_been_placed (domain order_already_placed)
  throw_if (not (same_status o.status pending)) (domain (order_not_mutable not_pending))
  throw_if (length o.items == 0) (domain empty_order)
  sub ← subtotal o
  tot ← total o
  ok (with_event (placed_event o sub.amount tot.amount) (record o { has_been_placed = true }))

-- `ALLOWED_TRANSITIONS`
allowed_transitions : OrderStatus → List OrderStatus
allowed_transitions pending = processing ∷ cancelled ∷ []
allowed_transitions processing = shipped ∷ cancelled ∷ []
allowed_transitions shipped = delivered ∷ []
allowed_transitions delivered = []
allowed_transitions cancelled = []

includes : List OrderStatus → OrderStatus → Bool
includes [] s = false
includes (t ∷ ts) s = same_status t s || includes ts s

-- `Order.canTransition`
pub can_transition : OrderStatus → OrderStatus → Bool
unfolding allowed_transitions includes
can_transition current next = includes (allowed_transitions current) next

pub transition_status : OrderStatus → Order → Result Order
transition_status new o = do
  throw_if (not (can_transition o.status new)) (domain (invalid_order_transition o.status new))
  ok (with_event (order_status_changed o.id o.status new o.user_id) (record o { status = new }))

pub confirm : Order → Result Order
confirm = transition_status processing

pub ship : Order → Result Order
ship = transition_status shipped

pub deliver : Order → Result Order
deliver = transition_status delivered

pub cancel : Order → Result Order
cancel o = do
  throw_if (same_status o.status delivered) (domain (order_not_cancellable already_delivered))
  throw_if (same_status o.status cancelled) (domain (order_not_cancellable already_cancelled))
  c ← transition_status cancelled o
  ok (with_event (order_cancelled o.id o.user_id) c)

-- A stored item; its price is an integer by `toSafeMoneyNumber`, its quantity one that was placed.
pub record ItemRow : Type 0 where
  pub product_id : ℕ
  pub product_name : Text
  pub quantity : ℕ
  pub price : ℤ

pub record OrderData : Type 0 where
  pub id : ℕ
  pub user_id : ℕ
  pub order_number : Text
  pub status : OrderStatus
  pub created_at : ℕ
  pub customer_name : Text
  pub customer_email : Text
  pub customer_phone : Text
  pub customer_address : Text
  pub payment_method : ℕ
  pub payment_status : PaymentStatus
  pub discount_amount : ℤ
  pub shipping_fee : ℤ
  pub tax : ℤ
  pub notes : Option Text
  pub discount_code : Option Text
  pub items : List ItemRow
  pub version : Option ℕ

pub hydrate_items : List ItemRow → Result (List OrderItem)
hydrate_items [] = ok []
hydrate_items (r ∷ rs) = do
  price ← Money.create r.price vnd
  rest ← hydrate_items rs
  ok (
      record {
        product_id = r.product_id;
        product_name = r.product_name;
        quantity = r.quantity;
        unit_price = price;
      }
      ∷ rest)

with_version : Option ℕ → Order → Order
with_version none o = o
with_version (some v) o = record o { root = set_version_from_persistence v o.root }

unfoldable hydrate : Unicode → OrderData → Result Order
unfolding with_version hydrate_items
hydrate u d = do
  order_number ← new_order_number u d.order_number
  email ← new_email u d.customer_email
  phone ← new_phone_number d.customer_phone
  address ← new_address d.customer_address
  discount ← Money.create d.discount_amount vnd
  fee ← Money.create d.shipping_fee vnd
  tax ← Money.create d.tax vnd
  items ← hydrate_items d.items
  ok (
      with_version d.version (record {
        root = new_root d.id;
        user_id = d.user_id;
        order_number = order_number;
        status = d.status;
        created_at = d.created_at;
        customer_name = d.customer_name;
        customer_email = email;
        customer_phone = phone;
        customer_address = address;
        payment_method = d.payment_method;
        payment_status = d.payment_status;
        discount_amount = discount;
        shipping_fee = fee;
        tax = tax;
        notes = d.notes;
        discount_code = d.discount_code;
        items = items;
        has_been_placed = true;
      }))
