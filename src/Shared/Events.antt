-- ===== src/Shared/Events.antt =====
-- src/shared/domain/events: the domain events, with the fields that their constructors take (the
-- event id and the time that `BaseDomainEvent` adds are left out). Identifiers are only
-- compared, so they are numbers.
use tri_ad_backend.Base.{ℕ, List}
use tri_ad_backend.Base.Int.{ℤ}
use tri_ad_backend.Shared.Errors.{OrderStatus}
use tri_ad_backend.Shared.Text.{Text}

pub data PaymentStatus : Type 0 where
  pending paid failed refunded : PaymentStatus

-- `OrderPlacedItemSnapshot`
pub record ItemSnapshot : Type 0 where
  pub product_id : ℕ
  pub product_name : Text
  pub quantity : ℕ
  pub unit_price : ℕ

-- `OrderPlacedEvent`
pub record OrderPlaced : Type 0 where
  pub order_id : ℕ
  pub user_id : ℕ
  pub order_number : Text
  pub customer_name : Text
  pub customer_email : Text
  pub payment_status : PaymentStatus
  pub subtotal : ℕ
  pub tax : ℕ
  pub shipping_fee : ℕ
  pub total : ℕ
  pub items : List ItemSnapshot

pub data DomainEvent : Type 0 where
  order_placed : OrderPlaced → DomainEvent
  -- The order, its old and new status, and the user.
  order_status_changed : ℕ → OrderStatus → OrderStatus → ℕ → DomainEvent
  order_cancelled : ℕ → ℕ → DomainEvent
  -- The cart, the user, the product and the change of the quantity.
  cart_item_added : ℕ → ℕ → ℕ → ℤ → DomainEvent
  cart_item_removed : ℕ → ℕ → ℕ → DomainEvent
  cart_cleared : ℕ → ℕ → DomainEvent
  product_created product_updated product_activated product_deactivated : ℕ → DomainEvent
  review_created review_deleted : ℕ → DomainEvent
  -- The product and its old and new price.
  product_price_changed : ℕ → ℕ → ℕ → DomainEvent
  -- The product, the quantity and the resulting stock.
  product_restocked : ℕ → ℕ → ℕ → DomainEvent
  product_stock_depleted : ℕ → Text → DomainEvent
  user_registered : ℕ → Text → DomainEvent
  user_email_verified user_password_changed user_two_factor_enabled user_two_factor_disabled :
      ℕ → DomainEvent
