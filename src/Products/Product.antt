-- ===== src/Products/Product.antt =====
-- src/modules/products/domain/product.entity.ts. In the source each throw stands before the first
-- assignment, so an error carries no product. The price is a `Money`, whose amount is a natural
-- number: the first guard of `changePrice` has no counterpart.
pub mod History
pub mod Stock
use tri_ad_backend.Base.{
  ℕ, ◌+◌, ◌-◌, Bool, true, false, not, Option, none, some, List, [], ◌∷◌, ltb, leb, ◌==◌,
  if◌then◌else◌,
}
use tri_ad_backend.Base.Int.{ℤ}
use tri_ad_backend.Shared.Number.{Number, positive_safe, nonneg_safe, max_safe}
use tri_ad_backend.Shared.Money.{Money, vnd}
use tri_ad_backend.Shared.Money
use tri_ad_backend.Shared.Text.{Text}
use tri_ad_backend.Shared.Aggregate.{AggregateRoot, new_root, raise, set_version_from_persistence}
use tri_ad_backend.Shared.Events.{
  DomainEvent, product_created, product_updated, product_activated, product_deactivated,
  product_price_changed, product_restocked, product_stock_depleted,
}
use tri_ad_backend.Shared.Errors.{
  domain, invalid_stock_quantity, insufficient_stock, product_already_active,
  product_already_inactive, Result, ok, ◌>>=◌, ◌>>◌, throw_if, or_throw,
}

pub record Product : Type 0 where
  pub root : AggregateRoot
  pub open root use *
  pub name : Text
  pub description : Option Text
  pub price : Money
  pub stock : ℕ
  pub category : Text
  pub images : List Text
  pub slug : Text
  pub is_active : Bool

abbrev pub with_event : DomainEvent → Product → Product
with_event e p = record p { root = raise e p.root }

pub mark_updated : Product → Product
mark_updated p = with_event (product_updated p.id) p

pub mark_created : Product → Product
mark_created p = with_event (product_created p.id) p

pub change_price : Money → Product → Product
change_price new p =
    if new.amount == p.price.amount
    then p
    else with_event (product_price_changed p.id p.price.amount new.amount)
        (record p { price = new })

-- The event of `reduceStock`, for the stock that is left.
unfoldable pub depleted : Product → Product
depleted p = if p.stock == 0 then with_event (product_stock_depleted p.id p.name) p else p

unfoldable pub reduce_stock : Number → Product → Result Product
unfolding depleted
reduce_stock n p = do
  q ← or_throw (positive_safe n) (domain invalid_stock_quantity)
  throw_if (ltb p.stock q) (domain (insufficient_stock p.stock q))
  ok (depleted (record p { stock = p.stock - q }))

pub increase_stock : Number → Product → Result Product
increase_stock n p = do
  q ← or_throw (positive_safe n) (domain invalid_stock_quantity)
  throw_if (ltb max_safe (p.stock + q)) (domain invalid_stock_quantity)
  ok (with_event (product_restocked p.id q (p.stock + q)) (record p { stock = p.stock + q }))

pub activate : Product → Result Product
activate p = do
  throw_if p.is_active (domain product_already_active)
  ok (with_event (product_activated p.id) (record p { is_active = true }))

pub deactivate : Product → Result Product
deactivate p = do
  throw_if (not p.is_active) (domain product_already_inactive)
  ok (with_event (product_deactivated p.id) (record p { is_active = false }))

-- The argument of `hydrate`; its price is an integer.
pub record ProductData : Type 0 where
  pub id : ℕ
  pub name : Text
  pub description : Option Text
  pub price : ℤ
  pub stock : Number
  pub category : Text
  pub images : List Text
  pub slug : Text
  pub is_active : Bool
  pub version : Option ℕ

unfoldable pub with_version : Option ℕ → AggregateRoot → AggregateRoot
with_version none r = r
with_version (some v) r = set_version_from_persistence v r

unfoldable pub hydrate : ProductData → Result Product
unfolding with_version
hydrate d = do
  stock ← or_throw (nonneg_safe d.stock) (domain invalid_stock_quantity)
  price ← Money.create d.price vnd
  ok (record {
    root = with_version d.version (new_root d.id);
    name = d.name;
    description = d.description;
    price = price;
    stock = stock;
    category = d.category;
    images = d.images;
    slug = d.slug;
    is_active = d.is_active;
  })
