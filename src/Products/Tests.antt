-- ===== src/Products/Tests.antt =====
-- Runs of a product, and its theorems there.
use tri_ad_backend.Base.{◌≡◌, refl, true, none, some, [], ◌∷◌, arith}
use tri_ad_backend.Base.Int.{pos, negsuc}
use tri_ad_backend.Shared.Number.{integer, not_integer, positive_safe, nonneg_safe}
use tri_ad_backend.Shared.Money.{Money, vnd}
use tri_ad_backend.Shared.Money
use tri_ad_backend.Shared.Aggregate.{set_version_from_persistence, new_root, raise}
use tri_ad_backend.Shared.Events.{product_stock_depleted}
use tri_ad_backend.Shared.Errors.{domain, invalid_stock_quantity, ok, err}
use tri_ad_backend.Products.Product.{
  Product, ProductData, with_event, reduce_stock, increase_stock, depleted, hydrate, with_version,
}
use tri_ad_backend.Products.Product.History.{
  Grows, activates, deactivates, changes_price, reduces, increases, run, run-Grows,
}
use tri_ad_backend.Products.Product.Stock.{reduce-increase_stock}

abbrev mug : Product
mug = record {
  root = record { id = 4; domain_events = []; version = 6 };
  name = [];
  description = none;
  price = record { amount = 70_000; currency = vnd };
  stock = 3;
  category = [];
  images = [];
  slug = [];
  is_active = true;
}

abbrev mug_row : ProductData
mug_row = record {
  id = 4;
  name = [];
  description = none;
  price = pos 70_000;
  stock = integer (pos 3);
  category = [];
  images = [];
  slug = [];
  is_active = true;
  version = some 6;
}

read_mug : hydrate mug_row ≡ ok mug
unfolding hydrate nonneg_safe Money.create with_version set_version_from_persistence new_root
read_mug = refl

read_negative :
    hydrate (record mug_row { stock = integer (negsuc 0) }) ≡ err (domain invalid_stock_quantity)
unfolding hydrate nonneg_safe
read_negative = refl

abbrev no_mug : Product
no_mug = with_event (product_stock_depleted 4 []) (record mug { stock = 0 })

run-Grows_example : Grows mug (
    run mug (
      reduces (integer (pos 3))
      ∷ deactivates
      ∷ activates
      ∷ activates
      ∷ changes_price (record { amount = 60_000; currency = vnd })
      ∷ increases not_integer
      ∷ []))
run-Grows_example = run-Grows mug _

reduce-increase_stock_example :
    (p : Product) × (increase_stock (integer (pos 3)) no_mug ≡ ok p) × (p.stock ≡ 3)
unfolding reduce_stock positive_safe depleted raise
reduce-increase_stock_example =
    reduce-increase_stock (integer (pos 3)) mug no_mug (omega arith) refl
