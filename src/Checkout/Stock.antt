-- ===== src/Checkout/Stock.antt =====
-- src/modules/checkout/services/stock-reservation.service.ts: the reservation. Its spans and
-- counters are left out.
mod Rows
pub mod Reservation
pub mod Nonneg
unfoldable pub use Rows.{find_product, positive, is_short, check_item, check_items, quantity}
use tri_ad_backend.Base.{ℕ, ◌+◌, not, List, [], ◌∷◌, map}
use tri_ad_backend.Shared.Events.{product_updated}
use tri_ad_backend.Shared.Errors.{
  application, validation, resource_not_found, conflict, throw_if, or_throw,
}
use tri_ad_backend.Checkout.Db.{
  Tx, ProductRow, CartRow, pure, throw, lift, ◌>>=◌, ◌>>◌, lock_products_for_update,
  decrement_product_stock, persist_product_event,
}

module _ {D : Type 0} where
  -- The body of the second loop, for an item and its locked row (`productMap.get(...)!`).
  unfoldable pub take_item : CartRow → ProductRow → Tx D (Unit {0})
  unfolding decrement_product_stock persist_product_event
  take_item i r = do
    success ← decrement_product_stock i.product_id r.version (quantity i)
    lift (throw_if (not success) (application conflict))
    persist_product_event (product_updated i.product_id) (r.version + 1)

  unfoldable pub take_items : List ProductRow → List CartRow → Tx D (Unit {0})
  take_items locked [] = pure tt
  take_items locked (i ∷ is) = do
    r ← lift (or_throw (find_product i.product_id locked) (application resource_not_found))
    take_item i r
    take_items locked is

  unfoldable pub do_reserve_stock : List CartRow → Tx D (List ProductRow)
  do_reserve_stock items = do
    locked ← lock_products_for_update (map (λ (i : CartRow). i.product_id) items)
    lift (check_items locked items)
    take_items locked items
    pure locked

  unfoldable pub reserve_stock : List CartRow → Tx D (List ProductRow)
  reserve_stock [] = throw (application validation)
  reserve_stock (i ∷ is) = do_reserve_stock (i ∷ is)
