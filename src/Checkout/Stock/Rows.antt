-- ===== src/Checkout/Stock/Rows.antt =====
-- src/modules/checkout/services/stock-reservation.service.ts: the map of the locked rows and the
-- checks of the first loop.
use tri_ad_backend.Base.{
  ℕ, zero, suc, Bool, true, not, Option, none, some, List, [], ◌∷◌, ltb, ◌==◌, if◌then◌else◌,
}
use tri_ad_backend.Base.Int.{ℤ, pos, negsuc}
use tri_ad_backend.Shared.Errors.{
  application, validation, resource_not_found, Result, ok, ◌>>=◌, ◌>>◌, throw_if, or_throw,
}
use tri_ad_backend.Checkout.Db.{ProductRow, CartRow}

-- `productMap.get(id)`. An id is a primary key, so at most one row has it.
unfoldable pub find_product : ℕ → List ProductRow → Option ProductRow
find_product p [] = none
find_product p (r ∷ rs) = if r.id == p then some r else find_product p rs

-- `Number.isInteger(quantity) && quantity > 0`, on the integer that the table holds.
unfoldable pub positive : ℤ → Option ℕ
positive (pos zero) = none
positive (pos (suc n)) = some (suc n)
positive (negsuc n) = none

-- `product.stock < item.quantity`
unfoldable pub is_short : ℤ → ℕ → Bool
is_short (pos n) q = ltb n q
is_short (negsuc n) q = true

-- The first loop's body: what is wrong with an item, if anything.
unfoldable pub check_item : List ProductRow → CartRow → Result (Unit {0})
check_item locked i = do
  q ← or_throw (positive i.quantity) (application validation)
  r ← or_throw (find_product i.product_id locked) (application resource_not_found)
  throw_if (not r.is_active) (application validation)
  throw_if (is_short r.stock q) (application validation)

unfoldable pub check_items : List ProductRow → List CartRow → Result (Unit {0})
check_items locked [] = ok tt
check_items locked (i ∷ is) = do check_item locked i; check_items locked is

-- The quantity of an item that `check_item` has let through.
abbrev pub quantity : CartRow → ℕ
quantity i = elim i.quantity [ pos n ↦ n | negsuc n ↦ 0 ]
