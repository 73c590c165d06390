-- ===== src/Products/Product/Stock.antt =====
-- src/modules/products/domain/product.entity.ts: taking stock and putting it back.
use tri_ad_backend.Base.{◌+◌, ◌-◌, ◌≤◌, ◌≡◌, arith, Option-cases, inl, inr}
use tri_ad_backend.Shared.Number.{Number, positive_safe, max_safe}
use tri_ad_backend.Shared.Events.{product_restocked}
use tri_ad_backend.Shared.Errors.{ok}
use tri_ad_backend.Products.Product.{Product, with_event, depleted, reduce_stock, increase_stock}

-- Stock that was taken from a product with a safe stock can be put back, which restores the stock.
pub reduce-increase_stock :
    (n : Number) (p p' : Product)
    → p.stock ≤ max_safe
    → reduce_stock n p ≡ ok p'
    → (p'' : Product) × (increase_stock n p' ≡ ok p'') × (p''.stock ≡ p.stock)
unfolding reduce_stock increase_stock depleted
reduce-increase_stock n p p' s h = elim (Option-cases (positive_safe n)) [
  | inl e ↦ absurd (ground arith)
  | inr (q, e) ↦
      let enough : q ≤ p.stock = ground arith in
      let left : p'.stock ≡ p.stock - q = ground arith in
      let back : p'.stock + q ≡ p.stock = rw left (omega arith) in
      (
        with_event (product_restocked p'.id q (p'.stock + q)) (record p' { stock = p'.stock + q }),
        ground arith,
        back,
      )
]
