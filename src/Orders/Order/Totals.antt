-- ===== src/Orders/Order/Totals.antt =====
-- src/modules/orders/domain/order.entity.ts: the totals of an order against sums of plain numbers.
use tri_ad_backend.Base.{
  ℕ, ◌+◌, ◌-◌, ◌*◌, ◌≤◌, ◌≡◌, ◌∙◌, List, [], ◌∷◌, arith, leb, ltb, if◌then◌else◌, All,
}
use tri_ad_backend.Shared.Number.{max_safe}
use tri_ad_backend.Shared.Money.{Money, vnd, zero_money}
use tri_ad_backend.Shared.Money
use tri_ad_backend.Shared.Errors.{value, amount_not_safe, domain, invalid_discount, Result, ok, err}
use tri_ad_backend.Orders.Order.{Order, OrderItem, item_total, sum_items, subtotal, total}

-- The value of the items: the sum of quantity times unit price.
abbrev pub items_value : List OrderItem → ℕ
items_value [] = 0
items_value (i ∷ is) = i.unit_price.amount * i.quantity + items_value is

abbrev pub IsVnd : Money → Type 0
IsVnd m = m.currency ≡ vnd

abbrev pub vnd_money : ℕ → Money
vnd_money n = record { amount = n; currency = vnd }

-- A safe amount of the default currency, or the constructor's refusal.
abbrev pub safe_vnd : ℕ → Result Money
safe_vnd n = if leb n max_safe then ok (vnd_money n) else err (value amount_not_safe)

sum_items_lem :
    (items : List OrderItem) (s : ℕ)
    → All (λ i. IsVnd i.unit_price) items
    → s ≤ max_safe
    → sum_items (vnd_money s) items ≡ safe_vnd (s + items_value items)
unfolding sum_items item_total Money.multiply Money.add
sum_items_lem [] s h k = ground arith
sum_items_lem (i ∷ is) s h k =
    ground (arith, sum_items_lem is (s + i.unit_price.amount * i.quantity) h.1)

-- The subtotal of items priced in the default currency is their value, as long as that is a safe
-- integer, and otherwise the refusal of the money constructor.
pub subtotal-items_value :
    (o : Order)
    → All (λ i. IsVnd i.unit_price) o.items
    → subtotal o ≡ safe_vnd (items_value o.items)
unfolding subtotal
subtotal-items_value o h = sum_items_lem o.items 0 h (omega arith) ∙ ground arith

-- Every amount of the order is in the default currency.
pub record IsInVnd (o : Order) : Type 0 where
  pub prices : All (λ i. IsVnd i.unit_price) o.items
  pub tax_vnd : IsVnd o.tax
  pub fee_vnd : IsVnd o.shipping_fee
  pub discount_vnd : IsVnd o.discount_amount

abbrev pub gross_value : Order → ℕ
gross_value o = items_value o.items + o.tax.amount + o.shipping_fee.amount

-- The total of an order in the default currency: refused as unsafe if the gross amount is, refused
-- as an invalid discount if the discount is larger than the gross amount, and otherwise their
-- difference.
pub total-gross_value :
    (o : Order)
    → IsInVnd o
    → total o ≡ (
        if leb (gross_value o) max_safe
        then (if ltb (gross_value o) o.discount_amount.amount
            then err (domain invalid_discount)
            else ok (vnd_money (gross_value o - o.discount_amount.amount)))
        else err (value amount_not_safe))
unfolding total Money.add Money.subtract
total-gross_value o v = rw (subtotal-items_value o v.prices, total) (ground arith)
