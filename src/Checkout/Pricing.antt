-- ===== src/Checkout/Pricing.antt =====
-- src/modules/checkout/services/pricing.service.ts, with the two discount operations of
-- infrastructure/prisma-checkout-unit-of-work.ts.
pub mod Bounds
pub mod Preview
pub mod Keeps
pub mod Usage
use tri_ad_backend.Base.{
  ℕ, ◌+◌, Bool, true, false, not, ◌&&◌, ◌||◌, Option, none, some, List, [], ◌∷◌, ltb, leb, ◌==◌,
  if◌then◌else◌,
}
use tri_ad_backend.Base.Int.{pos}
use tri_ad_backend.Shared.Number.{max_safe}
use tri_ad_backend.Shared.Money.{Money, vnd, create, less_than, zero_money}
use tri_ad_backend.Shared.Text.{Text, same_text}
use tri_ad_backend.Shared.Errors.{
  application, validation, conflict, value, amount_not_finite, amount_negative, amount_not_safe,
  bad_factor, Result, ok, err, throw_if, or_throw,
}
use tri_ad_backend.Shared.Errors
use tri_ad_backend.Orders.Order.{Pricing}
use tri_ad_backend.Checkout.Db.{Db, Tx, DiscountRow, pure, lift, ◌>>=◌, ◌>>◌}

-- What the JavaScript engine supplies of floating-point numbers.
pub record Doubles : Type 1 where
  pub Double : Type 0
  -- `CHECKOUT_PRICING.TAX_RATE`, the double nearest to 0.1.
  pub tax_rate : Double
  -- `x / 100`
  pub percent : Double → Double
  -- The product of an amount and a factor.
  pub times : ℕ → Double → Double
  pub is_finite : Double → Bool
  pub is_negative : Double → Bool
  -- `Math.round` of a number that is finite and not negative.
  pub round : Double → ℕ

-- `FREE_SHIPPING_THRESHOLD` and `SHIPPING_FEE`
abbrev pub free_shipping_threshold : ℕ
free_shipping_threshold = 500_000

abbrev pub shipping_fee : ℕ
shipping_fee = 30_000

-- `usedCount < maxUses`, if there is a limit.
unfoldable pub has_uses : Option ℕ → ℕ → Bool
has_uses none used = true
has_uses (some m) used = ltb used m

module _ {D : Type 0} where
  unfoldable pub find_by_code : Text → List (DiscountRow D) → Option (DiscountRow D)
  find_by_code c [] = none
  find_by_code c (r ∷ rs) = if same_text r.code c then some r else find_by_code c rs

  -- Does `where: { id, usedCount: { lt: maxUses } }` select a row?
  unfoldable pub can_use : ℕ → Option ℕ → List (DiscountRow D) → Bool
  can_use i m [] = false
  can_use i m (r ∷ rs) = (r.id == i && has_uses m r.used_count) || can_use i m rs

  unfoldable pub count_use : ℕ → Option ℕ → List (DiscountRow D) → List (DiscountRow D)
  count_use i m [] = []
  count_use i m (r ∷ rs) =
      (if r.id == i && has_uses m r.used_count
        then record r { used_count = r.used_count + 1 }
        else r)
      ∷ count_use i m rs

  unfoldable pub find_discount_by_code : Text → Tx D (Option (DiscountRow D))
  find_discount_by_code c db = (ok (find_by_code c db.discounts), db)

  unfoldable pub increment_discount_usage : ℕ → Option ℕ → Tx D Bool
  increment_discount_usage i m db =
      (ok (can_use i m db.discounts), record db { discounts = count_use i m db.discounts })

  -- The `if (consumeDiscountUsage)` of `price`.
  unfoldable pub use_discount : Bool → DiscountRow D → Tx D (Unit {0})
  use_discount true r = do
    success ← increment_discount_usage r.id r.max_uses
    lift (throw_if (not success) (application conflict))
  use_discount false r =
      lift (throw_if (not (has_uses r.max_uses r.used_count)) (application validation))

  -- The checks of a discount before it is used.
  unfoldable pub check_discount : ℕ → Money → DiscountRow D → Result (Unit {0})
  check_discount now subtotal r =
      Errors.◌>>◌ (throw_if (not r.is_active) (application validation)) (
        Errors.◌>>◌
          (throw_if (elim r.expires_at [ none ↦ false | some t ↦ ltb t now ])
            (application validation))
          (throw_if (elim r.min_order_amount [ none ↦ false | some m ↦ ltb subtotal.amount m ])
            (application validation)))

abbrev pub result : Money → Money → Money → Option Text → Pricing
result tax fee discount code = record {
  tax = tax;
  shipping_fee = fee;
  discount_amount = discount;
  discount_code = code;
}

-- The fee by the subtotal.
abbrev pub fee_of : Money → ℕ
fee_of subtotal = if leb free_shipping_threshold subtotal.amount then 0 else shipping_fee

module _ (d : Doubles) where
  open d use {Double, tax_rate, percent, times, is_finite, is_negative, round}

  -- `new Money(x, c)` for any number.
  unfoldable pub create_double : Double → ℕ → Result Money
  create_double x c =
      if not (is_finite x)
      then err (value amount_not_finite)
      else if is_negative x
      then err (value amount_negative)
      else if leb (round x) max_safe
      then ok (record { amount = round x; currency = c })
      else err (value amount_not_safe)

  -- `multiply` by any number.
  unfoldable pub multiply_double : Money → Double → Result Money
  multiply_double m f =
      if not (is_finite f) || is_negative f
      then err (value bad_factor)
      else create_double (times m.amount f) m.currency

  unfoldable pub raw_amount : Money → DiscountRow Double → Result Money
  raw_amount subtotal r =
      if r.is_percentage
      then multiply_double subtotal (percent r.value)
      else create_double r.value vnd

  -- The discount of a code: its amount, at most the subtotal.
  unfoldable pub price_discount : ℕ → Money → Text → Bool → Tx Double Money
  price_discount now subtotal code consume = do
    found ← find_discount_by_code code
    r ← lift (or_throw found (application validation))
    lift (check_discount now subtotal r)
    use_discount consume r
    raw ← lift (raw_amount subtotal r)
    less ← lift (less_than subtotal raw)
    pure (if less then subtotal else raw)

  -- `price`; `enabled` is the feature flag, and a code that is absent or empty is no code.
  unfoldable pub price_code :
      ℕ → Money → Money → Money → Option Text → Bool → Bool → Tx Double Pricing
  price_code now subtotal tax fee (some (c ∷ code)) true consume = do
    discount ← price_discount now subtotal (c ∷ code) consume
    pure (result tax fee discount (some (c ∷ code)))
  price_code now subtotal tax fee (some (c ∷ code)) false consume =
      pure (result tax fee zero_money none)
  price_code now subtotal tax fee (some []) enabled consume = pure (result tax fee zero_money none)
  price_code now subtotal tax fee none enabled consume = pure (result tax fee zero_money none)

  unfoldable pub price : Bool → ℕ → Money → Option Text → Bool → Tx Double Pricing
  price enabled now subtotal code consume = do
    tax ← lift (multiply_double subtotal tax_rate)
    fee ← lift (create (pos (fee_of subtotal)) vnd)
    price_code now subtotal tax fee code enabled consume

  unfoldable pub calculate_pricing : Bool → ℕ → Money → Option Text → Tx Double Pricing
  calculate_pricing enabled now subtotal code = price enabled now subtotal code true

  pub preview_pricing : Bool → ℕ → Money → Option Text → Tx Double Pricing
  preview_pricing enabled now subtotal code = price enabled now subtotal code false
