-- ===== src/Checkout/Pricing/Bounds.antt =====
-- src/modules/checkout/services/pricing.service.ts: the amounts of a price.
use tri_ad_backend.Base.{
  ℕ, ◌≤◌, ◌<◌, ◌≡◌, ap, ◌∙◌, Bool, true, false, Option, none, some, [], ◌∷◌, arith, inl, inr,
}
use tri_ad_backend.Shared.Number.{max_safe}
use tri_ad_backend.Shared.Money.{Money, vnd, create, less_than}
use tri_ad_backend.Shared.Text.{Text}
use tri_ad_backend.Shared.Errors.{ok, Result-cases}
use tri_ad_backend.Orders.Order.{Pricing}
use tri_ad_backend.Checkout.Db.{Db, >>=-eq-ok}
use tri_ad_backend.Checkout.Pricing.{
  Doubles, find_discount_by_code, use_discount, increment_discount_usage, multiply_double,
  create_double, price_discount, price_code, price, fee_of, result,
}

-- The price of a subtotal in the default currency: the tax is the rounded product with the rate,
-- delivery is free from 500,000 on and costs 30,000 below.
pub record IsPrice (d : Doubles) (subtotal : Money) (p : Pricing) : Type 0 where
  pub taxed :
      p.tax ≡ record { amount = d.round (d.times subtotal.amount d.tax_rate); currency = vnd }
  pub tax_safe : p.tax.amount ≤ max_safe
  pub free : 500_000 ≤ subtotal.amount → p.shipping_fee ≡ record { amount = 0; currency = vnd }
  pub charged :
      subtotal.amount < 500_000 → p.shipping_fee ≡ record { amount = 30_000; currency = vnd }
  pub discount_bound : p.discount_amount.amount ≤ subtotal.amount
  pub discount_vnd : p.discount_amount.currency ≡ vnd

-- The fee by the subtotal.
record IsFee (subtotal fee : Money) : Type 0 where
  free : 500_000 ≤ subtotal.amount → fee ≡ record { amount = 0; currency = vnd }
  charged : subtotal.amount < 500_000 → fee ≡ record { amount = 30_000; currency = vnd }

fee_of-IsFee :
    (subtotal : Money) → IsFee subtotal (record { amount = fee_of subtotal; currency = vnd })
fee_of-IsFee subtotal = record {
  free = λ h. ap (λ (n : ℕ). record { amount = n; currency = vnd }) (ground arith);
  charged = λ h. ap (λ (n : ℕ). record { amount = n; currency = vnd }) (ground arith);
}

module _ (d : Doubles) where
  open d use {Double}

  price_discount-le :
      (now : ℕ) (subtotal : Money) (code : Text) (consume : Bool) (db db' : Db Double) (m : Money)
      → price_discount d now subtotal code consume db ≡ (ok m, db')
      → (m.amount ≤ subtotal.amount) × (m.currency ≡ subtotal.currency)
  unfolding price_discount find_discount_by_code less_than
  price_discount-le now subtotal code true db db' m h =
      unfold use_discount increment_discount_usage in ground arith
  price_discount-le now subtotal code false db db' m h = unfold use_discount in ground arith

  multiply_double-product :
      (m : Money) (f : Double) (n : Money)
      → multiply_double d m f ≡ ok n
      → (n ≡ record { amount = d.round (d.times m.amount f); currency = m.currency })
        × (n.amount ≤ max_safe)
  unfolding multiply_double create_double
  multiply_double-product m f n h = ground arith

  price_code-IsPrice :
      (enabled : Bool) (now : ℕ) (subtotal tax fee : Money) (code : Option Text) (consume : Bool)
      (db db' : Db Double) (p : Pricing)
      → subtotal.currency ≡ vnd
      → price_code d now subtotal tax fee code enabled consume db ≡ (ok p, db')
      → (p.tax ≡ tax)
        × (p.shipping_fee ≡ fee)
        × (p.discount_amount.amount ≤ subtotal.amount)
        × (p.discount_amount.currency ≡ vnd)
  unfolding price_code
  price_code-IsPrice true now subtotal tax fee (some (c ∷ code)) consume db db' p v h =
      let (m, mid, priced, rest) =
        >>=-eq-ok (price_discount d now subtotal (c ∷ code) consume)
          (λ x. λ (t : Db Double). (ok (result tax fee x (some (c ∷ code))), t)) db db' h in
      let (le, same) = price_discount-le now subtotal (c ∷ code) consume db mid m priced in
      ground arith
  price_code-IsPrice false now subtotal tax fee (some (c ∷ code)) consume db db' p v h =
      ground arith
  price_code-IsPrice enabled now subtotal tax fee (some []) consume db db' p v h = ground arith
  price_code-IsPrice enabled now subtotal tax fee none consume db db' p v h = ground arith

  -- A price of a subtotal in the default currency has as its tax the rounded product of the
  -- subtotal with the tax rate, a safe integer; no shipping fee from 500,000 on, and one of 30,000
  -- below; and a discount of at most the subtotal; all of them are in the default currency.
  pub price-IsPrice :
      (enabled : Bool) (now : ℕ) (subtotal : Money) (code : Option Text) (consume : Bool)
      (db db' : Db Double) (p : Pricing)
      → subtotal.currency ≡ vnd
      → price d enabled now subtotal code consume db ≡ (ok p, db')
      → IsPrice d subtotal p
  unfolding price create
  price-IsPrice enabled now subtotal code consume db db' p v h =
      elim (Result-cases (multiply_double d subtotal d.tax_rate)) [
        | inr (x, e) ↦ absurd (ground arith)
        | inl (tax, e) ↦
            let fee : Money = record { amount = fee_of subtotal; currency = vnd } in
            let priced : price_code d now subtotal tax fee code enabled consume db ≡ (ok p, db') =
              ground arith in
            let (t, f, le, c) =
              price_code-IsPrice enabled now subtotal tax fee code consume db db' p v priced in
            let (product, safe) = multiply_double-product subtotal d.tax_rate tax e in
            let is_fee = fee_of-IsFee subtotal in
            record {
              taxed =
                  t
                  ∙ product
                  ∙ ap
                      (λ (c : ℕ). record {
                        amount = d.round (d.times subtotal.amount d.tax_rate);
                        currency = c;
                      })
                      v;
              tax_safe = rw t safe;
              free = λ le. f ∙ is_fee.free le;
              charged = λ lt. f ∙ is_fee.charged lt;
              discount_bound = le;
              discount_vnd = c;
            }
      ]
