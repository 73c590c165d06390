-- ===== src/Checkout/Pricing/Keeps.antt =====
-- src/modules/checkout/services/pricing.service.ts: the tables that a price may touch.
use tri_ad_backend.Base.{
  ℕ, ◌≡◌, refl, Bool, true, false, Option, none, some, [], ◌∷◌, arith, inl, inr,
}
use tri_ad_backend.Base.Int.{pos}
use tri_ad_backend.Shared.Money.{Money, vnd, create}
use tri_ad_backend.Shared.Text.{Text}
use tri_ad_backend.Shared.Errors.{Result-cases}
use tri_ad_backend.Checkout.Db.{Db}
use tri_ad_backend.Checkout.Pricing.{
  Doubles, find_discount_by_code, use_discount, increment_discount_usage, multiply_double,
  price_discount, price_code, price, fee_of, calculate_pricing,
}

-- The tables agree but for the discounts.
pub record SameButDiscounts {D : Type 0} (db db' : Db D) : Type 0 where
  pub same_products : db'.products ≡ db.products
  pub same_cart_items : db'.cart_items ≡ db.cart_items
  pub same_orders : db'.orders ≡ db.orders
  pub same_outbox : db'.outbox ≡ db.outbox

SameButDiscounts-refl : {D : Type 0} (db : Db D) → SameButDiscounts db db
SameButDiscounts-refl db = record {
  same_products = refl;
  same_cart_items = refl;
  same_orders = refl;
  same_outbox = refl;
}

module _ (d : Doubles) where
  open d use {Double}

  price_discount-keeps :
      (now : ℕ) (subtotal : Money) (code : Text) (consume : Bool) (db : Db Double)
      → SameButDiscounts db (price_discount d now subtotal code consume db).1
  unfolding price_discount find_discount_by_code use_discount increment_discount_usage
  price_discount-keeps now subtotal code true db = ground arith
  price_discount-keeps now subtotal code false db = ground arith

  price_code-keeps :
      (enabled : Bool) (now : ℕ) (subtotal tax fee : Money) (code : Option Text) (consume : Bool)
      (db : Db Double)
      → SameButDiscounts db (price_code d now subtotal tax fee code enabled consume db).1
  unfolding price_code
  price_code-keeps true now subtotal tax fee (some (c ∷ code)) consume db =
      let k = price_discount-keeps now subtotal (c ∷ code) consume db in ground arith
  price_code-keeps false now subtotal tax fee (some (c ∷ code)) consume db =
      SameButDiscounts-refl db
  price_code-keeps enabled now subtotal tax fee (some []) consume db = SameButDiscounts-refl db
  price_code-keeps enabled now subtotal tax fee none consume db = SameButDiscounts-refl db

  -- Whether it succeeds or throws, a price, previewed or calculated, touches no table but the
  -- discounts.
  pub price-keeps :
      (enabled : Bool) (now : ℕ) (subtotal : Money) (code : Option Text) (consume : Bool)
      (db : Db Double)
      → SameButDiscounts db (price d enabled now subtotal code consume db).1
  unfolding price
  price-keeps enabled now subtotal code consume db =
      elim (Result-cases (multiply_double d subtotal d.tax_rate)) [
        | inr (x, e) ↦ rw (e, price) (SameButDiscounts-refl db)
        | inl (tax, e) ↦ elim (Result-cases (create (pos (fee_of subtotal)) vnd)) [
          | inr (x, c) ↦ rw (e, price) (rw (c, price) (SameButDiscounts-refl db))
          | inl (fee, c) ↦
              rw (e, price)
                (rw (c, price) (price_code-keeps enabled now subtotal tax fee code consume db))
        ]
      ]

  pub calculate_pricing-keeps :
      (enabled : Bool) (now : ℕ) (subtotal : Money) (code : Option Text) (db : Db Double)
      → SameButDiscounts db (calculate_pricing d enabled now subtotal code db).1
  unfolding calculate_pricing
  calculate_pricing-keeps enabled now subtotal code db =
      price-keeps enabled now subtotal code true db
