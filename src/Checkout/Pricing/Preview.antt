-- ===== src/Checkout/Pricing/Preview.antt =====
-- src/modules/checkout/services/pricing.service.ts: the price that a customer is shown
-- (`previewPricing`) against the price of the order (`calculatePricing`).
use tri_ad_backend.Base.{
  ℕ, ◌≡◌, ◌↔◌, refl, Bool, true, false, ◌||◌, Option, none, some, List, [], ◌∷◌, arith, ◌==◌, inl,
  inr, Option-cases,
}
use tri_ad_backend.Base.Int.{pos}
use tri_ad_backend.Shared.Money.{Money, vnd, create}
use tri_ad_backend.Shared.Text.{Text}
use tri_ad_backend.Shared.Errors.{ok, Result-cases}
use tri_ad_backend.Orders.Order.{Pricing}
use tri_ad_backend.Checkout.Db.{Db, Tx, DiscountRow, pure, ◌>>=◌}
use tri_ad_backend.Checkout.Pricing.{
  Doubles, find_by_code, find_discount_by_code, use_discount, increment_discount_usage,
  multiply_double, price_discount, price_code, price, has_uses, can_use, result, fee_of,
  calculate_pricing, preview_pricing,
}

module _ {D : Type 0} where
  -- `id` is a primary key: no later row has the id of an earlier one.
  abbrev pub has_id : ℕ → List (DiscountRow D) → Bool
  has_id i [] = false
  has_id i (r ∷ rs) = r.id == i || has_id i rs

  abbrev pub IsKeyed : List (DiscountRow D) → Type 0
  IsKeyed [] = Unit
  IsKeyed (r ∷ rs) = (has_id r.id rs ≡ false) × IsKeyed rs

  absent-can_use :
      (i : ℕ) (m : Option ℕ) (rs : List (DiscountRow D))
      → has_id i rs ≡ false
      → can_use i m rs ≡ false
  unfolding can_use
  absent-can_use i m [] h = refl
  absent-can_use i m (r ∷ rs) h = ground (arith, absent-can_use i m rs)

  find_by_code-has_id :
      (c : Text) (rs : List (DiscountRow D)) (r : DiscountRow D)
      → find_by_code c rs ≡ some r
      → has_id r.id rs ≡ true
  unfolding find_by_code
  find_by_code-has_id c [] r h = cc
  find_by_code-has_id c (x ∷ rs) r h = ground (arith, find_by_code-has_id c rs r)

  -- The guard of the update is the test of the preview, on the row that the code finds.
  can_use-has_uses :
      (c : Text) (rs : List (DiscountRow D)) (r : DiscountRow D)
      → IsKeyed rs
      → find_by_code c rs ≡ some r
      → can_use r.id r.max_uses rs ≡ has_uses r.max_uses r.used_count
  unfolding find_by_code can_use
  can_use-has_uses c [] r k h = cc
  can_use-has_uses c (x ∷ rs) r k h = ground (
    arith,
    can_use-has_uses c rs r k.1,
    absent-can_use x.id x.max_uses rs k.0,
    find_by_code-has_id c rs r,
  )

-- If `n` returns whatever `m` returns, it does so under a function too.
map_agrees :
    {D A B : Type 0} (m n : Tx D A) (f : A → B) (db : Db D)
    → ((a : A) → (m db).0 ≡ ok a → (n db).0 ≡ ok a)
    → (b : B) → ((m >>= λ a. pure (f a)) db).0 ≡ ok b
    → ((n >>= λ a. pure (f a)) db).0 ≡ ok b
map_agrees m n f db h b e = elim (Result-cases (m db).0) [
  | inl (a, r) ↦ let s = h a r in ground arith
  | inr (x, r) ↦ absurd (ground arith)
]

module _ (d : Doubles) where
  open d use {Double}

  price_discount_unchanged :
      (now : ℕ) (subtotal : Money) (code : Text) (db : Db Double)
      → (price_discount d now subtotal code false db).1 ≡ db
  unfolding price_discount find_discount_by_code use_discount
  price_discount_unchanged now subtotal code db = ground arith

  price_discount_agrees :
      (now : ℕ) (subtotal : Money) (code : Text) (db : Db Double)
      → IsKeyed db.discounts
      → (m : Money)
      → ((price_discount d now subtotal code false db).0 ≡ ok m)
        ↔ ((price_discount d now subtotal code true db).0 ≡ ok m)
  unfolding price_discount find_discount_by_code use_discount increment_discount_usage
  price_discount_agrees now subtotal code db k m =
      elim (Option-cases (find_by_code code db.discounts)) [
        | inl e ↦ (λ h. ground arith, λ h. ground arith)
        | inr (r, e) ↦
            let same = can_use-has_uses code db.discounts r k e in
            (λ h. ground arith, λ h. ground arith)
      ]

  price_code_unchanged :
      (enabled : Bool) (now : ℕ) (subtotal tax fee : Money) (code : Option Text) (db : Db Double)
      → (price_code d now subtotal tax fee code enabled false db).1 ≡ db
  unfolding price_code
  price_code_unchanged true now subtotal tax fee (some (c ∷ code)) db =
      ground (arith, price_discount_unchanged now subtotal (c ∷ code) db)
  price_code_unchanged false now subtotal tax fee (some (c ∷ code)) db = refl
  price_code_unchanged enabled now subtotal tax fee (some []) db = refl
  price_code_unchanged enabled now subtotal tax fee none db = refl

  price_code_agrees :
      (enabled : Bool) (now : ℕ) (subtotal tax fee : Money) (code : Option Text) (db : Db Double)
      (p : Pricing)
      → IsKeyed db.discounts
      → ((price_code d now subtotal tax fee code enabled false db).0 ≡ ok p)
        ↔ ((price_code d now subtotal tax fee code enabled true db).0 ≡ ok p)
  unfolding price_code
  price_code_agrees true now subtotal tax fee (some (c ∷ code)) db p k =
      let shown = price_discount d now subtotal (c ∷ code) false in
      let taken = price_discount d now subtotal (c ∷ code) true in
      let agrees = price_discount_agrees now subtotal (c ∷ code) db k in
      let f = λ (m : Money). result tax fee m (some (c ∷ code)) in
      (
        map_agrees shown taken f db (λ m. (agrees m).0) p,
        map_agrees taken shown f db (λ m. (agrees m).1) p,
      )
  price_code_agrees false now subtotal tax fee (some (c ∷ code)) db p k = (λ h. h, λ h. h)
  price_code_agrees enabled now subtotal tax fee (some []) db p k = (λ h. h, λ h. h)
  price_code_agrees enabled now subtotal tax fee none db p k = (λ h. h, λ h. h)

  -- A preview writes nothing.
  pub preview_unchanged :
      (enabled : Bool) (now : ℕ) (subtotal : Money) (code : Option Text) (db : Db Double)
      → (preview_pricing d enabled now subtotal code db).1 ≡ db
  unfolding preview_pricing price
  preview_unchanged enabled now subtotal code db =
      elim (Result-cases (multiply_double d subtotal d.tax_rate)) [
        | inr (x, e) ↦ rw (e, price)
        | inl (tax, e) ↦ elim (Result-cases (create (pos (fee_of subtotal)) vnd)) [
          | inr (x, c) ↦ rw (e, price) (rw (c, price))
          | inl (fee, c) ↦
              rw (e, price)
                (rw (c, price) (price_code_unchanged enabled now subtotal tax fee code db))
        ]
      ]

  -- At the same tables the preview gives a price exactly when the calculation does, and the same.
  pub preview_agrees :
      (enabled : Bool) (now : ℕ) (subtotal : Money) (code : Option Text) (db : Db Double)
      (p : Pricing)
      → IsKeyed db.discounts
      → ((preview_pricing d enabled now subtotal code db).0 ≡ ok p)
        ↔ ((calculate_pricing d enabled now subtotal code db).0 ≡ ok p)
  unfolding preview_pricing calculate_pricing price
  preview_agrees enabled now subtotal code db p k =
      elim (Result-cases (multiply_double d subtotal d.tax_rate)) [
        | inr (x, e) ↦ rw (e, price) (λ h. h, λ h. h)
        | inl (tax, e) ↦ elim (Result-cases (create (pos (fee_of subtotal)) vnd)) [
          | inr (x, c) ↦ rw (e, price) (rw (c, price) (λ h. h, λ h. h))
          | inl (fee, c) ↦
              rw (e, price)
                (rw (c, price) (price_code_agrees enabled now subtotal tax fee code db p k))
        ]
      ]
