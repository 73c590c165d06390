-- ===== src/Checkout/Pricing/Usage.antt =====
-- src/modules/checkout/services/pricing.service.ts: how often a discount was used, before a price of
-- an order and after it.
use tri_ad_backend.Base.{
  ℕ, ◌+◌, ◌≡◌, refl, ap, Bool, true, false, ◌&&◌, Option, none, some, List, [], ◌∷◌, map, arith,
  ◌==◌, ltb, if◌then◌else◌, inl, inr, Option-cases,
}
use tri_ad_backend.Base.Int.{pos}
use tri_ad_backend.Shared.Money.{Money, vnd, create}
use tri_ad_backend.Shared.Text.{Text}
use tri_ad_backend.Shared.Errors.{ok, Result-cases}
use tri_ad_backend.Orders.Order.{Pricing}
use tri_ad_backend.Checkout.Db.{Db, DiscountRow, >>=-eq-ok}
use tri_ad_backend.Checkout.Pricing.{
  Doubles, find_by_code, find_discount_by_code, use_discount, check_discount,
  increment_discount_usage, can_use, count_use, multiply_double, price_discount, price_code, price,
  has_uses, result, fee_of, calculate_pricing,
}

-- A row with one use more, if it is the row of the discount and has a use left.
abbrev pub used_once : {D : Type 0} → DiscountRow D → DiscountRow D → DiscountRow D
used_once r q =
    if q.id == r.id && has_uses r.max_uses q.used_count
    then record q { used_count = q.used_count + 1 }
    else q

-- A code was used for a subtotal at a time: its row was active, unexpired and had a use left, the
-- subtotal is large enough for it, and it has one use more.
pub record Used {D : Type 0} (now subtotal : ℕ) (code : Text) (rows rows' : List (DiscountRow D))
    : Type 0 where
  pub row : DiscountRow D
  pub found : find_by_code code rows ≡ some row
  pub active : row.is_active ≡ true
  pub unexpired : (t : ℕ) → row.expires_at ≡ some t → ltb t now ≡ false
  pub enough : (m : ℕ) → row.min_order_amount ≡ some m → ltb subtotal m ≡ false
  pub usable : can_use row.id row.max_uses rows ≡ true
  pub counted : rows' ≡ map (used_once row) rows

-- The discounts before and after a price: a code that is neither absent nor empty was used, if the
-- discounts are enabled.
abbrev pub Redeemed :
    {D : Type 0} → Bool → ℕ → ℕ → Option Text → List (DiscountRow D) → List (DiscountRow D) → Type 0
Redeemed true now subtotal (some (c ∷ code)) rows rows' = Used now subtotal (c ∷ code) rows rows'
Redeemed _ now subtotal _ rows rows' = rows' ≡ rows

count_use-map :
    {D : Type 0} (r : DiscountRow D) (rows : List (DiscountRow D))
    → count_use r.id r.max_uses rows ≡ map (used_once r) rows
unfolding count_use
count_use-map r [] = refl
count_use-map r (q ∷ rows) = ap (λ qs. used_once r q ∷ qs) (count_use-map r rows)

-- What the checks of a discount say of its row.
record IsOpen {D : Type 0} (now : ℕ) (subtotal : Money) (r : DiscountRow D) : Type 0 where
  active : r.is_active ≡ true
  unexpired : (t : ℕ) → r.expires_at ≡ some t → ltb t now ≡ false
  enough : (m : ℕ) → r.min_order_amount ≡ some m → ltb subtotal.amount m ≡ false

check_discount-IsOpen :
    {D : Type 0} (now : ℕ) (subtotal : Money) (r : DiscountRow D)
    → check_discount now subtotal r ≡ ok tt
    → IsOpen now subtotal r
unfolding check_discount
check_discount-IsOpen now subtotal r h = elim (Option-cases r.expires_at) [
  | inl e ↦ elim (Option-cases r.min_order_amount) [
    | inl f ↦ record { active = ground arith; unexpired = λ t g. cc; enough = λ m g. cc }
    | inr (n, f) ↦ record {
      active = ground arith;
      unexpired = λ t g. cc;
      enough = λ m g. ground arith;
    }
  ]
  | inr (u, e) ↦ elim (Option-cases r.min_order_amount) [
    | inl f ↦ record { active = ground arith; unexpired = λ t g. ground arith; enough = λ m g. cc }
    | inr (n, f) ↦ record {
      active = ground arith;
      unexpired = λ t g. ground arith;
      enough = λ m g. ground arith;
    }
  ]
]

module _ (d : Doubles) where
  open d use {Double}

  price_discount-Used :
      (now : ℕ) (subtotal : Money) (code : Text) (db db' : Db Double) (m : Money)
      → price_discount d now subtotal code true db ≡ (ok m, db')
      → Used now subtotal.amount code db.discounts db'.discounts
  unfolding price_discount find_discount_by_code use_discount increment_discount_usage
  price_discount-Used now subtotal code db db' m h =
      elim (Option-cases (find_by_code code db.discounts)) [
        | inl e ↦ absurd (ground arith)
        | inr (r, e) ↦
            let same = count_use-map r db.discounts in
            let checked : check_discount now subtotal r ≡ ok tt = ground arith in
            let is_open = check_discount-IsOpen now subtotal r checked in
            record {
              row = r;
              found = e;
              active = is_open.active;
              unexpired = is_open.unexpired;
              enough = is_open.enough;
              usable = ground arith;
              counted = ground arith;
            }
      ]

  price_code-Redeemed :
      (enabled : Bool) (now : ℕ) (subtotal tax fee : Money) (code : Option Text)
      (db db' : Db Double) (p : Pricing)
      → price_code d now subtotal tax fee code enabled true db ≡ (ok p, db')
      → Redeemed enabled now subtotal.amount code db.discounts db'.discounts
  unfolding price_code
  price_code-Redeemed true now subtotal tax fee (some (c ∷ code)) db db' p h =
      let (m, mid, priced, rest) =
        >>=-eq-ok (price_discount d now subtotal (c ∷ code) true)
          (λ x. λ (t : Db Double). (ok (result tax fee x (some (c ∷ code))), t)) db db' h in
      let same : mid.discounts ≡ db'.discounts = cc in
      rw (← same) (price_discount-Used now subtotal (c ∷ code) db mid m priced)
  price_code-Redeemed false now subtotal tax fee (some (c ∷ code)) db db' p h = cc h
  price_code-Redeemed true now subtotal tax fee (some []) db db' p h = cc h
  price_code-Redeemed false now subtotal tax fee (some []) db db' p h = cc h
  price_code-Redeemed true now subtotal tax fee none db db' p h = cc h
  price_code-Redeemed false now subtotal tax fee none db db' p h = cc h

  -- The price of an order uses its code once.
  pub calculate_pricing-Redeemed :
      (enabled : Bool) (now : ℕ) (subtotal : Money) (code : Option Text) (db db' : Db Double)
      (p : Pricing)
      → calculate_pricing d enabled now subtotal code db ≡ (ok p, db')
      → Redeemed enabled now subtotal.amount code db.discounts db'.discounts
  unfolding calculate_pricing price
  calculate_pricing-Redeemed enabled now subtotal code db db' p h =
      elim (Result-cases (multiply_double d subtotal d.tax_rate)) [
        | inr (x, e) ↦ absurd (ground arith)
        | inl (tax, e) ↦ elim (Result-cases (create (pos (fee_of subtotal)) vnd)) [
          | inr (x, c) ↦ absurd (ground arith)
          | inl (fee, c) ↦
              price_code-Redeemed enabled now subtotal tax fee code db db' p (ground arith)
        ]
      ]
