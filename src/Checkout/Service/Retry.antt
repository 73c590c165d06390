-- ===== src/Checkout/Service/Retry.antt =====
-- src/modules/checkout/checkout.service.ts: the attempts of a checkout.
use tri_ad_backend.Base.{
  ℕ, zero, suc, ◌+◌, ◌≤◌, ◌≡◌, refl, sym, ap, ◌∙◌, Bool, true, false, List, arith, inl, inr, ◌⊎◌,
}
use tri_ad_backend.Shared.Text.{Unicode}
use tri_ad_backend.Shared.Errors.{Error, Result, ok, err, Result-cases}
use tri_ad_backend.Orders.Order.{Order}
use tri_ad_backend.Checkout.Db.{Db, Tx, CartRow}
use tri_ad_backend.Checkout.Pricing.{Doubles}
use tri_ad_backend.Checkout.Save.{commit, run}
use tri_ad_backend.Checkout.Service.{
  User, CheckoutInput, Attempt, place_order, retry_on, execute_with_retry,
}

module _ {D A : Type 0} where
  run-ok :
      (aborts : Bool) (work : Tx D A) (db db' : Db D) (x : A)
      → run aborts work db ≡ (ok x, db')
      → work db ≡ (ok x, db')
  unfolding run commit
  run-ok true work db db' x h = absurd (ground arith)
  run-ok false work db db' x h = elim (Result-cases (work db).0) [
    | inl (y, e) ↦ ground arith
    | inr (y, e) ↦ absurd (ground arith)
  ]

  run-err :
      (aborts : Bool) (work : Tx D A) (db : Db D) (e : Error)
      → (run aborts work db).0 ≡ err e
      → (run aborts work db).1 ≡ db
  unfolding run commit
  run-err true work db x h = refl
  run-err false work db x h = elim (Result-cases (work db).0) [
    | inl (y, e) ↦ absurd (ground arith)
    | inr (y, e) ↦ ground arith
  ]

  retry_on-eq :
      (e : Error) (db : Db D) (rest : Result A × Db D)
      → (retry_on (err e) db rest ≡ rest) ⊎ (retry_on (err e) db rest ≡ (err e, db))
  unfolding retry_on
  retry_on-eq e db rest = ground arith

  retry_on-ok :
      (r : Result A) (db db' : Db D) (rest : Result A × Db D) (x : A)
      → retry_on r db rest ≡ (ok x, db')
      → ((r ≡ ok x) × (db ≡ db')) ⊎ ((e : Error) × (r ≡ err e) × (rest ≡ (ok x, db')))
  unfolding retry_on
  retry_on-ok (ok a) db db' rest x h = inl (ground arith)
  retry_on-ok (err e) db db' rest x h = elim (retry_on-eq e db rest) [
    | inl p ↦ inr (e, refl, sym p ∙ h)
    | inr p ↦ absurd (ground arith)
  ]

  retry_on-err :
      (r : Result A) (db db' : Db D) (rest : Result A × Db D) (x : Error)
      → retry_on r db rest ≡ (err x, db')
      → (e : Error) × (r ≡ err e) × ((rest ≡ (err x, db')) ⊎ (db ≡ db'))
  unfolding retry_on
  retry_on-err (ok a) db db' rest x h = absurd (ground arith)
  retry_on-err (err e) db db' rest x h = elim (retry_on-eq e db rest) [
    | inl p ↦ (e, refl, inl (sym p ∙ h))
    | inr p ↦ (e, refl, inr (ground arith))
  ]

-- `P` holds of the tables whatever the other requests do.
module _ (u : Unicode) (d : Doubles) (input : CheckoutInput) (user_id : ℕ) (user : User) (cart : ℕ)
    (items : List CartRow) (env : ℕ → Attempt d.Double) (P : Db d.Double → Type 0)
    (kept : (k : ℕ) (db : Db d.Double) → P db → P ((env k).meanwhile db)) where
  attempt : ℕ → Tx d.Double Order
  attempt k db =
      run (env k).aborts (place_order u d input user_id user cart items (env k))
        ((env k).meanwhile db)

  attempt-ok :
      (k : ℕ) (db db' : Db d.Double) (saved : Order)
      → attempt k db ≡ (ok saved, db')
      → place_order u d input user_id user cart items (env k) ((env k).meanwhile db)
        ≡ (ok saved, db')
  unfolding attempt
  attempt-ok k db db' saved h =
      run-ok (env k).aborts (place_order u d input user_id user cart items (env k))
        ((env k).meanwhile db) db' saved h

  attempt-err :
      (k : ℕ) (db : Db d.Double) (e : Error) → P db → (attempt k db).0 ≡ err e → P (attempt k db).1
  unfolding attempt
  attempt-err k db e p h =
      rw
        (run-err (env k).aborts (place_order u d input user_id user cart items (env k))
          ((env k).meanwhile db) e h)
        (kept k db p)

  -- Attempts that all fail leave the tables to the other requests: what these keep true stays true.
  pub execute_with_retry-err :
      (n k : ℕ) (db db' : Db d.Double) (e : Error)
      → P db
      → execute_with_retry u d input user_id user cart items env n k db ≡ (err e, db')
      → P db'
  unfolding execute_with_retry attempt
  execute_with_retry-err zero k db db' e p h =
      let q = attempt-err k db e p (ap (λ (x : Result Order × Db d.Double). x.0) h) in
      rw (← ap (λ (x : Result Order × Db d.Double). x.1) h) q
  execute_with_retry-err (suc n) k db db' e p h =
      let out = attempt k db in
      let rest = execute_with_retry u d input user_id user cart items env n (suc k) out.1 in
      let (x, failed, next) = retry_on-err out.0 out.1 db' rest e h in
      let q = attempt-err k db x p failed in
      elim next [
        | inl r ↦ execute_with_retry-err n (suc k) out.1 db' e q r
        | inr same ↦ rw (← same) q
      ]

  -- Attempts of which one succeeds: it is one of the `n + 1`, it found tables of which `P` holds,
  -- and what is left is what its transaction made of these.
  pub execute_with_retry-ok :
      (n k : ℕ) (db db' : Db d.Double) (saved : Order)
      → P db
      → execute_with_retry u d input user_id user cart items env n k db ≡ (ok saved, db')
      → (j : ℕ) × (j ≤ n)
        × (mid : Db d.Double) × P mid
        × (place_order u d input user_id user cart items (env (k + j)) mid ≡ (ok saved, db'))
  unfolding execute_with_retry attempt
  execute_with_retry-ok zero k db db' saved p h =
      let same : k + 0 ≡ k = omega arith in
      (0, omega arith, (env k).meanwhile db, kept k db p, rw same (attempt-ok k db db' saved h))
  execute_with_retry-ok (suc n) k db db' saved p h =
      let out = attempt k db in
      let rest = execute_with_retry u d input user_id user cart items env n (suc k) out.1 in
      elim (retry_on-ok out.0 out.1 db' rest saved h) [
        | inl (a, b) ↦
            let same : k + 0 ≡ k = omega arith in
            (
              0,
              omega arith,
              (env k).meanwhile db,
              kept k db p,
              rw same (attempt-ok k db db' saved (cc (a, b))),
            )
        | inr (e, failed, r) ↦
            let (j, l, mid, q, done) =
              execute_with_retry-ok n (suc k) out.1 db' saved (attempt-err k db e p failed) r in
            let same : k + suc j ≡ suc k + j = omega arith in
            (suc j, omega arith, mid, q, rw same done)
      ]
