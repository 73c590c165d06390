-- ===== src/Shared/Errors.antt =====
-- src/shared/domain/errors/domain-error.ts, src/shared/errors/application-error.ts and the plain
-- `Error`s of src/shared/value-objects: what a call throws, and the result of a call that may throw.
use tri_ad_backend.Base.{ℕ, ◌≡◌, refl, Bool, true, false, Option, none, some, ◌⊎◌, inl, inr}

pub data OrderStatus : Type 0 where
  pending processing shipped delivered cancelled : OrderStatus

-- The reasons that `OrderNotMutableError` and `OrderNotCancellableError` carry.
pub data Reason : Type 0 where
  already_placed not_pending already_delivered already_cancelled : Reason

-- A domain error carries what the source passes to its constructor, its fixed messages left out.
pub data DomainError : Type 0 where
  order_not_mutable : Reason → DomainError
  invalid_order_item invalid_discount empty_order order_already_placed : DomainError
  invalid_order_transition : OrderStatus → OrderStatus → DomainError
  order_not_cancellable : Reason → DomainError
  invalid_cart_quantity : DomainError
  cart_item_not_found : ℕ → DomainError
  invalid_price invalid_stock_quantity : DomainError
  insufficient_stock : ℕ → ℕ → DomainError
  product_already_active product_already_inactive : DomainError
  user_already_verified two_factor_already_enabled two_factor_not_set_up : DomainError
  two_factor_not_enabled invalid_user_state : DomainError
  weak_password : ℕ → DomainError

-- An application error, without its message.
pub data ApplicationError : Type 0 where
  validation authentication authorization resource_not_found conflict : ApplicationError
  unprocessable rate_limit dependency_unavailable : ApplicationError

-- The plain errors of the value objects.
pub data ValueError : Type 0 where
  amount_not_finite amount_negative amount_not_safe currency_mismatch bad_factor : ValueError
  invalid_email invalid_address invalid_order_number invalid_phone_number : ValueError

pub data Error : Type 0 where
  domain : DomainError → Error
  application : ApplicationError → Error
  value : ValueError → Error
  -- `IdempotencyConflictError` of the checkout.
  idempotency_conflict : Error
  -- `SagaTimeoutError`
  saga_timeout : Error
  -- Any other error that a dependency throws, told apart by a number.
  other : ℕ → Error

pub data Result {κ} (A : Type κ) : Type κ where
  ok : A → Result A
  err : Error → Result A

-- What follows a call: nothing after a throw.
infixl 5 ◌>>=◌ ◌>>◌
abbrev pub ◌>>=◌ {κ ℓ} : {A : Type κ} {B : Type ℓ} → Result A → (A → Result B) → Result B
ok x >>= rest = rest x
err e >>= rest = err e

-- `if (test) throw e`.
abbrev pub throw_if : Bool → Error → Result (Unit {0})
throw_if true e = err e
throw_if false e = ok tt

abbrev pub or_throw {ℓ} : {A : Type ℓ} → Option A → Error → Result A
or_throw none e = err e
or_throw (some a) e = ok a

abbrev pub is_ok {ℓ} : {A : Type ℓ} → Result A → Bool
is_ok (ok a) = true
is_ok (err e) = false

abbrev pub ◌>>◌ {ℓ} : {B : Type ℓ} → Result (Unit {0}) → Result B → Result B
call >> rest = call >>= λ _. rest

-- A chain that succeeds: its first call did.
pub >>=-eq-ok {κ ℓ} :
    {A : Type κ} {B : Type ℓ} (call : Result A) (rest : A → Result B) {y : B}
    → (call >>= rest) ≡ ok y
    → (x : A) × (call ≡ ok x) × (rest x ≡ ok y)
>>=-eq-ok (ok x) rest h = (x, refl, h)
>>=-eq-ok (err e) rest h = cc

pub Result-cases {ℓ} :
    {A : Type ℓ} (r : Result A) → ((a : A) × (r ≡ ok a)) ⊎ ((e : Error) × (r ≡ err e))
Result-cases (ok a) = inl (a, refl)
Result-cases (err e) = inr (e, refl)
