-- ===== src/Shared/Money.antt =====
-- src/shared/value-objects/money.ts. The amounts of the program are integers of one currency, so
-- an argument of the constructor is an integer here; `Checkout.Pricing` has the fractional ones.
-- Sums, differences and products of safe integers are exact below 2^53 and, rounded to a double,
-- still at least 2^53 above it: the test `isSafeInteger` is made on the exact value.
use tri_ad_backend.Base.{
  ℕ, ◌+◌, ◌*◌, ◌≤◌, ◌≡◌, Bool, true, false, arith, ltb, leb, ◌==◌, if◌then◌else◌,
}
use tri_ad_backend.Base.Int.{ℤ, pos, negsuc, sub_ℕ}
use tri_ad_backend.Shared.Number.{max_safe}
use tri_ad_backend.Shared.Errors.{
  value, amount_negative, amount_not_safe, currency_mismatch, bad_factor, Result, ok, err, ◌>>◌,
  throw_if,
}

-- A currency is a code of three capitals; codes are only compared, so they are numbers.
pub record Money : Type 0 where
  pub amount : ℕ
  pub currency : ℕ

-- `MONEY_CURRENCY`, the default of the constructor.
abbrev pub vnd : ℕ
vnd = 704

-- `new Money(amount, currency)` for an integer amount.
unfoldable pub create : ℤ → ℕ → Result Money
create (pos n) c =
    if leb n max_safe then ok (record { amount = n; currency = c }) else err (value amount_not_safe)
create (negsuc n) c = err (value amount_negative)

abbrev pub zero_money : Money
zero_money = record { amount = 0; currency = vnd }

unfoldable pub add : Money → Money → Result Money
unfolding create
add a b = do
  throw_if (if a.currency == b.currency then false else true) (value currency_mismatch)
  create (pos (a.amount + b.amount)) a.currency

unfoldable pub subtract : Money → Money → Result Money
unfolding create
subtract a b = do
  throw_if (if a.currency == b.currency then false else true) (value currency_mismatch)
  create (sub_ℕ a.amount b.amount) a.currency

-- `multiply` by an integer factor.
unfoldable pub multiply : Money → ℤ → Result Money
unfolding create
multiply a (pos k) = create (pos (a.amount * k)) a.currency
multiply a (negsuc k) = err (value bad_factor)

unfoldable pub less_than : Money → Money → Result Bool
less_than a b = do
  throw_if (if a.currency == b.currency then false else true) (value currency_mismatch)
  ok (ltb a.amount b.amount)

-- What the constructor guarantees of every value.
abbrev pub IsSafe : Money → Type 0
IsSafe m = m.amount ≤ max_safe

-- Every amount that the constructor lets through is a safe integer, and is the argument.
pub create_lem :
    (z : ℤ) (c : ℕ) {m : Money}
    → create z c ≡ ok m
    → (z ≡ pos m.amount) × IsSafe m × (m.currency ≡ c)
unfolding create
create_lem (pos n) c h = ground arith
create_lem (negsuc n) c h = cc

-- Addition is exact, or refused: exactly when the currencies agree and the sum is safe.
pub add_lem :
    (a b m : Money)
    → (add a b ≡ ok m)
    → (a.currency ≡ b.currency)
      × (m.amount ≡ a.amount + b.amount)
      × (m.currency ≡ a.currency)
      × IsSafe m
unfolding add
add_lem a b m h = ground arith

pub add_total :
    (a b : Money)
    → a.currency ≡ b.currency
    → a.amount + b.amount ≤ max_safe
    → add a b ≡ ok (record { amount = a.amount + b.amount; currency = a.currency })
unfolding add
add_total a b h k = ground arith
