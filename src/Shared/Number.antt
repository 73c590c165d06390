-- ===== src/Shared/Number.antt =====
-- The numbers that callers pass in: a JavaScript number is an integer, or something else (a
-- fraction, NaN, an infinity), which `Number.isSafeInteger` refuses.
use tri_ad_backend.Base.{ℕ, suc, zero, ◌≤◌, ◌≡◌, Option, none, some, arith, leb, if◌then◌else◌}
use tri_ad_backend.Base.Int.{ℤ, pos, negsuc}

-- `Number.MAX_SAFE_INTEGER`, 2^53 - 1.
abbrev pub max_safe : ℕ
max_safe = 9_007_199_254_740_991

pub data Number : Type 0 where
  integer : ℤ → Number
  not_integer : Number

-- `Number.isSafeInteger(n) && n > 0`, with the number that passed.
unfoldable pub positive_safe : Number → Option ℕ
positive_safe (integer (pos zero)) = none
positive_safe (integer (pos (suc n))) = if leb (suc n) max_safe then some (suc n) else none
positive_safe (integer (negsuc n)) = none
positive_safe not_integer = none

-- `Number.isSafeInteger(n) && n >= 0`, with the number that passed.
unfoldable pub nonneg_safe : Number → Option ℕ
nonneg_safe (integer (pos n)) = if leb n max_safe then some n else none
nonneg_safe (integer (negsuc n)) = none
nonneg_safe not_integer = none

pub positive_safe_bounds :
    (n : Number) {k : ℕ} → positive_safe n ≡ some k → (1 ≤ k) × (k ≤ max_safe)
unfolding positive_safe
positive_safe_bounds (integer (pos zero)) h = ground arith
positive_safe_bounds (integer (pos (suc n))) h = ground arith
positive_safe_bounds (integer (negsuc n)) h = ground arith
positive_safe_bounds not_integer h = ground arith

pub nonneg_safe_bounds : (n : Number) {k : ℕ} → nonneg_safe n ≡ some k → k ≤ max_safe
unfolding nonneg_safe
nonneg_safe_bounds (integer (pos n)) h = ground arith
nonneg_safe_bounds (integer (negsuc n)) h = ground arith
nonneg_safe_bounds not_integer h = ground arith
