-- ===== src/Shared/ValueObjects.antt =====
-- src/shared/value-objects/{email,address,order-number,phone-number}.ts: each constructor brings
-- its argument to a normal form and throws unless that form is accepted. A value is its text.
pub mod Normal
use tri_ad_backend.Base.{
  ℕ, ◌-◌, ◌≡◌, refl, sym, ap, ◌∙◌, Bool, true, false, not, ◌&&◌, ◌||◌, List, [], ◌∷◌, ◌++◌, arith,
  ltb, leb, ◌==◌, if◌then◌else◌, Bool-cases, inl, inr, length,
}
use tri_ad_backend.Shared.Errors.{
  value, invalid_email, invalid_address, invalid_order_number, invalid_phone_number, Result, ok,
  err,
}
use tri_ad_backend.Shared.Text.{
  Text, Unicode, is_space, is_digit, is_capital, every, trim, remove_all, collapse_spaces,
  trim-every, remove_all-every, every_mono,
}

-- `[^\s@]`
unfoldable pub is_plain : ℕ → Bool
is_plain c = not (is_space c) && not (c == b'@')

-- A dot that is neither first nor last, in what follows the first character of the domain.
unfoldable pub has_inner_dot : Text → Bool
has_inner_dot [] = false
has_inner_dot (c ∷ []) = false
has_inner_dot (c ∷ d ∷ t) = c == b'.' || has_inner_dot (d ∷ t)

unfoldable pub is_domain : Text → Bool
is_domain [] = false
is_domain (c ∷ t) = is_plain c && every is_plain t && has_inner_dot t

unfoldable pub has_at : Text → Bool
has_at [] = false
has_at (c ∷ t) = if c == b'@' then is_domain t else is_plain c && has_at t

-- `/^[^\s@]+@[^\s@]+\.[^\s@]+$/`
unfoldable pub matches_email : Text → Bool
matches_email [] = false
matches_email (c ∷ t) = is_plain c && has_at t

unfoldable pub new_email : Unicode → Text → Result Text
new_email u t =
    let normalized = u.to_lower (trim t) in
    if matches_email normalized then ok normalized else err (value invalid_email)

unfoldable pub new_address : Text → Result Text
new_address t =
    let normalized = collapse_spaces (trim t) in
    if length normalized == 0 || ltb 500 (length normalized)
    then err (value invalid_address)
    else ok normalized

-- `[A-Z0-9-]`
unfoldable pub is_order_char : ℕ → Bool
is_order_char c = is_capital c || is_digit c || c == b'-'

-- `/^[A-Z0-9][A-Z0-9-]{3,39}$/`
unfoldable pub matches_order_number : Text → Bool
matches_order_number [] = false
matches_order_number (c ∷ t) =
    (is_capital c || is_digit c) && every is_order_char t && leb 3 (length t) && leb (length t) 39

unfoldable pub new_order_number : Unicode → Text → Result Text
new_order_number u t =
    let normalized = u.to_upper (trim t) in
    if matches_order_number normalized then ok normalized else err (value invalid_order_number)

-- `[\s().-]`
unfoldable pub is_phone_separator : ℕ → Bool
is_phone_separator c = is_space c || c == b'(' || c == b')' || c == b'.' || c == b'-'

unfoldable pub is_phone_digits : Text → Bool
is_phone_digits t = every is_digit t && leb 8 (length t) && leb (length t) 15

-- `/^\+?[0-9]{8,15}$/`, or the empty text.
unfoldable pub matches_phone : Text → Bool
matches_phone [] = true
matches_phone (c ∷ t) = if c == b'+' then is_phone_digits t else is_phone_digits (c ∷ t)

unfoldable pub new_phone_number : Text → Result Text
new_phone_number t =
    let normalized = remove_all is_phone_separator (trim t) in
    if matches_phone normalized then ok normalized else err (value invalid_phone_number)
