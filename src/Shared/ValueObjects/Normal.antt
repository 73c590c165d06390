-- ===== src/Shared/ValueObjects/Normal.antt =====
-- src/shared/value-objects/{email,order-number,phone-number}.ts: the constructors on values that they
-- have made, as when a stored row is read back.
use tri_ad_backend.Base.{ℕ, ◌≡◌, refl, Bool, true, not, [], ◌∷◌, arith, ◌==◌}
use tri_ad_backend.Shared.Errors.{ok}
use tri_ad_backend.Shared.Text.{
  Text, Unicode, is_space, is_digit, is_capital, every, trim, trim-every, remove_all-every,
  every_mono,
}
use tri_ad_backend.Shared.ValueObjects.{
  is_plain, is_domain, has_at, matches_email, new_email, is_order_char, matches_order_number,
  new_order_number, is_phone_separator, is_phone_digits, matches_phone, new_phone_number,
}

abbrev not_space : ℕ → Bool
not_space c = not (is_space c)

plain-not_space : (c : ℕ) → is_plain c ≡ true → not_space c ≡ true
unfolding is_plain
plain-not_space c h = ground arith

at-not_space : (c : ℕ) → (c == b'@') ≡ true → not_space c ≡ true
unfolding is_space
at-not_space c h = ground arith

domain-every : (t : Text) → is_domain t ≡ true → every not_space t ≡ true
unfolding is_domain
domain-every [] h = refl
domain-every (c ∷ t) h =
    ground (arith, plain-not_space c, every_mono is_plain not_space plain-not_space t)

has_at-every : (t : Text) → has_at t ≡ true → every not_space t ≡ true
unfolding has_at
has_at-every [] h = refl
has_at-every (c ∷ t) h =
    ground (arith, at-not_space c, plain-not_space c, domain-every t, has_at-every t)

matches_email-every : (t : Text) → matches_email t ≡ true → every not_space t ≡ true
unfolding matches_email
matches_email-every [] h = refl
matches_email-every (c ∷ t) h = ground (arith, plain-not_space c, has_at-every t)

-- What a constructor of the form `normalize; test; keep` has returned passes its test.
new_email_lem :
    (u : Unicode) (t v : Text)
    → new_email u t ≡ ok v
    → (u.to_lower (trim t) ≡ v) × (matches_email v ≡ true)
unfolding new_email
new_email_lem u t v h = ground arith

-- An e-mail address that `new Email` has built is built again, unchanged, from its own value, if
-- `toLowerCase` leaves its own results alone.
pub new_email-normal :
    (u : Unicode)
    → ((t : Text) → u.to_lower (u.to_lower t) ≡ u.to_lower t)
    → (t v : Text) → new_email u t ≡ ok v
    → new_email u v ≡ ok v
unfolding new_email
new_email-normal u idem t v h =
    let (e, m) = new_email_lem u t v h in
    let lower : u.to_lower v ≡ v = rw (← e) (idem (trim t)) in
    rw (trim-every v (matches_email-every v m), lower, m)

order_char-not_space : (c : ℕ) → is_order_char c ≡ true → not_space c ≡ true
unfolding is_order_char is_capital is_digit is_space
order_char-not_space c h = ground arith

matches_order_number-every : (t : Text) → matches_order_number t ≡ true → every not_space t ≡ true
unfolding matches_order_number is_order_char
matches_order_number-every [] h = refl
matches_order_number-every (c ∷ t) h =
    ground
      (arith, order_char-not_space c, every_mono is_order_char not_space order_char-not_space t)

new_order_number_lem :
    (u : Unicode) (t v : Text)
    → new_order_number u t ≡ ok v
    → (u.to_upper (trim t) ≡ v) × (matches_order_number v ≡ true)
unfolding new_order_number
new_order_number_lem u t v h = ground arith

-- An order number that `new OrderNumber` has built is built again, unchanged, from its own value,
-- if `toUpperCase` leaves its own results alone.
pub new_order_number-normal :
    (u : Unicode)
    → ((t : Text) → u.to_upper (u.to_upper t) ≡ u.to_upper t)
    → (t v : Text) → new_order_number u t ≡ ok v
    → new_order_number u v ≡ ok v
unfolding new_order_number
new_order_number-normal u idem t v h =
    let (e, m) = new_order_number_lem u t v h in
    let upper : u.to_upper v ≡ v = rw (← e) (idem (trim t)) in
    rw (trim-every v (matches_order_number-every v m), upper, m)

abbrev not_separator : ℕ → Bool
not_separator c = not (is_phone_separator c)

separator-not_space : (c : ℕ) → not_separator c ≡ true → not_space c ≡ true
unfolding is_phone_separator
separator-not_space c h = ground arith

digit-not_separator : (c : ℕ) → is_digit c ≡ true → not_separator c ≡ true
unfolding is_phone_separator is_digit is_space
digit-not_separator c h = ground arith

plus-not_separator : (c : ℕ) → (c == b'+') ≡ true → not_separator c ≡ true
unfolding is_phone_separator is_space
plus-not_separator c h = ground arith

matches_phone-every : (t : Text) → matches_phone t ≡ true → every not_separator t ≡ true
unfolding matches_phone is_phone_digits
matches_phone-every [] h = refl
matches_phone-every (c ∷ t) h = ground (
  arith,
  plus-not_separator c,
  digit-not_separator c,
  every_mono is_digit not_separator digit-not_separator t,
)

new_phone_number_lem : (t v : Text) → new_phone_number t ≡ ok v → matches_phone v ≡ true
unfolding new_phone_number
new_phone_number_lem t v h = ground arith

-- A phone number that `new PhoneNumber` has built, the empty one included, is built again,
-- unchanged, from its own value.
pub new_phone_number-normal : (t v : Text) → new_phone_number t ≡ ok v → new_phone_number v ≡ ok v
unfolding new_phone_number
new_phone_number-normal t v h =
    let m = new_phone_number_lem t v h in
    let clean = matches_phone-every v m in
    rw (
      trim-every v (every_mono not_separator not_space separator-not_space v clean),
      remove_all-every is_phone_separator v clean,
      m,
    )
