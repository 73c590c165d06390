-- ===== src/Shared/Tests.antt =====
-- The value objects at concrete texts.
use tri_ad_backend.Base.{◌+◌, ◌-◌, ◌≡◌, refl, ◌&&◌, [], ◌∷◌, leb, if◌then◌else◌}
use tri_ad_backend.Shared.Errors.{ok, err, value, invalid_phone_number}
use tri_ad_backend.Shared.Text.{
  Text, Unicode, is_space, is_digit, is_capital, trim, trim_start, remove_all,
}
use tri_ad_backend.Shared.ValueObjects.{
  new_email, new_order_number, new_phone_number, matches_email, matches_order_number, matches_phone,
  is_phone_digits, is_phone_separator, is_plain, has_at, is_domain, has_inner_dot, is_order_char,
}

-- The case mappings on ASCII.
abbrev lower : Text → Text
lower [] = []
lower (c ∷ t) = (if leb b'A' c && leb c b'Z' then c + 32 else c) ∷ lower t

abbrev upper : Text → Text
upper [] = []
upper (c ∷ t) = (if leb b'a' c && leb c b'z' then c - 32 else c) ∷ upper t

abbrev pub ascii : Unicode
ascii = record { to_lower = lower; to_upper = upper }

-- ` An@x.vn`
abbrev pub email_text : Text
email_text = 32 ∷ b'A' ∷ b'n' ∷ b'@' ∷ b'x' ∷ b'.' ∷ b'v' ∷ b'n' ∷ []

abbrev pub email : Text
email = b'a' ∷ b'n' ∷ b'@' ∷ b'x' ∷ b'.' ∷ b'v' ∷ b'n' ∷ []

read_email : new_email ascii email_text ≡ ok email
unfolding new_email trim trim_start is_space matches_email has_at is_plain is_domain has_inner_dot
read_email = refl

-- `ord-7 `
abbrev pub number_text : Text
number_text = b'o' ∷ b'r' ∷ b'd' ∷ b'-' ∷ b'7' ∷ 32 ∷ []

abbrev pub number : Text
number = b'O' ∷ b'R' ∷ b'D' ∷ b'-' ∷ b'7' ∷ []

read_number : new_order_number ascii number_text ≡ ok number
unfolding new_order_number trim trim_start is_space matches_order_number is_order_char is_capital
    is_digit
read_number = refl

-- `+84 (9) 1234-56`
abbrev pub phone_text : Text
phone_text =
    b'+' ∷ b'8' ∷ b'4' ∷ 32 ∷ b'(' ∷ b'9' ∷ b')' ∷ 32 ∷ b'1' ∷ b'2' ∷ b'3' ∷ b'4' ∷ b'-' ∷ b'5'
    ∷ b'6' ∷ []

abbrev pub phone : Text
phone = b'+' ∷ b'8' ∷ b'4' ∷ b'9' ∷ b'1' ∷ b'2' ∷ b'3' ∷ b'4' ∷ b'5' ∷ b'6' ∷ []

read_phone : new_phone_number phone_text ≡ ok phone
unfolding new_phone_number trim trim_start is_space matches_phone is_phone_digits is_phone_separator
    is_digit remove_all
read_phone = refl

-- A number of three digits is refused.
short_phone : new_phone_number (b'1' ∷ b'1' ∷ b'3' ∷ []) ≡ err (value invalid_phone_number)
unfolding new_phone_number trim trim_start is_space matches_phone is_phone_digits is_phone_separator
    is_digit remove_all
short_phone = refl
