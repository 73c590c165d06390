-- ===== src/Users/User.antt =====
-- src/modules/users/domain/user.entity.ts. `updateProfile` assigns the names before it makes the
-- phone number, which may throw, so it returns the user beside its result; in every other method the
-- throws stand before the first assignment. The two dates of the source are left out.
pub mod History
use tri_ad_backend.Base.{
  ℕ, Bool, true, false, not, Option, none, some, List, [], ◌∷◌, ltb, length, if◌then◌else◌,
}
use tri_ad_backend.Shared.Text.{Text, Unicode}
use tri_ad_backend.Shared.ValueObjects.{new_email, new_phone_number}
use tri_ad_backend.Shared.Aggregate.{AggregateRoot, new_root, raise}
use tri_ad_backend.Shared.Events.{
  DomainEvent, user_registered, user_email_verified, user_two_factor_enabled,
  user_two_factor_disabled,
}
use tri_ad_backend.Shared.Errors.{
  domain, weak_password, user_already_verified, two_factor_already_enabled, two_factor_not_set_up,
  two_factor_not_enabled, Result, ok, err, ◌>>=◌, ◌>>◌, throw_if,
}

pub record User : Type 0 where
  pub root : AggregateRoot
  pub open root use *
  pub email : Text
  pub first_name : Text
  pub last_name : Text
  pub password : Option Text
  pub role : ℕ
  pub is_verified : Bool
  pub is_2fa_enabled : Bool
  pub totp_secret : Option Text
  pub phone : Option Text

abbrev pub min_password_length : ℕ
min_password_length = 6

abbrev pub with_event : DomainEvent → User → User
with_event e u = record u { root = raise e u.root }

-- A secret that is neither null nor empty.
abbrev pub is_set : Option Text → Bool
is_set none = false
is_set (some []) = false
is_set (some (c ∷ t)) = true

unfoldable pub assert_password_policy : Text → Result (Unit {0})
assert_password_policy plain =
    throw_if (ltb (length plain) min_password_length) (domain (weak_password min_password_length))

pub set_hashed_password : Text → User → User
set_hashed_password hashed u = record u { password = some hashed }

pub verify : User → Result User
verify u = do
  throw_if u.is_verified (domain user_already_verified)
  ok (with_event (user_email_verified u.id) (record u { is_verified = true }))

pub start_enabling_2fa : Text → User → Result User
start_enabling_2fa secret u = do
  throw_if u.is_2fa_enabled (domain two_factor_already_enabled)
  ok (record u { totp_secret = some secret })

pub confirm_2fa : User → Result User
confirm_2fa u = do
  throw_if (not (is_set u.totp_secret)) (domain two_factor_not_set_up)
  throw_if u.is_2fa_enabled (domain two_factor_already_enabled)
  ok (with_event (user_two_factor_enabled u.id) (record u { is_2fa_enabled = true }))

pub disable_2fa : User → Result User
disable_2fa u = do
  throw_if (not u.is_2fa_enabled) (domain two_factor_not_enabled)
  ok (
      with_event (user_two_factor_disabled u.id)
        (record u { is_2fa_enabled = false; totp_secret = none }))

-- `if (firstName) …`
abbrev pub or_kept : Option Text → Text → Text
or_kept none kept = kept
or_kept (some []) kept = kept
or_kept (some (c ∷ t)) kept = c ∷ t

abbrev pub with_names : Option Text → Option Text → User → User
with_names first last u = record u {
  first_name = or_kept first u.first_name;
  last_name = or_kept last u.last_name;
}

abbrev pub phone_assigned : User → Result Text → Result (Unit {0}) × User
phone_assigned u (ok p) = (ok tt, record u { phone = some p })
phone_assigned u (err e) = (err e, u)

abbrev pub with_phone : Option Text → User → Result (Unit {0}) × User
with_phone none u = (ok tt, u)
with_phone (some t) u = phone_assigned u (new_phone_number t)

pub update_profile : Option Text → Option Text → Option Text → User → Result (Unit {0}) × User
update_profile first last phone u = with_phone phone (with_names first last u)

-- The argument of `hydrate`.
pub record UserData : Type 0 where
  pub id : ℕ
  pub email : Text
  pub first_name : Text
  pub last_name : Text
  pub password : Option Text
  pub role : ℕ
  pub is_verified : Bool
  pub is_2fa_enabled : Bool
  pub totp_secret : Option Text
  pub phone : Option Text

abbrev pub read_phone : Option Text → Result (Option Text)
read_phone none = ok none
read_phone (some []) = ok none
read_phone (some (c ∷ t)) = new_phone_number (c ∷ t) >>= λ p. ok (some p)

unfoldable pub hydrate : Unicode → UserData → Result User
hydrate unicode d = do
  email ← new_email unicode d.email
  phone ← read_phone d.phone
  ok (record {
    root = new_root d.id;
    email = email;
    first_name = d.first_name;
    last_name = d.last_name;
    password = d.password;
    role = d.role;
    is_verified = d.is_verified;
    is_2fa_enabled = d.is_2fa_enabled;
    totp_secret = d.totp_secret;
    phone = phone;
  })

unfoldable pub registered : Unicode → UserData → Result User
registered unicode d = do u ← hydrate unicode d; ok (with_event (user_registered u.id u.email) u)
