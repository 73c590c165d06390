-- ===== src/Users/Tests.antt =====
-- Runs of a user, and its theorem there.
use tri_ad_backend.Base.{◌≡◌, refl, false, none, some, [], ◌∷◌}
use tri_ad_backend.Shared.Errors.{domain, weak_password, err}
use tri_ad_backend.Users.User.{User, assert_password_policy}
use tri_ad_backend.Users.User.History.{
  Develops, verifies, confirms, disables, sets_password, starts, updates, run, run-Develops,
}

abbrev ann : User
ann = record {
  root = record { id = 4; domain_events = []; version = 0 };
  email = b'a' ∷ [];
  first_name = b'A' ∷ [];
  last_name = [];
  password = none;
  role = 1;
  is_verified = false;
  is_2fa_enabled = false;
  totp_secret = none;
  phone = none;
}

too_short : assert_password_policy (b'x' ∷ b'y' ∷ []) ≡ err (domain (weak_password 6))
unfolding assert_password_policy
too_short = refl

run-Develops_example : Develops ann (
    run ann (
      verifies
      ∷ verifies
      ∷ confirms
      ∷ starts (b's' ∷ [])
      ∷ confirms
      ∷ starts (b't' ∷ [])
      ∷ updates (some (b'B' ∷ [])) none (some (b'1' ∷ []))
      ∷ sets_password (b'h' ∷ [])
      ∷ disables
      ∷ []))
run-Develops_example = run-Develops ann _
