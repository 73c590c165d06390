-- ===== src/Auth/TwoFactor.antt =====
-- src/modules/auth/services/two-factor.service.ts: setting up two-factor logins, and logging in with
-- a one-time password. The library of one-time passwords and the encryption of secrets are
-- parameters.
pub mod Entered
pub mod Logins
use tri_ad_backend.Base.{
  ℕ, ◌+◌, ◌/◌, Bool, true, false, not, ◌&&◌, Option, none, some, List, [], ◌∷◌, ◌==◌, ltb,
  if◌then◌else◌,
}
use tri_ad_backend.Shared.Errors.{Error, application, validation, Result, ok, err}
use tri_ad_backend.Auth.TokenService.{User, Used, World, Environment, refused, consume_pre_auth}
use tri_ad_backend.Auth.TokenService.Sessions.{Session, find_user, generate_tokens}

-- `verify` takes the secret, the password and the time, and accepts the passwords of the step of the
-- time and of the steps next to it. A decryption that throws is `none`.
pub record Totp : Type 0 where
  pub verify : ℕ → ℕ → ℕ → Bool
  pub new_secret : ℕ
  pub encrypt : ℕ → ℕ
  pub decrypt : ℕ → Option ℕ

abbrev pub invalid {ℓ} : {A : Type ℓ} → Result A
invalid = err (application validation)

abbrev pub timestep_of : ℕ → ℕ
timestep_of now = now / 30_000

-- `updateUser` for the fields of two-factor logins.
unfoldable pub update_user : ℕ → Option ℕ → Bool → List User → List User
update_user i secret enabled [] = []
update_user i secret enabled (u ∷ us) =
    if u.id == i
    then record u { totp_secret = secret; is_2fa_enabled = enabled } ∷ us
    else u ∷ update_user i secret enabled us

unfoldable pub is_used : ℕ → ℕ → ℕ → List Used → Bool
is_used now i step [] = false
is_used now i step (u ∷ us) =
    if u.user_id == i && u.timestep == step then ltb now u.expires_at else is_used now i step us

module _ (env : Environment) (totp : Totp) where
  abbrev enabled_for : ℕ → World → Option User → Result ℕ × World
  enabled_for i w none = (invalid, w)
  enabled_for i w (some u) = (
    ok totp.new_secret,
    record w { users = update_user i (some (totp.encrypt totp.new_secret)) false w.users },
  )

  -- `enable2FA`: the secret for the user's device.
  unfoldable pub enable_2fa : ℕ → World → Result ℕ × World
  enable_2fa i w = enabled_for i w (find_user i w.users)

  -- What `verifyTotpToken` says of a secret as it is stored, and of a password.
  abbrev pub accepts : Option ℕ → ℕ → Option Bool
  accepts none token = none
  accepts (some secret) token = some (totp.verify secret token env.now)

  -- A decryption that throws.
  abbrev pub broken {ℓ} : {A : Type ℓ} → Result A
  broken = err (Error.other 0)

  abbrev verified_for : ℕ → ℕ → World → Option User → Result Bool × World
  verified_for i secret w none = (invalid, w)
  verified_for i secret w (some u) =
      (ok true, record w { users = update_user i (some secret) true w.users })

  abbrev checked_2fa : ℕ → ℕ → World → User → Option Bool → Result Bool × World
  checked_2fa i secret w u none = (broken, w)
  checked_2fa i secret w u (some false) = (invalid, w)
  checked_2fa i secret w u (some true) = verified_for i secret w (some u)

  abbrev verify_with : ℕ → ℕ → World → User → Option ℕ → Result Bool × World
  verify_with i token w u none = (invalid, w)
  verify_with i token w u (some secret) =
      checked_2fa i secret w u (accepts (totp.decrypt secret) token)

  abbrev verify_user : ℕ → ℕ → World → Option User → Result Bool × World
  verify_user i token w none = (invalid, w)
  verify_user i token w (some u) = verify_with i token w u u.totp_secret

  -- `verify2FA`
  unfoldable pub verify_2fa : ℕ → ℕ → World → Result Bool × World
  verify_2fa i token w = verify_user i token w (find_user i w.users)

  -- `setIfAbsent` for the replay key, with its 90 seconds.
  abbrev pub mark_used : ℕ → World → World
  mark_used i w = record w {
    totp_used =
        record { user_id = i; timestep = timestep_of env.now; expires_at = env.now + 90_000 }
        ∷ w.totp_used;
  }

  -- The end of `verifyTOTP`: a password that was accepted, against the replay key.
  unfoldable pub enter : ℕ → User → World → Result Session × World
  enter i u w =
      if env.store_fails
      then (broken, w)
      else if is_used env.now i (timestep_of env.now) w.totp_used
      then (refused, w)
      else generate_tokens env u none (mark_used i w)

  abbrev pub enter_if : ℕ → User → World → Option Bool → Result Session × World
  enter_if i u w none = (broken, w)
  enter_if i u w (some false) = (refused, w)
  enter_if i u w (some true) = enter i u w

  abbrev pub log_in_with : ℕ → ℕ → User → World → Option ℕ → Result Session × World
  log_in_with i token u w none = (refused, w)
  log_in_with i token u w (some secret) = enter_if i u w (accepts (totp.decrypt secret) token)

  abbrev pub log_in_user : ℕ → ℕ → World → Option User → Result Session × World
  log_in_user i token w none = (refused, w)
  log_in_user i token w (some u) =
      if u.is_2fa_enabled then log_in_with i token u w u.totp_secret else (refused, w)

  abbrev pub log_in : ℕ → Result ℕ × World → Result Session × World
  log_in token (err e, w) = (err e, w)
  log_in token (ok i, w) = log_in_user i token w (find_user i w.users)

  -- `verifyTOTP`
  unfoldable pub verify_totp : ℕ → ℕ → World → Result Session × World
  verify_totp pre_auth token w = log_in token (consume_pre_auth env pre_auth w)
