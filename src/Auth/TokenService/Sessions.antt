-- ===== src/Auth/TokenService/Sessions.antt =====
-- src/modules/auth/services/token.service.ts: `generateTokens` and `refreshToken`.
use tri_ad_backend.Base.{
  ℕ, ◌-◌, Bool, true, false, not, ◌&&◌, Option, none, some, List, [], ◌∷◌, ◌==◌, ltb, leb,
  if◌then◌else◌,
}
use tri_ad_backend.Shared.Errors.{Error, Result, ok, err}
use tri_ad_backend.Auth.Claims.{Decoded, value_of}
use tri_ad_backend.Auth.RefreshTokens.{
  RefreshToken, is_null, find_token, find_active, revoke_family, create, rotate,
}
use tri_ad_backend.Auth.TokenService.{
  User, World, Environment, refused, grace_ms, sign_access_token, sign_refresh_token,
  verify_refresh_token, with_claims, new_token,
}

-- What a client gets; `user` stands for the fields of the user's row that it gets.
pub record Session : Type 0 where
  pub access_token : ℕ
  pub refresh_token : ℕ
  pub user : User

unfoldable pub find_user : ℕ → List User → Option User
find_user i [] = none
find_user i (u ∷ us) = if u.id == i then some u else find_user i us

module _ (env : Environment) where
  abbrev pub signed : User → ℕ → Session
  signed user family = record {
    access_token = sign_access_token env (env.uuid 0) user family;
    refresh_token = sign_refresh_token env (env.uuid 1) user.id family;
    user = user;
  }

  abbrev pub family_or_new : Option ℕ → ℕ
  family_or_new none = env.uuid 3
  family_or_new (some f) = if f == 0 then env.uuid 3 else f

  abbrev pub generated : Session → World → Option (List RefreshToken) → Result Session × World
  generated s w none = (err (Error.other 0), w)
  generated s w (some ts) = (ok s, record w { tokens = ts })

  -- `generateTokens`
  unfoldable pub generate_tokens : User → Option ℕ → World → Result Session × World
  generate_tokens user family w =
      let s = signed user (family_or_new family) in
      generated s w (create (new_token env s.refresh_token user.id (family_or_new family)) w.tokens)

  abbrev pub refreshed :
      Session → World → Option (Bool × List RefreshToken) → Result Session × World
  refreshed s w none = (refused, w)
  refreshed s w (some (false, ts)) = (refused, record w { tokens = ts })
  refreshed s w (some (true, ts)) = (ok s, record w { tokens = ts })

  -- The end of `refreshToken`: new tokens, and the rotation.
  unfoldable pub rotate_session : RefreshToken → User → World → Result Session × World
  rotate_session row user w =
      let s = signed user row.family_id in
      refreshed s w
        (rotate env.now row.id (new_token env s.refresh_token user.id row.family_id) w.tokens)

  abbrev revoked_session : RefreshToken → World → Result Session × World
  revoked_session row w =
      (refused, record w { tokens = revoke_family env.now row.family_id w.tokens })

  -- Whether another token of the family has been in use for as long as the grace period.
  abbrev pub is_superseded : RefreshToken → Option RefreshToken → Bool
  is_superseded row none = false
  is_superseded row (some latest) =
      not (latest.id == row.id) && leb grace_ms (env.now - latest.created_at)

  -- The checks of `refreshToken` on the row of the token, in order.
  unfoldable pub refresh_row : Decoded → RefreshToken → User → World → Result Session × World
  refresh_row c row user w =
      if not (is_null row.revoked_at)
      then revoked_session row w
      else if ltb row.expires_at env.now
      then (refused, w)
      else if not (row.family_id == value_of c.family_id)
      then (refused, w)
      else if not (row.user_id == value_of c.sub)
      then (refused, w)
      else if is_superseded row (find_active env.now row.family_id w.tokens)
      then revoked_session row w
      else rotate_session row user w

  -- A row whose user is not there is none: the table refers to that of users.
  abbrev refresh_user : Decoded → RefreshToken → Option User → World → Result Session × World
  refresh_user c row none w = (refused, w)
  refresh_user c row (some user) w = refresh_row c row user w

  abbrev refresh_found : Decoded → Option RefreshToken → World → Result Session × World
  refresh_found c none w = (refused, w)
  refresh_found c (some row) w = refresh_user c row (find_user row.user_id w.users) w

  -- `refreshToken`; it turns every error into an `AuthenticationError`.
  unfoldable pub refresh_token : ℕ → World → Result Session × World
  refresh_token token w =
      with_claims env (verify_refresh_token env token) w
        (λ c. refresh_found c (find_token (env.digest token) w.tokens) w)
