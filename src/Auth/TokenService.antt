-- ===== src/Auth/TokenService.antt =====
-- src/modules/auth/services/token.service.ts: the operations of `TokenService`. The library of JSON web
-- tokens, digests and random ids are parameters; the store of keys that expire is Redis. Times are
-- numbers of milliseconds, but for a token's expiry, which is in seconds. Metrics and logs are left
-- out, and calls of the database do not throw but for a digest that is there already.
pub mod Sessions
pub mod Rotation
pub mod Families
pub mod Revocation
pub mod TwoFactor
use tri_ad_backend.Base.{
  ℕ, zero, suc, ◌+◌, ◌*◌, ◌-◌, ◌/◌, Bool, true, false, not, ◌&&◌, Option, none, some, List, [], ◌∷◌,
  ◌==◌, ltb, leb, if◌then◌else◌,
}
use tri_ad_backend.Shared.Errors.{
  Error, application, authentication, dependency_unavailable, Result, ok, err, ◌>>=◌,
}
use tri_ad_backend.Auth.Claims.{
  TokenType, access, refresh, preauth, Field, text, absent, Decoded, Config, two_factor,
  has_access_claims, has_refresh_claims, has_pre_auth_claims, value_of,
}
use tri_ad_backend.Auth.RefreshTokens.{
  RefreshToken, is_null, find_token, find_active, revoke_family, create, rotate, delete_by_user,
}

pub record User : Type 0 where
  pub id : ℕ
  pub email : ℕ
  pub first_name : ℕ
  pub last_name : ℕ
  pub role : ℕ
  pub is_2fa_enabled : Bool
  pub totp_secret : Option ℕ

-- A key of Redis with its value, until a time.
pub record Stored : Type 0 where
  pub key : ℕ
  pub value : ℕ
  pub expires_at : ℕ

-- The use of a one-time password by a user in a step of time, kept in Redis until a time.
pub record Used : Type 0 where
  pub user_id : ℕ
  pub timestep : ℕ
  pub expires_at : ℕ

-- The tables, and the keys of Redis under its three prefixes: revoked access tokens,
-- pre-authentications, and one-time passwords that were used.
pub record World : Type 0 where
  pub tokens : List RefreshToken
  pub users : List User
  pub revoked : List Stored
  pub pre_auths : List Stored
  pub totp_used : List Used

-- What a request meets: its time, whether Redis throws, random ids, and the functions of the
-- libraries. `verify` takes the token, the type whose secret it is checked with, the audience and
-- the time; `sign` the claims, the type and the time.
pub record Environment : Type 0 where
  pub config : Config
  pub now : ℕ
  pub store_fails : Bool
  pub uuid : ℕ → ℕ
  pub digest : ℕ → ℕ
  pub verify : ℕ → TokenType → ℕ → ℕ → Option Decoded
  pub sign : Decoded → TokenType → ℕ → ℕ

abbrev pub refused {ℓ} : {A : Type ℓ} → Result A
refused = err (application authentication)

abbrev pub unavailable {ℓ} : {A : Type ℓ} → Result A
unavailable = err (application dependency_unavailable)

abbrev pub refresh_token_ttl_ms : ℕ
refresh_token_ttl_ms = 7 * 24 * 60 * 60 * 1_000

abbrev pub grace_ms : ℕ
grace_ms = 30 * 1_000

-- Redis: `set` with a time to live in seconds, `get`, and `getAndDelete`.
abbrev pub set : ℕ → ℕ → ℕ → ℕ → List Stored → List Stored
set now k v ttl ss = record { key = k; value = v; expires_at = now + ttl * 1_000 } ∷ ss

unfoldable pub get : ℕ → ℕ → List Stored → Option ℕ
get now k [] = none
get now k (s ∷ ss) =
    if s.key == k then (if ltb now s.expires_at then some s.value else none) else get now k ss

unfoldable pub delete : ℕ → List Stored → List Stored
delete k [] = []
delete k (s ∷ ss) = if s.key == k then delete k ss else s ∷ delete k ss

abbrev pub only_if {ℓ} : {A : Type ℓ} → (A → Bool) → Option A → Result A
only_if test none = refused
only_if test (some a) = if test a then ok a else refused

-- The claims that every token has.
abbrev pub claims : Config → TokenType → ℕ → ℕ → ℕ → Decoded
claims config t jti audience sub = record {
  sub = some sub;
  jti = some jti;
  iss = some config.issuer;
  aud = some audience;
  token_type = some t;
  exp = none;
  email = none;
  role = none;
  session_id = absent;
  family_id = none;
  purpose = none;
}

module _ (env : Environment) where
  unfoldable pub sign_access_token : ℕ → User → ℕ → ℕ
  sign_access_token jti user session =
      env.sign
        (record (claims env.config access jti env.config.access_audience user.id) {
          email = some user.email;
          role = some user.role;
          session_id = text session;
        })
        access env.now

  unfoldable pub sign_refresh_token : ℕ → ℕ → ℕ → ℕ
  sign_refresh_token jti user_id family =
      env.sign
        (record (claims env.config refresh jti env.config.refresh_audience user_id) {
          family_id = some family;
        })
        refresh env.now

  unfoldable pub verify_access_token : ℕ → Result Decoded
  verify_access_token token =
      only_if (has_access_claims env.config)
        (env.verify token access env.config.access_audience env.now)

  unfoldable pub verify_refresh_token : ℕ → Result Decoded
  verify_refresh_token token =
      only_if (has_refresh_claims env.config)
        (env.verify token refresh env.config.refresh_audience env.now)

  abbrev pub is_some : Option ℕ → Bool
  is_some none = false
  is_some (some v) = true

  abbrev pub revocation_key : Decoded → ℕ
  revocation_key c = env.digest (value_of c.jti)

  pub revoked_with : Decoded → World → Result Bool
  revoked_with c w =
      if env.store_fails
      then unavailable
      else ok (is_some (get env.now (revocation_key c) w.revoked))

  -- `isAccessTokenRevoked`
  pub is_access_token_revoked : ℕ → World → Result Bool
  is_access_token_revoked token w = verify_access_token token >>= λ c. revoked_with c w

  unfoldable pub blacklist_with : Decoded → World → Result (Unit {0}) × World
  blacklist_with c w =
      let ttl = value_of c.exp - env.now / 1_000 in
      if leb (value_of c.exp) (env.now / 1_000)
      then (ok tt, w)
      else if env.store_fails
      then (unavailable, w)
      else (ok tt, record w { revoked = set env.now (revocation_key c) 1 ttl w.revoked })

  abbrev pub with_claims {ℓ} :
      {A : Type ℓ} → Result Decoded → World → (Decoded → Result A × World) → Result A × World
  with_claims (err e) w rest = (err e, w)
  with_claims (ok c) w rest = rest c

  -- `blacklistAccessToken`
  unfoldable pub blacklist_access_token : ℕ → World → Result (Unit {0}) × World
  blacklist_access_token token w =
      with_claims (verify_access_token token) w (λ c. blacklist_with c w)

  -- `issueTwoFactorPreAuthToken`, with the random id.
  unfoldable pub issue_pre_auth : ℕ → World → Result ℕ × World
  issue_pre_auth user_id w =
      let jti = env.uuid 0 in
      let token =
        env.sign
          (record (claims env.config preauth jti env.config.preauth_audience user_id) {
            purpose = some two_factor;
          })
          preauth env.now in
      if env.store_fails
      then (unavailable, w)
      else (ok token, record w { pre_auths = set env.now jti user_id 300 w.pre_auths })

  abbrev pub matching : Option ℕ → ℕ → Result ℕ
  matching none sub = refused
  matching (some v) sub = if v == sub then ok sub else refused

  unfoldable pub consume_with : Decoded → World → Result ℕ × World
  consume_with c w = if env.store_fails then (unavailable, w) else (
    matching (get env.now (value_of c.jti) w.pre_auths) (value_of c.sub),
    record w { pre_auths = delete (value_of c.jti) w.pre_auths },
  )

  -- `consumeTwoFactorPreAuthToken`
  unfoldable pub consume_pre_auth : ℕ → World → Result ℕ × World
  consume_pre_auth token w =
      with_claims
        (only_if (has_pre_auth_claims env.config)
          (env.verify token preauth env.config.preauth_audience env.now))
        w (λ c. consume_with c w)

  -- `invalidateAllUserTokens`
  unfoldable pub invalidate_all : ℕ → World → World
  invalidate_all user_id w = record w { tokens = delete_by_user user_id w.tokens }

  -- The row of a new refresh token.
  abbrev pub new_token : ℕ → ℕ → ℕ → RefreshToken
  new_token token user_id family = record {
    id = env.uuid 2;
    token = env.digest token;
    user_id = user_id;
    family_id = family;
    expires_at = env.now + refresh_token_ttl_ms;
    revoked_at = none;
    created_at = env.now;
  }
