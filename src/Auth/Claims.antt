-- ===== src/Auth/Claims.antt =====
-- src/modules/auth/services/token.service.ts: the claims of a token, and what the service asks of them
-- before it reads them. Strings are numbers, the empty string being 0.
use tri_ad_backend.Base.{ℕ, Bool, true, false, ◌&&◌, Option, none, some, ◌==◌, ltb}

pub data TokenType : Type 0 where
  access refresh preauth : TokenType

-- A field that may be missing, that has a value other than a string, or that is a string.
pub data Field : Type 0 where
  absent not_string : Field
  text : ℕ → Field

-- A decoded payload: `none` is a field that is missing or of another type than the service expects;
-- an expiry that is not finite is `none`.
pub record Decoded : Type 0 where
  pub sub : Option ℕ
  pub jti : Option ℕ
  pub iss : Option ℕ
  pub aud : Option ℕ
  pub token_type : Option TokenType
  pub exp : Option ℕ
  pub email : Option ℕ
  pub role : Option ℕ
  pub session_id : Field
  pub family_id : Option ℕ
  pub purpose : Option ℕ

-- What the configuration says.
pub record Config : Type 0 where
  pub issuer : ℕ
  pub access_audience : ℕ
  pub refresh_audience : ℕ
  pub preauth_audience : ℕ

-- The string "2fa".
abbrev pub two_factor : ℕ
two_factor = 2

abbrev pub is_string : Option ℕ → Bool
is_string none = false
is_string (some s) = true

abbrev pub is_filled : Option ℕ → Bool
is_filled none = false
is_filled (some s) = ltb 0 s

abbrev pub equals : Option ℕ → ℕ → Bool
equals none s = false
equals (some t) s = t == s

abbrev pub same_type : TokenType → TokenType → Bool
same_type access access = true
same_type refresh refresh = true
same_type preauth preauth = true
same_type access refresh = false
same_type access preauth = false
same_type refresh access = false
same_type refresh preauth = false
same_type preauth access = false
same_type preauth refresh = false

abbrev pub has_type : Option TokenType → TokenType → Bool
has_type none t = false
has_type (some u) t = same_type u t

abbrev pub absent_or_filled : Field → Bool
absent_or_filled absent = true
absent_or_filled not_string = false
absent_or_filled (text s) = ltb 0 s

-- `hasBaseClaims`
unfoldable pub has_base_claims : Config → Decoded → TokenType → ℕ → Bool
has_base_claims config c t audience =
    is_filled c.sub
    && is_filled c.jti
    && equals c.iss config.issuer
    && equals c.aud audience
    && has_type c.token_type t
    && is_string c.exp

-- `hasAccessClaims`
unfoldable pub has_access_claims : Config → Decoded → Bool
has_access_claims config c =
    has_base_claims config c access config.access_audience
    && is_string c.email
    && is_string c.role
    && absent_or_filled c.session_id

-- `hasRefreshClaims`
unfoldable pub has_refresh_claims : Config → Decoded → Bool
has_refresh_claims config c =
    has_base_claims config c refresh config.refresh_audience && is_filled c.family_id

-- `hasPreAuthClaims`
unfoldable pub has_pre_auth_claims : Config → Decoded → Bool
has_pre_auth_claims config c =
    has_base_claims config c preauth config.preauth_audience && equals c.purpose two_factor

-- A field that the tests above have found.
abbrev pub value_of : Option ℕ → ℕ
value_of none = 0
value_of (some n) = n
