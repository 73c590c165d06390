-- ===== src/Auth/Tests.antt =====
-- The token service on small inputs.
use tri_ad_backend.Base.{
  ◌&&◌, ℕ, ◌≡◌, ◌<◌, refl, Bool, true, false, none, some, [], ◌∷◌, All, ◌+◌, ◌/◌, sym, ◌∙◌, ◌⊎◌,
  ◌==◌, arith, if◌then◌else◌, ltb,
}
use mathlib.Core.Path.{subst}
use tri_ad_backend.Auth.TwoFactor.{Totp, verify_totp, enter, is_used}
use tri_ad_backend.Auth.TwoFactor.Logins.{verify_totp-once, verify_totp-again}
use tri_ad_backend.Shared.Errors.{ok, is_ok}
use tri_ad_backend.Auth.Claims.{
  TokenType, access, refresh, preauth, Decoded, Config, two_factor, value_of, has_base_claims,
  has_access_claims, has_refresh_claims, has_pre_auth_claims,
}
use tri_ad_backend.Auth.RefreshTokens.{
  RefreshToken, find_token, revoke_token, find_active, later, rotate, count_open, create,
}
use tri_ad_backend.Auth.RefreshTokens.Families.{AreSingle, count_family}
use tri_ad_backend.Auth.TokenService.{
  User, World, Environment, refused, claims, new_token, verify_refresh_token,
  is_access_token_revoked, blacklist_access_token, consume_pre_auth, issue_pre_auth, set, get,
  delete, consume_with, blacklist_with, verify_access_token, sign_access_token, sign_refresh_token,
}
use tri_ad_backend.Auth.TokenService.Sessions.{
  Session, refresh_token, find_user, refresh_row, rotate_session, generate_tokens,
}
use tri_ad_backend.Auth.TokenService.Rotation.{at_time, refresh_token-again}
use tri_ad_backend.Auth.TokenService.Families.{refresh_token-AreSingle}
use tri_ad_backend.Auth.TokenService.Revocation.{Expires, later_on, blacklist_access_token-lasts}
use tri_ad_backend.Auth.TokenService.TwoFactor.{consume_pre_auth-once, issue_pre_auth-consume}

abbrev config : Config
config = record { issuer = 1; access_audience = 2; refresh_audience = 3; preauth_audience = 4 }

-- The claims of three tokens: 10 is an access token, 20 a refresh token of family 50, and every other
-- one a pre-authentication; all of user 7, until the second 1000.
abbrev signed_for : ℕ → Decoded
signed_for token =
    if token == 10
    then record (claims config access 30 2 7) { email = some 8; role = some 9 }
    else if token == 20
    then record (claims config refresh 31 3 7) { family_id = some 50 }
    else record (claims config preauth (if token == 45 then 34 else 33) 4 7) {
      purpose = some two_factor;
    }

abbrev claims_of : ℕ → Decoded
claims_of token = record (signed_for token) { exp = some 1_000 }

abbrev env : Environment
env = record {
  config = config;
  now = 5_000;
  store_fails = false;
  uuid = λ n. n + 33;
  digest = λ s. s + 100;
  verify = λ token type audience t. if ltb (t / 1_000) 1_000 then some (claims_of token) else none;
  sign = λ c type t. 35 + t / 1_000;
}

abbrev user : User
user = record {
  id = 7;
  email = 8;
  first_name = 1;
  last_name = 1;
  role = 9;
  is_2fa_enabled = true;
  totp_secret = some 500;
}

-- The row of token 20.
abbrev row : RefreshToken
row = record {
  id = 60;
  token = 120;
  user_id = 7;
  family_id = 50;
  expires_at = 90_000;
  revoked_at = none;
  created_at = 1_000;
}

abbrev world : World
world = record {
  tokens = row ∷ [];
  users = user ∷ [];
  revoked = [];
  pre_auths = [];
  totp_used = [];
}

abbrev session : Session
session = record { access_token = 40; refresh_token = 40; user = user }

abbrev world_after : World
world_after = record world {
  tokens = new_token env 40 7 50 ∷ record row { revoked_at = some 5_000 } ∷ [];
}

refresh_token-again_example :
    ((refresh_token (at_time env 6_000 (λ n. n + 70)) 20 world_after).0 ≡ refused)
    × (row' : RefreshToken) × (find_token (env.digest 20) world.tokens ≡ some row')
    × (find_token (env.digest session.refresh_token) world_after.tokens
        ≡ some (new_token env session.refresh_token session.user.id row'.family_id))
    × All
        (λ (x : RefreshToken). x.family_id ≡ row'.family_id → x.revoked_at ≡ some 6_000)
        (refresh_token (at_time env 6_000 (λ n. n + 70)) 20 world_after).1.tokens
unfolding refresh_token verify_refresh_token has_refresh_claims has_base_claims find_token find_user
    refresh_row find_active later rotate_session rotate count_open create revoke_token
    sign_refresh_token sign_access_token
refresh_token-again_example =
    refresh_token-again env 20 world world_after session 6_000 (λ n. n + 70) (claims_of 20) refl
      refl

single : AreSingle world.tokens
unfolding count_family
single f = ground arith

refresh_token-AreSingle_example : AreSingle (refresh_token env 20 world).1.tokens
refresh_token-AreSingle_example = refresh_token-AreSingle env 20 world single

-- What the functions of these tests promise.
in_time-inv :
    (b : Bool) (c d : Decoded) → (if b then some d else none) ≡ some c → (b ≡ true) × (c ≡ d)
in_time-inv true c d h = (refl, cc)
in_time-inv false c d h = cc

expires : (type : TokenType) (audience token : ℕ) → Expires env type audience token
expires type audience token = record {
  same = λ t t' c c' x y.
      (in_time-inv (ltb (t' / 1_000) 1_000) c' (claims_of token) y).1
      ∙ sym (in_time-inv (ltb (t / 1_000) 1_000) c (claims_of token) x).1;
  in_time = λ t c x.
      let r = in_time-inv (ltb (t / 1_000) 1_000) c (claims_of token) x in
      subst (λ d. t / 1_000 < value_of d.exp) (sym r.1) (ground (arith, r.0));
}

blacklist_access_token-lasts_example :
    (is_access_token_revoked
        (later_on env 999_000)
        10
        (record world { revoked = set 5_000 130 1 995 [] })
      ≡ ok true)
    ⊎ (is_access_token_revoked
          (later_on env 999_000)
          10
          (record world { revoked = set 5_000 130 1 995 [] })
        ≡ refused)
unfolding blacklist_access_token verify_access_token has_access_claims has_base_claims
    blacklist_with
blacklist_access_token-lasts_example =
    blacklist_access_token-lasts env 10 world (record world { revoked = set 5_000 130 1 995 [] })
      999_000 (expires access 2 10) refl

-- The store after a pre-authentication token was issued, and after it was consumed.
abbrev waiting : World
waiting = record world { pre_auths = set 5_000 33 7 300 [] }

consume_pre_auth-once_example : (consume_pre_auth (later_on env 6_000) 40 world).0 ≡ refused
unfolding consume_pre_auth has_pre_auth_claims has_base_claims consume_with get delete
consume_pre_auth-once_example =
    consume_pre_auth-once env 40 7 waiting world 6_000 (expires preauth 4 40) refl

issue_pre_auth-consume_example : (consume_pre_auth (later_on env 6_000) 40 waiting).0 ≡ ok 7
unfolding issue_pre_auth
issue_pre_auth-consume_example =
    issue_pre_auth-consume env 7 1_000 6_000 40 world waiting refl refl (omega arith) refl refl

-- Two pre-authentications of the user.
abbrev both : World
both = record world { pre_auths = set 5_000 34 7 300 (set 5_000 33 7 300 []) }

-- The password 9 is accepted in the first two minutes.
abbrev totp : Totp
totp = record {
  verify = λ secret token now. token == 9 && ltb now 120_000;
  new_secret = 501;
  encrypt = λ s. s;
  decrypt = λ s. some s;
}

abbrev logged_in : World
logged_in = record both {
  tokens = new_token env 40 7 36 ∷ row ∷ [];
  pre_auths = set 5_000 34 7 300 [];
  totp_used = record { user_id = 7; timestep = 0; expires_at = 95_000 } ∷ [];
}

verify_totp-once_example :
    is_ok (verify_totp (at_time env 6_000 (λ n. n + 70)) totp 45 9 logged_in).0 ≡ false
unfolding verify_totp consume_pre_auth has_pre_auth_claims has_base_claims consume_with get delete
    find_user enter is_used generate_tokens create find_token sign_refresh_token sign_access_token
verify_totp-once_example =
    verify_totp-once env totp 40 45 9 9 both logged_in (record logged_in { pre_auths = [] }) session
      6_000 (λ n. n + 70) refl refl refl

verify_totp-again_example :
    is_ok (verify_totp (at_time env 31_000 (λ n. n + 70)) totp 45 9 logged_in).0 ≡ true
unfolding verify_totp consume_pre_auth has_pre_auth_claims has_base_claims consume_with get delete
    find_user enter is_used generate_tokens create find_token sign_refresh_token sign_access_token
verify_totp-again_example =
    verify_totp-again env totp 40 45 9 both logged_in (record logged_in { pre_auths = [] }) session
      31_000 (λ n. n + 70) refl refl (λ p x. refl) refl refl
