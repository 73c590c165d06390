-- ===== src/Auth/TwoFactor/Entered.antt =====
-- src/modules/auth/services/two-factor.service.ts: what a login that gives a session has found and
-- left.
use tri_ad_backend.Base.{
  ℕ, ◌≡◌, refl, sym, ap, ◌∙◌, Bool, true, false, Option, none, some, List, [], ◌∷◌, ◌==◌,
  if◌then◌else◌, arith, inl, inr, Bool-cases,
}
use tri_ad_backend.Shared.Errors.{Error, Result, ok, err, Result-cases}
use tri_ad_backend.Auth.Claims.{Decoded, has_pre_auth_claims, preauth}
use tri_ad_backend.Auth.RefreshTokens.{RefreshToken}
use tri_ad_backend.Auth.TokenService.{
  User, World, Environment, refused, consume_pre_auth, consume_with, only_if,
}
use tri_ad_backend.Auth.TokenService.Sessions.{Session, find_user, generate_tokens, generated}
use tri_ad_backend.Auth.TwoFactor.{
  Totp, timestep_of, is_used, accepts, mark_used, enter, enter_if, log_in_with, log_in_user, log_in,
  verify_totp,
}

-- A consumption of a pre-authentication touches nothing but those that wait.
pub record SameUsers (w w' : World) : Type 0 where
  pub users_eq : w'.users ≡ w.users
  pub used_eq : w'.totp_used ≡ w.totp_used

consume_with-SameUsers :
    (env : Environment) (c : Decoded) (w : World) → SameUsers w (consume_with env c w).1
unfolding consume_with
consume_with-SameUsers env c w = elim (Bool-cases env.store_fails) [
  | inl x ↦ rw x (record { users_eq = refl; used_eq = refl })
  | inr x ↦ rw x (record { users_eq = refl; used_eq = refl })
]

pub consume-SameUsers :
    (env : Environment) (pre : ℕ) (w : World) → SameUsers w (consume_pre_auth env pre w).1
unfolding consume_pre_auth
consume-SameUsers env pre w =
    elim (Result-cases (
      only_if (has_pre_auth_claims env.config)
        (env.verify pre preauth env.config.preauth_audience env.now))) [
          | inl (c, x) ↦ rw x (consume_with-SameUsers env c w)
          | inr (e, x) ↦ rw x (record { users_eq = refl; used_eq = refl })
        ]

-- A login of a user that gives a session, and what it leaves of the uses.
pub record HasEntered (env : Environment) (totp : Totp) (i token : ℕ) (w : World) (s : Session)
    (w' : World) : Type 0 where
  pub secret : ℕ
  pub plain : ℕ
  pub id_eq : s.user.id ≡ i
  pub found_eq : find_user i w.users ≡ some s.user
  pub enabled : s.user.is_2fa_enabled ≡ true
  pub secret_eq : s.user.totp_secret ≡ some secret
  pub plain_eq : totp.decrypt secret ≡ some plain
  pub accepted : totp.verify plain token env.now ≡ true
  pub works : env.store_fails ≡ false
  pub unused : is_used env.now i (timestep_of env.now) w.totp_used ≡ false
  pub users_eq : w'.users ≡ w.users
  pub used_eq : w'.totp_used ≡ (mark_used env totp i w).totp_used

find_user-id : (i : ℕ) (us : List User) (u : User) → find_user i us ≡ some u → u.id ≡ i
unfolding find_user
find_user-id i [] u = λ x. cc
find_user-id i (v ∷ us) u = elim (Bool-cases (v.id == i)) [
  | inl x ↦ λ y. ground (arith, x, y)
  | inr x ↦ λ y. ground (arith, x, y, find_user-id i us u)
]

generated-inv :
    (env : Environment) (s s' : Session) (w w' : World) (o : Option (List RefreshToken))
    → generated env s w o ≡ (ok s', w')
    → (s' ≡ s) × (w'.users ≡ w.users) × (w'.totp_used ≡ w.totp_used)
generated-inv env s s' w w' none h = cc
generated-inv env s s' w w' (some ts) h =
    (cc, ap (λ r. r.1.users) (sym h), ap (λ r. r.1.totp_used) (sym h))

passed-both :
    (b b' : Bool) (e e' : Error) (s : Session) (w w' : World) (x : Result Session × World)
    → (if b then (err e, w) else if b' then (err e', w) else x) ≡ (ok s, w')
    → (b ≡ false) × (b' ≡ false) × (x ≡ (ok s, w'))
passed-both true b' e e' s w w' x h = cc
passed-both false true e e' s w w' x h = cc
passed-both false false e e' s w w' x h = (refl, refl, h)

allowed :
    (b : Bool) (s : Session) (w w' : World) (x : Result Session × World)
    → (if b then x else (refused, w)) ≡ (ok s, w')
    → (b ≡ true) × (x ≡ (ok s, w'))
allowed true s w w' x h = (refl, h)
allowed false s w w' x h = cc

generate_tokens-inv :
    (env : Environment) (u : User) (w w' : World) (s : Session)
    → generate_tokens env u none w ≡ (ok s, w')
    → (s.user ≡ u) × (w'.users ≡ w.users) × (w'.totp_used ≡ w.totp_used)
unfolding generate_tokens
generate_tokens-inv env u w w' s h =
    let (a, b, c) = generated-inv env _ s w w' _ h in (ap (λ x. x.user) a, b, c)

module _ (env : Environment) (totp : Totp) where
  enter-inv :
      (i : ℕ) (u : User) (w w' : World) (s : Session)
      → enter env totp i u w ≡ (ok s, w')
      → (env.store_fails ≡ false)
        × (is_used env.now i (timestep_of env.now) w.totp_used ≡ false)
        × (s.user ≡ u)
        × (w'.users ≡ w.users)
        × (w'.totp_used ≡ (mark_used env totp i w).totp_used)
  unfolding enter
  enter-inv i u w w' s h =
      let (a, b, c) =
        passed-both env.store_fails (is_used env.now i (timestep_of env.now) w.totp_used) _ _ s w w'
          _ h in
      let (d, e, f) = generate_tokens-inv env u (mark_used env totp i w) w' s c in (a, b, d, e, f)

  enter_if-inv :
      (i : ℕ) (u : User) (w w' : World) (s : Session) (token : ℕ) (o : Option ℕ)
      → enter_if env totp i u w (accepts env totp o token) ≡ (ok s, w')
      → (plain : ℕ) × (o ≡ some plain)
        × (totp.verify plain token env.now ≡ true)
        × (enter env totp i u w ≡ (ok s, w'))
  enter_if-inv i u w w' s token none = λ h. cc
  enter_if-inv i u w w' s token (some p) = elim (Bool-cases (totp.verify p token env.now)) [
    | inl x ↦ rw x (λ h. (p, refl, x, h))
    | inr x ↦ rw x (λ h. cc)
  ]

  log_in_with-inv :
      (i : ℕ) (u : User) (w w' : World) (s : Session) (token : ℕ) (o : Option ℕ)
      → find_user i w.users ≡ some u
      → u.is_2fa_enabled ≡ true
      → u.totp_secret ≡ o
      → log_in_with env totp i token u w o ≡ (ok s, w')
      → HasEntered env totp i token w s w'
  log_in_with-inv i u w w' s token none f e q h = cc
  log_in_with-inv i u w w' s token (some secret) f e q h =
      let (plain, p, a, g) = enter_if-inv i u w w' s token (totp.decrypt secret) h in
      let (works, unused, same, us, ts) = enter-inv i u w w' s g in
      record {
        secret = secret;
        plain = plain;
        id_eq = ap (λ (x : User). x.id) same ∙ find_user-id i w.users u f;
        found_eq = f ∙ ap some (sym same);
        enabled = ap (λ (x : User). x.is_2fa_enabled) same ∙ e;
        secret_eq = ap (λ (x : User). x.totp_secret) same ∙ q;
        plain_eq = p;
        accepted = a;
        works = works;
        unused = unused;
        users_eq = us;
        used_eq = ts;
      }

  log_in_user-inv :
      (i : ℕ) (w w' : World) (s : Session) (token : ℕ) (o : Option User)
      → find_user i w.users ≡ o
      → log_in_user env totp i token w o ≡ (ok s, w')
      → HasEntered env totp i token w s w'
  log_in_user-inv i w w' s token none f = λ h. cc
  log_in_user-inv i w w' s token (some u) f = λ h.
      let (x, k) =
        allowed u.is_2fa_enabled s w w' (log_in_with env totp i token u w u.totp_secret) h in
      log_in_with-inv i u w w' s token u.totp_secret f x refl k

  -- A login is a consumption and what follows it.
  pub verify_totp-inv :
      (pre token : ℕ) (w w' : World) (s : Session)
      → verify_totp env totp pre token w ≡ (ok s, w')
      → (i : ℕ) × (w1 : World) × (consume_pre_auth env pre w ≡ (ok i, w1))
        × HasEntered env totp i token w1 s w'
  unfolding verify_totp
  verify_totp-inv pre token w w' s = go (consume_pre_auth env pre w) refl
    where
      go :
          (r : Result ℕ × World)
          → consume_pre_auth env pre w ≡ r
          → log_in env totp token r ≡ (ok s, w')
          → (i : ℕ) × (w1 : World) × (consume_pre_auth env pre w ≡ (ok i, w1))
            × HasEntered env totp i token w1 s w'
      go (err e, w1) q h = cc
      go (ok i, w1) q h = (i, w1, q, log_in_user-inv i w1 w' s token (find_user i w1.users) refl h)
