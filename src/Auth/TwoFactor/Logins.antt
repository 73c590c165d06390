-- ===== src/Auth/TwoFactor/Logins.antt =====
-- src/modules/auth/services/two-factor.service.ts: logins with a one-time password, one after
-- another.
use tri_ad_backend.Base.{
  ℕ, ◌+◌, ◌/◌, ◌≡◌, refl, sym, ap, ◌∙◌, Bool, true, false, none, some, ltb, if◌then◌else◌, arith,
  inl, inr, equal_self,
}
use tri_ad_backend.Shared.Errors.{Result, ok, is_ok, Result-cases}
use tri_ad_backend.Auth.RefreshTokens.{create, added, find_token}
use tri_ad_backend.Auth.TokenService.{
  User, World, Environment, refused, consume_pre_auth, new_token, sign_refresh_token,
}
use tri_ad_backend.Auth.TokenService.Rotation.{at_time}
use tri_ad_backend.Auth.TokenService.Sessions.{
  Session, find_user, signed, generate_tokens, generated,
}
use tri_ad_backend.Auth.TwoFactor.{
  Totp, timestep_of, broken, is_used, accepts, mark_used, enter, enter_if, log_in_with, log_in_user,
  log_in, verify_totp,
}
use tri_ad_backend.Auth.TwoFactor.Entered.{consume-SameUsers, verify_totp-inv}

is_used-marked :
    (env : Environment) (totp : Totp) (i t : ℕ) (w : World)
    → timestep_of t ≡ timestep_of env.now
    → is_used t i (timestep_of t) (mark_used env totp i w).totp_used ≡ true
unfolding is_used
is_used-marked env totp i t w e =
    rw (equal_self i) (rw (sym e) (rw (equal_self (timestep_of t)) (within t env.now e)))
  where
    within : (t now : ℕ) → t / 30_000 ≡ now / 30_000 → ltb t (now + 90_000) ≡ true
    within t now e = ground (arith, e)

ok-eq : {m n : ℕ} {w w' : World} → ◌≡◌ {A = Result ℕ × World} (ok m, w) (ok n, w') → m ≡ n
ok-eq h = cc

contradictory : {A : Type 0} {b : Bool} → b ≡ true → b ≡ false → A
contradictory x y = cc

-- After a login of a user with a one-time password, a further login of the same user in the same step
-- of time is refused, whatever password it has.
pub verify_totp-once :
    (env : Environment) (totp : Totp) (pre pre' token token' : ℕ) (w w' w2 : World) (s : Session)
    (t : ℕ) (uuid : ℕ → ℕ)
    → verify_totp env totp pre token w ≡ (ok s, w')
    → consume_pre_auth (at_time env t uuid) pre' w' ≡ (ok s.user.id, w2)
    → timestep_of t ≡ timestep_of env.now
    → is_ok (verify_totp (at_time env t uuid) totp pre' token' w').0 ≡ false
verify_totp-once env totp pre pre' token token' w w' w2 s t uuid h c e =
    elim (Result-cases (verify_totp (at_time env t uuid) totp pre' token' w').0) [
      | inr (x, q) ↦ rw q refl
      | inl (s', q) ↦
          let (i, w1, k, first) = verify_totp-inv env totp pre token w w' s h in
          let (j, w3, k', second) =
            verify_totp-inv (at_time env t uuid) totp pre' token' w' _ s'
              (ap (λ r. (r, (verify_totp (at_time env t uuid) totp pre' token' w').1)) q) in
          let used : w3.totp_used ≡ (mark_used env totp i w1).totp_used =
            ap (λ r. r.1.totp_used) (sym k')
            ∙ (consume-SameUsers (at_time env t uuid) pre' w').used_eq
            ∙ first.used_eq in
          let same : j ≡ i = ok-eq (sym k' ∙ c) ∙ first.id_eq in
          contradictory
            (ap (λ l. is_used t j (timestep_of t) l) used
              ∙ ap (λ m. is_used t m (timestep_of t) (mark_used env totp i w1).totp_used) same
              ∙ is_used-marked env totp i t w1 e)
            second.unused
    ]

generate_tokens-ok :
    (env : Environment) (u : User) (w : World)
    → find_token (env.digest (sign_refresh_token env (env.uuid 1) u.id (env.uuid 3))) w.tokens
      ≡ none
    → is_ok (generate_tokens env u none w).0 ≡ true
unfolding generate_tokens create
generate_tokens-ok env u w new =
    let row =
      new_token env (sign_refresh_token env (env.uuid 1) u.id (env.uuid 3)) u.id (env.uuid 3) in
    ap (λ o. is_ok (generated env (signed env u (env.uuid 3)) w (added row w.tokens o)).0) new

module _ (env : Environment) (totp : Totp) (i token : ℕ) (u : User) (w : World) where
  enter-ok :
      env.store_fails ≡ false
      → is_used env.now i (timestep_of env.now) w.totp_used ≡ false
      → is_ok (generate_tokens env u none (mark_used env totp i w)).0 ≡ true
      → is_ok (enter env totp i u w).0 ≡ true
  unfolding enter
  enter-ok works unused g =
      let entered = generate_tokens env u none (mark_used env totp i w) in
      let used = is_used env.now i (timestep_of env.now) w.totp_used in
      ap (λ b. is_ok (if b then (broken env totp, w) else if used then (refused, w) else entered).0)
        works
      ∙ ap (λ b. is_ok (if b then (refused, w) else entered).0) unused
      ∙ g

  log_in_user-ok :
      (secret plain : ℕ)
      → u.is_2fa_enabled ≡ true
      → u.totp_secret ≡ some secret
      → totp.decrypt secret ≡ some plain
      → totp.verify plain token env.now ≡ true
      → is_ok (enter env totp i u w).0 ≡ true
      → is_ok (log_in_user env totp i token w (some u)).0 ≡ true
  log_in_user-ok secret plain e q p a g =
      ap (λ b. is_ok (if b then log_in_with env totp i token u w u.totp_secret else (refused, w)).0)
        e
      ∙ ap (λ o. is_ok (log_in_with env totp i token u w o).0) q
      ∙ ap (λ o. is_ok (enter_if env totp i u w (accepts env totp o token)).0) p
      ∙ ap (λ b. is_ok (enter_if env totp i u w (some b)).0) a
      ∙ g

-- After a login of a user with a one-time password, a further login of the same user with the same
-- password, in another step of time in which the password is still accepted, gives a session as well,
-- if the user has not logged in in that step and the digest of the new refresh token is new.
pub verify_totp-again :
    (env : Environment) (totp : Totp) (pre pre' token : ℕ) (w w' w2 : World) (s : Session) (t : ℕ)
    (uuid : ℕ → ℕ)
    → verify_totp env totp pre token w ≡ (ok s, w')
    → consume_pre_auth (at_time env t uuid) pre' w' ≡ (ok s.user.id, w2)
    → ((plain : ℕ) → totp.verify plain token env.now ≡ true → totp.verify plain token t ≡ true)
    → is_used t s.user.id (timestep_of t) w'.totp_used ≡ false
    → find_token
        (env.digest (sign_refresh_token (at_time env t uuid) (uuid 1) s.user.id (uuid 3)))
        w2.tokens
      ≡ none
    → is_ok (verify_totp (at_time env t uuid) totp pre' token w').0 ≡ true
unfolding verify_totp
verify_totp-again env totp pre pre' token w w' w2 s t uuid h c accepted unused new =
    let (i, w1, k, first) = verify_totp-inv env totp pre token w w' s h in
    let kept = consume-SameUsers (at_time env t uuid) pre' w' in
    let found : find_user s.user.id w2.users ≡ some s.user =
      ap (λ us. find_user s.user.id us)
        (ap (λ r. r.1.users) (sym c) ∙ kept.users_eq ∙ first.users_eq)
      ∙ ap (λ j. find_user j w1.users) first.id_eq
      ∙ first.found_eq in
    let used : w2.totp_used ≡ w'.totp_used = ap (λ r. r.1.totp_used) (sym c) ∙ kept.used_eq in
    ap (λ r. is_ok (log_in (at_time env t uuid) totp token r).0) c
    ∙ ap (λ o. is_ok (log_in_user (at_time env t uuid) totp s.user.id token w2 o).0) found
    ∙ log_in_user-ok (at_time env t uuid) totp s.user.id token s.user w2 first.secret first.plain
        first.enabled first.secret_eq first.plain_eq (accepted first.plain first.accepted)
        (enter-ok (at_time env t uuid) totp s.user.id token s.user w2 first.works
          (ap (is_used t s.user.id (timestep_of t)) used ∙ unused)
          (generate_tokens-ok (at_time env t uuid) s.user
            (mark_used (at_time env t uuid) totp s.user.id w2) new))
