-- ===== src/Auth/TokenService/TwoFactor.antt =====
-- src/modules/auth/services/token.service.ts: pre-authentication tokens of two-factor logins.
use tri_ad_backend.Base.{
  equal_self, ℕ, ◌+◌, ◌<◌, ◌≡◌, refl, sym, ap, ◌∙◌, Bool, true, false, none, some, List, [], ◌∷◌,
  if◌then◌else◌, ltb, arith, inl, inr, Bool-cases, Option-cases,
}
use tri_ad_backend.Shared.Errors.{Result, ok}
use tri_ad_backend.Auth.Claims.{
  preauth, Decoded, has_pre_auth_claims, has_base_claims, value_of, two_factor,
}
use tri_ad_backend.Auth.TokenService.{
  World, Environment, Stored, refused, unavailable, set, get, delete, claims, issue_pre_auth,
  consume_with, consume_pre_auth, matching,
}
use tri_ad_backend.Auth.TokenService.Revocation.{Expires, later_on}

get-delete : (t k : ℕ) (ss : List Stored) → get t k (delete k ss) ≡ none
unfolding get delete
get-delete t k [] = refl
get-delete t k (s ∷ ss) = ground (arith, get-delete t k ss)

-- What a request to consume leaves in the store.
consumed :
    (env : Environment) (c : Decoded) (u : ℕ) (w w' : World)
    → consume_with env c w ≡ (ok u, w')
    → (env.store_fails ≡ false) × (w'.pre_auths ≡ delete (value_of c.jti) w.pre_auths)
unfolding consume_with
consumed env c u w w' = elim (Bool-cases env.store_fails) [
  | inl x ↦ rw x (λ h. cc)
  | inr x ↦ rw x (λ h. (refl, ap (λ r. r.1.pre_auths) (sym h)))
]

consume_with-none :
    (env : Environment) (c : Decoded) (w : World)
    → env.store_fails ≡ false
    → get env.now (value_of c.jti) w.pre_auths ≡ none
    → (consume_with env c w).0 ≡ refused
unfolding consume_with
consume_with-none env c w f g = rw f (ap (λ o. matching env o (value_of c.sub)) g)

-- A pre-authentication token that was consumed is refused from then on. No other request comes
-- between.
pub consume_pre_auth-once :
    (env : Environment) (token u : ℕ) (w w' : World) (t : ℕ)
    → Expires env preauth env.config.preauth_audience token
    → consume_pre_auth env token w ≡ (ok u, w')
    → (consume_pre_auth (later_on env t) token w').0 ≡ refused
unfolding consume_pre_auth
consume_pre_auth-once env token u w w' t e =
    elim (Option-cases (env.verify token preauth env.config.preauth_audience env.now)) [
      | inl x ↦ rw x (λ h. cc)
      | inr (c, x) ↦ rw x (elim (Bool-cases (has_pre_auth_claims env.config c)) [
        | inr y ↦ rw y (λ h. cc)
        | inl y ↦ rw y (λ h. again c x y (consumed env c u w w' h))
      ])
    ]
  where
    again :
        (c : Decoded)
        → env.verify token preauth env.config.preauth_audience env.now ≡ some c
        → has_pre_auth_claims env.config c ≡ true
        → (env.store_fails ≡ false) × (w'.pre_auths ≡ delete (value_of c.jti) w.pre_auths)
        → (consume_pre_auth (later_on env t) token w').0 ≡ refused
    again c x y (f, q) =
        elim (Option-cases (env.verify token preauth env.config.preauth_audience t)) [
          | inl z ↦ rw z refl
          | inr (c', z) ↦
              rw (z ∙ ap some (e.same env.now t c c' x z), y)
                (consume_with-none (later_on env t) c w' f
                  (ap (get t (value_of c.jti)) q ∙ get-delete t (value_of c.jti) w.pre_auths))
        ]

-- The claims of the token that `issueTwoFactorPreAuthToken` signs.
abbrev pub issued : Environment → ℕ → Decoded
issued env user_id =
    record (claims env.config preauth (env.uuid 0) env.config.preauth_audience user_id) {
      purpose = some two_factor;
    }

issued-has_claims :
    (env : Environment) (u e : ℕ)
    → ltb 0 u ≡ true
    → ltb 0 (env.uuid 0) ≡ true
    → has_pre_auth_claims env.config (record (issued env u) { exp = some e }) ≡ true
unfolding has_pre_auth_claims has_base_claims
issued-has_claims env u e a b = ground (arith, a, b)

get-set :
    (now t k v : ℕ) (ss : List Stored) → t < now + 300_000 → get t k (set now k v 300 ss) ≡ some v
unfolding get
get-set now t k v ss l = ground (arith, l)

consume-issued :
    (env : Environment) (u e t token : ℕ) (w : World)
    → env.store_fails ≡ false
    → ltb 0 u ≡ true
    → ltb 0 (env.uuid 0) ≡ true
    → t < env.now + 300_000
    → env.verify token preauth env.config.preauth_audience t
      ≡ some (record (issued env u) { exp = some e })
    → (consume_pre_auth
        (later_on env t)
        token
        (record w { pre_auths = set env.now (env.uuid 0) u 300 w.pre_auths })).0
      ≡ ok u
unfolding consume_pre_auth consume_with
consume-issued env u e t token w f a b l v = rw v (
    rw (issued-has_claims env u e a b)
      (rw f (rw (get-set env.now t (env.uuid 0) u w.pre_auths l) (rw (equal_self u) refl))))

stored-inv :
    (b : Bool) (m n : ℕ) (w y w' : World)
    → ◌≡◌ {A = Result ℕ × World} (if b then (unavailable, w) else (ok m, y)) (ok n, w')
    → (b ≡ false) × (m ≡ n) × (w' ≡ y)
stored-inv true m n w y w' h = cc
stored-inv false m n w y w' h = (refl, cc, ap (λ r. r.1) (sym h))

-- A pre-authentication token that was issued to a user is consumed for that user within five
-- minutes, if the library verifies what it has signed, with an expiry added to the claims.
pub issue_pre_auth-consume :
    (env : Environment) (u e t token : ℕ) (w w' : World)
    → ltb 0 u ≡ true
    → ltb 0 (env.uuid 0) ≡ true
    → t < env.now + 300_000
    → env.verify (env.sign (issued env u) preauth env.now) preauth env.config.preauth_audience t
      ≡ some (record (issued env u) { exp = some e })
    → issue_pre_auth env u w ≡ (ok token, w')
    → (consume_pre_auth (later_on env t) token w').0 ≡ ok u
unfolding issue_pre_auth
issue_pre_auth-consume env u e t token w w' a b l v h =
    let (f, same, q) =
      stored-inv env.store_fails _ token w
        (record w { pre_auths = set env.now (env.uuid 0) u 300 w.pre_auths }) w' h in
    ap (λ y. (consume_pre_auth (later_on env t) token y).0) q
    ∙ consume-issued env u e t token w f a b l
        (ap (λ y. env.verify y preauth env.config.preauth_audience t) (sym same) ∙ v)
