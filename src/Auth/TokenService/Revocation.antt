-- ===== src/Auth/TokenService/Revocation.antt =====
-- src/modules/auth/services/token.service.ts: access tokens that were blacklisted.
use tri_ad_backend.Base.{
  equal_self, ℕ, ◌+◌, ◌*◌, ◌-◌, ◌/◌, ◌<◌, ◌≡◌, refl, ap, ◌∙◌, Bool, true, false, some,
  if◌then◌else◌, ltb, leb, arith, inl, inr, ◌⊎◌, Bool-cases, Option-cases,
}
use tri_ad_backend.Shared.Errors.{Result, ok}
use tri_ad_backend.Auth.Claims.{TokenType, access, Decoded, has_access_claims, value_of}
use tri_ad_backend.Auth.TokenService.{
  World, Environment, refused, unavailable, set, get, verify_access_token, revoked_with,
  is_access_token_revoked, blacklist_with, blacklist_access_token, revocation_key,
}

-- What the library of tokens promises of a token: its claims are the same whenever it verifies, and
-- it does not verify from the second of its expiry on.
pub record Expires (env : Environment) (type : TokenType) (audience token : ℕ) : Type 0 where
  pub same :
      (t t' : ℕ) (c c' : Decoded)
      → env.verify token type audience t ≡ some c
      → env.verify token type audience t' ≡ some c'
      → c' ≡ c
  pub in_time :
      (t : ℕ) (c : Decoded) → env.verify token type audience t ≡ some c → t / 1_000 < value_of c.exp

-- The same service at another time.
abbrev pub later_on : Environment → ℕ → Environment
later_on env t = record env { now = t }

stored-inv :
    (b b' : Bool) (w y w' : World)
    → b ≡ false
    → ◌≡◌ {A = Result (Unit {0}) × World}
        (if b then (ok tt, w) else if b' then (unavailable, w) else (ok tt, y))
        (ok tt, w')
    → (b' ≡ false) × (w' ≡ y)
stored-inv true b' w y w' f h = cc
stored-inv false true w y w' f h = cc
stored-inv false false w y w' f h = (refl, cc)

blacklisted :
    (env : Environment) (c : Decoded) (w w' : World)
    → env.now / 1_000 < value_of c.exp
    → blacklist_with env c w ≡ (ok tt, w')
    → (env.store_fails ≡ false)
      × (w' ≡ record w {
        revoked = set env.now (revocation_key env c) 1 (value_of c.exp - env.now / 1_000) w.revoked;
      })
unfolding blacklist_with
blacklisted env c w w' x h =
    stored-inv (leb (value_of c.exp) (env.now / 1_000)) env.store_fails w _ w' (ground (arith, x)) h

ltb-true : {m n : ℕ} → m < n → ltb m n ≡ true
ltb-true x = ground (arith, x)

outlives : (t now exp : ℕ) → t / 1_000 < exp → t < now + (exp - now / 1_000) * 1_000
outlives t now exp x = omega (arith, x)

revoked_with-set :
    (env : Environment) (t : ℕ) (c : Decoded) (w : World)
    → env.store_fails ≡ false
    → t / 1_000 < value_of c.exp
    → revoked_with (later_on env t) c (record w {
      revoked = set env.now (revocation_key env c) 1 (value_of c.exp - env.now / 1_000) w.revoked;
    })
      ≡ ok true
unfolding revoked_with get
revoked_with-set env t c w f x = rw f (
    rw (equal_self (env.digest (value_of c.jti)))
      (rw (ltb-true (outlives t env.now (value_of c.exp) x)) refl))

-- An access token that was blacklisted is, whenever it still verifies, reported as revoked, and
-- otherwise refused: the entry in the store outlives the token. No other request comes between.
pub blacklist_access_token-lasts :
    (env : Environment) (token : ℕ) (w w' : World) (t : ℕ)
    → Expires env access env.config.access_audience token
    → blacklist_access_token env token w ≡ (ok tt, w')
    → (is_access_token_revoked (later_on env t) token w' ≡ ok true)
      ⊎ (is_access_token_revoked (later_on env t) token w' ≡ refused)
unfolding blacklist_access_token is_access_token_revoked verify_access_token
blacklist_access_token-lasts env token w w' t e =
    elim (Option-cases (env.verify token access env.config.access_audience env.now)) [
      | inl x ↦ rw x (λ h. cc)
      | inr (c, x) ↦ rw x (elim (Bool-cases (has_access_claims env.config c)) [
        | inr y ↦ rw y (λ h. cc)
        | inl y ↦ rw y (λ h. still c x y (blacklisted env c w w' (e.in_time env.now c x) h))
      ])
    ]
  where
    at_last :
        (c : Decoded)
        → env.verify token access env.config.access_audience env.now ≡ some c
        → has_access_claims env.config c ≡ true
        → env.store_fails ≡ false
        → w' ≡ record w {
          revoked =
              set env.now (revocation_key env c) 1 (value_of c.exp - env.now / 1_000) w.revoked;
        }
        → env.verify token access env.config.access_audience t ≡ some c
        → is_access_token_revoked (later_on env t) token w' ≡ ok true
    at_last c x y f q z = rw z (
        rw y
          (ap (revoked_with (later_on env t) c) q ∙ revoked_with-set env t c w f (e.in_time t c z)))

    still :
        (c : Decoded)
        → env.verify token access env.config.access_audience env.now ≡ some c
        → has_access_claims env.config c ≡ true
        → (env.store_fails ≡ false)
          × (w' ≡ record w {
            revoked =
                set env.now (revocation_key env c) 1 (value_of c.exp - env.now / 1_000) w.revoked;
          })
        → (is_access_token_revoked (later_on env t) token w' ≡ ok true)
          ⊎ (is_access_token_revoked (later_on env t) token w' ≡ refused)
    still c x y (f, q) =
        elim (Option-cases (env.verify token access env.config.access_audience t)) [
          | inl z ↦ inr (rw z refl)
          | inr (c', z) ↦ inl (at_last c x y f q (z ∙ ap some (e.same env.now t c c' x z)))
        ]
