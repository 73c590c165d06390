-- ===== src/Auth/TokenService/Rotation.antt =====
-- src/modules/auth/services/token.service.ts: refresh tokens and their families.
use tri_ad_backend.Base.{
  ℕ, ◌≡◌, refl, sym, ap, ◌∙◌, Bool, true, false, not, Option, none, some, List, ◌∷◌, map, ◌==◌,
  if◌then◌else◌, ltb, All, arith, inl, inr, Bool-cases, Option-cases,
}
use mathlib.Core.Path.{subst}
use tri_ad_backend.Shared.Errors.{Result, ok, Result-cases}
use tri_ad_backend.Auth.Claims.{Decoded, value_of}
use tri_ad_backend.Auth.RefreshTokens.{
  RefreshToken, is_null, find_token, find_active, revoke_family, revoke_token,
}
use tri_ad_backend.Auth.RefreshTokens.Families.{
  find_token-revoke_token, revoke_family-All, rotate-inv,
}
use tri_ad_backend.Auth.TokenService.{
  User, World, Environment, refused, verify_refresh_token, new_token,
}
use tri_ad_backend.Auth.TokenService.Sessions.{
  Session, find_user, signed, refreshed, rotate_session, is_superseded, refresh_row, refresh_token,
}

-- A session that was refreshed.
pub record IsRotated (env : Environment) (token : ℕ) (w : World) (s : Session) (w' : World)
    : Type 0 where
  pub claims_ : Decoded
  pub row : RefreshToken
  pub user : User
  pub verified : verify_refresh_token env token ≡ ok claims_
  pub row_eq : find_token (env.digest token) w.tokens ≡ some row
  pub user_eq : find_user row.user_id w.users ≡ some user
  pub was_open : is_null row.revoked_at ≡ true
  pub session_eq : s ≡ signed env user row.family_id
  pub is_new :
      find_token (env.digest s.refresh_token) (map (revoke_token env.now row.id) w.tokens) ≡ none
  pub world_eq : w' ≡ record w {
    tokens =
        new_token env s.refresh_token user.id row.family_id
        ∷ map (revoke_token env.now row.id) w.tokens;
  }

module _ (env : Environment) where
  refreshed-inv :
      (s s' : Session) (w w' : World) (o : Option (Bool × List RefreshToken))
      → refreshed env s w o ≡ (ok s', w')
      → (ts : List RefreshToken) × (o ≡ some (true, ts))
        × (s' ≡ s)
        × (w' ≡ record w { tokens = ts })
  refreshed-inv s s' w w' none h = cc
  refreshed-inv s s' w w' (some (false, ts)) h = cc
  refreshed-inv s s' w w' (some (true, ts)) h = (ts, refl, cc, cc)

  -- A test that refuses did not.
  passed :
      (b : Bool) (s : Session) (w w' z : World) (x : Result Session × World)
      → (if b then (refused, z) else x) ≡ (ok s, w')
      → (b ≡ false) × (x ≡ (ok s, w'))
  passed true s w w' z x h = cc
  passed false s w w' z x h = (refl, h)

  refresh_row-inv :
      (c : Decoded) (row : RefreshToken) (user : User) (w w' : World) (s : Session)
      → refresh_row env c row user w ≡ (ok s, w')
      → (is_null row.revoked_at ≡ true) × (rotate_session env row user w ≡ (ok s, w'))
  unfolding refresh_row
  refresh_row-inv c row user w w' s h =
      let h1 = passed (not (is_null row.revoked_at)) s w w' _ _ h in
      let h2 = passed (ltb row.expires_at env.now) s w w' _ _ h1.1 in
      let h3 = passed (not (row.family_id == value_of c.family_id)) s w w' _ _ h2.1 in
      let h4 = passed (not (row.user_id == value_of c.sub)) s w w' _ _ h3.1 in
      let h5 =
        passed (is_superseded env row (find_active env.now row.family_id w.tokens)) s w w' _ _
          h4.1 in
      (ground (arith, h1.0), h5.1)

  IsRotated-session :
      (c : Decoded) (row : RefreshToken) (user : User) (token : ℕ) (w w' : World) (s : Session)
      → verify_refresh_token env token ≡ ok c
      → find_token (env.digest token) w.tokens ≡ some row
      → find_user row.user_id w.users ≡ some user
      → (is_null row.revoked_at ≡ true) × (rotate_session env row user w ≡ (ok s, w'))
      → IsRotated env token w s w'
  unfolding rotate_session
  IsRotated-session c row user token w w' s x y z (o, h) =
      let new = signed env user row.family_id in
      let (ts, e, se, we) = refreshed-inv new s w w' _ h in
      let (n, te) =
        rotate-inv env.now row.id (new_token env new.refresh_token user.id row.family_id) w.tokens
          ts e in
      record {
        claims_ = c;
        row = row;
        user = user;
        verified = x;
        row_eq = y;
        user_eq = z;
        was_open = o;
        session_eq = se;
        is_new = rw se n;
        world_eq = we ∙ ap (λ l. record w { tokens = l }) (rw se te);
      }

  refresh_token-inv :
      (token : ℕ) (w w' : World) (s : Session)
      → refresh_token env token w ≡ (ok s, w')
      → IsRotated env token w s w'
  unfolding refresh_token
  refresh_token-inv token w w' s = elim (Result-cases (verify_refresh_token env token)) [
    | inr (e, x) ↦ rw x (λ y. cc)
    | inl (c, x) ↦ rw x (elim (Option-cases (find_token (env.digest token) w.tokens)) [
      | inl y ↦ rw y (λ z. cc)
      | inr (row, y) ↦ rw y (elim (Option-cases (find_user row.user_id w.users)) [
        | inl z ↦ rw z (λ h. cc)
        | inr (user, z) ↦ rw z (λ h.
            IsRotated-session c row user token w w' s x y z (refresh_row-inv c row user w w' s h))
      ])
    ])
  ]

-- The surroundings of another request of the same service.
abbrev pub at_time : Environment → ℕ → (ℕ → ℕ) → Environment
at_time env t uuid = record env { now = t; uuid = uuid }

never : {o : Option RefreshToken} {x : RefreshToken} {A : Type 0} → o ≡ none → o ≡ some x → A
never a b = cc

equal-eq : {m n : ℕ} → m == n ≡ true → m ≡ n
equal-eq x = ground (arith, x)

-- The row of the token after its rotation.
found-after :
    (env : Environment) (token : ℕ) (w w' : World) (s : Session)
    → (r : IsRotated env token w s w')
    → find_token (env.digest token) w'.tokens ≡ some (revoke_token env.now r.row.id r.row)
unfolding find_token
found-after env token w w' s r =
    let old = find_token-revoke_token env.now r.row.id (env.digest token) w.tokens r.row r.row_eq in
    rw r.world_eq (elim (Bool-cases (env.digest s.refresh_token == env.digest token)) [
      | inl x ↦
          never
            (ap (λ d. find_token d (map (revoke_token env.now r.row.id) w.tokens))
                (sym (equal-eq x))
              ∙ r.is_new)
            old
      | inr x ↦ rw x old
    ])

revoke_token-revoked :
    (now : ℕ) (row : RefreshToken) → is_null (revoke_token now row.id row).revoked_at ≡ false
unfolding revoke_token
revoke_token-revoked now row = ground arith

revoke_token-family :
    (now i : ℕ) (row : RefreshToken)
    → ((revoke_token now i row).family_id ≡ row.family_id)
      × ((revoke_token now i row).user_id ≡ row.user_id)
unfolding revoke_token
revoke_token-family now i row = (ground arith, ground arith)

refresh_row-revoked :
    (env : Environment) (c : Decoded) (row : RefreshToken) (user : User) (w : World)
    → is_null row.revoked_at ≡ false
    → refresh_row env c row user w
      ≡ (refused, record w { tokens = revoke_family env.now row.family_id w.tokens })
unfolding refresh_row
refresh_row-revoked env c row user w x = rw x refl

refresh_token-revoked :
    (env : Environment) (c : Decoded) (token : ℕ) (row : RefreshToken) (user : User) (w : World)
    → verify_refresh_token env token ≡ ok c
    → find_token (env.digest token) w.tokens ≡ some row
    → find_user row.user_id w.users ≡ some user
    → is_null row.revoked_at ≡ false
    → refresh_token env token w
      ≡ (refused, record w { tokens = revoke_family env.now row.family_id w.tokens })
unfolding refresh_token
refresh_token-revoked env c token row user w v f u x =
    rw v (rw f (rw u (refresh_row-revoked env c row user w x)))

find_token-first :
    (t : RefreshToken) (ts : List RefreshToken) → find_token t.token (t ∷ ts) ≡ some t
unfolding find_token
find_token-first t ts = ground arith

-- A refresh token is presented again after a session was refreshed with it, and it still verifies:
-- the request is refused, and every refresh token of its family, the one that the session was given
-- among them, is revoked.
pub refresh_token-again :
    (env : Environment) (token : ℕ) (w w' : World) (s : Session) (t : ℕ) (uuid : ℕ → ℕ)
    (c : Decoded)
    → refresh_token env token w ≡ (ok s, w')
    → verify_refresh_token (at_time env t uuid) token ≡ ok c
    → ((refresh_token (at_time env t uuid) token w').0 ≡ refused)
      × (row : RefreshToken) × (find_token (env.digest token) w.tokens ≡ some row)
      × (find_token (env.digest s.refresh_token) w'.tokens
          ≡ some (new_token env s.refresh_token s.user.id row.family_id))
      × All
          (λ (x : RefreshToken). x.family_id ≡ row.family_id → x.revoked_at ≡ some t)
          (refresh_token (at_time env t uuid) token w').1.tokens
refresh_token-again env token w w' s t uuid c h v =
    let r = refresh_token-inv env token w w' s h in
    let revoked = revoke_token env.now r.row.id r.row in
    let same = revoke_token-family env.now r.row.id r.row in
    let again =
      refresh_token-revoked (at_time env t uuid) c token revoked r.user w' v
        (found-after env token w w' s r)
        (ap (λ x. find_user revoked.user_id x.users) r.world_eq
          ∙ ap (λ i. find_user i w.users) same.1
          ∙ r.user_eq)
        (revoke_token-revoked env.now r.row) in
    (
      ap (λ x. x.0) again,
      r.row,
      r.row_eq,
      ap (λ x. find_token (env.digest s.refresh_token) x.tokens) r.world_eq
          ∙ find_token-first (new_token env s.refresh_token r.user.id r.row.family_id) _
          ∙ ap (λ u. some (new_token env s.refresh_token u.id r.row.family_id))
              (sym (ap (λ x. x.user) r.session_eq)),
      subst
          (λ x.
            All (λ (y : RefreshToken). y.family_id ≡ r.row.family_id → y.revoked_at ≡ some t)
              x.1.tokens)
          (sym again) (rw same.0 (revoke_family-All t r.row.family_id w'.tokens)),
    )
