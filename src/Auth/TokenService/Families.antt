-- ===== src/Auth/TokenService/Families.antt =====
-- src/modules/auth/services/token.service.ts: the open rows of a family of refresh tokens.
use tri_ad_backend.Base.{
  ℕ, ◌≡◌, refl, Bool, true, false, not, some, map, ◌==◌, if◌then◌else◌, ltb, inl, inr, Bool-cases,
  Option-cases,
}
use tri_ad_backend.Shared.Errors.{Result, Result-cases}
use tri_ad_backend.Auth.Claims.{Decoded, value_of}
use tri_ad_backend.Auth.RefreshTokens.{
  RefreshToken, is_null, find_token, find_active, revoke_family, revoke_token, create, rotate,
  count_open,
}
use tri_ad_backend.Auth.RefreshTokens.Families.{
  AreSingle, AreSingle-rotate, AreSingle-revoke_family,
}
use tri_ad_backend.Auth.TokenService.{
  User, World, Environment, refused, verify_refresh_token, new_token,
}
use tri_ad_backend.Auth.TokenService.Sessions.{
  Session, find_user, signed, refreshed, rotate_session, is_superseded, refresh_row, refresh_token,
}

-- The result of a request leaves no family with two open rows.
unfoldable Good : Result Session × World → Type 0
Good r = AreSingle r.1.tokens

Good-if : (b : Bool) (x y : Result Session × World) → Good x → Good y → Good (if b then x else y)
Good-if true x y a b = a
Good-if false x y a b = b

from-AreSingle : (r : Result Session) (w : World) → AreSingle w.tokens → Good (r, w)
unfolding Good
from-AreSingle r w a = a

module _ (env : Environment) where
  refreshed-Good :
      (s : Session) (w : World) (d i : ℕ) (t row : RefreshToken)
      → find_token d w.tokens ≡ some row
      → is_null row.revoked_at ≡ true
      → t.family_id ≡ row.family_id
      → AreSingle w.tokens
      → Good (refreshed env s w (rotate env.now row.id t w.tokens))
  unfolding rotate create Good
  refreshed-Good s w d i t row f o e a = elim (Bool-cases (count_open row.id w.tokens == 1)) [
    | inr x ↦ rw x a
    | inl x ↦
        rw x
          (elim (Option-cases (find_token t.token (map (revoke_token env.now row.id) w.tokens))) [
            | inl y ↦ rw y (AreSingle-rotate env.now d t row w.tokens f o e a)
            | inr (u, y) ↦ rw y a
          ])
  ]

  refresh_row-Good :
      (c : Decoded) (row : RefreshToken) (user : User) (d : ℕ) (w : World)
      → find_token d w.tokens ≡ some row
      → AreSingle w.tokens
      → Good (refresh_row env c row user w)
  unfolding refresh_row rotate_session
  refresh_row-Good c row user d w f a =
      let away =
        from-AreSingle refused (record w { tokens = revoke_family env.now row.family_id w.tokens })
          (AreSingle-revoke_family env.now row.family_id w.tokens a) in
      let new = signed env user row.family_id in
      let kept = from-AreSingle refused w a in
      elim (Bool-cases (is_null row.revoked_at)) [
        | inr x ↦ rw x away
        | inl x ↦ rw x (
            Good-if (not true) _ _ away (
              Good-if (ltb row.expires_at env.now) _ _ kept (
                Good-if (not (row.family_id == value_of c.family_id)) _ _ kept (
                  Good-if (not (row.user_id == value_of c.sub)) _ _ kept (
                    Good-if (is_superseded env row (find_active env.now row.family_id w.tokens)) _ _
                      away
                      (refreshed-Good new w d row.id
                        (new_token env new.refresh_token user.id row.family_id) row f x refl a))))))
      ]

  -- A request to refresh, whatever its token and its outcome, leaves no family of refresh tokens
  -- with two that are not revoked, where there was none before.
  pub refresh_token-AreSingle :
      (token : ℕ) (w : World) → AreSingle w.tokens → AreSingle (refresh_token env token w).1.tokens
  unfolding refresh_token Good
  refresh_token-AreSingle token w a = elim (Result-cases (verify_refresh_token env token)) [
    | inr (e, x) ↦ rw x a
    | inl (c, x) ↦ rw x (elim (Option-cases (find_token (env.digest token) w.tokens)) [
      | inl y ↦ rw y a
      | inr (row, y) ↦ rw y (elim (Option-cases (find_user row.user_id w.users)) [
        | inl z ↦ rw z a
        | inr (user, z) ↦ rw z (refresh_row-Good c row user (env.digest token) w y a)
      ])
    ])
  ]
