-- ===== src/Auth/RefreshTokens.antt =====
-- src/modules/auth/infrastructure/repositories/prisma-auth.repository.ts: the table of refresh tokens.
-- A token is kept by its digest, which is unique in the table. Times are numbers of milliseconds.
pub mod Families
use tri_ad_backend.Base.{
  ℕ, zero, suc, ◌+◌, ◌≡◌, Bool, true, false, not, ◌&&◌, Option, none, some, List, [], ◌∷◌, map,
  ◌==◌, ltb, leb, if◌then◌else◌,
}

pub record RefreshToken : Type 0 where
  pub id : ℕ
  pub token : ℕ
  pub user_id : ℕ
  pub family_id : ℕ
  pub expires_at : ℕ
  pub revoked_at : Option ℕ
  pub created_at : ℕ

abbrev pub is_null : Option ℕ → Bool
is_null none = true
is_null (some t) = false

-- `findRefreshTokenWithUser` less the user, by the digest.
unfoldable pub find_token : ℕ → List RefreshToken → Option RefreshToken
find_token d [] = none
find_token d (t ∷ ts) = if t.token == d then some t else find_token d ts

-- Of two tokens the one that was created later; the first of two at one time.
unfoldable pub later : RefreshToken → Option RefreshToken → Option RefreshToken
later t none = some t
later t (some u) = if leb u.created_at t.created_at then some t else some u

-- `findActiveRefreshTokenByFamily`
unfoldable pub find_active : ℕ → ℕ → List RefreshToken → Option RefreshToken
find_active now f [] = none
find_active now f (t ∷ ts) =
    let rest = find_active now f ts in
    if t.family_id == f && is_null t.revoked_at && ltb now t.expires_at then later t rest else rest

-- `revokeAllTokensInFamily`
pub revoke_in : ℕ → ℕ → RefreshToken → RefreshToken
revoke_in now f t = if t.family_id == f then record t { revoked_at = some now } else t

abbrev pub revoke_family : ℕ → ℕ → List RefreshToken → List RefreshToken
revoke_family now f ts = map (revoke_in now f) ts

unfoldable pub revoke_token : ℕ → ℕ → RefreshToken → RefreshToken
revoke_token now i t =
    if t.id == i && is_null t.revoked_at then record t { revoked_at = some now } else t

-- How many rows the update of `rotateRefreshToken` counts.
unfoldable pub count_open : ℕ → List RefreshToken → ℕ
count_open i [] = 0
count_open i (t ∷ ts) =
    if t.id == i && is_null t.revoked_at then suc (count_open i ts) else count_open i ts

abbrev pub added :
    RefreshToken → List RefreshToken → Option RefreshToken → Option (List RefreshToken)
added t ts none = some (t ∷ ts)
added t ts (some u) = none

-- `createRefreshToken`: `none` is the error of a digest that is there already. The row goes first.
unfoldable pub create : RefreshToken → List RefreshToken → Option (List RefreshToken)
create t ts = added t ts (find_token t.token ts)

abbrev pub rotated : Option (List RefreshToken) → Option (Bool × List RefreshToken)
rotated none = none
rotated (some ts) = some (true, ts)

-- `rotateRefreshToken`, one transaction: whether it rotated, and the table; `none` if the creation
-- throws.
unfoldable pub rotate : ℕ → ℕ → RefreshToken → List RefreshToken → Option (Bool × List RefreshToken)
rotate now i t ts =
    if count_open i ts == 1
    then rotated (create t (map (revoke_token now i) ts))
    else some (false, ts)

-- `deleteRefreshTokensByUserId`
unfoldable pub delete_by_user : ℕ → List RefreshToken → List RefreshToken
delete_by_user u [] = []
delete_by_user u (t ∷ ts) = if t.user_id == u then delete_by_user u ts else t ∷ delete_by_user u ts
