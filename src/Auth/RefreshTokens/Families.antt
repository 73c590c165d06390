-- ===== src/Auth/RefreshTokens/Families.antt =====
-- src/modules/auth/infrastructure/repositories/prisma-auth.repository.ts: rows found by their digests,
-- and the open rows of a family, under the updates of the table.
use tri_ad_backend.Base.{
  ℕ, suc, ◌+◌, ◌≤◌, ◌≡◌, refl, sym, ap, ◌∙◌, true, ◌&&◌, Option, none, some, List, [], ◌∷◌, map,
  ◌==◌, if◌then◌else◌, All, arith, inl, inr, Bool-cases,
}
use mathlib.Core.Path.{subst}
use tri_ad_backend.Auth.RefreshTokens.{
  RefreshToken, is_null, find_token, revoke_in, revoke_family, revoke_token, count_open, added,
  create, rotated, rotate,
}

some-eq : {x y : RefreshToken} → some x ≡ some y → x ≡ y
some-eq h = cc

-- The rows of a family that are not revoked.
unfoldable pub count_family : ℕ → List RefreshToken → ℕ
count_family f [] = 0
count_family f (t ∷ ts) =
    if t.family_id == f && is_null t.revoked_at then suc (count_family f ts) else count_family f ts

-- No family has two of them.
abbrev pub AreSingle : List RefreshToken → Type 0
AreSingle ts = (f : ℕ) → count_family f ts ≤ 1

module _ (now i : ℕ) where
  pub find_token-revoke_token :
      (d : ℕ) (ts : List RefreshToken) (row : RefreshToken)
      → find_token d ts ≡ some row
      → find_token d (map (revoke_token now i) ts) ≡ some (revoke_token now i row)
  unfolding find_token revoke_token
  find_token-revoke_token d [] row = λ x. cc
  find_token-revoke_token d (t ∷ ts) row = elim (Bool-cases (t.token == d)) [
    | inl x ↦ λ y. ground (arith, x, y)
    | inr x ↦ λ y. ground (arith, x, y, find_token-revoke_token d ts row)
  ]

  count_family-revoke_token :
      (f : ℕ) (ts : List RefreshToken)
      → count_family f (map (revoke_token now i) ts) ≤ count_family f ts
  unfolding count_family revoke_token
  count_family-revoke_token f [] = omega arith
  count_family-revoke_token f (t ∷ ts) = ground (arith, count_family-revoke_token f ts)

count_family-revoked_first :
    (now : ℕ) (t : RefreshToken) (ts : List RefreshToken)
    → is_null t.revoked_at ≡ true
    → count_family t.family_id (map (revoke_token now t.id) (t ∷ ts)) + 1
      ≤ count_family t.family_id (t ∷ ts)
unfolding count_family revoke_token
count_family-revoked_first now t ts z =
    ground (arith, z, count_family-revoke_token now t.id t.family_id ts)

same-first :
    (d : ℕ) (t row : RefreshToken) (ts : List RefreshToken)
    → t.token == d ≡ true
    → find_token d (t ∷ ts) ≡ some row
    → t ≡ row
unfolding find_token
same-first d t row ts x y = some-eq (ap (λ b. if b then some t else find_token d ts) (sym x) ∙ y)

-- The row that is revoked no longer counts.
pub count_family-revoked :
    (now d : ℕ) (ts : List RefreshToken) (row : RefreshToken)
    → find_token d ts ≡ some row
    → is_null row.revoked_at ≡ true
    → count_family row.family_id (map (revoke_token now row.id) ts) + 1
      ≤ count_family row.family_id ts
unfolding count_family find_token revoke_token
count_family-revoked now d [] row = λ x. cc
count_family-revoked now d (t ∷ ts) row = elim (Bool-cases (t.token == d)) [
  | inl x ↦ λ y.
      subst
        (λ r.
          is_null r.revoked_at ≡ true
          → count_family r.family_id (map (revoke_token now r.id) (t ∷ ts)) + 1
            ≤ count_family r.family_id (t ∷ ts))
        (same-first d t row ts x y) (count_family-revoked_first now t ts)
  | inr x ↦ λ y z. ground (arith, x, y, z, count_family-revoked now d ts row)
]

count_family-revoke_family :
    (now f g : ℕ) (ts : List RefreshToken)
    → count_family g (revoke_family now f ts) ≤ count_family g ts
unfolding count_family revoke_in
count_family-revoke_family now f g [] = omega arith
count_family-revoke_family now f g (t ∷ ts) = ground (arith, count_family-revoke_family now f g ts)

-- After the revocation of a family.
pub revoke_family-All :
    (now f : ℕ) (ts : List RefreshToken)
    → All (λ (t : RefreshToken). t.family_id ≡ f → t.revoked_at ≡ some now) (revoke_family now f ts)
unfolding revoke_in
revoke_family-All now f [] = tt
revoke_family-All now f (t ∷ ts) = ((λ x. ground (arith, x)), revoke_family-All now f ts)

-- What a rotation that was made has done.
pub rotate-inv :
    (now i : ℕ) (t : RefreshToken) (ts ts' : List RefreshToken)
    → rotate now i t ts ≡ some (true, ts')
    → (find_token t.token (map (revoke_token now i) ts) ≡ none)
      × (ts' ≡ t ∷ map (revoke_token now i) ts)
unfolding rotate create
rotate-inv now i t ts ts' = elim (Bool-cases (count_open i ts == 1)) [
  | inl x ↦ rw x (go (find_token t.token (map (revoke_token now i) ts)))
  | inr x ↦ rw x (λ y. cc)
]
  where
    go :
        (o : Option RefreshToken)
        → rotated (added t (map (revoke_token now i) ts) o) ≡ some (true, ts')
        → (o ≡ none) × (ts' ≡ t ∷ map (revoke_token now i) ts)
    go none h = (refl, cc)
    go (some u) h = cc

-- A new row of a family that has no open row, or of one whose open row is found and revoked.
pub AreSingle-add :
    (t : RefreshToken) (ts : List RefreshToken)
    → AreSingle ts
    → count_family t.family_id ts ≡ 0
    → AreSingle (t ∷ ts)
unfolding count_family
AreSingle-add t ts s z f = ground (arith, s f, z)

pub AreSingle-rotate :
    (now d : ℕ) (t row : RefreshToken) (ts : List RefreshToken)
    → find_token d ts ≡ some row
    → is_null row.revoked_at ≡ true
    → t.family_id ≡ row.family_id
    → AreSingle ts
    → AreSingle (t ∷ map (revoke_token now row.id) ts)
AreSingle-rotate now d t row ts g z e s =
    AreSingle-add t (map (revoke_token now row.id) ts)
      (λ f. omega (arith, count_family-revoke_token now row.id f ts, s f))
      (ap (λ f. count_family f (map (revoke_token now row.id) ts)) e
        ∙ omega (arith, count_family-revoked now d ts row g z, s row.family_id))

pub AreSingle-revoke_family :
    (now f : ℕ) (ts : List RefreshToken) → AreSingle ts → AreSingle (revoke_family now f ts)
AreSingle-revoke_family now f ts s g = omega (arith, count_family-revoke_family now f g ts, s g)
