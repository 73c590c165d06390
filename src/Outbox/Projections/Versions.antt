-- ===== src/Outbox/Projections/Versions.antt =====
-- src/core/outbox/projection-writer.ts: the version of a row, and writes in different orders.
use tri_ad_backend.Base.{
  ℕ, ◌≤◌, ◌≡◌, refl, sym, ap, ◌∙◌, true, false, Option, none, some, List, [], ◌∷◌, map, ◌==◌, ltb,
  if◌then◌else◌, arith, inl, inr, Bool-cases,
}
use tri_ad_backend.Outbox.Projections.{Row, Outcome, returned, get, is_older, any_older, update_row}

pub equal-eq : {m n : ℕ} → m == n ≡ true → m ≡ n
equal-eq x = ground (arith, x)

module _ {A : Type 0} where
  -- There is a row of the key, with at least the version.
  abbrev pub Has : ℕ → ℕ → List (Row A) → Type 0
  Has k v rs = (r : Row A) × (get k rs ≡ some r) × (v ≤ r.source_version)

  update_row-key : (k v : ℕ) (a : A) (r : Row A) → (update_row k v a r).key ≡ r.key
  unfolding update_row
  update_row-key k v a r = ground arith

  pub get-update :
      (k v : ℕ) (a : A) (i : ℕ) (rs : List (Row A)) (r : Row A)
      → get i rs ≡ some r
      → get i (map (update_row k v a) rs) ≡ some (update_row k v a r)
  unfolding get
  get-update k v a i [] r = λ x. cc
  get-update k v a i (s ∷ rs) r = elim (Bool-cases (s.key == i)) [
    | inl x ↦ λ y. ground (arith, update_row-key k v a s, x, y)
    | inr x ↦ λ y. ground (arith, update_row-key k v a s, x, y, get-update k v a i rs r)
  ]

  get-update-none :
      (k v : ℕ) (a : A) (i : ℕ) (rs : List (Row A))
      → get i rs ≡ none
      → get i (map (update_row k v a) rs) ≡ none
  unfolding get
  get-update-none k v a i [] = λ x. refl
  get-update-none k v a i (s ∷ rs) =
      λ y. ground (arith, update_row-key k v a s, y, get-update-none k v a i rs)

  -- The row that is found decides whether there is an older one, keys being unique.
  abbrev pub IsKeyed : List (Row A) → Type 0
  IsKeyed [] = Unit
  IsKeyed (r ∷ rs) = (get r.key rs ≡ none) × IsKeyed rs

  pub any_older-none : (k v : ℕ) (rs : List (Row A)) → get k rs ≡ none → any_older k v rs ≡ false
  unfolding get any_older
  any_older-none k v [] = λ x. refl
  any_older-none k v (r ∷ rs) = λ x. ground (arith, x, any_older-none k v rs)

  pub any_older-get :
      (k v : ℕ) (rs : List (Row A)) (r : Row A)
      → IsKeyed rs
      → get k rs ≡ some r
      → any_older k v rs ≡ ltb r.source_version v
  unfolding get any_older
  any_older-get k v [] r i = λ x. cc
  any_older-get k v (s ∷ rs) r i = elim (Bool-cases (s.key == k)) [
    | inl x ↦ λ y.
        let none_later = ap (λ j. get j rs) (sym (equal-eq x)) ∙ i.0 in
        ground (arith, x, y, any_older-none k v rs none_later)
    | inr x ↦ λ y. ground (arith, x, y, any_older-get k v rs r i.1)
  ]

  pub update-same :
      (k v : ℕ) (a : A) (rs : List (Row A))
      → any_older k v rs ≡ false
      → map (update_row k v a) rs ≡ rs
  unfolding any_older update_row
  update-same k v a [] = λ x. refl
  update-same k v a (r ∷ rs) = elim (Bool-cases (is_older k v r)) [
    | inl x ↦ rw x (λ y. cc)
    | inr x ↦ rw x (λ y. ap (λ l. r ∷ l) (update-same k v a rs y))
  ]

  pub IsKeyed-update :
      (k v : ℕ) (a : A) (rs : List (Row A)) → IsKeyed rs → IsKeyed (map (update_row k v a) rs)
  IsKeyed-update k v a [] i = tt
  IsKeyed-update k v a (r ∷ rs) i = (
    ap (λ j. get j (map (update_row k v a) rs)) (update_row-key k v a r)
        ∙ get-update-none k v a r.key rs i.0,
    IsKeyed-update k v a rs i.1,
  )

  -- Of a snapshot and the row that is there, the one with the later version; the row, if they have
  -- the same.
  abbrev pub newer : ℕ → ℕ → A → Option (Row A) → Row A
  newer k v a none = record { key = k; source_version = v; columns = a }
  newer k v a (some r) =
      if ltb r.source_version v then record { key = k; source_version = v; columns = a } else r

  -- The table after a snapshot was written.
  pub record IsWritten (k v : ℕ) (a : A) (rs : List (Row A)) (r : Outcome × List (Row A))
      : Type 0 where
    pub returns : r.0 ≡ returned
    pub gets : (i : ℕ) → get i r.1 ≡ (if k == i then some (newer k v a (get k rs)) else get i rs)
    pub keyed : IsKeyed r.1

  pub get-key : (i : ℕ) (rs : List (Row A)) (r : Row A) → get i rs ≡ some r → r.key ≡ i
  unfolding get
  get-key i [] r = λ x. cc
  get-key i (s ∷ rs) r = elim (Bool-cases (s.key == i)) [
    | inl x ↦ λ y. ground (arith, x, y)
    | inr x ↦ λ y. ground (arith, x, y, get-key i rs r)
  ]

  -- The row of a key after an update that found an older one, and those of the other keys.
  pub updated-get :
      (k v : ℕ) (a : A) (rs : List (Row A)) (r : Row A) (i : ℕ) (o : Option (Row A))
      → get k rs ≡ some r
      → ltb r.source_version v ≡ true
      → get i rs ≡ o
      → get i (map (update_row k v a) rs)
        ≡ (if k == i then some (record { key = k; source_version = v; columns = a }) else o)
  unfolding update_row
  updated-get k v a rs r i none g l h = ground (arith, g, h, get-update-none k v a i rs h)
  updated-get k v a rs r i (some s) g l h =
      ground (arith, g, l, h, get-update k v a i rs s h, get-key i rs s h)
