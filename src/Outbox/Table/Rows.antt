-- ===== src/Outbox/Table/Rows.antt =====
-- src/core/outbox/prisma-outbox-relay.store.ts: the row with an id, and what a request does to it.
use tri_ad_backend.Base.{
  ℕ, zero, suc, ◌+◌, ◌≡◌, ◌≢◌, refl, sym, ◌∙◌, Bool, true, some, List, [], ◌∷◌, map, arith, ◌==◌,
  leb, All, inl, inr, Bool-cases,
}
use tri_ad_backend.Outbox.Table.{
  Row, is_claimable, claimable, insert, sort, limit, candidates, get, is_among, claim_row,
  claim_batch, Update, to_published, to_failed, updated, update_row, update_claimed, renew_row,
  renew_claims, Request, claim, update, renew, ask,
}

-- The id is the primary key.
unfoldable pub IsKeyed : List Row → Type 0
IsKeyed [] = Unit
IsKeyed (r ∷ rs) = All (λ (s : Row). s.id ≢ r.id) rs × IsKeyed rs

-- Functions of rows that leave the id alone.
module _ (f : Row → Row) (keeps : (r : Row) → (f r).id ≡ r.id) where
  pub map-get :
      (i : ℕ) (rs : List Row) (r : Row) → get i rs ≡ some r → get i (map f rs) ≡ some (f r)
  unfolding get
  map-get i [] r = λ x. cc
  map-get i (s ∷ rs) r = elim (Bool-cases (s.id == i)) [
    | inl x ↦ λ y. ground (arith, keeps s, x, y)
    | inr x ↦ λ y. ground (arith, keeps s, x, y, map-get i rs r)
  ]

  map-All :
      (i : ℕ) (rs : List Row)
      → All (λ (s : Row). s.id ≢ i) rs
      → All (λ (s : Row). s.id ≢ i) (map f rs)
  map-All i [] a = tt
  map-All i (s ∷ rs) a = (λ x. a.0 (sym (keeps s) ∙ x), map-All i rs a.1)

  map-IsKeyed : (rs : List Row) → IsKeyed rs → IsKeyed (map f rs)
  unfolding IsKeyed
  map-IsKeyed [] k = tt
  map-IsKeyed (r ∷ rs) k = rw (keeps r) (map-All r.id rs k.0, map-IsKeyed rs k.1)

claim_row-id : (c : List Row) (o u : ℕ) (r : Row) → (claim_row c o u r).id ≡ r.id
unfolding claim_row
claim_row-id c o u r = ground arith

update_row-id : (i o m n : ℕ) (u : Update) (r : Row) → (update_row i o m n u r).id ≡ r.id
unfolding update_row updated
update_row-id i o m n to_published r = ground arith
update_row-id i o m n (to_failed k) r = ground arith

renew_row-id : (ids : List ℕ) (o n u : ℕ) (r : Row) → (renew_row ids o n u r).id ≡ r.id
unfolding renew_row
renew_row-id ids o n u r = ground arith

-- What a request does to a row.
abbrev pub asked : ℕ → ℕ → Request → List Row → Row → Row
asked o now (claim locked b m l) rows = claim_row (candidates locked b m now rows) o (now + l)
asked o now (update i m u) rows = update_row i o m now u
asked o now (renew ids l) rows = renew_row ids o now (now + l)

pub asked-id :
    (o now : ℕ) (q : Request) (rows : List Row) (r : Row) → (asked o now q rows r).id ≡ r.id
asked-id o now (claim locked b m l) rows r =
    claim_row-id (candidates locked b m now rows) o (now + l) r
asked-id o now (update i m u) rows r = update_row-id i o m now u r
asked-id o now (renew ids l) rows r = renew_row-id ids o now (now + l) r

pub ask-map :
    (o now : ℕ) (q : Request) (rows : List Row) → ask o now q rows ≡ map (asked o now q rows) rows
unfolding claim_batch update_claimed renew_claims
ask-map o now (claim locked b m l) rows = refl
ask-map o now (update i m u) rows = refl
ask-map o now (renew ids l) rows = refl

pub ask-IsKeyed :
    (o now : ℕ) (q : Request) (rows : List Row) → IsKeyed rows → IsKeyed (ask o now q rows)
ask-IsKeyed o now q rows k =
    rw (ask-map o now q rows) (map-IsKeyed (asked o now q rows) (asked-id o now q rows) rows k)

pub ask-get :
    (o now : ℕ) (q : Request) (rows : List Row) (i : ℕ) (r : Row)
    → get i rows ≡ some r
    → get i (ask o now q rows) ≡ some (asked o now q rows r)
ask-get o now q rows i r h =
    rw (ask-map o now q rows) (map-get (asked o now q rows) (asked-id o now q rows) i rows r h)

-- Candidates are rows of the table that can be claimed.
module _ (P : Row → Type 0) where
  pub insert-All : (r : Row) (rs : List Row) → P r → All P rs → All P (insert r rs)
  unfolding insert
  insert-All r [] p a = (p, tt)
  insert-All r (s ∷ rs) p a = elim (Bool-cases (leb r.occurred_at s.occurred_at)) [
    | inl x ↦ rw x (p, a)
    | inr x ↦ rw x (a.0, insert-All r rs p a.1)
  ]

  pub sort-All : (rs : List Row) → All P rs → All P (sort rs)
  unfolding sort
  sort-All [] a = tt
  sort-All (r ∷ rs) a = insert-All r (sort rs) a.0 (sort-All rs a.1)

  pub limit-All : (n : ℕ) (rs : List Row) → All P rs → All P (limit n rs)
  unfolding limit
  limit-All zero rs a = tt
  limit-All (suc n) [] a = tt
  limit-All (suc n) (r ∷ rs) a = (a.0, limit-All n rs a.1)

  pub claimable-All :
      (locked : ℕ → Bool) (m now : ℕ) (rs : List Row)
      → All P rs
      → All (λ r. P r × (is_claimable m now r ≡ true)) (claimable locked m now rs)
  unfolding claimable
  claimable-All locked m now [] a = tt
  claimable-All locked m now (r ∷ rs) a = elim (Bool-cases (is_claimable m now r)) [
    | inl x ↦ rw x (elim (Bool-cases (locked r.id)) [
      | inl y ↦ rw y (claimable-All locked m now rs a.1)
      | inr y ↦ rw y ((a.0, x), claimable-All locked m now rs a.1)
    ])
    | inr x ↦ rw x (claimable-All locked m now rs a.1)
  ]

get-later :
    (r : Row) (rs ss : List Row)
    → All (λ (s : Row). s.id ≢ r.id) ss
    → All (λ (s : Row). get s.id rs ≡ some s) ss
    → All (λ (s : Row). get s.id (r ∷ rs) ≡ some s) ss
unfolding get
get-later r rs [] a b = tt
get-later r rs (s ∷ ss) a b = (ground (arith, a.0, b.0), get-later r rs ss a.1 b.1)

pub get-all : (rs : List Row) → IsKeyed rs → All (λ (s : Row). get s.id rs ≡ some s) rs
unfolding IsKeyed get
get-all [] k = tt
get-all (r ∷ rs) k = (ground arith, get-later r rs rs k.0 (get-all rs k.1))

-- One of the rows chosen by a claim.
is_among-All :
    (rows : List Row) (m now i : ℕ) (r : Row) (cs : List Row)
    → get i rows ≡ some r
    → All (λ (c : Row). (get c.id rows ≡ some c) × (is_claimable m now c ≡ true)) cs
    → is_among i cs ≡ true
    → is_claimable m now r ≡ true
unfolding is_among
is_among-All rows m now i r [] g a = λ x. cc
is_among-All rows m now i r (c ∷ cs) g a = elim (Bool-cases (c.id == i)) [
  | inl x ↦ rw x (λ y. ground (arith, a.0.0, a.0.1, g, x))
  | inr x ↦ rw x (is_among-All rows m now i r cs g a.1)
]

pub chosen-is_claimable :
    (locked : ℕ → Bool) (b m now i : ℕ) (rows : List Row) (r : Row)
    → IsKeyed rows
    → get i rows ≡ some r
    → is_among i (candidates locked b m now rows) ≡ true
    → is_claimable m now r ≡ true
unfolding candidates
chosen-is_claimable locked b m now i rows r k g =
    is_among-All rows m now i r _ g
      (limit-All _ b _ (sort-All _ _ (claimable-All _ locked m now rows (get-all rows k))))

pub get-id : (i : ℕ) (rs : List Row) (r : Row) → get i rs ≡ some r → r.id ≡ i
unfolding get
get-id i [] r = λ x. cc
get-id i (s ∷ rs) r = elim (Bool-cases (s.id == i)) [
  | inl x ↦ rw x (λ y. ground (arith, x))
  | inr x ↦ rw x (get-id i rs r)
]
