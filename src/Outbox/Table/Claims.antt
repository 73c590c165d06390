-- ===== src/Outbox/Table/Claims.antt =====
-- src/core/outbox/prisma-outbox-relay.store.ts: which rows a claim chooses.
use tri_ad_backend.Base.{
  ℕ, zero, suc, ◌≤◌, ◌≡◌, sym, ap, ◌∙◌, Bool, true, false, not, ◌&&◌, some, List, [], ◌∷◌, arith,
  ◌==◌, leb, if◌then◌else◌, All, length, inl, inr, Bool-cases,
}
use mathlib.Core.Path.{subst}
use tri_ad_backend.Outbox.Table.{Row, is_claimable, claimable, insert, sort, limit, get}
use tri_ad_backend.Outbox.Table.Rows.{insert-All}

some-eq : {x y : Row} → some x ≡ some y → x ≡ y
some-eq h = cc

-- Predicates of all the rows of a sorted list are predicates of all the rows.
module _ (P : Row → Type 0) where
  insert-All-inv : (r : Row) (rs : List Row) → All P (insert r rs) → P r × All P rs
  unfolding insert
  insert-All-inv r [] = λ a. a
  insert-All-inv r (s ∷ rs) = elim (Bool-cases (leb r.occurred_at s.occurred_at)) [
    | inl x ↦ rw x (λ a. a)
    | inr x ↦ rw x (λ a. let (p, b) = insert-All-inv r rs a.1 in (p, (a.0, b)))
  ]

  pub sort-All-inv : (rs : List Row) → All P (sort rs) → All P rs
  unfolding sort
  sort-All-inv [] a = tt
  sort-All-inv (r ∷ rs) a = let (p, b) = insert-All-inv r (sort rs) a in (p, sort-All-inv rs b)

  head-All :
      (s : Row) (rs : List Row) (b b' : Bool)
      → b ≡ true
      → b' ≡ false
      → All P (if b && not b' then s ∷ rs else rs)
      → P s
  head-All s rs true false e e' a = a.0
  head-All s rs true true e e' a = cc
  head-All s rs false b' e e' a = cc

  tail-All : (s : Row) (rs : List Row) (b : Bool) → All P (if b then s ∷ rs else rs) → All P rs
  tail-All s rs true a = a.1
  tail-All s rs false a = a

  pub claimable-All-inv :
      (locked : ℕ → Bool) (m now i : ℕ) (rs : List Row) (r : Row)
      → get i rs ≡ some r
      → is_claimable m now r ≡ true
      → locked r.id ≡ false
      → All P (claimable locked m now rs)
      → P r
  unfolding get claimable
  claimable-All-inv locked m now i [] r g c l = cc
  claimable-All-inv locked m now i (s ∷ rs) r g c l = elim (Bool-cases (s.id == i)) [
    | inl x ↦
        let e = some-eq (ap (λ b. if b then some s else get i rs) (sym x) ∙ g) in
        λ a. subst P e (
          head-All s (claimable locked m now rs) (is_claimable m now s) (locked s.id)
            (ap (is_claimable m now) e ∙ c) (ap (λ q. locked q.id) e ∙ l) a)
    | inr x ↦ λ a.
        claimable-All-inv locked m now i rs r (ap (λ b. if b then some s else get i rs) (sym x) ∙ g)
          c l (tail-All s (claimable locked m now rs) (is_claimable m now s && not (locked s.id)) a)
  ]

unfoldable pub IsSorted : List Row → Type 0
IsSorted [] = Unit
IsSorted (r ∷ rs) = All (λ (s : Row). r.occurred_at ≤ s.occurred_at) rs × IsSorted rs

All-later :
    (r s : Row) (rs : List Row)
    → r.occurred_at ≤ s.occurred_at
    → All (λ (t : Row). s.occurred_at ≤ t.occurred_at) rs
    → All (λ (t : Row). r.occurred_at ≤ t.occurred_at) rs
All-later r s [] l a = tt
All-later r s (t ∷ rs) l a = (omega (arith, l, a.0), All-later r s rs l a.1)

insert-IsSorted : (r : Row) (rs : List Row) → IsSorted rs → IsSorted (insert r rs)
unfolding insert IsSorted
insert-IsSorted r [] i = (tt, tt)
insert-IsSorted r (s ∷ rs) i = elim (Bool-cases (leb r.occurred_at s.occurred_at)) [
  | inl x ↦
      let l : r.occurred_at ≤ s.occurred_at = ground (arith, x) in
      rw x ((l, All-later r s rs l i.0), i)
  | inr x ↦
      let l : s.occurred_at ≤ r.occurred_at = ground (arith, x) in
      rw x (
        insert-All (λ (t : Row). s.occurred_at ≤ t.occurred_at) r rs l i.0,
        insert-IsSorted r rs i.1,
      )
]

pub sort-IsSorted : (rs : List Row) → IsSorted (sort rs)
unfolding sort IsSorted
sort-IsSorted [] = tt
sort-IsSorted (r ∷ rs) = insert-IsSorted r (sort rs) (sort-IsSorted rs)

pub limit-length : (n : ℕ) (rs : List Row) → length (limit n rs) ≤ n
unfolding limit
limit-length zero rs = omega arith
limit-length (suc n) [] = omega arith
limit-length (suc n) (r ∷ rs) = omega (arith, limit-length n rs)
