-- ===== src/Outbox/Table/Choice.antt =====
-- src/core/outbox/prisma-outbox-relay.store.ts: the rows that a claim takes and those that it leaves.
use tri_ad_backend.Base.{
  ℕ, zero, suc, ◌≤◌, ◌<◌, ◌≡◌, ◌≢◌, refl, sym, Bool, true, false, some, List, [], ◌∷◌, arith, leb,
  All, length, inl, inr, ◌⊎◌, Bool-cases, Option-cases, equal_self,
}
use tri_ad_backend.Outbox.Table.{
  Row, is_claimable, claimable, insert, sort, limit, candidates, get, is_among,
}
use tri_ad_backend.Outbox.Table.Rows.{
  IsKeyed, get-all, insert-All, sort-All, limit-All, claimable-All,
}
use tri_ad_backend.Outbox.Table.Claims.{
  IsSorted, claimable-All-inv, sort-All-inv, sort-IsSorted, limit-length,
}

-- A row that is neither published nor dead, has attempts left, and whose lease, if any, has ended.
pub record IsFree (max_attempts now : ℕ) (r : Row) : Type 0 where
  pub unpublished : r.published ≡ false
  pub alive : r.dead ≡ false
  pub attempts_left : r.attempts < max_attempts
  pub ended : (u : ℕ) → r.lease_until ≡ some u → u < now

is_claimable-IsFree : (m now : ℕ) (r : Row) → is_claimable m now r ≡ true → IsFree m now r
unfolding is_claimable
is_claimable-IsFree m now r h = elim (Option-cases r.lease_until) [
  | inl e ↦ record {
    unpublished = ground arith;
    alive = ground arith;
    attempts_left = ground arith;
    ended = λ u g. cc;
  }
  | inr (t, e) ↦ record {
    unpublished = ground arith;
    alive = ground arith;
    attempts_left = ground arith;
    ended = λ u g. ground arith;
  }
]

IsFree-is_claimable : (m now : ℕ) (r : Row) → IsFree m now r → is_claimable m now r ≡ true
unfolding is_claimable
IsFree-is_claimable m now r f =
    let p = f.unpublished in
    let a = f.alive in
    let l = f.attempts_left in
    elim (Option-cases r.lease_until) [
      | inl e ↦ ground arith
      | inr (t, e) ↦ let g = f.ended t e in ground arith
    ]

-- What a claim of a batch takes.
pub record IsChoice (locked : ℕ → Bool) (batch max_attempts now : ℕ) (rows cs : List Row)
    : Type 0 where
  pub at_most : length cs ≤ batch
  pub once : IsKeyed cs
  pub are_free : All (λ (c : Row). (get c.id rows ≡ some c) × IsFree max_attempts now c) cs
  pub unlocked : All (λ (c : Row). locked c.id ≡ false) cs
  pub earliest : IsSorted cs
  pub left :
      (i : ℕ) (r : Row)
      → get i rows ≡ some r
      → IsFree max_attempts now r
      → locked r.id ≡ false
      → (is_among r.id cs ≡ true)
        ⊎ ((length cs ≡ batch) × All (λ (c : Row). c.occurred_at ≤ r.occurred_at) cs)

All-IsFree :
    (m now : ℕ) (rows cs : List Row)
    → All (λ (c : Row). (get c.id rows ≡ some c) × (is_claimable m now c ≡ true)) cs
    → All (λ (c : Row). (get c.id rows ≡ some c) × IsFree m now c) cs
All-IsFree m now rows [] a = tt
All-IsFree m now rows (c ∷ cs) a =
    ((a.0.0, is_claimable-IsFree m now c a.0.1), All-IsFree m now rows cs a.1)

claimable-unlocked :
    (locked : ℕ → Bool) (m now : ℕ) (rs : List Row)
    → All (λ (c : Row). locked c.id ≡ false) (claimable locked m now rs)
unfolding claimable
claimable-unlocked locked m now [] = tt
claimable-unlocked locked m now (r ∷ rs) = elim (Bool-cases (is_claimable m now r)) [
  | inl x ↦ rw x (elim (Bool-cases (locked r.id)) [
    | inl y ↦ rw y (claimable-unlocked locked m now rs)
    | inr y ↦ rw y (y, claimable-unlocked locked m now rs)
  ])
  | inr x ↦ rw x (claimable-unlocked locked m now rs)
]

claimable-All_left :
    (P : Row → Type 0) (locked : ℕ → Bool) (m now : ℕ) (rs : List Row)
    → All P rs
    → All P (claimable locked m now rs)
unfolding claimable
claimable-All_left P locked m now [] a = tt
claimable-All_left P locked m now (r ∷ rs) a = elim (Bool-cases (is_claimable m now r)) [
  | inl x ↦ rw x (elim (Bool-cases (locked r.id)) [
    | inl y ↦ rw y (claimable-All_left P locked m now rs a.1)
    | inr y ↦ rw y (a.0, claimable-All_left P locked m now rs a.1)
  ])
  | inr x ↦ rw x (claimable-All_left P locked m now rs a.1)
]

claimable-IsKeyed :
    (locked : ℕ → Bool) (m now : ℕ) (rs : List Row)
    → IsKeyed rs
    → IsKeyed (claimable locked m now rs)
unfolding claimable IsKeyed
claimable-IsKeyed locked m now [] k = tt
claimable-IsKeyed locked m now (r ∷ rs) k = elim (Bool-cases (is_claimable m now r)) [
  | inl x ↦ rw x (elim (Bool-cases (locked r.id)) [
    | inl y ↦ rw y (claimable-IsKeyed locked m now rs k.1)
    | inr y ↦ rw y (
      claimable-All_left (λ (s : Row). s.id ≢ r.id) locked m now rs k.0,
      claimable-IsKeyed locked m now rs k.1,
    )
  ])
  | inr x ↦ rw x (claimable-IsKeyed locked m now rs k.1)
]

insert-IsKeyed :
    (r : Row) (rs : List Row)
    → All (λ (s : Row). s.id ≢ r.id) rs
    → IsKeyed rs
    → IsKeyed (insert r rs)
unfolding insert IsKeyed
insert-IsKeyed r [] a k = (tt, tt)
insert-IsKeyed r (s ∷ rs) a k = elim (Bool-cases (leb r.occurred_at s.occurred_at)) [
  | inl x ↦ rw x (a, k)
  | inr x ↦ rw x (
    insert-All (λ (t : Row). t.id ≢ s.id) r rs (λ e. a.0 (sym e)) k.0,
    insert-IsKeyed r rs a.1 k.1,
  )
]

sort-IsKeyed : (rs : List Row) → IsKeyed rs → IsKeyed (sort rs)
unfolding sort IsKeyed
sort-IsKeyed [] k = tt
sort-IsKeyed (r ∷ rs) k =
    insert-IsKeyed r (sort rs) (sort-All (λ (s : Row). s.id ≢ r.id) rs k.0) (sort-IsKeyed rs k.1)

limit-IsKeyed : (n : ℕ) (rs : List Row) → IsKeyed rs → IsKeyed (limit n rs)
unfolding limit IsKeyed
limit-IsKeyed zero rs k = tt
limit-IsKeyed (suc n) [] k = tt
limit-IsKeyed (suc n) (r ∷ rs) k =
    (limit-All (λ (s : Row). s.id ≢ r.id) n rs k.0, limit-IsKeyed n rs k.1)

limit-IsSorted : (n : ℕ) (rs : List Row) → IsSorted rs → IsSorted (limit n rs)
unfolding limit IsSorted
limit-IsSorted zero rs s = tt
limit-IsSorted (suc n) [] s = tt
limit-IsSorted (suc n) (r ∷ rs) s =
    (limit-All (λ (t : Row). r.occurred_at ≤ t.occurred_at) n rs s.0, limit-IsSorted n rs s.1)

-- A row is among some of a full batch, or none of them is later.
abbrev IsServed : ℕ → List Row → Row → Type 0
IsServed n cs r =
    (is_among r.id cs ≡ true)
    ⊎ ((length cs ≡ n) × All (λ (c : Row). c.occurred_at ≤ r.occurred_at) cs)

IsServed-more :
    (n : ℕ) (x : Row) (cs ys : List Row)
    → All (λ (y : Row). x.occurred_at ≤ y.occurred_at) ys
    → All (IsServed n cs) ys
    → All (IsServed (suc n) (x ∷ cs)) ys
unfolding is_among
IsServed-more n x cs [] l a = tt
IsServed-more n x cs (y ∷ ys) l (p, a) = (more p, IsServed-more n x cs ys l.1 a)
  where
    more : IsServed n cs y → IsServed (suc n) (x ∷ cs) y
    more (inl m) = inl (ground (arith, m))
    more (inr (e, b)) = inr (omega (arith, e), (l.0, b))

none-IsServed : (rs : List Row) → All (IsServed 0 []) rs
none-IsServed [] = tt
none-IsServed (r ∷ rs) = (inr (refl, tt), none-IsServed rs)

limit-IsServed : (n : ℕ) (rs : List Row) → IsSorted rs → All (IsServed n (limit n rs)) rs
unfolding limit IsSorted is_among
limit-IsServed zero rs i = none-IsServed rs
limit-IsServed (suc n) [] i = tt
limit-IsServed (suc n) (r ∷ rs) i = (
  inl (rw (equal_self r.id) refl),
  IsServed-more n r (limit n rs) rs i.0 (limit-IsServed n rs i.1),
)

-- A claim takes, each once and the earliest first, at most a batch of rows of the table that are
-- neither published nor dead, have attempts left, are under no lease that still runs, and are
-- locked by no other transaction; and such a row is left only if the batch is full and none of
-- those taken occurred later.
pub candidates-IsChoice :
    (locked : ℕ → Bool) (batch m now : ℕ) (rows : List Row)
    → IsKeyed rows
    → IsChoice locked batch m now rows (candidates locked batch m now rows)
unfolding candidates
candidates-IsChoice locked batch m now rows k =
    let found = claimable locked m now rows in
    let sorted = sort-IsSorted found in
    record {
      at_most = limit-length batch (sort found);
      once =
          limit-IsKeyed batch (sort found)
            (sort-IsKeyed found (claimable-IsKeyed locked m now rows k));
      are_free =
          All-IsFree m now rows (limit batch (sort found)) (
            limit-All _ batch _
              (sort-All _ _ (claimable-All _ locked m now rows (get-all rows k))));
      unlocked = limit-All _ batch _ (sort-All _ _ (claimable-unlocked locked m now rows));
      earliest = limit-IsSorted batch (sort found) sorted;
      left = λ i r g f l.
          claimable-All-inv (IsServed batch (limit batch (sort found))) locked m now i rows r g
            (IsFree-is_claimable m now r f) l
            (sort-All-inv (IsServed batch (limit batch (sort found))) found
              (limit-IsServed batch (sort found) sorted));
    }
