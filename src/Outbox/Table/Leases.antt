-- ===== src/Outbox/Table/Leases.antt =====
-- src/core/outbox/prisma-outbox-relay.store.ts: rows that the requests of relays leave alone.
use tri_ad_backend.Base.{
  ℕ, ◌≤◌, ◌≡◌, ◌≢◌, ap, ◌∙◌, true, false, ◌||◌, some, List, [], ◌∷◌, arith, All, inl, inr,
  Bool-cases,
}
use tri_ad_backend.Outbox.Table.{
  Row, is_claimable, candidates, get, is_among, claim_row, Update, updated, is_held, update_row,
  update_claimed, renew_row, Request, claim, update, renew, Action, ask, act, holds,
}
use tri_ad_backend.Outbox.Table.Rows.{
  IsKeyed, asked, ask-IsKeyed, ask-get, chosen-is_claimable, get-id,
}

-- A row that a request can neither claim nor hold.
asked-same :
    (o now : ℕ) (q : Request) (rows : List Row) (i : ℕ) (r : Row)
    → IsKeyed rows
    → get i rows ≡ some r
    → ((m : ℕ) → is_claimable m now r ≡ false)
    → is_held o now r ≡ false
    → asked o now q rows r ≡ r
unfolding claim_row update_row renew_row
asked-same o now (update j m u) rows i r k g c h = ground (arith, h)
asked-same o now (renew ids l) rows i r k g c h = ground (arith, h)
asked-same o now (claim locked b m l) rows i r k g c h =
    elim (Bool-cases (is_among i (candidates locked b m now rows))) [
      | inl x ↦ cc (chosen-is_claimable locked b m now i rows r k g x, c m)
      | inr x ↦ ground (arith, x, get-id i rows r g)
    ]

-- Requests that can neither claim nor hold a row.
pub act-same :
    (as_ : List Action) (rows : List Row) (i : ℕ) (r : Row)
    → IsKeyed rows
    → get i rows ≡ some r
    → All
        (λ (a : Action).
          ((m : ℕ) → is_claimable m a.now r ≡ false) × (is_held a.owner a.now r ≡ false))
        as_
    → get i (act as_ rows) ≡ some r
unfolding act
act-same [] rows i r k g p = g
act-same (a ∷ as_) rows i r k g p =
    act-same as_ (ask a.owner a.now a.request rows) i r (ask-IsKeyed a.owner a.now a.request rows k)
      (ask-get a.owner a.now a.request rows i r g
        ∙ ap some (asked-same a.owner a.now a.request rows i r k g p.0.0 p.0.1))
      p.1

all-of : {A : Type 0} (P : A → Type 0) → ((a : A) → P a) → (xs : List A) → All P xs
all-of P f [] = tt
all-of P f (x ∷ xs) = (f x, all-of P f xs)

-- A row that has been published or dead-lettered is never changed again, by whatever requests of
-- whatever relays, if ids are unique.
pub act-final :
    (as_ : List Action) (rows : List Row) (i : ℕ) (r : Row)
    → IsKeyed rows
    → get i rows ≡ some r
    → r.published || r.dead ≡ true
    → get i (act as_ rows) ≡ some r
unfolding is_claimable is_held
act-final as_ rows i r k g f =
    act-same as_ rows i r k g (all-of _ (λ a. ((λ m. ground (arith, f)), ground (arith, f))) as_)

-- The requests of others before a lease ends.
foreign-apart :
    (r : Row) (o until n : ℕ) (as_ : List Action)
    → is_held o n r ≡ true
    → r.lease_until ≡ some until
    → All (λ (a : Action). (a.owner ≢ o) × (a.now ≤ until)) as_
    → All
        (λ (a : Action).
          ((m : ℕ) → is_claimable m a.now r ≡ false) × (is_held a.owner a.now r ≡ false))
        as_
unfolding is_claimable is_held
foreign-apart r o until n [] h e p = tt
foreign-apart r o until n (a ∷ as_) h e p = (
  ((λ m. ground (arith, e, p.0.1)), ground (arith, h, p.0.0)),
  foreign-apart r o until n as_ h e p.1,
)

held-updated :
    (i o m now : ℕ) (u : Update) (r : Row)
    → r.id ≡ i
    → is_held o now r ≡ true
    → update_row i o m now u r ≡ updated m now u r
unfolding update_row
held-updated i o m now u r e h = ground (arith, e, h)

-- While a relay's lease on a row runs, the requests of other relays leave the row as it is (ids
-- being unique): an update by the relay before the lease ends, after any number of them, reports
-- that it was made, and makes it.
pub act-leased :
    (as_ : List Action) (rows : List Row) (i o until now m : ℕ) (r : Row) (u : Update)
    → IsKeyed rows
    → get i rows ≡ some r
    → is_held o now r ≡ true
    → r.lease_until ≡ some until
    → All (λ (a : Action). (a.owner ≢ o) × (a.now ≤ until)) as_
    → ((update_claimed i o m now u (act as_ rows)).0 ≡ true)
      × (get i (update_claimed i o m now u (act as_ rows)).1 ≡ some (updated m now u r))
unfolding update_claimed
act-leased as_ rows i o until now m r u k g h e p =
    let same = act-same as_ rows i r k g (foreign-apart r o until now as_ h e p) in
    (
      ap (holds o now) same ∙ h,
      ask-get o now (update i m u) (act as_ rows) i r same
          ∙ ap some (held-updated i o m now u r (get-id i rows r g) h),
    )
