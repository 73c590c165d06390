-- ===== src/Outbox/Table/Names.antt =====
-- src/core/outbox/prisma-outbox-relay.store.ts: the events that rows stand for, which no request
-- changes.
use tri_ad_backend.Base.{ℕ, ◌+◌, ◌≡◌, refl, sym, ap, ◌∙◌, Bool, List, [], ◌∷◌, map, arith, All}
use tri_ad_backend.Outbox.Table.{
  Row, candidates, leased, claim_row, claim_batch, to_published, to_failed, updated, update_row,
  renew_row, Request, claim, update, renew, Action, ask, act,
}
use tri_ad_backend.Outbox.Table.Rows.{asked, asked-id, ask-map, limit-All, sort-All, claimable-All}

-- The rows' events are named by their ids.
abbrev pub IsNamed : (ℕ → ℕ) → List Row → Type 0
IsNamed name rows = All (λ (r : Row). r.event_name ≡ name r.id) rows

asked-name :
    (o now : ℕ) (q : Request) (rows : List Row) (r : Row)
    → (asked o now q rows r).event_name ≡ r.event_name
unfolding claim_row update_row updated renew_row
asked-name o now (claim locked b m l) rows r = ground arith
asked-name o now (update i m to_published) rows r = ground arith
asked-name o now (update i m (to_failed k)) rows r = ground arith
asked-name o now (renew ids l) rows r = ground arith

map-IsNamed :
    (name : ℕ → ℕ) (f : Row → Row) (rows : List Row)
    → ((r : Row) → (f r).id ≡ r.id)
    → ((r : Row) → (f r).event_name ≡ r.event_name)
    → IsNamed name rows
    → IsNamed name (map f rows)
map-IsNamed name f [] i n a = tt
map-IsNamed name f (r ∷ rows) i n a =
    (n r ∙ a.0 ∙ sym (ap name (i r)), map-IsNamed name f rows i n a.1)

pub ask-IsNamed :
    (name : ℕ → ℕ) (o now : ℕ) (q : Request) (rows : List Row)
    → IsNamed name rows
    → IsNamed name (ask o now q rows)
ask-IsNamed name o now q rows a =
    rw (ask-map o now q rows) (
      map-IsNamed name (asked o now q rows) rows (asked-id o now q rows) (asked-name o now q rows)
        a)

pub act-IsNamed :
    (name : ℕ → ℕ) (as_ : List Action) (rows : List Row)
    → IsNamed name rows
    → IsNamed name (act as_ rows)
unfolding act
act-IsNamed name [] rows a = a
act-IsNamed name (b ∷ bs) rows a =
    act-IsNamed name bs (ask b.owner b.now b.request rows)
      (ask-IsNamed name b.owner b.now b.request rows a)

forget : (P Q : Row → Type 0) (rows : List Row) → All (λ r. P r × Q r) rows → All P rows
forget P Q [] a = tt
forget P Q (r ∷ rows) a = (a.0.0, forget P Q rows a.1)

pub claim_batch-IsNamed :
    (name : ℕ → ℕ) (locked : ℕ → Bool) (o b m l now : ℕ) (rows : List Row)
    → IsNamed name rows
    → IsNamed name (claim_batch locked o b m l now rows).0
unfolding claim_batch candidates
claim_batch-IsNamed name locked o b m l now rows a =
    map-IsNamed name (leased o (now + l)) (candidates locked b m now rows) (λ r. refl) (λ r. refl)
      (limit-All _ b _ (sort-All _ _ (forget _ _ _ (claimable-All _ locked m now rows a))))
