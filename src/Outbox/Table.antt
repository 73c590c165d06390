-- ===== src/Outbox/Table.antt =====
-- src/core/outbox/prisma-outbox-relay.store.ts and the updates of src/core/outbox/outbox-relay.ts: the
-- rows of the outbox, and what the relays, each known by its owner's name, do to them. Times are
-- numbers of milliseconds; the times at which a row was locked,
-- published and dead-lettered, and its last error, are left out. A
-- claim gives its rows in the order of its query.
pub mod Rows
pub mod Leases
pub mod Names
pub mod Claims
pub mod Choice
use tri_ad_backend.Base.{
  ℕ, zero, suc, ◌+◌, ◌*◌, ◌^◌, min, Bool, true, false, not, ◌&&◌, ◌||◌, Option, none, some, List,
  [], ◌∷◌, map, ◌==◌, ltb, leb, if◌then◌else◌,
}
use tri_ad_backend.Outbox.Json.{Value}

pub record Row : Type 0 where
  pub id : ℕ
  pub event_name : ℕ
  pub aggregate_id : ℕ
  pub payload : Value
  pub attempts : ℕ
  pub published : Bool
  pub dead : Bool
  pub lock_owner : Option ℕ
  pub lease_until : Option ℕ
  pub occurred_at : ℕ

-- Whether a lease has run out, and whether it still runs, at a time: neither at its last moment.
abbrev pub has_ended : ℕ → Option ℕ → Bool
has_ended now none = true
has_ended now (some u) = ltb u now

abbrev pub runs : ℕ → Option ℕ → Bool
runs now none = false
runs now (some u) = ltb now u

abbrev pub is_owner : ℕ → Option ℕ → Bool
is_owner o none = false
is_owner o (some p) = p == o

-- The condition of `candidates`.
unfoldable pub is_claimable : ℕ → ℕ → Row → Bool
is_claimable max_attempts now r =
    not r.published && not r.dead && ltb r.attempts max_attempts && has_ended now r.lease_until

-- The rows that meet it, less those that another transaction has locked.
unfoldable pub claimable : (ℕ → Bool) → ℕ → ℕ → List Row → List Row
claimable locked max_attempts now [] = []
claimable locked max_attempts now (r ∷ rs) =
    if is_claimable max_attempts now r && not (locked r.id)
    then r ∷ claimable locked max_attempts now rs
    else claimable locked max_attempts now rs

-- `ORDER BY "occurredAt" ASC`
unfoldable pub insert : Row → List Row → List Row
insert r [] = r ∷ []
insert r (s ∷ rs) = if leb r.occurred_at s.occurred_at then r ∷ s ∷ rs else s ∷ insert r rs

unfoldable pub sort : List Row → List Row
sort [] = []
sort (r ∷ rs) = insert r (sort rs)

-- `LIMIT`
unfoldable pub limit : ℕ → List Row → List Row
limit zero rs = []
limit (suc n) [] = []
limit (suc n) (r ∷ rs) = r ∷ limit n rs

unfoldable pub candidates : (ℕ → Bool) → ℕ → ℕ → ℕ → List Row → List Row
candidates locked batch max_attempts now rows =
    limit batch (sort (claimable locked max_attempts now rows))

-- The row with an id, if there is one.
unfoldable pub get : ℕ → List Row → Option Row
get i [] = none
get i (r ∷ rs) = if r.id == i then some r else get i rs

unfoldable pub is_among : ℕ → List Row → Bool
is_among i [] = false
is_among i (c ∷ cs) = if c.id == i then true else is_among i cs

abbrev pub leased : ℕ → ℕ → Row → Row
leased owner until r = record r { lock_owner = some owner; lease_until = some until }

unfoldable pub claim_row : List Row → ℕ → ℕ → Row → Row
claim_row chosen owner until r = if is_among r.id chosen then leased owner until r else r

-- `claimBatch`: the rows claimed, and the table.
unfoldable pub claim_batch : (ℕ → Bool) → ℕ → ℕ → ℕ → ℕ → ℕ → List Row → List Row × List Row
claim_batch locked owner batch max_attempts lease now rows =
    let chosen = candidates locked batch max_attempts now rows in
    (map (leased owner (now + lease)) chosen, map (claim_row chosen owner (now + lease)) rows)

-- The data of an update: the event was published, or it failed, for the number of attempts that
-- the relay read when it claimed the row.
pub data Update : Type 0 where
  to_published : Update
  to_failed : ℕ → Update

abbrev pub backoff : ℕ → ℕ
backoff attempts = min 60_000 (1_000 * 2 ^ attempts)

-- The updates of `publishRow`.
unfoldable pub updated : ℕ → ℕ → Update → Row → Row
updated max_attempts now to_published r = record r {
  published = true;
  lock_owner = none;
  lease_until = none;
}
updated max_attempts now (to_failed claimed) r =
    let last = leb max_attempts (claimed + 1) in
    record r {
      attempts = r.attempts + 1;
      lock_owner = none;
      lease_until = if last then none else some (now + backoff claimed);
      dead = last;
    }

-- The condition of `updateClaimed` and of `renewClaims`.
unfoldable pub is_held : ℕ → ℕ → Row → Bool
is_held owner now r =
    is_owner owner r.lock_owner && not r.published && not r.dead && runs now r.lease_until

unfoldable pub update_row : ℕ → ℕ → ℕ → ℕ → Update → Row → Row
update_row i owner max_attempts now u r =
    if r.id == i && is_held owner now r then updated max_attempts now u r else r

abbrev pub holds : ℕ → ℕ → Option Row → Bool
holds owner now none = false
holds owner now (some r) = is_held owner now r

-- `updateClaimed`: whether it updated a row, and the table.
unfoldable pub update_claimed : ℕ → ℕ → ℕ → ℕ → Update → List Row → Bool × List Row
update_claimed i owner max_attempts now u rows =
    (holds owner now (get i rows), map (update_row i owner max_attempts now u) rows)

unfoldable pub is_in : ℕ → List ℕ → Bool
is_in i [] = false
is_in i (j ∷ js) = if j == i then true else is_in i js

pub renew_row : List ℕ → ℕ → ℕ → ℕ → Row → Row
renew_row ids owner now until r =
    if is_in r.id ids && is_held owner now r then record r { lease_until = some until } else r

-- The rows that `renewClaims` returns.
unfoldable pub renewed : List ℕ → ℕ → ℕ → List Row → List ℕ
renewed ids owner now [] = []
renewed ids owner now (r ∷ rs) =
    if is_in r.id ids && is_held owner now r
    then r.id ∷ renewed ids owner now rs
    else renewed ids owner now rs

-- `renewClaims`
pub renew_claims : List ℕ → ℕ → ℕ → ℕ → List Row → List ℕ × List Row
renew_claims ids owner lease now rows =
    (renewed ids owner now rows, map (renew_row ids owner now (now + lease)) rows)

-- What a relay asks of the store.
pub data Request : Type 0 where
  claim : (locked : ℕ → Bool) (batch max_attempts lease : ℕ) → Request
  update : (i max_attempts : ℕ) → Update → Request
  renew : (ids : List ℕ) (lease : ℕ) → Request

-- A request of an owner at a time.
pub record Action : Type 0 where
  pub owner : ℕ
  pub now : ℕ
  pub request : Request

abbrev pub ask : ℕ → ℕ → Request → List Row → List Row
ask owner now (claim locked batch max_attempts lease) rows =
    (claim_batch locked owner batch max_attempts lease now rows).1
ask owner now (update i max_attempts u) rows = (update_claimed i owner max_attempts now u rows).1
ask owner now (renew ids lease) rows = (renew_claims ids owner lease now rows).1

-- The table after the requests of all relays, in the order in which the database runs them.
unfoldable pub act : List Action → List Row → List Row
act [] rows = rows
act (a ∷ as_) rows = act as_ (ask a.owner a.now a.request rows)
