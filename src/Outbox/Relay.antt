-- ===== src/Outbox/Relay.antt =====
-- src/core/outbox/outbox-relay.ts: one relay's polls, `pollOnce`, with the store's table, the event
-- bus, and what other relays and the relay's heartbeat do between its requests. Metrics, logs and
-- the timers that start a poll or a heartbeat are left out. `withRetry` of
-- src/core/circuit-breaker/circuit-breaker.ts calls a library, which is a parameter.
pub mod Publishing
pub mod Retiring
pub mod Marked
use tri_ad_backend.Base.{
  ℕ, zero, suc, ◌+◌, ◌≡◌, Bool, true, false, not, Option, none, some, List, [], ◌∷◌, map, ◌==◌,
  if◌then◌else◌, ◌⊎◌, inl, inr,
}
use tri_ad_backend.Outbox.Bus
use tri_ad_backend.Outbox.Bus.{Subscription, publish}
use tri_ad_backend.Outbox.Json.{Dates}
use tri_ad_backend.Outbox.Schema.{deserialize_outbox_event, InvalidEvent, DomainEvent}
use tri_ad_backend.Outbox.Table.{
  Row, claim_batch, Update, to_published, to_failed, update_claimed, renew_claims, Request, claim,
  update, renew, Action, act, is_in,
}

abbrev pub poll_interval_ms : ℕ
poll_interval_ms = 2_000

abbrev pub batch_size : ℕ
batch_size = 50

abbrev pub max_attempts : ℕ
max_attempts = 10

abbrev pub lock_lease_ms : ℕ
lock_lease_ms = 60_000

-- The relay with its surroundings: `log` is the requests it has made, the last one first;
-- `active` is `activeClaimIds`.
pub record World : Type 0 where
  pub table : List Row
  pub bus : Bus.World
  pub active : List ℕ
  pub running : Bool
  pub log : List Action

-- What a relay meets: the time of its next request, whether that throws, what other relays ask
-- before it, which rows are locked then, and whether a heartbeat comes first; all by the requests
-- before. `retry` is `retry` of the package `async-retry`, for a number of retries and a function
-- that throws (false) or returns; `dates` is what the engine supplies of dates.
pub record Environment : Type 0 where
  pub owner : ℕ
  pub dates : Dates
  pub subscriptions : List Subscription
  pub handlers : Bus.Environment
  pub now : List Action → ℕ
  pub throws : List Action → Bool
  pub others : List Action → List Action
  pub locked : List Action → ℕ → Bool
  pub beats : List Action → Bool
  pub retry : ℕ → (Bus.World → Bool × Bus.World) → Bus.World → Bool × Bus.World

-- The calls of a function until it returns, at most one more than a number.
unfoldable pub attempted : (Bus.World → Bool × Bus.World) → ℕ → Bus.World → Bool × Bus.World
attempted f zero b = f b
attempted f (suc n) b =
    let (returned, b') = f b in let rest = attempted f n b' in if returned then (true, b') else rest

-- What `async-retry` promises.
abbrev pub Retries : (ℕ → (Bus.World → Bool × Bus.World) → Bus.World → Bool × Bus.World) → Type 0
Retries retry =
    (n : ℕ) (f : Bus.World → Bool × Bus.World) (b : Bus.World) → retry n f b ≡ attempted f n b

module _ (env : Environment) where
  unfoldable pub publish_read : Row → InvalidEvent ⊎ DomainEvent → Bus.World → Bool × Bus.World
  publish_read row (inl e) b = (false, b)
  publish_read row (inr event) b =
      let (result, b') = publish env.handlers env.subscriptions event.event_name row.id b in
      (result.0, b')

  -- The function that `publishRow` gives to `withRetry`: whether it returns.
  unfoldable pub publish_event : Row → Bus.World → Bool × Bus.World
  publish_event row = publish_read row (
      deserialize_outbox_event env.dates row.payload
        (record { event_name = row.event_name; aggregate_id = row.aggregate_id }))

  -- A request at its time, after those of the others: its action, and the table it meets.
  abbrev pub action : Request → World → Action
  action q w = record { owner = env.owner; now = env.now w.log; request = q }

  abbrev pub met : World → List Row
  met w = act (env.others w.log) w.table

  pub without : ℕ → List ℕ → List ℕ
  without i [] = []
  without i (j ∷ js) = if j == i then without i js else j ∷ without i js

  -- `updateClaimedRow`: whether it returns. The callers treat an update that was not made as one
  -- that was, but for their metrics.
  pub update_claimed_row : ℕ → Update → World → Bool × World
  update_claimed_row i u w =
      let table = met w in
      let (updated, table') = update_claimed i env.owner max_attempts (env.now w.log) u table in
      let log = action (update i max_attempts u) w ∷ w.log in
      if env.throws w.log
      then (false, record w { table = table; log = log })
      else (true, record w { table = table'; active = without i w.active; log = log })

  -- The `catch` of `publishRow`.
  pub publish_failed : Row → World → Bool × World
  publish_failed row w = update_claimed_row row.id (to_failed row.attempts) w

  -- The rest of the `try`, after `withRetry`.
  pub publish_settled : Row → Bool → World → Bool × World
  publish_settled row false w = publish_failed row w
  publish_settled row true w =
      let (returned, w') = update_claimed_row row.id to_published w in
      if returned then (true, w') else publish_failed row w'

  -- `publishRow`: whether it returns.
  pub publish_row : Row → World → Bool × World
  publish_row row w =
      let (returned, b) = env.retry 2 (publish_event row) w.bus in
      publish_settled row returned (record w { bus = b })

  unfoldable pub kept_active : List ℕ → List ℕ → List ℕ
  kept_active renewed [] = []
  kept_active renewed (i ∷ is) =
      if is_in i renewed then i ∷ kept_active renewed is else kept_active renewed is

  abbrev pub beat_on : List ℕ → World → World
  beat_on [] w = w
  beat_on (i ∷ is) w =
      let table = met w in
      let (renewed, table') = renew_claims (i ∷ is) env.owner lock_lease_ms (env.now w.log) table in
      let log = action (renew (i ∷ is) lock_lease_ms) w ∷ w.log in
      if env.throws w.log
      then record w { table = table; log = log }
      else record w { table = table'; active = kept_active renewed (i ∷ is); log = log }

  -- The timer's function of `startHeartbeat`, between two rows.
  pub beat : World → World
  beat w = if env.beats w.log then beat_on w.active w else w

  -- The loop of `pollOnce`: whether it returns.
  pub poll_rows : List Row → World → Bool × World
  poll_rows [] w = (true, w)
  poll_rows (row ∷ rows) w =
      let w1 = beat w in
      let (returned, w2) = publish_row row w1 in
      let (skipped, w3) = poll_rows rows w1 in
      let (all, w4) = poll_rows rows w2 in
      if not (is_in row.id w1.active)
      then (skipped, w3)
      else if returned
      then (all, w4)
      else (false, w2)

  row_ids : List Row → List ℕ
  row_ids [] = []
  row_ids (r ∷ rs) = r.id ∷ row_ids rs

  -- The claim of `pollOnce` and what follows it, and `stopHeartbeat`.
  pub poll_claimed : World → World
  unfolding row_ids
  poll_claimed w =
      let table = met w in
      let locked = env.locked w.log in
      let log = action (claim locked batch_size max_attempts lock_lease_ms) w ∷ w.log in
      let (rows, table') =
        claim_batch locked env.owner batch_size max_attempts lock_lease_ms (env.now w.log) table in
      let (all, w') =
        poll_rows rows (record w { table = table'; active = row_ids rows; log = log }) in
      if env.throws w.log then record w { table = table; log = log } else record w' { active = [] }

  -- `pollOnce`
  pub poll_once : World → World
  poll_once w =
      if w.running
      then w
      else record (poll_claimed (record w { running = true })) { running = false }
