-- ===== src/Outbox/Relay/Retiring.antt =====
-- src/core/outbox/outbox-relay.ts: the polls of a relay for a row whose event cannot be published.
use tri_ad_backend.Base.{
  equal_self, ℕ, suc, ◌+◌, ◌≤◌, ◌<◌, ◌≡◌, refl, ap, ◌∙◌, Bool, true, false, List, [], ◌∷◌, arith,
  leb, length,
}
use tri_ad_backend.Outbox.Bus
use tri_ad_backend.Outbox.Table.{
  Row, is_claimable, claimable, insert, sort, limit, candidates, is_among, leased, claim_row,
  claim_batch, to_failed, updated, claim, is_held, update_row, update_claimed, act, is_in,
}
use tri_ad_backend.Outbox.Relay.{
  World, Environment, publish_read, publish_event, update_claimed_row, publish_failed,
  publish_settled, publish_row, beat, poll_rows, poll_claimed, poll_once, max_attempts,
  lock_lease_ms, batch_size, without, action,
}

-- The requests of a relay that is alone with a store that does not fail, at one time.
abbrev pub alone : Environment → ℕ → Environment
alone env t = record env {
  now = λ log. t;
  throws = λ log. false;
  others = λ log. [];
  locked = λ log i. false;
  beats = λ log. false;
}

-- Polls at several times.
pub poll_all : Environment → List ℕ → World → World
poll_all env [] w = w
poll_all env (t ∷ ts) w = poll_all env ts (poll_once (alone env t) w)

-- The call of `withRetry` for a row throws, whatever the bus has done before.
abbrev pub Fails : Environment → Row → Type 0
Fails env r = (b : Bus.World) → (env.retry 2 (publish_event env r) b).0 ≡ false

claim_one :
    (o t : ℕ) (r : Row)
    → is_claimable max_attempts t r ≡ true
    → claim_batch (λ i. false) o batch_size max_attempts lock_lease_ms t (r ∷ [])
      ≡ (leased o (t + lock_lease_ms) r ∷ [], leased o (t + lock_lease_ms) r ∷ [])
unfolding claim_batch candidates claimable sort insert limit is_among claim_row
claim_one o t r c = rw c (ground arith)

-- What a failed publication leaves of a row.
abbrev pub failed_at : ℕ → Row → Row
failed_at t r = updated max_attempts t (to_failed r.attempts) r

update_one :
    (o t : ℕ) (r : Row)
    → r.published ≡ false
    → r.dead ≡ false
    → (update_claimed r.id o max_attempts t
        (to_failed r.attempts)
        (leased o (t + lock_lease_ms) r ∷ [])).1
      ≡ failed_at t r ∷ []
unfolding update_claimed update_row updated is_held
update_one o t r p d = ground (arith, p, d)

-- A world without its bus.
record Looks (rows : List Row) (active_ : List ℕ) (running_ : Bool) (w : World) : Type 0 where
  table_eq : w.table ≡ rows
  active_eq : w.active ≡ active_
  running_eq : w.running ≡ running_

module _ (env : Environment) (t : ℕ) (r : Row) where
  publish_failed-one :
      (w : World)
      → r.published ≡ false
      → r.dead ≡ false
      → w.table ≡ leased env.owner (t + lock_lease_ms) r ∷ []
      → w.active ≡ r.id ∷ []
      → w.running ≡ true
      → ((publish_failed (alone env t) (leased env.owner (t + lock_lease_ms) r) w).0 ≡ true)
        × Looks
            (failed_at t r ∷ [])
            []
            true
            (publish_failed (alone env t) (leased env.owner (t + lock_lease_ms) r) w).1
  unfolding publish_failed update_claimed_row without act
  publish_failed-one w p d e a u = (
    refl,
    record {
      table_eq =
          ap (λ rows. (update_claimed r.id env.owner max_attempts t (to_failed r.attempts) rows).1)
            e
          ∙ update_one env.owner t r p d;
      active_eq = ap (λ is. without (alone env t) r.id is) a ∙ ground arith;
      running_eq = u;
    },
  )

  publish_row-one :
      (w : World)
      → Fails env r
      → r.published ≡ false
      → r.dead ≡ false
      → w.table ≡ leased env.owner (t + lock_lease_ms) r ∷ []
      → w.active ≡ r.id ∷ []
      → w.running ≡ true
      → ((publish_row (alone env t) (leased env.owner (t + lock_lease_ms) r) w).0 ≡ true)
        × Looks
            (failed_at t r ∷ [])
            []
            true
            (publish_row (alone env t) (leased env.owner (t + lock_lease_ms) r) w).1
  unfolding publish_row publish_event publish_read publish_settled
  publish_row-one w f p d e a u = rw (f w.bus) (
      publish_failed-one (record w { bus = (env.retry 2 (publish_event env r) w.bus).1 }) p d e a u)

  poll_once-one :
      (w : World)
      → Fails env r
      → is_claimable max_attempts t r ≡ true
      → w.table ≡ r ∷ []
      → w.running ≡ false
      → Looks (failed_at t r ∷ []) [] false (poll_once (alone env t) w)
  unfolding poll_once poll_claimed poll_rows beat act is_in is_claimable
  poll_once-one w f c e u =
      let one = claim_one env.owner t r c in
      let p =
        publish_row-one
          (record w {
            table = leased env.owner (t + lock_lease_ms) r ∷ [];
            active = r.id ∷ [];
            running = true;
            log =
                action (alone env t) (claim (λ i. false) batch_size max_attempts lock_lease_ms) w
                ∷ w.log;
          })
          f (ground (arith, c)) (ground (arith, c)) refl refl refl in
      rw (u, e, one, equal_self r.id, p.0)
        (record { table_eq = p.1.table_eq; active_eq = refl; running_eq = refl })

-- Times that are apart by more than the longest delay of the relay.
unfoldable pub AreApart : ℕ → List ℕ → Type 0
AreApart t [] = Unit
AreApart t (t' ∷ ts) = (t + 60_000 < t') × AreApart t' ts

failed_at-Fails : (env : Environment) (t : ℕ) (r : Row) → Fails env r → Fails env (failed_at t r)
unfolding publish_event publish_read updated
failed_at-Fails env t r f = f

-- The row after failures.
pub record HasFailed (r : Row) (n : ℕ) (r' : Row) : Type 0 where
  pub id_eq : r'.id ≡ r.id
  pub attempts_eq : r'.attempts ≡ r.attempts + n
  pub dead_eq : r'.dead ≡ leb max_attempts (r.attempts + n)
  pub published_eq : r'.published ≡ false

not-last : (n : ℕ) → n + 1 < max_attempts → leb max_attempts (n + 1) ≡ false
not-last n b = ground (arith, b)

failed_at-claimable :
    (t t' : ℕ) (r : Row)
    → t + 60_000 < t'
    → r.published ≡ false
    → r.attempts + 1 < max_attempts
    → is_claimable max_attempts t' (failed_at t r) ≡ true
unfolding is_claimable updated
failed_at-claimable t t' r a p b =
    let last = not-last r.attempts b in rw (last, p) (ground (arith, a, b, last))

claimable-published : (t : ℕ) (r : Row) → is_claimable max_attempts t r ≡ true → r.published ≡ false
unfolding is_claimable
claimable-published t r c = ground (arith, c)

failed_at-HasFailed : (t : ℕ) (r : Row) → r.published ≡ false → HasFailed r 1 (failed_at t r)
unfolding updated
failed_at-HasFailed t r p = record {
  id_eq = refl;
  attempts_eq = refl;
  dead_eq = refl;
  published_eq = p;
}

-- Failures after the first.
HasFailed-after :
    (t : ℕ) (r r' : Row) (n : ℕ) → HasFailed (failed_at t r) n r' → HasFailed r (suc n) r'
unfolding updated
HasFailed-after t r r' n h = record {
  id_eq = h.id_eq;
  attempts_eq = h.attempts_eq ∙ omega arith;
  dead_eq = h.dead_eq ∙ ap (leb max_attempts) (omega arith);
  published_eq = h.published_eq;
}

failed_at-attempts : (t : ℕ) (r : Row) → (failed_at t r).attempts ≡ r.attempts + 1
unfolding updated
failed_at-attempts t r = refl

-- A relay that is alone, with a store that does not fail, polls a table of one row, whose event cannot
-- be published whatever the bus has done before; each poll takes no time, the row can be claimed at
-- the first, and they are more than a minute apart. If there are no more polls than attempts are left,
-- each counts as one attempt, and the row is dead-lettered exactly when all have been made; it is not
-- published.
pub poll_all-retires :
    (env : Environment) (t : ℕ) (ts : List ℕ) (r : Row) (w : World)
    → Fails env r
    → w.table ≡ r ∷ []
    → w.running ≡ false
    → is_claimable max_attempts t r ≡ true
    → AreApart t ts
    → r.attempts + length (t ∷ ts) ≤ max_attempts
    → (r' : Row) × ((poll_all env (t ∷ ts) w).table ≡ r' ∷ []) × HasFailed r (length (t ∷ ts)) r'
unfolding poll_all AreApart
poll_all-retires env t [] r w f e u c a b =
    let l = poll_once-one env t r w f c e u in
    (failed_at t r, l.table_eq, failed_at-HasFailed t r (claimable-published t r c))
poll_all-retires env t (t' ∷ ts) r w f e u c a b =
    let l = poll_once-one env t r w f c e u in
    let (r', e', h) =
      poll_all-retires env t' ts (failed_at t r) (poll_once (alone env t) w)
        (failed_at-Fails env t r f) l.table_eq l.running_eq
        (failed_at-claimable t t' r a.0 (claimable-published t r c) (omega (arith, b))) a.1
        (omega (arith, b, failed_at-attempts t r)) in
    (r', e', HasFailed-after t r r' (length (t' ∷ ts)) h)
