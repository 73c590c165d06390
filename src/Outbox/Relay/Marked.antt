-- ===== src/Outbox/Relay/Marked.antt =====
-- src/core/outbox/outbox-relay.ts: the requests by which a relay marks rows as published.
use tri_ad_backend.Base.{ℕ, ◌≡◌, refl, Bool, true, false, List, [], ◌∷◌, All, inl, inr, Bool-cases}
use mathlib.Core.Path.{subst}
use tri_ad_backend.Outbox.Bus
use tri_ad_backend.Outbox.Bus.{handlers_of, has_succeeded}
use tri_ad_backend.Outbox.Bus.Tracked.{Continues}
use tri_ad_backend.Outbox.Table.{
  Row, Update, to_published, to_failed, claim, update, renew, Action, is_in,
}
use tri_ad_backend.Outbox.Table.Names.{IsNamed, ask-IsNamed, act-IsNamed, claim_batch-IsNamed}
use tri_ad_backend.Outbox.Relay.{
  World, Environment, Retries, publish_event, update_claimed_row, publish_failed, publish_settled,
  publish_row, beat_on, beat, poll_rows, poll_claimed, poll_once, max_attempts, met, action,
  batch_size, lock_lease_ms,
}
use tri_ad_backend.Outbox.Relay.Publishing.{IsDelivered, retry-delivers}

-- A request that marks a row as published has all the handlers of its event behind it.
abbrev pub IsBacked : Environment → (ℕ → ℕ) → Bus.World → Action → Type 0
IsBacked env name b a =
    (i m : ℕ) → a.request ≡ update i m to_published → IsDelivered env i (name i) b

-- The rows are named, and so it is for all requests in the relay's log.
abbrev pub IsSound : Environment → (ℕ → ℕ) → World → Type 0
IsSound env name w = IsNamed name w.table × All (IsBacked env name w.bus) w.log

update-injective : {i m j k : ℕ} {u v : Update} → update i m u ≡ update j k v → (i ≡ j) × (u ≡ v)
update-injective q = (cc, cc)

module _ (env : Environment) (name : ℕ → ℕ) where
  IsDelivered-kept :
      (e i : ℕ) (b b' : Bus.World) (hs : List ℕ)
      → Continues e b b'
      → All (λ h. has_succeeded i h b.tracks ≡ true) hs
      → All (λ h. has_succeeded i h b'.tracks ≡ true) hs
  IsDelivered-kept e i b b' [] c a = tt
  IsDelivered-kept e i b b' (h ∷ hs) c a = (c.kept i h a.0, IsDelivered-kept e i b b' hs c a.1)

  log-kept :
      (e : ℕ) (b b' : Bus.World) (log : List Action)
      → Continues e b b'
      → All (IsBacked env name b) log
      → All (IsBacked env name b') log
  log-kept e b b' [] c a = tt
  log-kept e b b' (x ∷ log) c a = (
    (λ i m q. IsDelivered-kept e i b b' (handlers_of (name i) env.subscriptions) c (a.0 i m q)),
    log-kept e b b' log c a.1,
  )

  marked :
      (i : ℕ) (u : Update) (w : World)
      → (u ≡ to_published → IsDelivered env i (name i) w.bus)
      → IsBacked env name w.bus (action env (update i max_attempts u) w)
  marked i u w d j m q =
      subst (λ k. IsDelivered env k (name k) w.bus) (update-injective q).0
        (d (update-injective q).1)

  update_claimed_row-IsSound :
      (i : ℕ) (u : Update) (w : World)
      → (u ≡ to_published → IsDelivered env i (name i) w.bus)
      → IsSound env name w
      → IsSound env name (update_claimed_row env i u w).1
  unfolding update_claimed_row
  update_claimed_row-IsSound i u w d s =
      let t = act-IsNamed name (env.others w.log) w.table s.0 in
      let backed = marked i u w d in
      elim (Bool-cases (env.throws w.log)) [
        | inl x ↦ rw x (t, (backed, s.1))
        | inr x ↦ rw x (
          ask-IsNamed name env.owner (env.now w.log) (update i max_attempts u) (met env w) t,
          (backed, s.1),
        )
      ]

  publish_failed-IsSound :
      (row : Row) (w : World) → IsSound env name w → IsSound env name (publish_failed env row w).1
  unfolding publish_failed
  publish_failed-IsSound row w =
      update_claimed_row-IsSound row.id (to_failed row.attempts) w (λ x. cc)

  publish_settled-IsSound :
      (row : Row) (b : Bool) (w : World)
      → (b ≡ true → IsDelivered env row.id (name row.id) w.bus)
      → IsSound env name w
      → IsSound env name (publish_settled env row b w).1
  unfolding publish_settled
  publish_settled-IsSound row false w d s = publish_failed-IsSound row w s
  publish_settled-IsSound row true w d s =
      let s' = update_claimed_row-IsSound row.id to_published w (λ x. d refl) s in
      elim (Bool-cases (update_claimed_row env row.id to_published w).0) [
        | inl x ↦ rw x s'
        | inr x ↦ rw x (publish_failed-IsSound row _ s')
      ]

  publish_row-IsSound :
      (row : Row) (w : World)
      → Retries env.retry
      → row.event_name ≡ name row.id
      → IsSound env name w
      → IsSound env name (publish_row env row w).1
  unfolding publish_row
  publish_row-IsSound row w promise n s =
      let d = retry-delivers env row w.bus promise in
      let b = env.retry 2 (publish_event env row) w.bus in
      publish_settled-IsSound row b.0 (record w { bus = b.1 })
        (λ x. subst (λ k. IsDelivered env row.id k b.1) n (d.0 x))
        (s.0, log-kept row.id w.bus b.1 w.log d.1 s.1)

  beat_on-IsSound :
      (is : List ℕ) (w : World) → IsSound env name w → IsSound env name (beat_on env is w)
  beat_on-IsSound [] w s = s
  beat_on-IsSound (i ∷ is) w s =
      let t = act-IsNamed name (env.others w.log) w.table s.0 in
      elim (Bool-cases (env.throws w.log)) [
        | inl x ↦ rw x (t, ((λ j m q. cc), s.1))
        | inr x ↦ rw x (
          ask-IsNamed name env.owner (env.now w.log) (renew (i ∷ is) lock_lease_ms) (met env w) t,
          ((λ j m q. cc), s.1),
        )
      ]

  beat-IsSound : (w : World) → IsSound env name w → IsSound env name (beat env w)
  unfolding beat
  beat-IsSound w s = elim (Bool-cases (env.beats w.log)) [
    | inl x ↦ rw x (beat_on-IsSound w.active w s)
    | inr x ↦ rw x s
  ]

  poll_rows-IsSound :
      (rows : List Row) (w : World)
      → Retries env.retry
      → IsNamed name rows
      → IsSound env name w
      → IsSound env name (poll_rows env rows w).1
  unfolding poll_rows
  poll_rows-IsSound [] w promise n s = s
  poll_rows-IsSound (row ∷ rows) w promise n s =
      let s1 = beat-IsSound w s in
      elim (Bool-cases (is_in row.id (beat env w).active)) [
        | inr x ↦ rw x (poll_rows-IsSound rows (beat env w) promise n.1 s1)
        | inl x ↦ rw x (elim (Bool-cases (publish_row env row (beat env w)).0) [
          | inl y ↦ rw y (
              poll_rows-IsSound rows _ promise n.1
                (publish_row-IsSound row (beat env w) promise n.0 s1))
          | inr y ↦ rw y (publish_row-IsSound row (beat env w) promise n.0 s1)
        ])
      ]

  poll_claimed-IsSound :
      (w : World) → Retries env.retry → IsSound env name w → IsSound env name (poll_claimed env w)
  unfolding poll_claimed
  poll_claimed-IsSound w promise s =
      let t = act-IsNamed name (env.others w.log) w.table s.0 in
      let c = claim (env.locked w.log) batch_size max_attempts lock_lease_ms in
      elim (Bool-cases (env.throws w.log)) [
        | inl x ↦ rw x (t, ((λ j m q. cc), s.1))
        | inr x ↦ rw x (
            poll_rows-IsSound _ _ promise
              (claim_batch-IsNamed name (env.locked w.log) env.owner batch_size max_attempts
                lock_lease_ms (env.now w.log) (met env w) t)
              (ask-IsNamed name env.owner (env.now w.log) c (met env w) t, ((λ j m q. cc), s.1)))
      ]

  -- Whatever the other relays ask for and whichever requests throw, a poll keeps it so that a
  -- row is asked to be marked as published only when every handler that is subscribed to the row's
  -- event is recorded as successful for it. The library of retries calls its function as it promises.
  pub poll_once-IsSound :
      (w : World) → Retries env.retry → IsSound env name w → IsSound env name (poll_once env w)
  unfolding poll_once
  poll_once-IsSound w promise s = elim (Bool-cases w.running) [
    | inl x ↦ rw x s
    | inr x ↦ rw x (poll_claimed-IsSound (record w { running = true }) promise s)
  ]
