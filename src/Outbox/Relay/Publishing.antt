-- ===== src/Outbox/Relay/Publishing.antt =====
-- src/core/outbox/outbox-relay.ts: the rows that a relay marks as published, and their handlers.
use tri_ad_backend.Base.{ℕ, zero, suc, ◌≡◌, refl, Bool, true, All, inl, inr, ◌⊎◌, Bool-cases}
use mathlib.Core.Path.{subst}
use tri_ad_backend.Outbox.Bus
use tri_ad_backend.Outbox.Bus.{handlers_of, has_succeeded, publish}
use tri_ad_backend.Outbox.Bus.Tracked.{Continues, Continues-refl, Continues-trans}
use tri_ad_backend.Outbox.Bus.Delivery.{publish-delivers}
use tri_ad_backend.Outbox.Schema.{DomainEvent, InvalidEvent}
use tri_ad_backend.Outbox.Schema.Reading.{deserialize_outbox_event-name}
use tri_ad_backend.Outbox.Table.{Row}
use tri_ad_backend.Outbox.Relay.{Environment, attempted, Retries, publish_read, publish_event}

-- What the last of some attempts has made true, and what all of them keep.
module _ (f : Bus.World → Bool × Bus.World) where
  attempted-holds :
      (Q : Bus.World → Type 0)
      → ((b : Bus.World) → (f b).0 ≡ true → Q (f b).1)
      → (n : ℕ) (b : Bus.World) → (attempted f n b).0 ≡ true
      → Q (attempted f n b).1
  unfolding attempted
  attempted-holds Q h zero b = h b
  attempted-holds Q h (suc n) b = elim (Bool-cases (f b).0) [
    | inl x ↦ rw x (λ y. h b x)
    | inr x ↦ rw x (attempted-holds Q h n (f b).1)
  ]

  attempted-Continues :
      (e : ℕ)
      → ((b : Bus.World) → Continues e b (f b).1)
      → (n : ℕ) (b : Bus.World) → Continues e b (attempted f n b).1
  unfolding attempted
  attempted-Continues e h zero b = h b
  attempted-Continues e h (suc n) b = elim (Bool-cases (f b).0) [
    | inl x ↦ rw x (h b)
    | inr x ↦ rw x (Continues-trans e b (f b).1 _ (h b) (attempted-Continues e h n (f b).1))
  ]

-- Every handler of an event's name is recorded as successful for an event.
abbrev pub IsDelivered : Environment → ℕ → ℕ → Bus.World → Type 0
IsDelivered env i name b =
    All (λ h. has_succeeded i h b.tracks ≡ true) (handlers_of name env.subscriptions)

module _ (env : Environment) (row : Row) where
  publish_read-delivers :
      (r : InvalidEvent ⊎ DomainEvent) (b : Bus.World)
      → ((e : DomainEvent) → r ≡ inr e → e.event_name ≡ row.event_name)
      → ((publish_read env row r b).0 ≡ true
          → IsDelivered env row.id row.event_name (publish_read env row r b).1)
        × Continues row.id b (publish_read env row r b).1
  unfolding publish_read
  publish_read-delivers (inl e) b n = ((λ x. cc), Continues-refl row.id b)
  publish_read-delivers (inr e) b n =
      let d = publish-delivers env.handlers env.subscriptions e.event_name row.id b in
      (
        (λ x.
            subst
              (λ k.
                IsDelivered env row.id k
                  (publish env.handlers env.subscriptions e.event_name row.id b).1)
              (n e refl) (d.0 x)),
        d.1,
      )

  publish_event-delivers :
      (b : Bus.World)
      → ((publish_event env row b).0 ≡ true
          → IsDelivered env row.id row.event_name (publish_event env row b).1)
        × Continues row.id b (publish_event env row b).1
  unfolding publish_event
  publish_event-delivers b =
      publish_read-delivers _ b
        (λ e x. (deserialize_outbox_event-name env.dates row.payload _ e x).0)

-- The call of `withRetry` in `publishRow`.
pub retry-delivers :
    (env : Environment) (row : Row) (b : Bus.World)
    → Retries env.retry
    → ((env.retry 2 (publish_event env row) b).0 ≡ true
        → IsDelivered env row.id row.event_name (env.retry 2 (publish_event env row) b).1)
      × Continues row.id b (env.retry 2 (publish_event env row) b).1
retry-delivers env row b promise = rw (promise 2 (publish_event env row) b) (
  attempted-holds (publish_event env row) (IsDelivered env row.id row.event_name)
      (λ c. (publish_event-delivers env row c).0) 2 b,
  attempted-Continues (publish_event env row) row.id (λ c. (publish_event-delivers env row c).1) 2
      b,
)
