-- ===== src/Shared/Aggregate.antt =====
-- src/shared/domain/aggregate-root.ts: the identity, the buffered events and the persisted version
-- of an aggregate.
use tri_ad_backend.Base.{ℕ, List, [], ◌∷◌, ◌++◌}
use tri_ad_backend.Shared.Events.{DomainEvent}

pub record AggregateRoot : Type 0 where
  pub id : ℕ
  pub domain_events : List DomainEvent
  pub version : ℕ

unfoldable pub new_root : ℕ → AggregateRoot
new_root id = record { id = id; domain_events = []; version = 0 }

-- `raise` pushes to the end of the buffer.
unfoldable pub raise : DomainEvent → AggregateRoot → AggregateRoot
raise e r = record r { domain_events = r.domain_events ++ e ∷ [] }

-- `pullEvents` empties the buffer and returns what it held.
unfoldable pub pull_events : AggregateRoot → List DomainEvent × AggregateRoot
pull_events r = (r.domain_events, record r { domain_events = [] })

unfoldable pub set_version_from_persistence : ℕ → AggregateRoot → AggregateRoot
set_version_from_persistence v r = record r { version = v }
