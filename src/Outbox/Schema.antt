-- ===== src/Outbox/Schema.antt =====
-- src/core/outbox/outbox-event-schema.ts and src/core/outbox/persist-domain-events.ts: how an event
-- is written to a row of the outbox and read from it. Names and ids are numbers, the empty string
-- being 0. A failure of the database while it writes is left out.
pub mod Reading
use tri_ad_backend.Base.{
  ℕ, zero, suc, Bool, true, false, not, ◌&&◌, Option, none, some, List, [], ◌∷◌, ◌==◌,
  if◌then◌else◌, ◌⊎◌, inl, inr,
}
use tri_ad_backend.Base.Int.{pos}
use tri_ad_backend.Shared.Number.{Number, integer, positive_safe, nonneg_safe}
use tri_ad_backend.Outbox.Json.{
  Value, undefined, number, string, date, object, Key, schema_version, event_name, aggregate_id,
  occurred_at, other, Other, version, source_version, metadata, Dates, json,
}

-- `DomainEvent`, with the values of its other keys.
pub record DomainEvent : Type 0 where
  pub event_name : ℕ
  pub aggregate_id : ℕ
  pub occurred_at : ℕ
  pub others : Other → Value

-- What the schema gives of a payload; the time is a text or that of a date.
pub record Serialized : Type 0 where
  pub schema_version : Option ℕ
  pub event_name : ℕ
  pub aggregate_id : ℕ
  pub occurred_at : ℕ ⊎ ℕ
  pub others : Other → Value

-- The event's name and aggregate as the row has them.
pub record Identity : Type 0 where
  pub event_name : ℕ
  pub aggregate_id : ℕ

-- `InvalidOutboxEventError`, by its message.
pub data InvalidEvent : Type 0 where
  invalid_payload event_name_mismatch aggregate_id_mismatch invalid_occurred_at : InvalidEvent
  unsupported_version : ℕ → InvalidEvent

abbrev pub current_schema_version : ℕ
current_schema_version = 1

abbrev pub given : Option ℕ → Option (Option ℕ)
given none = none
given (some n) = some (some n)

-- `z.number().int().positive().optional()`
pub optional_positive : Value → Option (Option ℕ)
optional_positive undefined = some none
optional_positive (number n) = given (positive_safe n)
optional_positive _ = none

abbrev pub is_some : Option ℕ → Bool
is_some none = false
is_some (some n) = true

-- `z.number().int().nonnegative().optional()`
unfoldable pub is_version : Value → Bool
is_version undefined = true
is_version (number n) = is_some (nonneg_safe n)
is_version _ = false

-- `z.string().min(1)`
pub filled_string : Value → Option ℕ
filled_string (string (suc s)) = some (suc s)
filled_string _ = none

-- `z.union([z.string().min(1), z.date()])`
pub string_or_date : Value → Option (ℕ ⊎ ℕ)
string_or_date (string (suc s)) = some (inl (suc s))
string_or_date (date (some t)) = some (inr t)
string_or_date _ = none

-- `z.record(z.string(), z.unknown()).optional()`
unfoldable pub is_optional_record : Value → Bool
is_optional_record undefined = true
is_optional_record (object f) = true
is_optional_record _ = false

-- The checks of the schema's keys.
pub parsed :
    Option (Option ℕ)
    → Option ℕ
    → Option ℕ
    → Option (ℕ ⊎ ℕ)
    → Bool
    → (Other → Value)
    → Option Serialized
parsed (some v) (some n) (some a) (some t) true o =
    some
      (record { schema_version = v; event_name = n; aggregate_id = a; occurred_at = t; others = o })
parsed _ _ _ _ _ o = none

-- `serializedDomainEventSchema.safeParse`
unfoldable pub safe_parse : Value → Option Serialized
safe_parse (object f) =
    parsed (optional_positive (f schema_version)) (filled_string (f event_name))
      (filled_string (f aggregate_id)) (string_or_date (f occurred_at))
      (is_version (f (other version))
        && is_version (f (other source_version))
        && is_optional_record (f (other metadata)))
      (λ k. f (other k))
safe_parse _ = none

abbrev pub version_or_current : Option ℕ → ℕ
version_or_current none = current_schema_version
version_or_current (some n) = n

abbrev pub with_date : Serialized → Option ℕ → InvalidEvent ⊎ DomainEvent
with_date p none = inl invalid_occurred_at
with_date p (some t) = inr (record {
  event_name = p.event_name;
  aggregate_id = p.aggregate_id;
  occurred_at = t;
  others = p.others;
})

module _ (dates : Dates) where
  -- The date of `occurredAt`.
  abbrev pub date_of : ℕ ⊎ ℕ → Option ℕ
  date_of (inl s) = dates.parse s
  date_of (inr t) = some t

  unfoldable pub checked : Identity → Option Serialized → InvalidEvent ⊎ DomainEvent
  checked expected none = inl invalid_payload
  checked expected (some p) =
      if not (version_or_current p.schema_version == current_schema_version)
      then inl (unsupported_version (version_or_current p.schema_version))
      else if not (p.event_name == expected.event_name)
      then inl event_name_mismatch
      else if not (p.aggregate_id == expected.aggregate_id)
      then inl aggregate_id_mismatch
      else with_date p (date_of p.occurred_at)

  -- `deserializeOutboxEvent`
  unfoldable pub deserialize_outbox_event : Value → Identity → InvalidEvent ⊎ DomainEvent
  deserialize_outbox_event payload expected = checked expected (safe_parse payload)

-- The other keys, with the source version that a map has for the aggregate.
unfoldable pub with_version : Option ℕ → (Other → Value) → Other → Value
with_version (some n) o source_version = number (integer (pos n))
with_version _ o k = o k

-- The keys of the payload that `persistEvents` writes, for an event that has no schema version of
-- its own.
pub field_of : (ℕ → Option ℕ) → DomainEvent → Key → Value
field_of source_versions e schema_version = number (integer (pos current_schema_version))
field_of source_versions e event_name = string e.event_name
field_of source_versions e aggregate_id = string e.aggregate_id
field_of source_versions e occurred_at = date (some e.occurred_at)
field_of source_versions e (other k) = with_version (source_versions e.aggregate_id) e.others k

pub payload_of : (ℕ → Option ℕ) → DomainEvent → Value
payload_of source_versions e = object (field_of source_versions e)

-- The columns of a row that `persistEvents` writes.
pub record Columns : Type 0 where
  pub event_name : ℕ
  pub aggregate_id : ℕ
  pub payload : Value
  pub occurred_at : ℕ

pub persist_events : Dates → (ℕ → Option ℕ) → List DomainEvent → List Columns
persist_events dates source_versions [] = []
persist_events dates source_versions (e ∷ es) =
    record {
      event_name = e.event_name;
      aggregate_id = e.aggregate_id;
      payload = json dates (payload_of source_versions e);
      occurred_at = e.occurred_at;
    }
    ∷ persist_events dates source_versions es
