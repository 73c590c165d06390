-- ===== src/Outbox/Schema/Reading.antt =====
-- src/core/outbox/outbox-event-schema.ts: reading what was written, and what reading checks.
use tri_ad_backend.Base.{
  ℕ, zero, suc, ◌<◌, ◌≤◌, ◌≡◌, refl, true, Option, none, some, List, [], ◌∷◌, arith, inl, inr, All,
  Option-cases, equal_self,
}
use tri_ad_backend.Base.Int.{pos}
use tri_ad_backend.Shared.Number.{integer, max_safe, positive_safe, nonneg_safe}
use tri_ad_backend.Outbox.Json.{
  Value, undefined, null, not_finite, boolean, number, string, date, array, object, Other, version,
  source_version, metadata, own, other, Dates, IsDates, json,
}
use tri_ad_backend.Outbox.Schema.{
  DomainEvent, Serialized, Identity, Columns, optional_positive, is_version, filled_string,
  string_or_date, is_optional_record, parsed, safe_parse, checked, date_of,
  deserialize_outbox_event, with_version, field_of, payload_of, persist_events,
}

-- An event that the schema accepts: it has a name, an aggregate and a time that a date can have,
-- versions that are safe integers of at least 0, if any, and metadata that is an object, if any.
pub record IsSendable (e : DomainEvent) : Type 0 where
  pub named : 0 < e.event_name
  pub has_aggregate : 0 < e.aggregate_id
  pub dated : e.occurred_at ≤ 8_640_000_000_000_000
  pub has_version : is_version (e.others version) ≡ true
  pub has_source_version : is_version (e.others source_version) ≡ true
  pub has_metadata : is_optional_record (e.others metadata) ≡ true

-- A map of versions.
abbrev pub AreVersions : (ℕ → Option ℕ) → Type 0
AreVersions v = (a n : ℕ) → v a ≡ some n → n ≤ max_safe

-- A value of an event that is read, by the version that the map has for its aggregate: the source
-- version is that one or the event's own, and the others are the event's own, as JSON has them.
abbrev pub read_field : Dates → Option ℕ → (Other → Value) → Other → Value
read_field dates none o k = json dates (o k)
read_field dates (some n) o source_version = number (integer (pos n))
read_field dates (some n) o version = json dates (o version)
read_field dates (some n) o metadata = json dates (o metadata)
read_field dates (some n) o (own k) = json dates (o (own k))

-- What is read from the row of an event.
pub record IsRead (dates : Dates) (v : ℕ → Option ℕ) (e : DomainEvent) (c : Columns) : Type 0 where
  pub event : DomainEvent
  pub read :
      deserialize_outbox_event dates c.payload
        (record { event_name = c.event_name; aggregate_id = c.aggregate_id })
      ≡ inr event
  pub same_name : event.event_name ≡ e.event_name
  pub same_aggregate : event.aggregate_id ≡ e.aggregate_id
  pub same_time : event.occurred_at ≡ e.occurred_at
  pub others : (k : Other) → event.others k ≡ read_field dates (v e.aggregate_id) e.others k

-- Rows that were written for some events, one for each in their order, and are read as these.
pub AreRead : Dates → (ℕ → Option ℕ) → List DomainEvent → List Columns → Type 0
AreRead dates v [] [] = Unit
AreRead dates v (e ∷ es) (c ∷ cs) = IsRead dates v e c × AreRead dates v es cs
AreRead dates v _ _ = ⊥

json-is_version :
    (dates : Dates) (x : Value) → is_version x ≡ true → is_version (json dates x) ≡ true
unfolding is_version json
json-is_version dates undefined h = h
json-is_version dates null h = cc
json-is_version dates not_finite h = cc
json-is_version dates (boolean b) h = cc
json-is_version dates (number n) h = h
json-is_version dates (string s) h = cc
json-is_version dates (date t) h = cc
json-is_version dates (array n f) h = cc
json-is_version dates (object f) h = cc

json-is_optional_record :
    (dates : Dates) (x : Value)
    → is_optional_record x ≡ true
    → is_optional_record (json dates x) ≡ true
unfolding is_optional_record json
json-is_optional_record dates undefined h = h
json-is_optional_record dates null h = cc
json-is_optional_record dates not_finite h = cc
json-is_optional_record dates (boolean b) h = cc
json-is_optional_record dates (number n) h = cc
json-is_optional_record dates (string s) h = cc
json-is_optional_record dates (date t) h = cc
json-is_optional_record dates (array n f) h = cc
json-is_optional_record dates (object f) h = refl

with_version-is_version :
    (o : Option ℕ) (f : Other → Value)
    → ((n : ℕ) → o ≡ some n → n ≤ max_safe)
    → is_version (f source_version) ≡ true
    → is_version (with_version o f source_version) ≡ true
unfolding with_version is_version nonneg_safe
with_version-is_version none f b h = h
with_version-is_version (some n) f b h = let le = b n refl in ground arith

with_version-others :
    (o : Option ℕ) (f : Other → Value)
    → (with_version o f version ≡ f version) × (with_version o f metadata ≡ f metadata)
unfolding with_version
with_version-others none f = (refl, refl)
with_version-others (some n) f = (refl, refl)

filled : (n : ℕ) → 0 < n → filled_string (string n) ≡ some n
unfolding filled_string
filled zero h = absurd (omega arith)
filled (suc n) h = refl

timed : (n : ℕ) → 0 < n → string_or_date (string n) ≡ some (inl n)
unfolding string_or_date
timed zero h = absurd (omega arith)
timed (suc n) h = refl

json-read_field :
    (dates : Dates) (v : Option ℕ) (o : Other → Value) (k : Other)
    → json dates (with_version v o k) ≡ read_field dates v o k
unfolding with_version json
json-read_field dates none o k = refl
json-read_field dates (some n) o version = refl
json-read_field dates (some n) o source_version = refl
json-read_field dates (some n) o metadata = refl
json-read_field dates (some n) o (own k) = refl

module _ (dates : Dates) (promise : IsDates dates) (v : ℕ → Option ℕ)
    (bounded : AreVersions v) where
  -- What the schema makes of the payload of an event.
  abbrev serialized : DomainEvent → Serialized
  serialized e = record {
    schema_version = some 1;
    event_name = e.event_name;
    aggregate_id = e.aggregate_id;
    occurred_at = inl (dates.to_iso e.occurred_at);
    others = λ k. json dates (field_of v e (other k));
  }

  safe_parse-payload :
      (e : DomainEvent)
      → IsSendable e
      → safe_parse (json dates (payload_of v e)) ≡ some (serialized e)
  unfolding safe_parse payload_of json field_of parsed optional_positive positive_safe
  safe_parse-payload e s =
      let o = v e.aggregate_id in
      let (is_v, is_m) = with_version-others o e.others in
      let ver : is_version (json dates (with_version o e.others version)) ≡ true =
        rw is_v (json-is_version dates (e.others version) s.has_version) in
      let src : is_version (json dates (with_version o e.others source_version)) ≡ true =
        json-is_version dates (with_version o e.others source_version)
          (with_version-is_version o e.others (bounded e.aggregate_id) s.has_source_version) in
      let meta : is_optional_record (json dates (with_version o e.others metadata)) ≡ true =
        rw is_m (json-is_optional_record dates (e.others metadata) s.has_metadata) in
      rw
        (
          filled e.event_name s.named,
          filled e.aggregate_id s.has_aggregate,
          timed (dates.to_iso e.occurred_at) (promise e.occurred_at s.dated).0,
          ver,
          src,
          meta,
        )
        refl

  checked-serialized :
      (e : DomainEvent)
      → IsSendable e
      → checked dates
          (record { event_name = e.event_name; aggregate_id = e.aggregate_id })
          (some (serialized e))
        ≡ inr (record {
          event_name = e.event_name;
          aggregate_id = e.aggregate_id;
          occurred_at = e.occurred_at;
          others = λ k. json dates (field_of v e (other k));
        })
  unfolding checked
  checked-serialized e s =
      rw (equal_self e.event_name, equal_self e.aggregate_id, (promise e.occurred_at s.dated).1)
        refl

  event-IsRead :
      (e : DomainEvent)
      → IsSendable e
      → IsRead dates v e (record {
        event_name = e.event_name;
        aggregate_id = e.aggregate_id;
        payload = json dates (payload_of v e);
        occurred_at = e.occurred_at;
      })
  unfolding deserialize_outbox_event field_of
  event-IsRead e s = record {
    event = record {
      event_name = e.event_name;
      aggregate_id = e.aggregate_id;
      occurred_at = e.occurred_at;
      others = λ k. json dates (field_of v e (other k));
    };
    read = rw (safe_parse-payload e s) (checked-serialized e s);
    same_name = refl;
    same_aggregate = refl;
    same_time = refl;
    others = json-read_field dates (v e.aggregate_id) e.others;
  }

  -- Events that the schema accepts, written to rows by `persistEvents` and stored as JSON, are read
  -- from them one by one in their order, each with its name, its aggregate and its time, which was
  -- stored as a text, and with its other keys as JSON has them, but for the source version, which is
  -- that of the map where it has one. Dates are as ECMAScript has them, and the versions of the map
  -- are safe integers.
  pub read-persist_events :
      (es : List DomainEvent) → All IsSendable es → AreRead dates v es (persist_events dates v es)
  unfolding persist_events AreRead
  read-persist_events [] s = tt
  read-persist_events (e ∷ es) s = (event-IsRead e s.0, read-persist_events es s.1)

-- What is read has the name and the aggregate that were expected.
pub deserialize_outbox_event-name :
    (dates : Dates) (p : Value) (i : Identity) (e : DomainEvent)
    → deserialize_outbox_event dates p i ≡ inr e
    → (e.event_name ≡ i.event_name) × (e.aggregate_id ≡ i.aggregate_id)
unfolding deserialize_outbox_event checked
deserialize_outbox_event-name dates p i e h = elim (Option-cases (safe_parse p)) [
  | inl x ↦ absurd (ground arith)
  | inr (s, x) ↦ elim (Option-cases (date_of dates s.occurred_at)) [
    | inl y ↦ absurd (ground arith)
    | inr (t, y) ↦ (ground arith, ground arith)
  ]
]
