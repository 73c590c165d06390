-- ===== src/Outbox/Json.antt =====
-- JavaScript values as JSON and the outbox have them, for src/core/outbox/outbox-event-schema.ts and
-- persist-domain-events.ts. Texts are numbers, the empty one being 0. An object is a function from
-- its keys, `undefined` where it has none, so that the order of its keys, which a `jsonb` column
-- does not keep, is not seen.
use tri_ad_backend.Base.{ℕ, ◌≤◌, ◌<◌, ◌≡◌, Bool, Option, none, some}
use tri_ad_backend.Shared.Number.{Number}

-- The keys of events besides those that all have.
pub data Other : Type 0 where
  version source_version metadata : Other
  own : ℕ → Other

pub data Key : Type 0 where
  schema_version event_name aggregate_id occurred_at : Key
  other : Other → Key

-- A value: `number` is a finite number, `not_finite` another one; a date is its time in
-- milliseconds, if it is valid; an array is its length and its elements.
pub data Value : Type 0 where
  undefined null not_finite : Value
  boolean : Bool → Value
  number : Number → Value
  string : ℕ → Value
  date : Option ℕ → Value
  array : ℕ → (ℕ → Value) → Value
  object : (Key → Value) → Value

-- What the JavaScript engine supplies of dates: `toISOString`, and `new Date(text)`, `none` being
-- an invalid date.
pub record Dates : Type 0 where
  pub to_iso : ℕ → ℕ
  pub parse : ℕ → Option ℕ

-- What ECMAScript says of the two: the text of a time, up to the last one that a date can have, is
-- not empty, and is parsed as that time.
abbrev pub IsDates : Dates → Type 0
IsDates dates =
    (t : ℕ)
    → t ≤ 8_640_000_000_000_000
    → (0 < dates.to_iso t) × (dates.parse (dates.to_iso t) ≡ some t)

-- An element of an array in JSON.
abbrev pub or_null : Value → Value
or_null undefined = null
or_null x = x

module _ (dates : Dates) where
  abbrev pub json_date : Option ℕ → Value
  json_date none = null
  json_date (some t) = string (dates.to_iso t)

  -- The value that JSON keeps of a value: what is written and read back. A key whose value is
  -- `undefined` is dropped.
  unfoldable pub json : Value → Value
  json undefined = undefined
  json null = null
  json not_finite = null
  json (boolean b) = boolean b
  json (number n) = number n
  json (string s) = string s
  json (date t) = json_date t
  json (array n f) = array n (λ i. or_null (json (f i)))
  json (object f) = object (λ k. json (f k))
