-- ===== src/Outbox/Projections.antt =====
-- src/core/outbox/projection-writer.ts: writing a snapshot with a version to the projection of order
-- histories, a table whose only unique index is its key, the order. What a row holds besides its
-- key and its version is any type. The writer of the product catalog, whose table has a second
-- unique index, the slug, is left out.
pub mod Versions
pub mod Order
pub mod Writes
mod Tests
use tri_ad_backend.Base.{
  ℕ, Bool, true, false, ◌&&◌, ◌||◌, Option, none, some, List, [], ◌∷◌, ◌++◌, map, ◌==◌, ltb, leb,
  if◌then◌else◌,
}
use tri_ad_backend.Shared.Number.{Number, nonneg_safe}

pub record Row (A : Type 0) : Type 0 where
  pub key : ℕ
  pub source_version : ℕ
  pub columns : A

-- The argument of the writer.
pub record Snapshot (A : Type 0) : Type 0 where
  pub key : ℕ
  pub source_version : Option Number
  pub columns : A

-- An error of the writer, by its message; `unique_violation` is Prisma's P2002.
pub data WriteError : Type 0 where
  version_required version_invalid unique_violation : WriteError

pub data Outcome : Type 0 where
  returned : Outcome
  threw : WriteError → Outcome

abbrev pub checked : Option ℕ → Option ℕ × WriteError
checked o = (o, version_invalid)

-- `requireSourceVersion`
abbrev pub require_source_version : Option Number → Option ℕ × WriteError
require_source_version none = (none, version_required)
require_source_version (some n) = checked (nonneg_safe n)

module _ {A : Type 0} where
  unfoldable pub get : ℕ → List (Row A) → Option (Row A)
  get k [] = none
  get k (r ∷ rs) = if r.key == k then some r else get k rs

  -- The condition of `updateMany`.
  abbrev pub is_older : ℕ → ℕ → Row A → Bool
  is_older k v r = r.key == k && ltb r.source_version v

  pub any_older : ℕ → ℕ → List (Row A) → Bool
  any_older k v [] = false
  any_older k v (r ∷ rs) = if is_older k v r then true else any_older k v rs

  unfoldable pub update_row : ℕ → ℕ → A → Row A → Row A
  update_row k v a r = if is_older k v r then record r { source_version = v; columns = a } else r

  -- `updateMany`: whether it updated a row, and the table.
  abbrev pub update_many : ℕ → ℕ → A → List (Row A) → Bool × List (Row A)
  update_many k v a rs = (any_older k v rs, map (update_row k v a) rs)

  -- Behind a creation that failed and an update that found nothing: the row that is there.
  abbrev pub settled : ℕ → Option (Row A) → Outcome
  settled v none = threw unique_violation
  settled v (some r) = if leb v r.source_version then returned else threw unique_violation

  -- The `catch`: a second update, with what others do to the table before it and after it.
  pub retry_update :
      (ℕ → List (Row A) → List (Row A)) → ℕ → ℕ → A → List (Row A) → Outcome × List (Row A)
  retry_update others k v a rs =
      let (updated, rs') = update_many k v a (others 1 rs) in
      if updated then (returned, rs') else (settled v (get k (others 2 rs')), others 2 rs')

  abbrev pub created :
      (ℕ → List (Row A) → List (Row A))
      → ℕ
      → ℕ
      → A
      → List (Row A)
      → Option (Row A)
      → Outcome × List (Row A)
  created others k v a rs none =
      (returned, record { key = k; source_version = v; columns = a } ∷ rs)
  created others k v a rs (some r) = retry_update others k v a rs

  pub write_version :
      (ℕ → List (Row A) → List (Row A)) → ℕ → ℕ → A → List (Row A) → Outcome × List (Row A)
  write_version others k v a rs =
      let (updated, rs') = update_many k v a rs in
      if updated
      then (returned, rs')
      else created others k v a (others 0 rs') (get k (others 0 rs'))

  abbrev pub write_checked :
      (ℕ → List (Row A) → List (Row A))
      → Snapshot A
      → List (Row A)
      → Option ℕ × WriteError
      → Outcome × List (Row A)
  write_checked others d rs (none, e) = (threw e, rs)
  write_checked others d rs (some v, e) = write_version others d.key v d.columns rs

  -- `writeOrderHistoryProjection`, with what others do to the table between its requests.
  pub write_projection :
      (ℕ → List (Row A) → List (Row A)) → Snapshot A → List (Row A) → Outcome × List (Row A)
  write_projection others d rs = write_checked others d rs (require_source_version d.source_version)
