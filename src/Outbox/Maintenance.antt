-- ===== src/Outbox/Maintenance.antt =====
-- src/core/outbox/outbox-maintenance.service.ts and prisma-outbox-maintenance.store.ts: the replay of
-- dead letters. The ids that a replay is given are texts; a row of the table has a number, and
-- `text_of` gives the text of its id. The events that a replay returns are given by their ids, in
-- the table's order. The cleanup of published rows is left out.
pub mod Selection
pub mod Replay
use tri_ad_backend.Base.{
  ℕ, zero, suc, Bool, true, false, not, ◌&&◌, Option, none, some, List, [], ◌∷◌, map, ◌==◌,
  if◌then◌else◌, length,
}
use tri_ad_backend.Shared.Text.{Text, trim, same_text}
use tri_ad_backend.Outbox.Table.{Row, Action, act}

-- An error of the service, by its message.
pub data ReplayError : Type 0 where
  no_ids selection_changed : ReplayError
  not_dead_lettered : List Text → ReplayError

-- What `replayDeadLetters` returns.
pub record Replayed : Type 0 where
  pub events : List Text
  pub replayed_ids : List Text

pub data Outcome : Type 0 where
  returned : Replayed → Outcome
  threw : ReplayError → Outcome

-- `Set.has`
pub has_text : Text → List Text → Bool
has_text t [] = false
has_text t (s ∷ ss) = if same_text s t then true else has_text t ss

unfoldable pub without_text : Text → List Text → List Text
without_text t [] = []
without_text t (s ∷ ss) = if same_text s t then without_text t ss else s ∷ without_text t ss

-- The elements of a set, in the order in which they were first put in.
unfoldable pub set_of : List Text → List Text
set_of [] = []
set_of (t ∷ ts) = t ∷ without_text t (set_of ts)

-- `filter((id) => id.length > 0)`, for one id.
unfoldable pub if_filled : Text → List Text → List Text
if_filled [] ts = ts
if_filled (c ∷ t) ts = (c ∷ t) ∷ ts

-- The ids trimmed, without those that are empty then.
unfoldable pub trimmed : List Text → List Text
trimmed [] = []
trimmed (i ∷ is) = if_filled (trim i) (trimmed is)

unfoldable pub normalize_ids : List Text → List Text
normalize_ids ids = set_of (trimmed ids)

abbrev pub is_dead_letter : Row → Bool
is_dead_letter r = not r.published && r.dead

-- The data of the update of `requeueDeadLetters`.
abbrev pub requeued : Row → Row
requeued r = record r { attempts = 0; dead = false; lock_owner = none; lease_until = none }

pub ineligible : List Text → List Text → List Text
ineligible [] eligible = []
ineligible (i ∷ is) eligible =
    if has_text i eligible then ineligible is eligible else i ∷ ineligible is eligible

pub checked_count : List Text → List Text → List Text → Outcome
checked_count unique events replayed =
    if length replayed == length unique
    then returned (record { events = events; replayed_ids = replayed })
    else threw selection_changed

module _ (text_of : ℕ → Text) where
  -- The ids of the rows that `findDeadLettersByIds` finds, and that `requeueDeadLetters` locks.
  pub find_dead_letters : List Text → List Row → List Text
  find_dead_letters ids [] = []
  find_dead_letters ids (r ∷ rs) =
      if has_text (text_of r.id) ids && is_dead_letter r
      then text_of r.id ∷ find_dead_letters ids rs
      else find_dead_letters ids rs

  pub requeue_row : List Text → Row → Row
  requeue_row ids r = if has_text (text_of r.id) ids && is_dead_letter r then requeued r else r

  -- `requeueDeadLetters`, one transaction, in which the rows that are updated are those locked.
  pub requeue_dead_letters : List Text → List Row → List Text × List Row
  requeue_dead_letters ids rows =
      if length (find_dead_letters ids rows) == length ids
      then (ids, map (requeue_row ids) rows)
      else ([], rows)

  abbrev pub replay_eligible :
      List Action → List Text → List Text → List Text → List Row → Outcome × List Row
  replay_eligible others unique events [] rows =
      let (replayed, rows') = requeue_dead_letters unique (act others rows) in
      (checked_count unique events replayed, rows')
  replay_eligible others unique events (i ∷ is) rows = (threw (not_dead_lettered (i ∷ is)), rows)

  abbrev pub replay_unique : List Action → List Text → List Row → Outcome × List Row
  replay_unique others [] rows = (threw no_ids, rows)
  replay_unique others (i ∷ is) rows =
      let events = find_dead_letters (i ∷ is) rows in
      replay_eligible others (i ∷ is) events (ineligible (i ∷ is) events) rows

  -- `replayDeadLetters`, with what relays ask of the store between its two requests.
  pub replay_dead_letters : List Action → List Text → List Row → Outcome × List Row
  replay_dead_letters others ids rows = replay_unique others (normalize_ids ids) rows
