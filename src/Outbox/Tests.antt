-- ===== src/Outbox/Tests.antt =====
-- The outbox on small inputs.
use tri_ad_backend.Base.{
  zero, suc, ◌≤◌, ℕ, ◌≡◌, refl, true, false, Option, none, some, List, [], ◌∷◌, All, ◌+◌, length,
  ◌==◌, arith,
}
use tri_ad_backend.Outbox.Bus
use tri_ad_backend.Outbox.Bus.{Subscription, handlers_of, has_succeeded, publish, subscribe, Track}
use tri_ad_backend.Outbox.Bus.Tracked.{Continues}
use tri_ad_backend.Outbox.Bus.Tries.{Tries}
use tri_ad_backend.Outbox.Bus.Delivery.{publish-delivers}
use mathlib.Core.Path.{subst}
use tri_ad_backend.Base.Int.{pos}
use tri_ad_backend.Shared.Number.{integer, max_safe, nonneg_safe}
use tri_ad_backend.Outbox.Json.{
  Dates, IsDates, json, version, source_version, metadata, own, undefined, null, number, date,
}
use tri_ad_backend.Outbox.Schema.{
  DomainEvent, persist_events, payload_of, is_version, is_optional_record,
}
use tri_ad_backend.Outbox.Schema.Reading.{IsSendable, AreVersions, AreRead, read-persist_events}
use tri_ad_backend.Outbox.Table.{
  Row, get, to_published, updated, claim, update, renew, Action, act, update_claimed, candidates,
  is_held, is_claimable, claimable, sort, insert, limit,
}
use tri_ad_backend.Outbox.Table.Rows.{IsKeyed}
use tri_ad_backend.Outbox.Table.Choice.{IsChoice, candidates-IsChoice}
use tri_ad_backend.Outbox.Table.Leases.{act-final, act-leased}
use tri_ad_backend.Outbox.Relay.{
  World, Environment, attempted, poll_once, publish_event, publish_read,
}
use tri_ad_backend.Outbox.Relay.Marked.{IsSound, poll_once-IsSound}
use tri_ad_backend.Outbox.Relay.Retiring.{poll_all, HasFailed, AreApart, poll_all-retires}
use tri_ad_backend.Outbox.Maintenance.{
  replay_dead_letters, normalize_ids, trimmed, if_filled, set_of, without_text,
}
use tri_ad_backend.Shared.Text.{Text, same_text, trim, trim_start, is_space}
use tri_ad_backend.Outbox.Maintenance.Replay.{IsTold, replay_dead_letters-IsTold}

-- Handlers 1 and 2 of event 7, and handler 3 of event 8; handler 1 has succeeded for event 5.
abbrev subscriptions : List Subscription
subscriptions =
    record { event_name = 7; handler = 1 }
    ∷ record { event_name = 8; handler = 3 }
    ∷ record { event_name = 7; handler = 2 }
    ∷ []

abbrev handlers : Bus.Environment
handlers = record {
  returns = λ calls e h. true;
  lookup_throws = λ calls h. false;
  record_throws = λ calls h. false;
}

abbrev half_done : Bus.World
half_done = record {
  tracks = record { event_id = 5; handler = 1; success = true } ∷ [];
  calls = [];
}

-- Only the handler that has not succeeded is called.
publish_calls :
    (publish handlers subscriptions 7 5 half_done).1.calls
    ≡ record { event_id = 5; handler = 2; returned = true } ∷ []
unfolding publish handlers_of Bus.run_handlers Bus.run_handler has_succeeded Bus.after_call
    Bus.record_result
publish_calls = refl

publish-delivers_example :
    ((publish handlers subscriptions 7 5 half_done).0.0 ≡ true
      → All
          (λ h. has_succeeded 5 h (publish handlers subscriptions 7 5 half_done).1.tracks ≡ true)
          (handlers_of 7 subscriptions))
    × Continues 5 half_done (publish handlers subscriptions 7 5 half_done).1
    × Tries handlers 5
        (handlers_of 7 subscriptions)
        half_done
        (publish handlers subscriptions 7 5 half_done).1
publish-delivers_example = publish-delivers handlers subscriptions 7 5 half_done

-- A time's text is its successor.
abbrev dates : Dates
dates = record { to_iso = λ t. suc t; parse = λ s. elim s [ zero ↦ none | suc t ↦ some t ] }

dates-IsDates : IsDates dates
dates-IsDates t h = (omega arith, refl)

-- An event with a version and a date among its own keys.
abbrev event : DomainEvent
event = record {
  event_name = 7;
  aggregate_id = 9;
  occurred_at = 1_000;
  others = λ k. elim k [
    | version ↦ number (integer (pos 2))
    | source_version ↦ undefined
    | metadata ↦ undefined
    | own n ↦ date (some n)
  ];
}

event-IsSendable : IsSendable event
unfolding is_version is_optional_record nonneg_safe
event-IsSendable = record {
  named = omega arith;
  has_aggregate = omega arith;
  dated = omega arith;
  has_version = refl;
  has_source_version = refl;
  has_metadata = refl;
}

abbrev versions : ℕ → Option ℕ
versions a = some 4

versions-AreVersions : AreVersions versions
versions-AreVersions a n h = let same : 4 ≡ n = cc h in subst (λ m. m ≤ max_safe) same (omega arith)

read-persist_events_example :
    AreRead dates versions (event ∷ event ∷ []) (persist_events dates versions (event ∷ event ∷ []))
read-persist_events_example =
    read-persist_events dates dates-IsDates versions versions-AreVersions (event ∷ event ∷ [])
      (event-IsSendable, (event-IsSendable, tt))

-- A row that a relay holds until 60 seconds, one that is dead-lettered, and one that is open.
abbrev held : Row
held = record {
  id = 5;
  event_name = 7;
  aggregate_id = 9;
  payload = json dates (payload_of versions event);
  attempts = 2;
  published = false;
  dead = false;
  lock_owner = some 100;
  lease_until = some 60_000;
  occurred_at = 1_000;
}

abbrev dead_row : Row
dead_row = record held { id = 6; attempts = 10; dead = true; lock_owner = none; lease_until = none }

abbrev open_row : Row
open_row = record held {
  id = 8;
  attempts = 0;
  lock_owner = none;
  lease_until = none;
  payload = null;
}

abbrev rows : List Row
rows = held ∷ dead_row ∷ open_row ∷ []

-- Another relay claims what it can, and tries to update the row that is held.
abbrev others : List Action
others =
    record { owner = 200; now = 30_000; request = claim (λ i. false) 50 10 60_000 }
    ∷ record { owner = 200; now = 31_000; request = update 5 10 to_published }
    ∷ record { owner = 200; now = 32_000; request = renew (5 ∷ 8 ∷ []) 60_000 }
    ∷ []

keyed : IsKeyed rows
unfolding IsKeyed
keyed = (
  ((λ x. omega (arith, x)), ((λ x. omega (arith, x)), tt)),
  (((λ x. omega (arith, x)), tt), (tt, tt)),
)

act-final_example : get 6 (act others rows) ≡ some dead_row
unfolding get
act-final_example = act-final others rows 6 dead_row keyed refl refl

act-leased_example :
    ((update_claimed 5 100 10 40_000 to_published (act others rows)).0 ≡ true)
    × (get 5 (update_claimed 5 100 10 40_000 to_published (act others rows)).1
        ≡ some (updated 10 40_000 to_published held))
unfolding get is_held
act-leased_example =
    act-leased others rows 5 100 60_000 40_000 10 held to_published keyed refl refl refl (
      ((λ x. omega (arith, x)), omega arith),
      (((λ x. omega (arith, x)), omega arith), (((λ x. omega (arith, x)), omega arith), tt)),
    )

-- A relay among them, whose handlers return.
abbrev relay : Environment
relay = record {
  owner = 100;
  dates = dates;
  subscriptions = subscriptions;
  handlers = handlers;
  now = λ log. 70_000 + length log;
  throws = λ log. false;
  others = λ log. others;
  locked = λ log i. i == 6;
  beats = λ log. true;
  retry = λ n f b. attempted f n b;
}

abbrev before : World
before = record { table = rows; bus = half_done; active = []; running = false; log = [] }

poll_once-IsSound_example : IsSound relay (λ i. 7) (poll_once relay before)
poll_once-IsSound_example =
    poll_once-IsSound relay (λ i. 7) before (λ n f b. refl) ((refl, (refl, (refl, tt))), tt)

-- The row whose payload cannot be read, on its own, with two attempts left.
abbrev poison : Row
poison = record open_row { attempts = 8 }

abbrev alone_with_it : World
alone_with_it = record before { table = poison ∷ [] }

poll_all-retires_example :
    (r' : Row) × ((poll_all relay (1_000 ∷ 70_000 ∷ []) alone_with_it).table ≡ r' ∷ [])
    × HasFailed poison 2 r'
unfolding AreApart is_claimable attempted publish_event publish_read
    tri_ad_backend.Outbox.Schema.deserialize_outbox_event tri_ad_backend.Outbox.Schema.checked
    tri_ad_backend.Outbox.Schema.safe_parse
poll_all-retires_example =
    poll_all-retires relay 1_000 (70_000 ∷ []) poison alone_with_it (λ b. refl) refl refl refl
      (omega arith, tt) (omega arith)

-- A row's id as a text.
abbrev text_of : ℕ → Text
text_of i = i ∷ []

-- The id of row 6, a blank one, and that of row 6 again, with white space.
abbrev given_ids : List Text
given_ids = (6 ∷ []) ∷ (32 ∷ []) ∷ (32 ∷ 6 ∷ 9 ∷ []) ∷ []

-- Row 6 is replayed while relays work.
replay_dead_letters-IsTold_example :
    IsTold text_of others given_ids rows (replay_dead_letters text_of others given_ids rows)
replay_dead_letters-IsTold_example = replay_dead_letters-IsTold text_of others given_ids rows keyed

replays_once : normalize_ids given_ids ≡ (6 ∷ []) ∷ []
unfolding normalize_ids trimmed if_filled set_of without_text same_text trim trim_start is_space
replays_once = refl

-- A claim of one row, of two that could be claimed.
abbrev late_row : Row
late_row = record open_row { id = 9; occurred_at = 2_000 }

abbrev two_open : List Row
two_open = late_row ∷ open_row ∷ []

two_open-IsKeyed : IsKeyed two_open
unfolding IsKeyed
two_open-IsKeyed = ((λ e. omega (arith, e), tt), (tt, tt))

candidates-IsChoice_example :
    IsChoice (λ i. false) 1 10 5 two_open (candidates (λ i. false) 1 10 5 two_open)
candidates-IsChoice_example = candidates-IsChoice (λ i. false) 1 10 5 two_open two_open-IsKeyed

-- The batch is full with the earlier row.
one_chosen : candidates (λ i. false) 1 10 5 two_open ≡ open_row ∷ []
unfolding candidates claimable is_claimable sort insert limit
one_chosen = refl
