-- ===== src/Outbox/Bus.antt =====
-- src/shared/domain/event-bus/event-bus.ts and src/core/outbox/outbox-handler-tracker.ts: publishing
-- an event to its handlers, with the tracker that remembers which of them have succeeded. The
-- handlers of one event, which the source starts together, run one after another here; names of
-- events and handlers are numbers.
pub mod Tracked
pub mod Tries
pub mod Delivery
use tri_ad_backend.Base.{
  ℕ, Bool, true, false, not, ◌&&◌, ◌||◌, Option, none, some, List, [], ◌∷◌, ◌++◌, ◌==◌,
  if◌then◌else◌,
}

-- A row of the log of handlers: the event, the handler, and whether its status is `SUCCESS`.
pub record Track : Type 0 where
  pub event_id : ℕ
  pub handler : ℕ
  pub success : Bool

-- A run of a handler: on which event, and whether it returned.
pub record Call : Type 0 where
  pub event_id : ℕ
  pub handler : ℕ
  pub returned : Bool

pub record World : Type 0 where
  pub tracks : List Track
  pub calls : List Call

-- What the handlers and the tracker's database answer: whether a handler returns, by the calls
-- before, and whether an operation of the tracker throws.
pub record Environment : Type 0 where
  pub returns : List Call → ℕ → ℕ → Bool
  pub lookup_throws : List Call → ℕ → Bool
  pub record_throws : List Call → ℕ → Bool

-- A subscription: the event's name and the handler's.
pub record Subscription : Type 0 where
  pub event_name : ℕ
  pub handler : ℕ

-- `subscribe`: the last one goes last.
unfoldable pub subscribe : ℕ → ℕ → List Subscription → List Subscription
subscribe e h subs = subs ++ record { event_name = e; handler = h } ∷ []

-- The handlers of an event, in the order of their subscription.
unfoldable pub handlers_of : ℕ → List Subscription → List ℕ
handlers_of e [] = []
handlers_of e (s ∷ subs) =
    if s.event_name == e then s.handler ∷ handlers_of e subs else handlers_of e subs

-- The row of an event and a handler.
abbrev pub is_for : ℕ → ℕ → Track → Bool
is_for e h t = t.event_id == e && t.handler == h

-- `hasSucceeded`
unfoldable pub has_succeeded : ℕ → ℕ → List Track → Bool
has_succeeded e h [] = false
has_succeeded e h (t ∷ ts) = if is_for e h t then t.success else has_succeeded e h ts

-- `upsert` of the row of an event and a handler.
pub upsert : ℕ → ℕ → Bool → List Track → List Track
upsert e h ok [] = record { event_id = e; handler = h; success = ok } ∷ []
upsert e h ok (t ∷ ts) =
    if is_for e h t then record t { success = ok } ∷ ts else t ∷ upsert e h ok ts

-- `recordResult`: false if it throws.
unfoldable pub record_result : Environment → ℕ → ℕ → Bool → World → Bool × World
record_result env e h ok w =
    if env.record_throws w.calls h
    then (false, w)
    else (true, record w { tracks = upsert e h ok w.tracks })

-- The run of a handler.
abbrev pub called : Environment → ℕ → ℕ → World → World
called env e h w = record w {
  calls = record { event_id = e; handler = h; returned = env.returns w.calls e h } ∷ w.calls;
}

-- What follows the run: its record, and whether the promise is fulfilled.
unfoldable pub after_call : Environment → ℕ → ℕ → Bool → World → Bool × World
after_call env e h true w = record_result env e h true w
after_call env e h false w = let (r, w') = record_result env e h false w in (false, w')

-- The promise of one handler: whether it is fulfilled.
unfoldable pub run_handler : Environment → ℕ → ℕ → World → Bool × World
run_handler env e h w =
    if env.lookup_throws w.calls h
    then (false, w)
    else if has_succeeded e h w.tracks
    then (true, w)
    else after_call env e h (env.returns w.calls e h) (called env e h w)

-- The names of the handlers whose promises were rejected.
unfoldable pub run_handlers : Environment → ℕ → List ℕ → World → List ℕ × World
run_handlers env e [] w = ([], w)
run_handlers env e (h ∷ hs) w =
    let (fulfilled, w1) = run_handler env e h w in
    let (failed, w2) = run_handlers env e hs w1 in (if fulfilled then failed else h ∷ failed, w2)

abbrev pub is_empty : List ℕ → Bool
is_empty [] = true
is_empty (h ∷ hs) = false

-- `publish` with an event id and a tracker: `success`, and the failed handlers.
unfoldable pub publish : Environment → List Subscription → ℕ → ℕ → World → (Bool × List ℕ) × World
publish env subs event_name event_id w =
    let (failed, w') = run_handlers env event_id (handlers_of event_name subs) w in
    ((is_empty failed, failed), w')
