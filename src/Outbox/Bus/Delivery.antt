-- ===== src/Outbox/Bus/Delivery.antt =====
-- src/shared/domain/event-bus/event-bus.ts: what a publish reports.
use tri_ad_backend.Base.{ℕ, ◌≡◌, Bool, true, false, List, [], ◌∷◌, arith, All, inl, inr, Bool-cases}
use tri_ad_backend.Outbox.Bus.{
  World, Environment, Subscription, handlers_of, has_succeeded, record_result, called, after_call,
  run_handler, run_handlers, is_empty, publish,
}
use tri_ad_backend.Outbox.Bus.Tries.{Tries, run_handlers-Tries}
use tri_ad_backend.Outbox.Bus.Tracked.{Continues, has_succeeded-upsert, run_handlers-Continues}

after_call-records :
    (env : Environment) (e h : ℕ) (b : Bool) (w : World)
    → (after_call env e h b w).0 ≡ true
    → has_succeeded e h (after_call env e h b w).1.tracks ≡ true
unfolding after_call record_result
after_call-records env e h false w = cc
after_call-records env e h true w = elim (Bool-cases (env.record_throws w.calls h)) [
  | inl x ↦ rw x (λ y. cc)
  | inr x ↦ rw x (λ y. ground (arith, has_succeeded-upsert e h e h true w.tracks))
]

run_handler-records :
    (env : Environment) (e h : ℕ) (w : World)
    → (run_handler env e h w).0 ≡ true
    → has_succeeded e h (run_handler env e h w).1.tracks ≡ true
unfolding run_handler
run_handler-records env e h w = elim (Bool-cases (env.lookup_throws w.calls h)) [
  | inl x ↦ rw x (λ y. cc)
  | inr x ↦ rw x (elim (Bool-cases (has_succeeded e h w.tracks)) [
    | inl y ↦ rw y (λ z. y)
    | inr y ↦ rw y (after_call-records env e h (env.returns w.calls e h) (called env e h w))
  ])
]

run_handlers-records :
    (env : Environment) (e : ℕ) (hs : List ℕ) (w : World)
    → is_empty (run_handlers env e hs w).0 ≡ true
    → All (λ h. has_succeeded e h (run_handlers env e hs w).1.tracks ≡ true) hs
unfolding run_handlers
run_handlers-records env e [] w = λ x. tt
run_handlers-records env e (h ∷ hs) w = elim (Bool-cases (run_handler env e h w).0) [
  | inl x ↦ rw x (λ y. (
    (run_handlers-Continues env e hs (run_handler env e h w).1).kept e h
        (run_handler-records env e h w x),
    run_handlers-records env e hs (run_handler env e h w).1 y,
  ))
  | inr x ↦ rw x (λ y. cc)
]

-- A publish that reports success leaves every handler that is subscribed to the event's name
-- recorded as successful for the event. Whatever it reports, the records of success before it are
-- kept, and the handlers that it called, all for this event, were not recorded as successful for
-- it when it began; a record of success that was not there before belongs to a handler that it
-- called and that returned; and each subscribed handler was recorded as successful before or was
-- called, unless the lookup of its record threw.
pub publish-delivers :
    (env : Environment) (subs : List Subscription) (name event_id : ℕ) (w : World)
    → ((publish env subs name event_id w).0.0 ≡ true
        → All
            (λ h. has_succeeded event_id h (publish env subs name event_id w).1.tracks ≡ true)
            (handlers_of name subs))
      × Continues event_id w (publish env subs name event_id w).1
      × Tries env event_id (handlers_of name subs) w (publish env subs name event_id w).1
unfolding publish
publish-delivers env subs name event_id w = (
  run_handlers-records env event_id (handlers_of name subs) w,
  run_handlers-Continues env event_id (handlers_of name subs) w,
  run_handlers-Tries env event_id (handlers_of name subs) w,
)
