-- ===== src/Outbox/Bus/Tracked.antt =====
-- src/shared/domain/event-bus/event-bus.ts: the calls of handlers against the tracker's rows.
use tri_ad_backend.Base.{
  ℕ, ◌≡◌, refl, ap, sym, ◌∙◌, Bool, true, false, ◌&&◌, List, [], ◌∷◌, ◌++◌, arith, ◌==◌,
  if◌then◌else◌, All, All-append, inl, inr, Bool-cases,
}
use mathlib.Core.List.{append_assoc}
use tri_ad_backend.Outbox.Bus.{
  Track, Call, World, Environment, has_succeeded, upsert, record_result, called, after_call,
  run_handler, run_handlers,
}

pub has_succeeded-upsert :
    (e h e' h' : ℕ) (b : Bool) (ts : List Track)
    → has_succeeded e' h' (upsert e h b ts)
      ≡ (if e == e' && h == h' then b else has_succeeded e' h' ts)
unfolding has_succeeded upsert
has_succeeded-upsert e h e' h' b [] = ground arith
has_succeeded-upsert e h e' h' b (t ∷ ts) = ground (arith, has_succeeded-upsert e h e' h' b ts)

-- The world after handlers were run for an event: what was recorded as successful still is, and no
-- handler was called for the event that was recorded as successful for it.
pub record Continues (e : ℕ) (w w' : World) : Type 0 where
  pub kept : (e' h : ℕ) → has_succeeded e' h w.tracks ≡ true → has_succeeded e' h w'.tracks ≡ true
  pub new : List Call
  pub calls_eq : w'.calls ≡ new ++ w.calls
  pub only_open :
      All (λ (c : Call). (c.event_id ≡ e) × (has_succeeded e c.handler w.tracks ≡ false)) new

pub Continues-refl : (e : ℕ) (w : World) → Continues e w w
Continues-refl e w = record { kept = λ e' h x. x; new = []; calls_eq = refl; only_open = tt }

record_result-Continues :
    (env : Environment) (e h : ℕ) (b : Bool) (w : World)
    → has_succeeded e h w.tracks ≡ false
    → Continues e w (record_result env e h b w).1
unfolding record_result
record_result-Continues env e h b w open_ = elim (Bool-cases (env.record_throws w.calls h)) [
  | inl x ↦ rw (x, record_result) (Continues-refl e w)
  | inr x ↦
      rw (x, record_result)
        (record {
          kept = λ e' h' s. ground (arith, has_succeeded-upsert e h e' h' b w.tracks);
          new = [];
          calls_eq = refl;
          only_open = tt;
        })
]

-- Calls that were not recorded after a part of a run were not recorded before it.
All-earlier :
    (e : ℕ) (w w' : World)
    → ((e' h : ℕ) → has_succeeded e' h w.tracks ≡ true → has_succeeded e' h w'.tracks ≡ true)
    → (cs : List Call)
    → All (λ (c : Call). (c.event_id ≡ e) × (has_succeeded e c.handler w'.tracks ≡ false)) cs
    → All (λ (c : Call). (c.event_id ≡ e) × (has_succeeded e c.handler w.tracks ≡ false)) cs
All-earlier e w w' k [] a = tt
All-earlier e w w' k (c ∷ cs) a = (
  (
    a.0.0,
    elim (Bool-cases (has_succeeded e c.handler w.tracks)) [
      | inl x ↦ cc (a.0.1, k e c.handler x)
      | inr x ↦ x
    ],
  ),
  All-earlier e w w' k cs a.1,
)

pub Continues-trans :
    (e : ℕ) (w w' w'' : World) → Continues e w w' → Continues e w' w'' → Continues e w w''
Continues-trans e w w' w'' a b = record {
  kept = λ e' h x. b.kept e' h (a.kept e' h x);
  new = b.new ++ a.new;
  calls_eq =
      b.calls_eq ∙ ap (λ cs. b.new ++ cs) a.calls_eq ∙ sym (append_assoc b.new a.new w.calls);
  only_open = All-append _ b.new a.new (All-earlier e w w' a.kept b.new b.only_open) a.only_open;
}

called-Continues :
    (env : Environment) (e h : ℕ) (w : World)
    → has_succeeded e h w.tracks ≡ false
    → Continues e w (called env e h w)
called-Continues env e h w x = record {
  kept = λ e' h' s. s;
  new = record { event_id = e; handler = h; returned = env.returns w.calls e h } ∷ [];
  calls_eq = refl;
  only_open = ((refl, x), tt);
}

after_call-Continues :
    (env : Environment) (e h : ℕ) (b : Bool) (w : World)
    → has_succeeded e h w.tracks ≡ false
    → Continues e w (after_call env e h b w).1
unfolding after_call
after_call-Continues env e h true w x = record_result-Continues env e h true w x
after_call-Continues env e h false w x = record_result-Continues env e h false w x

run_handler-Continues :
    (env : Environment) (e h : ℕ) (w : World) → Continues e w (run_handler env e h w).1
unfolding run_handler
run_handler-Continues env e h w = elim (Bool-cases (env.lookup_throws w.calls h)) [
  | inl x ↦ rw x (Continues-refl e w)
  | inr x ↦ rw x (elim (Bool-cases (has_succeeded e h w.tracks)) [
    | inl y ↦ rw y (Continues-refl e w)
    | inr y ↦ rw y (
        Continues-trans e w (called env e h w) _ (called-Continues env e h w y)
          (after_call-Continues env e h (env.returns w.calls e h) (called env e h w) y))
  ])
]

pub run_handlers-Continues :
    (env : Environment) (e : ℕ) (hs : List ℕ) (w : World)
    → Continues e w (run_handlers env e hs w).1
unfolding run_handlers
run_handlers-Continues env e [] w = Continues-refl e w
run_handlers-Continues env e (h ∷ hs) w =
    Continues-trans e w (run_handler env e h w).1 _ (run_handler-Continues env e h w)
      (run_handlers-Continues env e hs (run_handler env e h w).1)
