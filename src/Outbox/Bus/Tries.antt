-- ===== src/Outbox/Bus/Tries.antt =====
-- src/shared/domain/event-bus/event-bus.ts: which handlers a publish calls, and whose success is
-- recorded.
use tri_ad_backend.Base.{
  ℕ, ◌≡◌, refl, sym, ap, ◌∙◌, Bool, true, false, ◌&&◌, ◌||◌, List, [], ◌∷◌, ◌++◌, arith, ◌==◌, All,
  ◌⊎◌, inl, inr, Bool-cases,
}
use mathlib.Core.List.{append_assoc}
use tri_ad_backend.Outbox.Bus.{
  Call, World, Environment, has_succeeded, upsert, record_result, after_call, run_handler,
  run_handlers,
}
use tri_ad_backend.Outbox.Bus.Tracked.{has_succeeded-upsert}

-- Is there a run of the handler on the event among the calls? And one that returned?
abbrev pub called_for : ℕ → ℕ → List Call → Bool
called_for e h [] = false
called_for e h (c ∷ cs) = (c.event_id == e && c.handler == h) || called_for e h cs

abbrev pub returned_for : ℕ → ℕ → List Call → Bool
returned_for e h [] = false
returned_for e h (c ∷ cs) = (c.event_id == e && c.handler == h && c.returned) || returned_for e h cs

-- A handler that was not recorded as successful before was called, unless the lookup of its record
-- threw.
abbrev pub IsTried : Environment → ℕ → World → List Call → ℕ → Type 0
IsTried env e w new h =
    (has_succeeded e h w.tracks ≡ true)
    ⊎ (called_for e h new ≡ true)
    ⊎ ((cs : List Call) × (env.lookup_throws cs h ≡ true))

-- The calls of some handlers: they were all tried, and whatever is recorded as successful since
-- was called and returned.
pub record Tries (env : Environment) (e : ℕ) (hs : List ℕ) (w w' : World) : Type 0 where
  pub new : List Call
  pub calls_eq : w'.calls ≡ new ++ w.calls
  pub earned :
      (e' h : ℕ)
      → has_succeeded e' h w.tracks ≡ false
      → has_succeeded e' h w'.tracks ≡ true
      → returned_for e' h new ≡ true
  pub tried : All (IsTried env e w new) hs

called_for-append :
    (e h : ℕ) (xs ys : List Call)
    → called_for e h (xs ++ ys) ≡ (called_for e h xs || called_for e h ys)
called_for-append e h [] ys = refl
called_for-append e h (c ∷ xs) ys = ground (arith, called_for-append e h xs ys)

returned_for-append :
    (e h : ℕ) (xs ys : List Call)
    → returned_for e h (xs ++ ys) ≡ (returned_for e h xs || returned_for e h ys)
returned_for-append e h [] ys = refl
returned_for-append e h (c ∷ xs) ys = ground (arith, returned_for-append e h xs ys)

returned_for-called :
    (e h : ℕ) (cs : List Call) → returned_for e h cs ≡ true → called_for e h cs ≡ true
returned_for-called e h [] r = cc
returned_for-called e h (c ∷ cs) r = ground (arith, returned_for-called e h cs)

unchanged-Tries :
    (env : Environment) (e h : ℕ) (w : World) → IsTried env e w [] h → Tries env e (h ∷ []) w w
unchanged-Tries env e h w t = record {
  new = [];
  calls_eq = refl;
  earned = λ e' h' x y. cc (x, y);
  tried = (t, tt);
}

-- A run and its record.
recorded-Tries :
    (env : Environment) (e h : ℕ) (b : Bool) (w : World)
    → Tries env e (h ∷ []) w (record {
      tracks = upsert e h b w.tracks;
      calls = record { event_id = e; handler = h; returned = b } ∷ w.calls;
    })
recorded-Tries env e h b w = record {
  new = record { event_id = e; handler = h; returned = b } ∷ [];
  calls_eq = refl;
  earned = λ e' h' x y. ground (arith, x, y, has_succeeded-upsert e h e' h' b w.tracks);
  tried = (inr (inl (ground arith)), tt);
}

unrecorded-Tries :
    (env : Environment) (e h : ℕ) (b : Bool) (w : World)
    → Tries env e
        (h ∷ [])
        w
        (record w { calls = record { event_id = e; handler = h; returned = b } ∷ w.calls })
unrecorded-Tries env e h b w = record {
  new = record { event_id = e; handler = h; returned = b } ∷ [];
  calls_eq = refl;
  earned = λ e' h' x y. cc (x, y);
  tried = (inr (inl (ground arith)), tt);
}

-- A run that returned or not, with its record.
after_call-Tries :
    (env : Environment) (e h : ℕ) (b : Bool) (w : World)
    → Tries env e
        (h ∷ [])
        w
        (after_call env e h b
          (record w { calls = record { event_id = e; handler = h; returned = b } ∷ w.calls })).1
unfolding after_call record_result
after_call-Tries env e h true w =
    let cs = record { event_id = e; handler = h; returned = true } ∷ w.calls in
    elim (Bool-cases (env.record_throws cs h)) [
      | inl x ↦ rw x (unrecorded-Tries env e h true w)
      | inr x ↦ rw x (recorded-Tries env e h true w)
    ]
after_call-Tries env e h false w =
    let cs = record { event_id = e; handler = h; returned = false } ∷ w.calls in
    elim (Bool-cases (env.record_throws cs h)) [
      | inl x ↦ rw x (unrecorded-Tries env e h false w)
      | inr x ↦ rw x (recorded-Tries env e h false w)
    ]

run_handler-Tries :
    (env : Environment) (e h : ℕ) (w : World) → Tries env e (h ∷ []) w (run_handler env e h w).1
unfolding run_handler
run_handler-Tries env e h w = elim (Bool-cases (env.lookup_throws w.calls h)) [
  | inl x ↦ rw x (unchanged-Tries env e h w (inr (inr (w.calls, x))))
  | inr x ↦ rw x (elim (Bool-cases (has_succeeded e h w.tracks)) [
    | inl y ↦ rw y (unchanged-Tries env e h w (inl y))
    | inr y ↦ rw y (after_call-Tries env e h (env.returns w.calls e h) w)
  ])
]

-- The tries after those of a handler, as tries from the beginning.
module _ (env : Environment) (e h : ℕ) (w w1 : World) (first : Tries env e (h ∷ []) w w1)
    (more : List Call) where
  earlier_tries : (g : ℕ) → IsTried env e w1 more g → IsTried env e w (more ++ first.new) g
  earlier_tries g (inl s) = elim (Bool-cases (has_succeeded e g w.tracks)) [
    | inl x ↦ inl x
    | inr x ↦ inr (
        inl (
          ground (
            arith,
            called_for-append e g more first.new,
            returned_for-called e g first.new (first.earned e g x s),
          )))
  ]
  earlier_tries g (inr (inl c)) = inr (inl (ground (arith, called_for-append e g more first.new)))
  earlier_tries g (inr (inr t)) = inr (inr t)

  head_tries : IsTried env e w first.new h → IsTried env e w (more ++ first.new) h
  head_tries (inl s) = inl s
  head_tries (inr (inl c)) = inr (inl (ground (arith, called_for-append e h more first.new)))
  head_tries (inr (inr t)) = inr (inr t)

  all_tries :
      (hs : List ℕ) → All (IsTried env e w1 more) hs → All (IsTried env e w (more ++ first.new)) hs
  all_tries [] a = tt
  all_tries (g ∷ hs) a = (earlier_tries g a.0, all_tries hs a.1)

cons-Tries :
    (env : Environment) (e h : ℕ) (hs : List ℕ) (w w1 w2 : World)
    → Tries env e (h ∷ []) w w1
    → Tries env e hs w1 w2
    → Tries env e (h ∷ hs) w w2
cons-Tries env e h hs w w1 w2 a b = record {
  new = b.new ++ a.new;
  calls_eq =
      b.calls_eq ∙ ap (λ cs. b.new ++ cs) a.calls_eq ∙ sym (append_assoc b.new a.new w.calls);
  earned = λ e' h' x y. elim (Bool-cases (has_succeeded e' h' w1.tracks)) [
    | inl z ↦ ground (arith, returned_for-append e' h' b.new a.new, a.earned e' h' x z)
    | inr z ↦ ground (arith, returned_for-append e' h' b.new a.new, b.earned e' h' z y)
  ];
  tried = (head_tries env e h w w1 a b.new a.tried.0, all_tries env e h w w1 a b.new hs b.tried);
}

pub run_handlers-Tries :
    (env : Environment) (e : ℕ) (hs : List ℕ) (w : World)
    → Tries env e hs w (run_handlers env e hs w).1
unfolding run_handlers
run_handlers-Tries env e [] w = record {
  new = [];
  calls_eq = refl;
  earned = λ e' h' x y. cc (x, y);
  tried = tt;
}
run_handlers-Tries env e (h ∷ hs) w =
    cons-Tries env e h hs w (run_handler env e h w).1 _ (run_handler-Tries env e h w)
      (run_handlers-Tries env e hs (run_handler env e h w).1)
