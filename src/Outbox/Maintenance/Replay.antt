-- ===== src/Outbox/Maintenance/Replay.antt =====
-- src/core/outbox/outbox-maintenance.service.ts: the rows after a replay.
use tri_ad_backend.Base.{
  equal_self, ℕ, suc, ◌≡◌, refl, sym, ap, ◌∙◌, true, false, none, some, List, [], ◌∷◌, map, ◌==◌,
  length, All, arith, inl, inr, Bool-cases, ◌⊎◌,
}
use mathlib.Core.Path.{subst}
use tri_ad_backend.Shared.Text.{Text, same_text_self}
use tri_ad_backend.Outbox.Table.{Row, Action, act, get}
use tri_ad_backend.Outbox.Table.Rows.{IsKeyed, map-get, get-all}
use tri_ad_backend.Outbox.Table.Leases.{act-final}
use tri_ad_backend.Outbox.Maintenance.{
  ReplayError, selection_changed, Replayed, Outcome, returned, threw, has_text, normalize_ids,
  is_dead_letter, find_dead_letters, requeued, requeue_row, requeue_dead_letters, ineligible,
  checked_count, replay_eligible, replay_unique, replay_dead_letters,
}
use tri_ad_backend.Outbox.Maintenance.Selection.{
  IsSelection, has_text-All, normalize_ids-IsSelection,
}

clash : {A : Type 0} {x : Replayed} {e : ReplayError} → returned x ≡ threw e → A
clash q = cc

none_requeued :
    (i : Text) (is events : List Text) → checked_count (i ∷ is) events [] ≡ threw selection_changed
unfolding checked_count
none_requeued i is events = ground arith

replayed-eq : {x y : Replayed} → returned x ≡ returned y → x.replayed_ids ≡ y.replayed_ids
replayed-eq q = cc

-- Nothing ineligible: each id was found.
eligible-all :
    (P : Text → Type 0) (is found_ : List Text)
    → All P found_
    → ineligible is found_ ≡ []
    → All P is
unfolding ineligible
eligible-all P [] f a = λ x. tt
eligible-all P (i ∷ is) f a = elim (Bool-cases (has_text i f)) [
  | inl x ↦ rw x (λ y. (has_text-All P i f a x, eligible-all P is f a y))
  | inr x ↦ rw x (λ y. cc)
]

module _ (text_of : ℕ → Text) where
  requeue_row-id : (ids : List Text) (r : Row) → (requeue_row text_of ids r).id ≡ r.id
  unfolding requeue_row
  requeue_row-id ids r = ground arith

  requeue_row-dead :
      (ids : List Text) (r : Row)
      → has_text (text_of r.id) ids ≡ true
      → is_dead_letter r ≡ true
      → requeue_row text_of ids r ≡ requeued r
  unfolding requeue_row
  requeue_row-dead ids r x y = rw (x, y) refl

  requeue_row-other :
      (ids : List Text) (r : Row)
      → has_text (text_of r.id) ids ≡ false
      → requeue_row text_of ids r ≡ r
  unfolding requeue_row
  requeue_row-other ids r x = rw x refl

  -- The id of a row that is dead-lettered.
  abbrev IsDead : List Row → Text → Type 0
  IsDead rows t =
      (r : Row) × (text_of r.id ≡ t) × (get r.id rows ≡ some r) × (is_dead_letter r ≡ true)

  found :
      (ids : List Text) (rows rs : List Row)
      → All (λ (s : Row). get s.id rows ≡ some s) rs
      → All (IsDead rows) (find_dead_letters text_of ids rs)
  unfolding find_dead_letters
  found ids rows [] a = tt
  found ids rows (r ∷ rs) a = elim (Bool-cases (has_text (text_of r.id) ids)) [
    | inl x ↦ elim (Bool-cases (is_dead_letter r)) [
      | inl y ↦ rw (x, y) ((r, refl, a.0, y), found ids rows rs a.1)
      | inr y ↦ rw (x, y) (found ids rows rs a.1)
    ]
    | inr x ↦ rw x (found ids rows rs a.1)
  ]

  -- What a replay does to the row of an id.
  abbrev pub IsReopened : List Row → List Row → Text → Type 0
  IsReopened rows rows' t =
      (r : Row) × (text_of r.id ≡ t)
      × (get r.id rows ≡ some r)
      × (r.published ≡ false)
      × (r.dead ≡ true)
      × (get r.id rows'
          ≡ some (record r { attempts = 0; dead = false; lock_owner = none; lease_until = none }))

  reopened :
      (others : List Action) (all is : List Text) (rows : List Row)
      → IsKeyed rows
      → All (IsDead rows) is
      → ((t : Text) → has_text t is ≡ true → has_text t all ≡ true)
      → All (IsReopened rows (map (requeue_row text_of all) (act others rows))) is
  unfolding has_text
  reopened others all [] rows k a s = tt
  reopened others all (t ∷ is) rows k (d, a) s =
      let (r, n, g, e) = d in
      let same = act-final others rows r.id r k g (ground (arith, e)) in
      let member : has_text (text_of r.id) all ≡ true = rw n (s t (rw (same_text_self t) refl)) in
      (
        (
          r,
          n,
          g,
          ground arith,
          ground arith,
          map-get (requeue_row text_of all) (requeue_row-id all) r.id (act others rows) r same
              ∙ ap some (requeue_row-dead all r member e),
        ),
        reopened others all is rows k a (λ u x. s u (ground (arith, x))),
      )

  -- What a replay of some ids says, and what it does.
  pub record IsTold (others : List Action) (ids : List Text) (rows : List Row)
      (r : Outcome × List Row) : Type 0 where
    pub selected : (x : Replayed) → r.0 ≡ returned x → IsSelection ids x.replayed_ids
    pub when_returned : (x : Replayed) → r.0 ≡ returned x → All (IsReopened rows r.1) x.replayed_ids
    pub untouched :
        (x : Replayed) (s : Row)
        → r.0 ≡ returned x
        → get s.id (act others rows) ≡ some s
        → has_text (text_of s.id) x.replayed_ids ≡ false
        → get s.id r.1 ≡ some s
    pub when_threw : (e : ReplayError) → r.0 ≡ threw e → (r.1 ≡ rows) ⊎ (r.1 ≡ act others rows)

  replay_eligible-IsTold :
      (others : List Action) (ids : List Text) (i : Text) (is events bad : List Text)
      (rows : List Row)
      → IsSelection ids (i ∷ is)
      → IsKeyed rows
      → All (IsDead rows) events
      → ineligible (i ∷ is) events ≡ bad
      → IsTold others ids rows (replay_eligible text_of others (i ∷ is) events bad rows)
  unfolding requeue_dead_letters checked_count
  replay_eligible-IsTold others ids i is events (j ∷ js) rows selection k a b = record {
    selected = λ x q. cc;
    when_returned = λ x q. cc;
    untouched = λ x s q. cc;
    when_threw = λ e q. inl refl;
  }
  replay_eligible-IsTold others ids i is events [] rows selection k a b =
      let unique = i ∷ is in
      let rest = act others rows in
      elim (Bool-cases (length (find_dead_letters text_of unique rest) == length unique)) [
        | inl x ↦
            rw (x, equal_self (suc (length is)))
              (record {
                selected = λ y q. subst (IsSelection ids) (replayed-eq q) selection;
                when_returned = λ y q.
                    subst (All (IsReopened rows (map (requeue_row text_of unique) rest)))
                      (replayed-eq q)
                      (reopened others unique unique rows k
                        (eligible-all (IsDead rows) unique events a b) (λ t z. z));
                untouched = λ y s q g h.
                    map-get (requeue_row text_of unique) (requeue_row-id unique) s.id rest s g
                    ∙ ap some (
                        requeue_row-other unique s
                          (ap (λ us. has_text (text_of s.id) us) (replayed-eq q) ∙ h));
                when_threw = λ e q. cc;
              })
        | inr x ↦ rw x (record {
          selected = λ y q. clash (sym q ∙ none_requeued i is events);
          when_returned = λ y q. clash (sym q ∙ none_requeued i is events);
          untouched = λ y s q. clash (sym q ∙ none_requeued i is events);
          when_threw = λ e q. inr refl;
        })
      ]

  replay_unique-IsTold :
      (others : List Action) (ids unique : List Text) (rows : List Row)
      → IsSelection ids unique
      → IsKeyed rows
      → IsTold others ids rows (replay_unique text_of others unique rows)
  replay_unique-IsTold others ids [] rows selection k = record {
    selected = λ x q. cc;
    when_returned = λ x q. cc;
    untouched = λ x s q. cc;
    when_threw = λ e q. inl refl;
  }
  replay_unique-IsTold others ids (i ∷ is) rows selection k =
      replay_eligible-IsTold others ids i is (find_dead_letters text_of (i ∷ is) rows) _ rows
        selection k (found (i ∷ is) rows rows (get-all rows k)) refl

  -- The ids that a replay gives out when it returns are those that it was given, trimmed: none is
  -- empty or repeated, and none that is not blank is missing. Each of them names a row that was
  -- dead-lettered and is now open again, with no attempts counted and no lease, whatever relays
  -- asked of the store meanwhile; the other rows are as the relays left them. A replay that throws
  -- has changed nothing.
  pub replay_dead_letters-IsTold :
      (others : List Action) (ids : List Text) (rows : List Row)
      → IsKeyed rows
      → IsTold others ids rows (replay_dead_letters text_of others ids rows)
  unfolding replay_dead_letters
  replay_dead_letters-IsTold others ids rows k =
      replay_unique-IsTold others ids (normalize_ids ids) rows (normalize_ids-IsSelection ids) k
