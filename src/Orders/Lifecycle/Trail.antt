-- ===== src/Orders/Lifecycle/Trail.antt =====
-- src/modules/orders/domain/order.entity.ts: the status of an order against the events that it has
-- raised, over sequences of calls.
use tri_ad_backend.Base.{
  ℕ, ◌≡◌, ◌≢◌, refl, ap, sym, ◌∙◌, true, false, List, [], ◌∷◌, ◌++◌, arith, inl, inr,
}
use tri_ad_backend.Shared.Number.{Number}
use tri_ad_backend.Shared.Money.{Money}
use tri_ad_backend.Shared.Text.{Text}
use mathlib.Core.List.{append-nil, append_assoc}
use tri_ad_backend.Shared.Aggregate.{AggregateRoot, raise}
use tri_ad_backend.Shared.Events.{DomainEvent, order_status_changed, order_cancelled}
use tri_ad_backend.Shared.Errors.{OrderStatus, pending, cancelled, Result, ok, err, Result-cases}
use tri_ad_backend.Orders.Order.{
  Order, Pricing, subtotal, total, add_item, remove_item, apply_pricing,
}
use tri_ad_backend.Orders.Lifecycle.{
  can_transition, with_event, placed_event, place, transition_status, confirm, ship, deliver,
  cancel,
}

-- From status `s` the status changes among the events lead, one by one and each allowed, to `t`.
abbrev pub Trail : OrderStatus → List DomainEvent → OrderStatus → Type 0
Trail s [] t = s ≡ t
Trail s (order_status_changed o old new u ∷ es) t =
    (s ≡ old) × (can_transition old new ≡ true) × Trail new es t
Trail s (_ ∷ es) t = Trail s es t

-- The calls that a client can make on an order.
pub data Call : Type 0 where
  adds : ℕ → Text → Number → Money → Call
  removes : ℕ → Call
  prices : Pricing → Call
  places confirms ships delivers cancels : Call

unfoldable pub perform : Call → Order → Result Order
perform (adds p name q price) o = add_item p name q price o
perform (removes p) o = remove_item p o
perform (prices x) o = apply_pricing x o
perform places o = place o
perform confirms o = confirm o
perform ships o = ship o
perform delivers o = deliver o
perform cancels o = cancel o

-- A call that throws leaves the order as it was.
abbrev pub after : Order → Result Order → Order
after o (ok o') = o'
after o (err e) = o

unfoldable pub run : Order → List Call → Order
run o [] = o
run o (c ∷ cs) = run (after o (perform c o)) cs

Trail-append :
    (s t u : OrderStatus) (es fs : List DomainEvent)
    → Trail s es t
    → Trail t fs u
    → Trail s (es ++ fs) u
Trail-append s t u [] fs h k = rw h k
Trail-append s t u (order_status_changed o old new v ∷ es) fs (h, a, r) k =
    (h, a, Trail-append new t u es fs r k)
Trail-append s t u (_ ∷ es) fs h k = Trail-append s t u es fs h k

-- `o'` has the identity, the stored version and the user of `o`, and has raised, behind the events of `o`,
-- more events, whose status changes lead from the status of `o` to its own.
pub record Extends (o o' : Order) : Type 0 where
  pub raised : List DomainEvent
  pub appended : o'.domain_events ≡ o.domain_events ++ raised
  pub trail : Trail o.status raised o'.status
  pub same_id : o'.id ≡ o.id
  pub same_version : o'.version ≡ o.version
  pub same_user : o'.user_id ≡ o.user_id

Extends-refl : (o : Order) → Extends o o
Extends-refl o = record {
  raised = [];
  appended = sym (append-nil o.domain_events);
  trail = refl;
  same_id = refl;
  same_version = refl;
  same_user = refl;
}

Extends-trans : (o p q : Order) → Extends o p → Extends p q → Extends o q
Extends-trans o p q x y = record {
  raised = x.raised ++ y.raised;
  appended =
      y.appended
      ∙ ap (λ (l : List DomainEvent). l ++ y.raised) x.appended
      ∙ append_assoc o.domain_events x.raised y.raised;
  trail = Trail-append o.status p.status q.status x.raised y.raised x.trail y.trail;
  same_id = y.same_id ∙ x.same_id;
  same_version = y.same_version ∙ x.same_version;
  same_user = y.same_user ∙ x.same_user;
}

-- A call that raises nothing and keeps the status and the root.
Extends-quiet :
    (o o' : Order) → o'.root ≡ o.root → o'.status ≡ o.status → o'.user_id ≡ o.user_id → Extends o o'
Extends-quiet o o' r s u = record {
  raised = [];
  appended = rw r (sym (append-nil o.domain_events));
  trail = sym s;
  same_id = ap (λ (x : AggregateRoot). x.id) r;
  same_version = ap (λ (x : AggregateRoot). x.version) r;
  same_user = u;
}

transition_status_lem :
    (new : OrderStatus) (o o' : Order)
    → transition_status new o ≡ ok o'
    → (can_transition o.status new ≡ true)
      × (o'
          ≡ with_event
              (order_status_changed o.id o.status new o.user_id)
              (record o { status = new }))
unfolding transition_status
transition_status_lem new o o' h = ground arith

transition_status-Extends :
    (new : OrderStatus) (o o' : Order) → transition_status new o ≡ ok o' → Extends o o'
unfolding raise
transition_status-Extends new o o' h =
    let (a, e) = transition_status_lem new o o' h in
    rw e (record {
      raised = order_status_changed o.id o.status new o.user_id ∷ [];
      appended = refl;
      trail = (refl, a, refl);
      same_id = refl;
      same_version = refl;
      same_user = refl;
    })

-- What a successful `place` has checked, computed and done.
pub place_lem :
    (o o' : Order)
    → place o ≡ ok o'
    → (sub tot : Money) × (o.has_been_placed ≡ false)
      × (o.status ≡ pending)
      × (o.items ≢ [])
      × (subtotal o ≡ ok sub)
      × (total o ≡ ok tot)
      × (o'
          ≡ with_event (placed_event o sub.amount tot.amount) (record o { has_been_placed = true }))
unfolding place
place_lem o o' h = elim (Result-cases (subtotal o)) [
  | inl (s, es) ↦ elim (Result-cases (total o)) [
    | inl (t, et) ↦ (s, t, ground arith, ground arith, ground arith, es, et, ground arith)
    | inr (e, et) ↦ absurd (ground arith)
  ]
  | inr (e, es) ↦ absurd (ground arith)
]

place-Extends : (o o' : Order) → place o ≡ ok o' → Extends o o'
unfolding raise placed_event
place-Extends o o' h =
    let (sub, tot, _, _, _, _, _, e) = place_lem o o' h in
    rw e (record {
      raised = placed_event o sub.amount tot.amount ∷ [];
      appended = refl;
      trail = refl;
      same_id = refl;
      same_version = refl;
      same_user = refl;
    })

-- What a successful `cancel` is: an allowed transition and one more event.
cancel_lem :
    (o o' : Order)
    → cancel o ≡ ok o'
    → (c : Order) × (transition_status cancelled o ≡ ok c)
      × (o' ≡ with_event (order_cancelled o.id o.user_id) c)
unfolding cancel
cancel_lem o o' h = elim (Result-cases (transition_status cancelled o)) [
  | inl (c, e) ↦ (c, e, ground arith)
  | inr (x, e) ↦ absurd (ground arith)
]

cancel-Extends : (o o' : Order) → cancel o ≡ ok o' → Extends o o'
unfolding raise
cancel-Extends o o' h =
    let (c, t, e) = cancel_lem o o' h in
    Extends-trans o c o' (transition_status-Extends cancelled o c t) (
      rw e (record {
        raised = order_cancelled o.id o.user_id ∷ [];
        appended = refl;
        trail = refl;
        same_id = refl;
        same_version = refl;
        same_user = refl;
      }))

add_item-Extends :
    (p : ℕ) (name : Text) (q : Number) (price : Money) (o o' : Order)
    → add_item p name q price o ≡ ok o'
    → Extends o o'
unfolding add_item
add_item-Extends p name q price o o' h =
    Extends-quiet o o' (ground arith) (ground arith) (ground arith)

remove_item-Extends : (p : ℕ) (o o' : Order) → remove_item p o ≡ ok o' → Extends o o'
unfolding remove_item
remove_item-Extends p o o' h = Extends-quiet o o' (ground arith) (ground arith) (ground arith)

apply_pricing-Extends : (x : Pricing) (o o' : Order) → apply_pricing x o ≡ ok o' → Extends o o'
unfolding apply_pricing
apply_pricing-Extends x o o' h = Extends-quiet o o' (ground arith) (ground arith) (ground arith)

-- Every successful call appends events whose status changes lead from the status before the call
-- to the status after it, by allowed transitions, and keeps the identity, the stored version and
-- the user.
pub perform-Extends : (c : Call) (o o' : Order) → perform c o ≡ ok o' → Extends o o'
unfolding perform confirm ship deliver
perform-Extends (adds p name q price) o o' h = add_item-Extends p name q price o o' h
perform-Extends (removes p) o o' h = remove_item-Extends p o o' h
perform-Extends (prices x) o o' h = apply_pricing-Extends x o o' h
perform-Extends places o o' h = place-Extends o o' h
perform-Extends confirms o o' h = transition_status-Extends _ o o' h
perform-Extends ships o o' h = transition_status-Extends _ o o' h
perform-Extends delivers o o' h = transition_status-Extends _ o o' h
perform-Extends cancels o o' h = cancel-Extends o o' h

after-Extends :
    (o : Order) (r : Result Order)
    → ((o' : Order) → r ≡ ok o' → Extends o o')
    → Extends o (after o r)
after-Extends o (ok o') h = h o' refl
after-Extends o (err e) h = Extends-refl o

-- After any calls on an order, those that throw included, its status-changed events since the start
-- are a chain of allowed transitions from its status at the start to its status now; its identity,
-- its stored version and its user are as at the start.
pub run-Extends : (o : Order) (cs : List Call) → Extends o (run o cs)
unfolding run
run-Extends o [] = Extends-refl o
run-Extends o (c ∷ cs) =
    let next = after o (perform c o) in
    Extends-trans o next (run next cs) (after-Extends o (perform c o) (perform-Extends c o))
      (run-Extends next cs)
