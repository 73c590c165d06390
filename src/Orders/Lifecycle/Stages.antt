-- ===== src/Orders/Lifecycle/Stages.antt =====
-- src/modules/orders/domain/order.entity.ts: the stages of an order (draft, placed, final) and what
-- the calls may change at each.
use tri_ad_backend.Base.{
  ◌-◌, ◌≤◌, ◌≡◌, ◌≢◌, ◌↔◌, refl, sym, ◌∙◌, ◌⊎◌, true, false, List, [], ◌∷◌, arith,
}
use tri_ad_backend.Shared.Number.{max_safe}
use tri_ad_backend.Shared.Money.{Money}
use tri_ad_backend.Shared.Errors.{pending, delivered, cancelled, ok}
use tri_ad_backend.Orders.Order.{
  Order, assert_mutable, add_item, remove_item, apply_pricing, subtotal, total,
}
use tri_ad_backend.Orders.Order.Totals.{
  IsInVnd, items_value, gross_value, subtotal-items_value, total-gross_value, vnd_money,
}
use tri_ad_backend.Orders.Lifecycle.{
  with_event, placed_event, place, can_transition, transition_status, confirm, ship, deliver,
  cancel,
}
use tri_ad_backend.Orders.Lifecycle.Trail.{
  Call, adds, removes, prices, places, confirms, ships, delivers, cancels, perform, after, run,
  place_lem,
}

-- The conditions of `place`, for an order in the default currency.
pub record CanPlace (o : Order) : Type 0 where
  pub is_new : o.has_been_placed ≡ false
  pub is_pending : o.status ≡ pending
  pub has_items : o.items ≢ []
  pub is_safe : gross_value o ≤ max_safe
  pub is_covered : o.discount_amount.amount ≤ gross_value o

-- The order after `place`, with the event that records its subtotal and its total.
abbrev pub placed : Order → Order
placed o =
    with_event (placed_event o (items_value o.items) (gross_value o - o.discount_amount.amount))
      (record o { has_been_placed = true })

subtotal_when :
    (o : Order)
    → IsInVnd o
    → items_value o.items ≤ max_safe
    → subtotal o ≡ ok (vnd_money (items_value o.items))
subtotal_when o v h = subtotal-items_value o v.prices ∙ ground arith

total_when :
    (o : Order)
    → IsInVnd o
    → gross_value o ≤ max_safe
    → o.discount_amount.amount ≤ gross_value o
    → total o ≡ ok (vnd_money (gross_value o - o.discount_amount.amount))
total_when o v h k = total-gross_value o v ∙ ground arith

total_only :
    (o : Order) (t : Money)
    → IsInVnd o
    → total o ≡ ok t
    → (gross_value o ≤ max_safe)
      × (o.discount_amount.amount ≤ gross_value o)
      × (t ≡ vnd_money (gross_value o - o.discount_amount.amount))
total_only o t v h = let e = sym (total-gross_value o v) ∙ h in ground arith

subtotal_only :
    (o : Order) (s : Money) → IsInVnd o → subtotal o ≡ ok s → s ≡ vnd_money (items_value o.items)
subtotal_only o s v h = let e = sym (subtotal-items_value o v.prices) ∙ h in ground arith

place_when : (o : Order) → IsInVnd o → CanPlace o → place o ≡ ok (placed o)
unfolding place
place_when o v c =
    let safe : items_value o.items ≤ max_safe = omega (arith, c.is_safe) in
    rw (subtotal_when o v safe, total_when o v c.is_safe c.is_covered) (ground arith)

place_only : (o o' : Order) → IsInVnd o → place o ≡ ok o' → CanPlace o × (o' ≡ placed o)
place_only o o' v h =
    let (sub, tot, new, waits, some_items, es, et, e) = place_lem o o' h in
    let (safe, covered, t) = total_only o tot v et in
    let s = subtotal_only o sub v es in
    (
      record {
        is_new = new;
        is_pending = waits;
        has_items = some_items;
        is_safe = safe;
        is_covered = covered;
      },
      rw (e, s, t),
    )

-- An order in the default currency can be placed exactly when it is new, pending and not empty, its
-- gross amount is a safe integer and its discount is no larger; the placed order has then raised
-- one event, with the value of the items as subtotal and gross amount less discount as total.
pub place_exactly : (o o' : Order) → IsInVnd o → (place o ≡ ok o') ↔ (CanPlace o × (o' ≡ placed o))
place_exactly o o' v = (place_only o o' v, λ h. rw h.1 (place_when o v h.0))

-- The parts of an order that its price is made of.
pub record SamePrice (o o' : Order) : Type 0 where
  pub same_items : o'.items ≡ o.items
  pub same_tax : o'.tax ≡ o.tax
  pub same_fee : o'.shipping_fee ≡ o.shipping_fee
  pub same_discount : o'.discount_amount ≡ o.discount_amount
  pub same_code : o'.discount_code ≡ o.discount_code
  pub same_placed : o'.has_been_placed ≡ o.has_been_placed

perform-SamePrice :
    (c : Call) (o : Order) → o.has_been_placed ≡ true → SamePrice o (after o (perform c o))
unfolding perform add_item remove_item apply_pricing assert_mutable place
perform-SamePrice (adds p name q price) o h = ground arith
perform-SamePrice (removes p) o h = ground arith
perform-SamePrice (prices x) o h = ground arith
perform-SamePrice places o h = ground arith
perform-SamePrice confirms o h = unfold confirm transition_status in ground arith
perform-SamePrice ships o h = unfold ship transition_status in ground arith
perform-SamePrice delivers o h = unfold deliver transition_status in ground arith
perform-SamePrice cancels o h = unfold cancel transition_status in ground arith

-- Once an order is placed, no sequence of calls changes its items, its tax, its fee, its discount
-- or the fact that it is placed.
pub run-SamePrice : (o : Order) (cs : List Call) → o.has_been_placed ≡ true → SamePrice o (run o cs)
unfolding run
run-SamePrice o [] h = ground arith
run-SamePrice o (c ∷ cs) h =
    let s = perform-SamePrice c o h in
    let t = run-SamePrice (after o (perform c o)) cs (s.same_placed ∙ h) in ground arith

perform_final :
    (c : Call) (o : Order)
    → (o.status ≡ delivered) ⊎ (o.status ≡ cancelled)
    → after o (perform c o) ≡ o
unfolding perform add_item remove_item apply_pricing assert_mutable place can_transition
perform_final (adds p name q price) o h = ground arith
perform_final (removes p) o h = ground arith
perform_final (prices x) o h = ground arith
perform_final places o h = ground arith
perform_final confirms o h = unfold confirm transition_status in ground arith
perform_final ships o h = unfold ship transition_status in ground arith
perform_final delivers o h = unfold deliver transition_status in ground arith
perform_final cancels o h = unfold cancel in ground arith

-- A delivered order and a cancelled one are final: no sequence of calls changes them, and none
-- makes them raise an event.
pub run_final :
    (o : Order) (cs : List Call) → (o.status ≡ delivered) ⊎ (o.status ≡ cancelled) → run o cs ≡ o
unfolding run
run_final o [] h = refl
run_final o (c ∷ cs) h = rw (perform_final c o h) (run_final o cs h)
