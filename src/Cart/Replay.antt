-- ===== src/Cart/Replay.antt =====
-- src/modules/cart/domain/cart.entity.ts: the events of a cart, replayed, against its contents.
use mathlib.Core.List.{append-nil, append_assoc}
use tri_ad_backend.Base.{
  ℕ, suc, zero, ◌+◌, ◌-◌, ◌≤◌, ◌≡◌, refl, sym, ap, ◌∙◌, Option, none, some, List, [], ◌∷◌, ◌++◌,
  arith, ◌==◌, if◌then◌else◌, Option-cases, Bool-cases, inl, inr, length,
}
use tri_ad_backend.Base.Int.{ℤ, pos, negsuc, sub_ℕ}
use tri_ad_backend.Shared.Number.{
  Number, positive_safe, nonneg_safe, max_safe, positive_safe_bounds, nonneg_safe_bounds,
}
use tri_ad_backend.Shared.Money.{Money}
use tri_ad_backend.Shared.Text.{Text}
use tri_ad_backend.Shared.Aggregate.{raise}
use tri_ad_backend.Shared.Events.{DomainEvent, cart_item_added, cart_item_removed, cart_cleared}
use tri_ad_backend.Shared.Errors.{Result, ok, err, Result-cases}
use tri_ad_backend.Cart.{
  Cart, CartItem, get, set_item, delete, with_event, increase, added_item, add_item, remove_known,
  remove_item, change_quantity, update_item_quantity, clear,
}
use tri_ad_backend.Cart.Contents.{
  quantity_of, AreValid, quantity_of-get, get_id, quantity_of-set_item, set_item-AreValid,
  delete-AreValid, quantity_of-delete,
}

-- A quantity after a change.
abbrev pub shift : ℕ → ℤ → ℕ
shift q (pos n) = q + n
shift q (negsuc n) = q - suc n

-- The quantity of product `r` after an event, by what the event says.
abbrev pub replay_event : ℕ → ℕ → DomainEvent → ℕ
replay_event r q (cart_item_added c u p d) = if p == r then shift q d else q
replay_event r q (cart_item_removed c u p) = if p == r then 0 else q
replay_event r q (cart_cleared c u) = 0
replay_event r q _ = q

abbrev pub replay : ℕ → ℕ → List DomainEvent → ℕ
replay r q [] = q
replay r q (e ∷ es) = replay r (replay_event r q e) es

replay-append :
    (r q : ℕ) (es fs : List DomainEvent) → replay r q (es ++ fs) ≡ replay r (replay r q es) fs
replay-append r q [] fs = refl
replay-append r q (e ∷ es) fs = replay-append r (replay_event r q e) es fs

-- `c'` is a valid cart of the same identity, has raised more events than `c`, and these account for
-- the change of each quantity.
pub record Accounts (c c' : Cart) : Type 0 where
  pub raised : List DomainEvent
  pub appended : c'.domain_events ≡ c.domain_events ++ raised
  pub valid : AreValid c'.items
  pub accounted : (r : ℕ) → quantity_of r c'.items ≡ replay r (quantity_of r c.items) raised
  pub same_id : c'.id ≡ c.id

Accounts-refl : (c : Cart) → AreValid c.items → Accounts c c
Accounts-refl c v = record {
  raised = [];
  appended = sym (append-nil c.domain_events);
  valid = v;
  accounted = λ r. refl;
  same_id = refl;
}

Accounts-trans : (b c d : Cart) → Accounts b c → Accounts c d → Accounts b d
Accounts-trans b c d x y = record {
  raised = x.raised ++ y.raised;
  appended =
      y.appended
      ∙ ap (λ (l : List DomainEvent). l ++ y.raised) x.appended
      ∙ append_assoc b.domain_events x.raised y.raised;
  valid = y.valid;
  accounted = λ r.
      y.accounted r
      ∙ ap (λ (q : ℕ). replay r q y.raised) (x.accounted r)
      ∙ sym (replay-append r (quantity_of r b.items) x.raised y.raised);
  same_id = y.same_id ∙ x.same_id;
}

-- One event and new items.
Accounts-event :
    (c : Cart) (e : DomainEvent) (items : List CartItem)
    → AreValid items
    → ((r : ℕ) → quantity_of r items ≡ replay_event r (quantity_of r c.items) e)
    → Accounts c (with_event e (record c { items = items }))
unfolding raise
Accounts-event c e items v h = record {
  raised = e ∷ [];
  appended = refl;
  valid = v;
  accounted = h;
  same_id = refl;
}

added_item_lem :
    (p : ℕ) (name : Text) (price : Money) (q : ℕ) (n : Number) (is : List CartItem) (i : CartItem)
    (found : Option CartItem)
    → get p is ≡ found
    → positive_safe n ≡ some q
    → added_item p name price q n found ≡ ok i
    → (i.product_id ≡ p) × (i.quantity ≡ quantity_of p is + q) × (i.quantity ≤ max_safe)
unfolding added_item
added_item_lem p name price q n is i none f e h =
    let none_yet : quantity_of p is ≡ 0 = rw (quantity_of-get p is, f) in
    ground (arith, positive_safe_bounds n e)
added_item_lem p name price q n is i (some x) f e h =
    let so_far : quantity_of p is ≡ x.quantity = rw (quantity_of-get p is, f) in
    unfold increase in ground (arith, get_id p is x f)

add_item_steps :
    (p : ℕ) (name : Text) (price : Money) (n : Number) (c c' : Cart)
    → add_item p name price n c ≡ ok c'
    → (q : ℕ) × (i : CartItem) × (positive_safe n ≡ some q)
      × (added_item p name price q n (get p c.items) ≡ ok i)
      × (c'
          ≡ with_event
              (cart_item_added c.id c.user_id p (pos q))
              (record c { items = set_item i c.items }))
unfolding add_item
add_item_steps p name price n c c' h = elim (Option-cases (positive_safe n)) [
  | inl e ↦ absurd (ground arith)
  | inr (q, e) ↦ elim (Result-cases (added_item p name price q n (get p c.items))) [
    | inl (i, a) ↦ (q, i, e, a, ground arith)
    | inr (x, a) ↦ absurd (ground arith)
  ]
]

-- A successful `add_item` raises one event, with the quantity that it has added.
add_item-Accounts :
    (p : ℕ) (name : Text) (price : Money) (n : Number) (c c' : Cart)
    → AreValid c.items
    → add_item p name price n c ≡ ok c'
    → Accounts c c'
add_item-Accounts p name price n c c' v h =
    let (q, i, e, a, eq) = add_item_steps p name price n c c' h in
    let (id, amount, safe) = added_item_lem p name price q n c.items i _ refl e a in
    let (low, high) = positive_safe_bounds n e in
    rw eq (
      Accounts-event c (cart_item_added c.id c.user_id p (pos q)) (set_item i c.items)
        (set_item-AreValid i c.items v (omega arith) safe)
        (λ r. rw (quantity_of-set_item r i c.items, id, amount) (ground arith)))

remove_known-Accounts :
    (p : ℕ) (c : Cart) (found : Option CartItem)
    → AreValid c.items
    → Accounts c (remove_known p found c)
unfolding remove_known
remove_known-Accounts p c none v = Accounts-refl c v
remove_known-Accounts p c (some i) v =
    Accounts-event c (cart_item_removed c.id c.user_id p) (delete p c.items)
      (delete-AreValid p c.items v) (λ r. quantity_of-delete r p c.items v)

remove_item-Accounts : (p : ℕ) (c : Cart) → AreValid c.items → Accounts c (remove_item p c)
unfolding remove_item
remove_item-Accounts p c v = remove_known-Accounts p c (get p c.items) v

-- The change of the quantity that `update_item_quantity` reports brings the old one to the new one.
shift-sub_ℕ : (a b : ℕ) → shift b (sub_ℕ a b) ≡ a
shift-sub_ℕ a b = ground arith

change_quantity-Accounts :
    (p n : ℕ) (i : CartItem) (c : Cart)
    → AreValid c.items
    → get p c.items ≡ some i
    → n ≤ max_safe
    → Accounts c (change_quantity p n i c)
unfolding change_quantity
change_quantity-Accounts p zero i c v h k = remove_item-Accounts p c v
change_quantity-Accounts p (suc n) i c v h k =
    let so_far : quantity_of p c.items ≡ i.quantity = rw (quantity_of-get p c.items, h) in
    let new : CartItem = record i { quantity = suc n } in
    let id = get_id p c.items i h in
    Accounts-event c (cart_item_added c.id c.user_id p (sub_ℕ (suc n) i.quantity))
      (set_item new c.items) (set_item-AreValid new c.items v (omega arith) k)
      (λ r.
        rw (quantity_of-set_item r new c.items, id)
          (ground (arith, shift-sub_ℕ (suc n) i.quantity)))

clear-Accounts : (c : Cart) → AreValid c.items → Accounts c (clear c)
unfolding clear
clear-Accounts c v = elim (Bool-cases (length c.items == 0)) [
  | inl e ↦ rw e (Accounts-refl c v)
  | inr e ↦ rw e (Accounts-event c (cart_cleared c.id c.user_id) [] tt (λ r. refl))
]

-- The calls that a client can make on a cart.
pub data Call : Type 0 where
  adds : ℕ → Text → Money → Number → Call
  updates : ℕ → Number → Call
  removes : ℕ → Call
  clears : Call

unfoldable pub perform : Call → Cart → Result Cart
perform (adds p name price n) c = add_item p name price n c
perform (updates p n) c = update_item_quantity p n c
perform (removes p) c = ok (remove_item p c)
perform clears c = ok (clear c)

-- A call that throws leaves the cart as it was.
abbrev pub after : Cart → Result Cart → Cart
after c (ok c') = c'
after c (err e) = c

unfoldable pub run : Cart → List Call → Cart
run c [] = c
run c (call ∷ calls) = run (after c (perform call c)) calls

update-Accounts :
    (p : ℕ) (n : Number) (c : Cart)
    → AreValid c.items
    → Accounts c (after c (update_item_quantity p n c))
unfolding update_item_quantity
update-Accounts p n c v = elim (Option-cases (nonneg_safe n)) [
  | inl e ↦ rw e (Accounts-refl c v)
  | inr (q, e) ↦ elim (Option-cases (get p c.items)) [
    | inl g ↦ rw (e, g) (Accounts-refl c v)
    | inr (i, g) ↦ rw (e, g) (change_quantity-Accounts p q i c v g (nonneg_safe_bounds n e))
  ]
]

after-Accounts :
    (c : Cart) (r : Result Cart)
    → AreValid c.items
    → ((c' : Cart) → r ≡ ok c' → Accounts c c')
    → Accounts c (after c r)
after-Accounts c (ok c') v h = h c' refl
after-Accounts c (err e) v h = Accounts-refl c v

perform-Accounts :
    (call : Call) (c : Cart) → AreValid c.items → Accounts c (after c (perform call c))
unfolding perform
perform-Accounts (adds p name price n) c v =
    after-Accounts c _ v (λ c' h. add_item-Accounts p name price n c c' v h)
perform-Accounts (updates p n) c v = update-Accounts p n c v
perform-Accounts (removes p) c v = remove_item-Accounts p c v
perform-Accounts clears c v = clear-Accounts c v

-- After any calls on a valid cart, those that throw included, the cart is valid, and replaying the
-- events that the calls have raised turns each quantity at the start into the one at the end.
pub run-Accounts : (c : Cart) (calls : List Call) → AreValid c.items → Accounts c (run c calls)
unfolding run
run-Accounts c [] v = Accounts-refl c v
run-Accounts c (call ∷ calls) v =
    let x = perform-Accounts call c v in
    Accounts-trans c (after c (perform call c)) (run (after c (perform call c)) calls) x
      (run-Accounts (after c (perform call c)) calls x.valid)
