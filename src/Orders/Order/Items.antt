-- ===== src/Orders/Order/Items.antt =====
-- src/modules/orders/domain/order.entity.ts: the items of an order as a map from products to
-- quantities.
use tri_ad_backend.Base.{
  ℕ, ◌+◌, ◌≤◌, ◌≡◌, ◌≢◌, refl, Option, none, some, List, [], ◌∷◌, ◌++◌, arith, ◌==◌, if◌then◌else◌,
  Option-cases, inl, inr,
}
use tri_ad_backend.Shared.Number.{Number, max_safe, positive_safe, positive_safe_bounds}
use tri_ad_backend.Shared.Money.{Money}
use tri_ad_backend.Shared.Text.{Text}
use tri_ad_backend.Shared.Errors.{ok, Result-cases}
use tri_ad_backend.Orders.Order.{
  Order, OrderItem, find_item, replace_item, splice_item, merge_item, add_item, remove_item,
}

-- The quantity of a product, 0 if no item has it.
abbrev pub quantity_of : ℕ → List OrderItem → ℕ
quantity_of p [] = 0
quantity_of p (i ∷ is) = if i.product_id == p then i.quantity else quantity_of p is

-- No product stands in two items, and every quantity is a positive safe integer.
abbrev pub AreValid : List OrderItem → Type 0
AreValid [] = Unit
AreValid (i ∷ is) =
    (find_item i.product_id is ≡ none) × (1 ≤ i.quantity) × (i.quantity ≤ max_safe) × AreValid is

find_item_id :
    (p : ℕ) (is : List OrderItem) (i : OrderItem) → find_item p is ≡ some i → i.product_id ≡ p
unfolding find_item
find_item_id p [] i h = cc
find_item_id p (x ∷ is) i h = ground (arith, find_item_id p is i)

quantity_of-find_item :
    (p : ℕ) (is : List OrderItem)
    → quantity_of p is ≡ elim (find_item p is) [ none ↦ 0 | some i ↦ i.quantity ]
unfolding find_item
quantity_of-find_item p [] = refl
quantity_of-find_item p (x ∷ is) = ground (arith, quantity_of-find_item p is)

find_item-snoc :
    (p : ℕ) (is : List OrderItem) (new : OrderItem)
    → p ≢ new.product_id
    → find_item p (is ++ new ∷ []) ≡ find_item p is
unfolding find_item
find_item-snoc p [] new h = ground arith
find_item-snoc p (x ∷ is) new h = ground (arith, find_item-snoc p is new h)

quantity_of-snoc :
    (r : ℕ) (is : List OrderItem) (new : OrderItem)
    → find_item new.product_id is ≡ none
    → quantity_of r (is ++ new ∷ [])
      ≡ (if new.product_id == r then quantity_of r is + new.quantity else quantity_of r is)
unfolding find_item
quantity_of-snoc r [] new h = ground arith
quantity_of-snoc r (x ∷ is) new h = ground (arith, quantity_of-snoc r is new)

find_item-replace_item :
    (r : ℕ) (new : OrderItem) (is : List OrderItem)
    → r ≢ new.product_id
    → find_item r (replace_item new.product_id new is) ≡ find_item r is
unfolding find_item replace_item
find_item-replace_item r new [] h = refl
find_item-replace_item r new (x ∷ is) h = ground (arith, find_item-replace_item r new is h)

quantity_of-replace_item :
    (r : ℕ) (new : OrderItem) (is : List OrderItem) (i : OrderItem)
    → find_item new.product_id is ≡ some i
    → quantity_of r (replace_item new.product_id new is)
      ≡ (if new.product_id == r then new.quantity else quantity_of r is)
unfolding find_item replace_item
quantity_of-replace_item r new [] i h = cc
quantity_of-replace_item r new (x ∷ is) i h = ground (arith, quantity_of-replace_item r new is i)

snoc-AreValid :
    (new : OrderItem) (is : List OrderItem)
    → AreValid is
    → find_item new.product_id is ≡ none
    → 1 ≤ new.quantity
    → new.quantity ≤ max_safe
    → AreValid (is ++ new ∷ [])
unfolding find_item
snoc-AreValid new [] v h a b = (refl, a, b, tt)
snoc-AreValid new (x ∷ is) v h a b =
    ground (arith, snoc-AreValid new is v.3, find_item-snoc x.product_id is new)

replace_item-AreValid :
    (new : OrderItem) (is : List OrderItem)
    → AreValid is
    → 1 ≤ new.quantity
    → new.quantity ≤ max_safe
    → AreValid (replace_item new.product_id new is)
unfolding find_item replace_item
replace_item-AreValid new [] v a b = tt
replace_item-AreValid new (x ∷ is) v a b =
    ground (arith, replace_item-AreValid new is v.3, find_item-replace_item x.product_id new is)

quantity_of-found :
    (p : ℕ) (is : List OrderItem) (i : OrderItem)
    → find_item p is ≡ some i
    → quantity_of p is ≡ i.quantity
quantity_of-found p is i h = rw (quantity_of-find_item p is, h)

merged-quantity_of :
    (r q : ℕ) (i : OrderItem) (is : List OrderItem)
    → find_item i.product_id is ≡ some i
    → quantity_of r (replace_item i.product_id (record i { quantity = i.quantity + q }) is)
      ≡ (if i.product_id == r then quantity_of r is + q else quantity_of r is)
merged-quantity_of r q i is h = ground (
  arith,
  quantity_of-replace_item r (record i { quantity = i.quantity + q }) is i h,
  quantity_of-found i.product_id is i h,
)

-- What `merge_item` makes of the item that `find_item` has returned.
merge_item_lem :
    (p : ℕ) (name : Text) (q : ℕ) (price : Money) (is is' : List OrderItem)
    (found : Option OrderItem)
    → find_item p is ≡ found
    → merge_item p name q price found is ≡ ok is'
    → AreValid is
    → 1 ≤ q
    → q ≤ max_safe
    → AreValid is'
      × ((r : ℕ) → quantity_of r is' ≡ (if p == r then quantity_of r is + q else quantity_of r is))
unfolding merge_item
merge_item_lem p name q price is is' none f h v a b =
    let new : OrderItem = record {
      product_id = p;
      product_name = name;
      quantity = q;
      unit_price = price;
    } in
    let e : is' ≡ is ++ new ∷ [] = ground arith in
    rw e (snoc-AreValid new is v f a b, λ r. quantity_of-snoc r is new f)
merge_item_lem p name q price is is' (some i) f h v a b =
    let same = find_item_id p is i f in
    let new : OrderItem = record i { quantity = i.quantity + q } in
    let e : is' ≡ replace_item p new is = ground arith in
    let safe : i.quantity + q ≤ max_safe = ground arith in
    rw (e, ← same)
      (
        replace_item-AreValid new is v (omega arith) safe,
        λ r. merged-quantity_of r q i is (rw (← same) at f),
      )

-- The quantity of product `p` has grown by `q`, and no other has changed.
abbrev pub Adds : ℕ → ℕ → Order → Order → Type 0
Adds p q o o' =
    (r : ℕ)
    → quantity_of r o'.items ≡ (if p == r then quantity_of r o.items + q else quantity_of r o.items)

-- Product `p` has no quantity left, and no other has changed.
abbrev pub Drops : ℕ → Order → Order → Type 0
Drops p o o' = (r : ℕ) → quantity_of r o'.items ≡ (if p == r then 0 else quantity_of r o.items)

add_item_steps :
    (p : ℕ) (name : Text) (n : Number) (price : Money) (o o' : Order)
    → add_item p name n price o ≡ ok o'
    → (q : ℕ) × (is' : List OrderItem) × (positive_safe n ≡ some q)
      × (merge_item p name q price (find_item p o.items) o.items ≡ ok is')
      × (o' ≡ record o { items = is' })
unfolding add_item
add_item_steps p name n price o o' h = elim (Option-cases (positive_safe n)) [
  | inl e ↦ absurd (ground arith)
  | inr (q, e) ↦ elim (Result-cases (merge_item p name q price (find_item p o.items) o.items)) [
    | inl (is', m) ↦ (q, is', e, m, ground arith)
    | inr (x, m) ↦ absurd (ground arith)
  ]
]

-- A successful `add_item` takes a positive safe quantity, adds it to the quantity of its product
-- and to no other, and keeps the items valid: distinct products, positive safe quantities.
pub add_item_lem :
    (p : ℕ) (name : Text) (n : Number) (price : Money) (o o' : Order)
    → add_item p name n price o ≡ ok o'
    → AreValid o.items
    → (q : ℕ) × (positive_safe n ≡ some q) × AreValid o'.items × Adds p q o o'
add_item_lem p name n price o o' h v =
    let (q, is', safe, merged, e) = add_item_steps p name n price o o' h in
    let (low, high) = positive_safe_bounds n safe in
    let (valid, amounts) = merge_item_lem p name q price o.items is' _ refl merged v low high in
    rw e (q, safe, valid, amounts)

splice_item-find_item :
    (r p : ℕ) (is : List OrderItem) → find_item r is ≡ none → find_item r (splice_item p is) ≡ none
unfolding find_item splice_item
splice_item-find_item r p [] h = refl
splice_item-find_item r p (x ∷ is) h = ground (arith, splice_item-find_item r p is)

splice_item-AreValid : (p : ℕ) (is : List OrderItem) → AreValid is → AreValid (splice_item p is)
unfolding splice_item
splice_item-AreValid p [] v = tt
splice_item-AreValid p (x ∷ is) v =
    ground (arith, splice_item-AreValid p is v.3, splice_item-find_item x.product_id p is)

quantity_of-none : (p : ℕ) (is : List OrderItem) → find_item p is ≡ none → quantity_of p is ≡ 0
quantity_of-none p is h = rw (quantity_of-find_item p is, h)

quantity_of-splice_item :
    (r p : ℕ) (is : List OrderItem)
    → AreValid is
    → quantity_of r (splice_item p is) ≡ (if p == r then 0 else quantity_of r is)
unfolding splice_item
quantity_of-splice_item r p [] v = ground arith
quantity_of-splice_item r p (x ∷ is) v =
    ground (arith, quantity_of-splice_item r p is v.3, quantity_of-none x.product_id is v.0)

-- A successful `remove_item` leaves nothing of its product, every other quantity as it was, and the
-- items valid.
pub remove_item_lem :
    (p : ℕ) (o o' : Order)
    → remove_item p o ≡ ok o'
    → AreValid o.items
    → AreValid o'.items × Drops p o o'
unfolding remove_item
remove_item_lem p o o' h v =
    let e : o'.items ≡ splice_item p o.items = ground arith in
    rw e (splice_item-AreValid p o.items v, λ r. quantity_of-splice_item r p o.items v)
