-- ===== src/Cart/Contents.antt =====
-- src/modules/cart/domain/cart.entity.ts: the items of a cart as a map from products to quantities,
-- under the operations of the map.
use tri_ad_backend.Base.{
  ℕ, ◌+◌, ◌-◌, ◌≤◌, ◌≡◌, ◌≢◌, refl, false, none, some, List, [], ◌∷◌, arith, ◌==◌, if◌then◌else◌,
  ltb, inl, inr, Option-cases,
}
use tri_ad_backend.Shared.Number.{Number, max_safe, positive_safe}
use tri_ad_backend.Shared.Errors.{ok}
use tri_ad_backend.Cart.{CartItem, increase, decrease, get, set_item, delete}

-- The quantity of a product, 0 if the cart does not have it.
abbrev pub quantity_of : ℕ → List CartItem → ℕ
quantity_of p [] = 0
quantity_of p (i ∷ is) = if i.product_id == p then i.quantity else quantity_of p is

-- No product stands in two items, and every quantity is a positive safe integer.
abbrev pub AreValid : List CartItem → Type 0
AreValid [] = Unit
AreValid (i ∷ is) =
    (get i.product_id is ≡ none) × (1 ≤ i.quantity) × (i.quantity ≤ max_safe) × AreValid is

pub quantity_of-get :
    (p : ℕ) (is : List CartItem)
    → quantity_of p is ≡ elim (get p is) [ none ↦ 0 | some i ↦ i.quantity ]
unfolding get
quantity_of-get p [] = refl
quantity_of-get p (x ∷ is) = ground (arith, quantity_of-get p is)

pub get_id : (p : ℕ) (is : List CartItem) (i : CartItem) → get p is ≡ some i → i.product_id ≡ p
unfolding get
get_id p [] i h = cc
get_id p (x ∷ is) i h = ground (arith, get_id p is i)

pub get_bounds :
    (p : ℕ) (is : List CartItem) (i : CartItem)
    → get p is ≡ some i
    → AreValid is
    → (1 ≤ i.quantity) × (i.quantity ≤ max_safe)
unfolding get
get_bounds p [] i h v = cc
get_bounds p (x ∷ is) i h v = ground (arith, get_bounds p is i)

pub quantity_of-set_item :
    (r : ℕ) (new : CartItem) (is : List CartItem)
    → quantity_of r (set_item new is)
      ≡ (if new.product_id == r then new.quantity else quantity_of r is)
unfolding set_item
quantity_of-set_item r new [] = refl
quantity_of-set_item r new (x ∷ is) = ground (arith, quantity_of-set_item r new is)

get-set_item_ne :
    (r : ℕ) (new : CartItem) (is : List CartItem)
    → new.product_id ≢ r
    → get r (set_item new is) ≡ get r is
unfolding get set_item
get-set_item_ne r new [] h = ground arith
get-set_item_ne r new (x ∷ is) h = ground (arith, get-set_item_ne r new is h)

pub set_item-AreValid :
    (new : CartItem) (is : List CartItem)
    → AreValid is
    → 1 ≤ new.quantity
    → new.quantity ≤ max_safe
    → AreValid (set_item new is)
unfolding get set_item
set_item-AreValid new [] v a b = (refl, a, b, tt)
set_item-AreValid new (x ∷ is) v a b =
    ground (arith, set_item-AreValid new is v.3, get-set_item_ne x.product_id new is)

get-delete-none : (r p : ℕ) (is : List CartItem) → get r is ≡ none → get r (delete p is) ≡ none
unfolding get delete
get-delete-none r p [] h = refl
get-delete-none r p (x ∷ is) h = ground (arith, get-delete-none r p is)

pub delete-AreValid : (p : ℕ) (is : List CartItem) → AreValid is → AreValid (delete p is)
unfolding delete
delete-AreValid p [] v = tt
delete-AreValid p (x ∷ is) v =
    ground (arith, delete-AreValid p is v.3, get-delete-none x.product_id p is)

pub quantity_of-delete :
    (r p : ℕ) (is : List CartItem)
    → AreValid is
    → quantity_of r (delete p is) ≡ (if p == r then 0 else quantity_of r is)
unfolding delete
quantity_of-delete r p [] v = ground arith
quantity_of-delete r p (x ∷ is) v =
    ground (arith, quantity_of-delete r p is v.3, quantity_of-get x.product_id is)

-- An increase of an item is undone by a decrease of the same amount.
pub increase-decrease : (n : Number) (i i' : CartItem) → increase n i ≡ ok i' → decrease n i' ≡ ok i
unfolding increase decrease
increase-decrease n i i' h = elim (Option-cases (positive_safe n)) [
  | inl e ↦ absurd (ground arith)
  | inr (q, e) ↦
      let more : i' ≡ record i { quantity = i.quantity + q } = ground arith in
      let back : (i.quantity + q) - q ≡ i.quantity = omega arith in
      let enough : ltb (i.quantity + q) q ≡ false = ground arith in rw (more, e, enough, back) refl
]
