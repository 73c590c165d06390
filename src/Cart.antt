-- ===== src/Cart.antt =====
-- src/modules/cart/domain/cart.entity.ts: a cart as a map from products to items, in insertion
-- order. As with orders, each throw stands before the first assignment.
pub mod Contents
pub mod Replay
mod Tests
use tri_ad_backend.Base.{
  ℕ, zero, suc, ◌+◌, ◌-◌, Bool, true, false, not, Option, none, some, List, [], ◌∷◌, ◌++◌, ltb, leb,
  ◌==◌, if◌then◌else◌, length,
}
use tri_ad_backend.Base.Int.{ℤ, pos, sub_ℕ}
use tri_ad_backend.Shared.Number.{Number, positive_safe, nonneg_safe, max_safe}
use tri_ad_backend.Shared.Money.{Money, vnd, zero_money}
use tri_ad_backend.Shared.Money
use tri_ad_backend.Shared.Text.{Text}
use tri_ad_backend.Shared.Aggregate.{AggregateRoot, new_root, raise}
use tri_ad_backend.Shared.Events.{DomainEvent, cart_item_added, cart_item_removed, cart_cleared}
use tri_ad_backend.Shared.Errors.{
  domain, invalid_cart_quantity, cart_item_not_found, Result, ok, err, ◌>>=◌, ◌>>◌, throw_if,
  or_throw,
}

pub record CartItem : Type 0 where
  pub product_id : ℕ
  pub product_name : Text
  pub unit_price : Money
  pub quantity : ℕ

pub record Cart : Type 0 where
  pub root : AggregateRoot
  pub open root use *
  pub user_id : ℕ
  pub items : List CartItem

unfoldable pub create : ℕ → ℕ → Cart
unfolding new_root
create id user = record { root = new_root id; user_id = user; items = [] }

-- `CartItem.total`
unfoldable pub item_total : CartItem → Result Money
item_total i = Money.multiply i.unit_price (pos i.quantity)

unfoldable pub sum_items : Money → List CartItem → Result Money
sum_items sum [] = ok sum
sum_items sum (i ∷ is) = do t ← item_total i; s ← Money.add sum t; sum_items s is

unfoldable pub total : Cart → Result Money
total c = sum_items zero_money c.items

sum_quantities : ℕ → List CartItem → ℕ
sum_quantities n [] = n
sum_quantities n (i ∷ is) = sum_quantities (n + i.quantity) is

unfoldable item_count : Cart → ℕ
unfolding sum_quantities
item_count c = sum_quantities 0 c.items

-- `CartItem.increase`, on the amount as it was passed.
pub increase : Number → CartItem → Result CartItem
increase n i = do
  amount ← or_throw (positive_safe n) (domain invalid_cart_quantity)
  throw_if (ltb max_safe (i.quantity + amount)) (domain invalid_cart_quantity)
  ok (record i { quantity = i.quantity + amount })

-- `CartItem.decrease`
pub decrease : Number → CartItem → Result CartItem
decrease n i = do
  amount ← or_throw (positive_safe n) (domain invalid_cart_quantity)
  throw_if (ltb i.quantity amount) (domain invalid_cart_quantity)
  ok (record i { quantity = i.quantity - amount })

-- `_items.get(productId)`
pub get : ℕ → List CartItem → Option CartItem
get p [] = none
get p (i ∷ is) = if i.product_id == p then some i else get p is

-- `_items.set(productId, item)`: a known key keeps its place, a new one goes last.
pub set_item : CartItem → List CartItem → List CartItem
set_item new [] = new ∷ []
set_item new (i ∷ is) = if i.product_id == new.product_id then new ∷ is else i ∷ set_item new is

-- `_items.delete(productId)`
pub delete : ℕ → List CartItem → List CartItem
delete p [] = []
delete p (i ∷ is) = if i.product_id == p then is else i ∷ delete p is

abbrev pub with_event : DomainEvent → Cart → Cart
with_event e c = record c { root = raise e c.root }

-- The item that `addItem` stores, by what `get` returned.
pub added_item : ℕ → Text → Money → ℕ → Number → Option CartItem → Result CartItem
added_item p name price q n none =
    ok (record { product_id = p; product_name = name; unit_price = price; quantity = q })
added_item p name price q n (some i) = increase n i

unfoldable pub add_item : ℕ → Text → Money → Number → Cart → Result Cart
add_item p name price n c = do
  q ← or_throw (positive_safe n) (domain invalid_cart_quantity)
  i ← added_item p name price q n (get p c.items)
  ok (
      with_event (cart_item_added c.id c.user_id p (pos q))
        (record c { items = set_item i c.items }))

pub remove_known : ℕ → Option CartItem → Cart → Cart
remove_known p none c = c
remove_known p (some i) c =
    with_event (cart_item_removed c.id c.user_id p) (record c { items = delete p c.items })

unfoldable pub remove_item : ℕ → Cart → Cart
remove_item p c = remove_known p (get p c.items) c

-- `updateItemQuantity` of a known item, by its new quantity.
pub change_quantity : ℕ → ℕ → CartItem → Cart → Cart
change_quantity p zero i c = remove_item p c
change_quantity p (suc n) i c =
    with_event (cart_item_added c.id c.user_id p (sub_ℕ (suc n) i.quantity))
      (record c { items = set_item (record i { quantity = suc n }) c.items })

pub update_item_quantity : ℕ → Number → Cart → Result Cart
update_item_quantity p n c = do
  q ← or_throw (nonneg_safe n) (domain invalid_cart_quantity)
  i ← or_throw (get p c.items) (domain (cart_item_not_found p))
  ok (change_quantity p q i c)

pub clear : Cart → Cart
clear c =
    if length c.items == 0
    then c
    else with_event (cart_cleared c.id c.user_id) (record c { items = [] })

-- A stored cart item; its price is an integer by `toSafeMoneyNumber`.
pub record ItemRow : Type 0 where
  pub product_id : ℕ
  pub product_name : Text
  pub price : ℤ
  pub quantity : Number

-- The loop of `hydrate`, from the items so far.
unfoldable pub hydrate_items : List ItemRow → List CartItem → Result (List CartItem)
hydrate_items [] items = ok items
hydrate_items (r ∷ rs) items = do
  q ← or_throw (positive_safe r.quantity) (domain invalid_cart_quantity)
  price ← Money.create r.price vnd
  let new : CartItem = record {
    product_id = r.product_id;
    product_name = r.product_name;
    unit_price = price;
    quantity = q;
  }
  hydrate_items rs (set_item new items)

unfoldable hydrate : ℕ → ℕ → List ItemRow → Result Cart
unfolding create
hydrate id user rows = do
  items ← hydrate_items rows []
  ok (record (create id user) { items = items })
