-- ===== src/Checkout/Db.antt =====
-- src/modules/checkout/infrastructure/prisma-checkout-unit-of-work.ts: the tables that a checkout
-- reads and writes, its transaction's operations on them, and the unit of work that commits or
-- rolls back. A table is the list of its rows. An operation returns the tables also when it throws;
-- it is the unit of work that drops them then.
use tri_ad_backend.Base.{
  ℕ, ◌+◌, ◌≡◌, refl, Bool, false, ◌&&◌, ◌||◌, Option, List, [], ◌∷◌, ◌++◌, map, ◌==◌, if◌then◌else◌,
}
use tri_ad_backend.Base.Int.{ℤ, pos, negsuc, sub_ℕ}
use tri_ad_backend.Shared.Text.{Text}
use tri_ad_backend.Shared.Events.{DomainEvent}
use tri_ad_backend.Shared.Errors.{Error, Result, ok, err}
use tri_ad_backend.Orders.Order.{Order}

-- `LockedProductRow`; the price is an integer by `toSafeMoneyNumber`.
pub record ProductRow : Type 0 where
  pub id : ℕ
  pub name : Text
  pub price : ℤ
  pub stock : ℤ
  pub version : ℕ
  pub is_active : Bool

-- `DiscountRecord`; `Double` is the type of its value, a decimal.
pub record DiscountRow (Double : Type 0) : Type 0 where
  pub id : ℕ
  pub code : Text
  pub is_active : Bool
  pub expires_at : Option ℕ
  pub min_order_amount : Option ℕ
  pub max_uses : Option ℕ
  pub used_count : ℕ
  pub is_percentage : Bool
  pub value : Double

-- A row of the cart-items table, by its cart.
pub record CartRow : Type 0 where
  pub cart_id : ℕ
  pub product_id : ℕ
  pub quantity : ℤ

-- A stored order, with the amounts that `saveNewOrder` computes and the key of the request.
pub record OrderRow : Type 0 where
  pub order : Order
  pub subtotal : ℕ
  pub total : ℕ
  pub idempotency_key : Option ℕ

-- An outbox row as `persistEvents` writes it: the event and its source version.
pub record EventRow : Type 0 where
  pub event : DomainEvent
  pub source_version : ℕ

pub record Db (Double : Type 0) : Type 0 where
  pub products : List ProductRow
  pub discounts : List (DiscountRow Double)
  pub cart_items : List CartRow
  pub orders : List OrderRow
  pub outbox : List EventRow

-- A computation in a transaction.
abbrev pub Tx : Type 0 → Type 0 → Type 0
Tx D A = Db D → Result A × Db D

module _ {D A : Type 0} where
  abbrev pub pure : A → Tx D A
  pure a db = (ok a, db)

  abbrev pub throw : Error → Tx D A
  throw e db = (err e, db)

  -- A computation that touches no table.
  abbrev pub lift : Result A → Tx D A
  lift r db = (r, db)

-- What follows a computation: nothing after a throw.
abbrev pub continue : {D A B : Type 0} → (A → Tx D B) → Result A → Tx D B
continue f (ok a) db = f a db
continue f (err e) db = (err e, db)

infixl 5 ◌>>=◌ ◌>>◌
abbrev pub ◌>>=◌ : {D A B : Type 0} → Tx D A → (A → Tx D B) → Tx D B
◌>>=◌ m f db = let (r, db') = m db in continue f r db'

abbrev pub ◌>>◌ : {D B : Type 0} → Tx D (Unit {0}) → Tx D B → Tx D B
m >> k = m >>= λ _. k

abbrev pub contains : ℕ → List ℕ → Bool
contains n [] = false
contains n (m ∷ ms) = n == m || contains n ms

-- `stock: { decrement: quantity }`
abbrev pub minus : ℤ → ℕ → ℤ
minus (pos n) q = sub_ℕ n q
minus (negsuc n) q = negsuc (n + q)

-- The rows with one of the ids, in the order of the table.
unfoldable pub locked_rows : List ℕ → List ProductRow → List ProductRow
locked_rows ids [] = []
locked_rows ids (r ∷ rs) = if contains r.id ids then r ∷ locked_rows ids rs else locked_rows ids rs

-- Does `where: { id, version }` select a row?
unfoldable pub selects : ℕ → ℕ → List ProductRow → Bool
selects p v [] = false
selects p v (r ∷ rs) = (r.id == p && r.version == v) || selects p v rs

unfoldable pub decrement_row : ℕ → ℕ → ℕ → ProductRow → ProductRow
decrement_row p v q r =
    if r.id == p && r.version == v
    then record r { stock = minus r.stock q; version = r.version + 1 }
    else r

module _ {D : Type 0} where
  unfoldable pub lock_products_for_update : List ℕ → Tx D (List ProductRow)
  lock_products_for_update ids db = (ok (locked_rows ids db.products), db)

  unfoldable pub decrement_product_stock : ℕ → ℕ → ℕ → Tx D Bool
  decrement_product_stock p v q db =
      (ok (selects p v db.products), record db { products = map (decrement_row p v q) db.products })

  -- `persistTypedEvents` for one event.
  unfoldable pub persist_product_event : DomainEvent → ℕ → Tx D (Unit {0})
  persist_product_event e v db =
      (ok tt, record db { outbox = db.outbox ++ record { event = e; source_version = v } ∷ [] })

-- What a successful chain says of its first step.
continue-eq-ok :
    {D A B : Type 0} (m : Tx D A) (f : A → Tx D B) (db mid db' : Db D) (r : Result A) {b : B}
    → m db ≡ (r, mid)
    → continue f r mid ≡ (ok b, db')
    → (a : A) × (mid : Db D) × (m db ≡ (ok a, mid)) × (f a mid ≡ (ok b, db'))
continue-eq-ok m f db mid db' (ok a) e h = (a, mid, e, h)
continue-eq-ok m f db mid db' (err x) e h = cc

pub >>=-eq-ok :
    {D A B : Type 0} (m : Tx D A) (f : A → Tx D B) (db db' : Db D) {b : B}
    → (m >>= f) db ≡ (ok b, db')
    → (a : A) × (mid : Db D) × (m db ≡ (ok a, mid)) × (f a mid ≡ (ok b, db'))
>>=-eq-ok m f db db' h = continue-eq-ok m f db (m db).1 db' (m db).0 refl h
