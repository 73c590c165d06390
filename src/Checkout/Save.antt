-- ===== src/Checkout/Save.antt =====
-- src/modules/checkout/infrastructure/prisma-checkout-unit-of-work.ts: storing the new order,
-- clearing the cart, and the unit of work.
use tri_ad_backend.Base.{
  ℕ, Bool, true, false, ◌&&◌, ◌||◌, Option, none, some, List, [], ◌∷◌, ◌++◌, ◌==◌, if◌then◌else◌,
}
use tri_ad_backend.Shared.Events.{DomainEvent}
use tri_ad_backend.Shared.Aggregate.{pull_events}
use tri_ad_backend.Shared.Errors.{
  application, idempotency_conflict, conflict, other, Result, ok, err, throw_if,
}
use tri_ad_backend.Orders.Order.{Order, subtotal, total}
use tri_ad_backend.Shared.Text.{same_text}
use tri_ad_backend.Checkout.Db.{Db, Tx, CartRow, OrderRow, EventRow, lift, ◌>>=◌, ◌>>◌}

abbrev pub same_key : Option ℕ → ℕ → Bool
same_key none k = false
same_key (some j) k = j == k

-- `findOrderByIdempotencyKey`
unfoldable pub find_by_key : ℕ → ℕ → List OrderRow → Option OrderRow
find_by_key user k [] = none
find_by_key user k (r ∷ rs) =
    if r.order.user_id == user && same_key r.idempotency_key k
    then some r
    else find_by_key user k rs

-- `findOrderWithItems`
unfoldable pub find_by_id : ℕ → List OrderRow → Option OrderRow
find_by_id i [] = none
find_by_id i (r ∷ rs) = if r.order.id == i then some r else find_by_id i rs

-- The index on the user and the key: does it refuse a row? Rows without a key are free of it.
unfoldable pub key_taken : ℕ → Option ℕ → List OrderRow → Bool
key_taken user none rs = false
key_taken user (some k) rs = elim (find_by_key user k rs) [ none ↦ false | some r ↦ true ]

unfoldable pub number_taken : Order → List OrderRow → Bool
number_taken o [] = false
number_taken o (r ∷ rs) = same_text r.order.order_number o.order_number || number_taken o rs

-- The primary key and the index on the order number.
unfoldable pub id_taken : Order → List OrderRow → Bool
id_taken o rs = elim (find_by_id o.id rs) [ none ↦ false | some r ↦ true ]

-- The outbox rows of the events of an aggregate at a source version.
unfoldable pub event_rows : ℕ → List DomainEvent → List EventRow
event_rows v [] = []
event_rows v (e ∷ es) = record { event = e; source_version = v } ∷ event_rows v es

-- The order as the call leaves it: `persistDomainEvents` has pulled its events.
abbrev pub pulled : Order → Order
pulled o = record o { root = (pull_events o.root).1 }

unfoldable pub other_carts : ℕ → List CartRow → List CartRow
other_carts c [] = []
other_carts c (i ∷ is) = if i.cart_id == c then other_carts c is else i ∷ other_carts c is

module _ {D : Type 0} where
  -- `saveNewOrder`, with the order as it is then. A violated unique index (`P2002`) throws: on the
  -- key `IdempotencyConflictError`, on any other the database's error.
  unfoldable pub save_new_order : Order → Option ℕ → Tx D Order
  save_new_order o key db =
      (do
        sub ← lift (subtotal o)
        tot ← lift (total o)
        lift (throw_if (key_taken o.user_id key db.orders) idempotency_conflict)
        lift (throw_if (id_taken o db.orders || number_taken o db.orders) (other 2002))
        λ db. (
          ok (pulled o),
          record db {
            orders =
                db.orders
                ++ record {
                  order = pulled o;
                  subtotal = sub.amount;
                  total = tot.amount;
                  idempotency_key = key;
                }
                  ∷ [];
            outbox = db.outbox ++ event_rows 0 o.domain_events;
          },
        ))
        db

  unfoldable pub clear_cart_items : ℕ → Tx D (Unit {0})
  clear_cart_items c db = (ok tt, record db { cart_items = other_carts c db.cart_items })

  -- `PrismaCheckoutUnitOfWork.run`: the tables are those after the work if it returns, and those
  -- before it if it throws, or if the database aborts the transaction (`P2034`).
  unfoldable pub commit : {A : Type 0} → Bool → Db D → Result A × Db D → Result A × Db D
  commit true db out = (err (application conflict), db)
  commit false db (ok a, db') = (ok a, db')
  commit false db (err e, db') = (err e, db)

  unfoldable pub run : {A : Type 0} → Bool → Tx D A → Tx D A
  unfolding commit
  run aborts work db = commit aborts db (work db)
