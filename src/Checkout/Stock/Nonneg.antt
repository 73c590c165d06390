-- ===== src/Checkout/Stock/Nonneg.antt =====
-- src/modules/checkout/services/stock-reservation.service.ts: the sign of the stocks.
use tri_ad_backend.Base.{
  ℕ, ◌≤◌, ◌≡◌, ◌≢◌, refl, ap, false, ◌&&◌, none, some, List, [], ◌∷◌, map, arith, ◌==◌, All,
  Bool-cases, Option-cases, inl, inr,
}
use tri_ad_backend.Base.Int.{ℤ, pos, negsuc}
use tri_ad_backend.Shared.Errors.{ok}
use tri_ad_backend.Checkout.Db.{
  Db, ProductRow, CartRow, minus, locked_rows, decrement_row, >>=-eq-ok,
}
use tri_ad_backend.Checkout.Stock.{
  find_product, positive, is_short, check_item, check_items, quantity, take_item, take_items,
  reserve_stock,
}
use tri_ad_backend.Checkout.Stock.Reservation.{IsKeyed, take_item_lem, reserve_stock_steps}

abbrev pub IsNonneg : ProductRow → Type 0
IsNonneg r = is_short r.stock 0 ≡ false

-- A row against its locked copy: at the same version it has the same stock.
abbrev IsFresh : List ProductRow → ProductRow → Type 0
IsFresh locked r =
    (c : ProductRow)
    → find_product r.id locked ≡ some c
    → (c.version ≤ r.version) × (c.version ≡ r.version → c.stock ≡ r.stock)

minus-nonneg : (z : ℤ) (q : ℕ) → is_short z q ≡ false → is_short (minus z q) 0 ≡ false
unfolding is_short
minus-nonneg (pos n) q h = ground arith
minus-nonneg (negsuc n) q h = cc

check_item_lem :
    (locked : List ProductRow) (i : CartRow) (c : ProductRow)
    → check_item locked i ≡ ok tt
    → find_product i.product_id locked ≡ some c
    → is_short c.stock (quantity i) ≡ false
unfolding check_item positive
check_item_lem locked i c h e = ground arith

-- One decrement at the locked version keeps a row fresh and its stock non-negative.
decrement_row-keeps :
    (locked : List ProductRow) (i : CartRow) (c r : ProductRow)
    → find_product i.product_id locked ≡ some c
    → is_short c.stock (quantity i) ≡ false
    → IsFresh locked r
    → IsNonneg r
    → IsFresh locked (decrement_row i.product_id c.version (quantity i) r)
      × IsNonneg (decrement_row i.product_id c.version (quantity i) r)
unfolding decrement_row
decrement_row-keeps locked i c r e s f n =
    elim (Bool-cases (r.id == i.product_id && r.version == c.version)) [
      | inr miss ↦ rw miss (f, n)
      | inl hit ↦
          let id : r.id ≡ i.product_id = ground arith in
          let version : c.version ≡ r.version = ground arith in
          let stock : c.stock ≡ r.stock = (f c (rw id e)).1 version in
          let enough : is_short r.stock (quantity i) ≡ false = rw (← stock) s in
          rw hit (
            (λ c' e'.
                let found : find_product r.id locked ≡ some c = rw id e in
                let same : c' ≡ c = cc (e', found) in
                rw (same, version) (omega arith, λ x. absurd (omega arith))),
            minus-nonneg r.stock (quantity i) enough,
          )
    ]

decrement_rows-keep :
    (locked : List ProductRow) (i : CartRow) (c : ProductRow) (rs : List ProductRow)
    → find_product i.product_id locked ≡ some c
    → is_short c.stock (quantity i) ≡ false
    → All (IsFresh locked) rs
    → All IsNonneg rs
    → All (IsFresh locked) (map (decrement_row i.product_id c.version (quantity i)) rs)
      × All IsNonneg (map (decrement_row i.product_id c.version (quantity i)) rs)
decrement_rows-keep locked i c [] e s f n = (tt, tt)
decrement_rows-keep locked i c (r ∷ rs) e s f n =
    let (fresh, nonneg) = decrement_row-keeps locked i c r e s f.0 n.0 in
    let (fresh', nonneg') = decrement_rows-keep locked i c rs e s f.1 n.1 in
    ((fresh, fresh'), (nonneg, nonneg'))

-- A row of a keyed table is what its id finds.
find_product-ne : (p : ℕ) (rs : List ProductRow) → find_product p rs ≡ none → All (λ r. r.id ≢ p) rs
unfolding find_product
find_product-ne p [] h = tt
find_product-ne p (r ∷ rs) h = ((λ e. ground arith), find_product-ne p rs (ground arith))

abbrev Finds : List ProductRow → ProductRow → Type 0
Finds rs r = find_product r.id rs ≡ some r

cons-Finds :
    (x : ProductRow) (all rs : List ProductRow)
    → All (λ r. r.id ≢ x.id) rs
    → All (Finds all) rs
    → All (Finds (x ∷ all)) rs
unfolding find_product
cons-Finds x all [] n f = tt
cons-Finds x all (r ∷ rs) n f = (ground (arith, n.0), cons-Finds x all rs n.1 f.1)

All-Finds : (rs : List ProductRow) → IsKeyed rs → All (Finds rs) rs
All-Finds [] k = tt
All-Finds (r ∷ rs) k = (
  unfold find_product in ground arith,
  cons-Finds r rs rs (find_product-ne r.id rs k.0) (All-Finds rs k.1),
)

find_product-locked :
    (p : ℕ) (ids : List ℕ) (rs : List ProductRow) (c : ProductRow)
    → IsKeyed rs
    → find_product p (locked_rows ids rs) ≡ some c
    → find_product p rs ≡ some c
unfolding find_product locked_rows
find_product-locked p ids [] c k h = h
find_product-locked p ids (r ∷ rs) c k h = ground (arith, find_product-locked p ids rs c k.1, k.0)

locked-IsFresh :
    (ids : List ℕ) (all rs : List ProductRow)
    → IsKeyed all
    → All (Finds all) rs
    → All (IsFresh (locked_rows ids all)) rs
locked-IsFresh ids all [] k f = tt
locked-IsFresh ids all (r ∷ rs) k f = (
  (λ c e.
      let same : r ≡ c = cc (f.0, find_product-locked r.id ids all c k e) in
      rw same (omega arith, λ x. refl)),
  locked-IsFresh ids all rs k f.1,
)

module _ {D : Type 0} where
  take_items-IsNonneg :
      (locked : List ProductRow) (is : List CartRow) (db db' : Db D)
      → check_items locked is ≡ ok tt
      → All (IsFresh locked) db.products
      → All IsNonneg db.products
      → take_items locked is db ≡ (ok tt, db')
      → All IsNonneg db'.products
  unfolding take_items
  take_items-IsNonneg locked [] db db' c f n h = let e : db ≡ db' = ground arith in rw (← e) n
  take_items-IsNonneg locked (i ∷ is) db db' c f n h =
      elim (Option-cases (find_product i.product_id locked)) [
        | inl e ↦ absurd (ground arith)
        | inr (r, e) ↦
            let (u, mid, taken, rest) =
              >>=-eq-ok (take_item i r) (λ _. take_items locked is) db db' (rw e at h) in
            let (hit, m) = take_item_lem i r db mid taken in
            let checked : check_item locked i ≡ ok tt = unfold check_items in ground arith in
            let others : check_items locked is ≡ ok tt = unfold check_items in ground arith in
            let (fresh, nonneg) =
              decrement_rows-keep locked i r db.products e (check_item_lem locked i r checked e) f
                n in
            let products = ap (λ (d : Db D). d.products) m in
            take_items-IsNonneg locked is mid db' others (rw products fresh) (rw products nonneg)
              rest
      ]

  -- If no stock is negative before a reservation that succeeds, none is after it.
  pub reserve_stock-IsNonneg :
      (items : List CartRow) (locked : List ProductRow) (db db' : Db D)
      → IsKeyed db.products
      → All IsNonneg db.products
      → reserve_stock items db ≡ (ok locked, db')
      → All IsNonneg db'.products
  reserve_stock-IsNonneg items locked db db' k n h =
      let (some_items, rows, checked, taken) = reserve_stock_steps items locked db db' h in
      let ids = map (λ (i : CartRow). i.product_id) items in
      let fresh = locked-IsFresh ids db.products db.products k (All-Finds db.products k) in
      take_items-IsNonneg locked items db db' checked (rw rows fresh) n taken
