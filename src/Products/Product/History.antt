-- ===== src/Products/Product/History.antt =====
-- src/modules/products/domain/product.entity.ts: the product against the events that it has raised.
use mathlib.Core.List.{append-nil, append_assoc}
use tri_ad_backend.Base.{
  ℕ, ◌+◌, ◌-◌, ◌≤◌, ◌≡◌, refl, sym, ap, ◌∙◌, Bool, true, false, List, [], ◌∷◌, ◌++◌, arith, ◌==◌,
  Bool-cases, Option-cases, inl, inr,
}
use tri_ad_backend.Shared.Number.{Number, positive_safe, max_safe}
use tri_ad_backend.Shared.Money.{Money}
use tri_ad_backend.Shared.Aggregate.{raise}
use tri_ad_backend.Shared.Events.{
  DomainEvent, product_activated, product_deactivated, product_price_changed, product_restocked,
}
use tri_ad_backend.Shared.Errors.{Result, ok, err}
use tri_ad_backend.Products.Product.{
  Product, with_event, mark_updated, mark_created, change_price, depleted, reduce_stock,
  increase_stock, activate, deactivate,
}

-- From a price and a state of activation the events lead to others: each price change starts at the
-- price before it, and activations and deactivations take turns.
abbrev pub Follows : ℕ → Bool → List DomainEvent → ℕ → Bool → Type 0
Follows price active [] price' active' = (price ≡ price') × (active ≡ active')
Follows price active (product_price_changed p old new ∷ es) price' active' =
    (price ≡ old) × Follows new active es price' active'
Follows price active (product_activated p ∷ es) price' active' =
    (active ≡ false) × Follows price true es price' active'
Follows price active (product_deactivated p ∷ es) price' active' =
    (active ≡ true) × Follows price false es price' active'
Follows price active (_ ∷ es) price' active' = Follows price active es price' active'

-- The calls that a client can make on a product.
pub data Call : Type 0 where
  updates creates activates deactivates : Call
  changes_price : Money → Call
  reduces increases : Number → Call

abbrev after : Product → Result Product → Product
after p (ok p') = p'
after p (err e) = p

-- The product after a call; one that throws leaves it as it was.
unfoldable pub perform : Call → Product → Product
perform updates p = mark_updated p
perform creates p = mark_created p
perform activates p = after p (activate p)
perform deactivates p = after p (deactivate p)
perform (changes_price m) p = change_price m p
perform (reduces n) p = after p (reduce_stock n p)
perform (increases n) p = after p (increase_stock n p)

unfoldable pub run : Product → List Call → Product
run p [] = p
run p (c ∷ cs) = run (perform c p) cs

-- `p'` has the identity and the stored version of `p`, has raised more events, behind those of `p`,
-- that lead from its price and activation to those of `p'`, and has a safe stock if `p` has.
pub record Grows (p p' : Product) : Type 0 where
  pub raised : List DomainEvent
  pub appended : p'.domain_events ≡ p.domain_events ++ raised
  pub follows : Follows p.price.amount p.is_active raised p'.price.amount p'.is_active
  pub same_id : p'.id ≡ p.id
  pub same_version : p'.version ≡ p.version
  pub safe : p.stock ≤ max_safe → p'.stock ≤ max_safe

Follows-append :
    (x y z : ℕ) (a b c : Bool) (es fs : List DomainEvent)
    → Follows x a es y b
    → Follows y b fs z c
    → Follows x a (es ++ fs) z c
Follows-append x y z a b c [] fs (h, k) g = rw (h, k) g
Follows-append x y z a b c (product_price_changed p old new ∷ es) fs (h, k) g =
    (h, Follows-append new y z a b c es fs k g)
Follows-append x y z a b c (product_activated p ∷ es) fs (h, k) g =
    (h, Follows-append x y z true b c es fs k g)
Follows-append x y z a b c (product_deactivated p ∷ es) fs (h, k) g =
    (h, Follows-append x y z false b c es fs k g)
Follows-append x y z a b c (_ ∷ es) fs k g = Follows-append x y z a b c es fs k g

Grows-refl : (p : Product) → Grows p p
Grows-refl p = record {
  raised = [];
  appended = sym (append-nil p.domain_events);
  follows = (refl, refl);
  same_id = refl;
  same_version = refl;
  safe = λ h. h;
}

Grows-trans : (p q r : Product) → Grows p q → Grows q r → Grows p r
Grows-trans p q r x y = record {
  raised = x.raised ++ y.raised;
  appended =
      y.appended
      ∙ ap (λ (l : List DomainEvent). l ++ y.raised) x.appended
      ∙ append_assoc p.domain_events x.raised y.raised;
  follows =
      Follows-append p.price.amount q.price.amount r.price.amount p.is_active q.is_active
        r.is_active x.raised y.raised x.follows y.follows;
  same_id = y.same_id ∙ x.same_id;
  same_version = y.same_version ∙ x.same_version;
  safe = λ h. y.safe (x.safe h);
}

-- A product that has raised one event.
Grows-one :
    (p p' : Product) (e : DomainEvent)
    → p'.root ≡ raise e p.root
    → Follows p.price.amount p.is_active (e ∷ []) p'.price.amount p'.is_active
    → (p.stock ≤ max_safe → p'.stock ≤ max_safe)
    → Grows p p'
unfolding raise
Grows-one p p' e r f s = record {
  raised = e ∷ [];
  appended = rw r refl;
  follows = f;
  same_id = rw r refl;
  same_version = rw r refl;
  safe = s;
}

-- A product with less stock.
Grows-less : (p : Product) (k : ℕ) → Grows p (record p { stock = p.stock - k })
Grows-less p k = record {
  raised = [];
  appended = sym (append-nil p.domain_events);
  follows = (refl, refl);
  same_id = refl;
  same_version = refl;
  safe = λ h. omega arith;
}

depleted-Grows : (p : Product) → Grows p (depleted p)
unfolding depleted
depleted-Grows p = elim (Bool-cases (p.stock == 0)) [
  | inl e ↦ rw e (Grows-one p _ _ refl (refl, refl) (λ h. h))
  | inr e ↦ rw e (Grows-refl p)
]

reduce_stock-Grows : (n : Number) (p p' : Product) → reduce_stock n p ≡ ok p' → Grows p p'
unfolding reduce_stock
reduce_stock-Grows n p p' h = elim (Option-cases (positive_safe n)) [
  | inl e ↦ absurd (ground arith)
  | inr (q, e) ↦
      let left : Product = record p { stock = p.stock - q } in
      let same : p' ≡ depleted left = ground arith in
      rw same (Grows-trans p left (depleted left) (Grows-less p q) (depleted-Grows left))
]

increase_stock-Grows : (n : Number) (p p' : Product) → increase_stock n p ≡ ok p' → Grows p p'
unfolding increase_stock
increase_stock-Grows n p p' h = elim (Option-cases (positive_safe n)) [
  | inl e ↦ absurd (ground arith)
  | inr (q, e) ↦
      let grown : Product =
        with_event (product_restocked p.id q (p.stock + q)) (record p { stock = p.stock + q }) in
      let same : p' ≡ grown = ground arith in
      let bound : p.stock + q ≤ max_safe = ground arith in
      rw same (Grows-one p grown _ refl (refl, refl) (λ h. bound))
]

activate-Grows : (p p' : Product) → activate p ≡ ok p' → Grows p p'
unfolding activate
activate-Grows p p' h =
    let off : p.is_active ≡ false = ground arith in
    let same : p' ≡ with_event (product_activated p.id) (record p { is_active = true }) =
      ground arith in
    rw same (Grows-one p _ _ refl (off, (refl, refl)) (λ s. s))

deactivate-Grows : (p p' : Product) → deactivate p ≡ ok p' → Grows p p'
unfolding deactivate
deactivate-Grows p p' h =
    let on : p.is_active ≡ true = ground arith in
    let same : p' ≡ with_event (product_deactivated p.id) (record p { is_active = false }) =
      ground arith in
    rw same (Grows-one p _ _ refl (on, (refl, refl)) (λ s. s))

change_price-Grows : (m : Money) (p : Product) → Grows p (change_price m p)
unfolding change_price
change_price-Grows m p = elim (Bool-cases (m.amount == p.price.amount)) [
  | inl e ↦ rw e (Grows-refl p)
  | inr e ↦ rw e (Grows-one p _ _ refl (refl, (refl, refl)) (λ s. s))
]

after-Grows :
    (p : Product) (r : Result Product)
    → ((p' : Product) → r ≡ ok p' → Grows p p')
    → Grows p (after p r)
after-Grows p (ok p') h = h p' refl
after-Grows p (err e) h = Grows-refl p

perform-Grows : (c : Call) (p : Product) → Grows p (perform c p)
unfolding perform mark_updated mark_created
perform-Grows updates p = Grows-one p _ _ refl (refl, refl) (λ s. s)
perform-Grows creates p = Grows-one p _ _ refl (refl, refl) (λ s. s)
perform-Grows activates p = after-Grows p (activate p) (activate-Grows p)
perform-Grows deactivates p = after-Grows p (deactivate p) (deactivate-Grows p)
perform-Grows (changes_price m) p = change_price-Grows m p
perform-Grows (reduces n) p = after-Grows p (reduce_stock n p) (reduce_stock-Grows n p)
perform-Grows (increases n) p = after-Grows p (increase_stock n p) (increase_stock-Grows n p)

-- Whatever calls are made on a product, those that throw included, it keeps its identity and stored
-- version, its events are only appended to, the price changes among the new events form a chain from
-- the old price to the new, activations and deactivations among them take turns from the old state to
-- the new, and a safe stock stays safe.
pub run-Grows : (p : Product) (cs : List Call) → Grows p (run p cs)
unfolding run
run-Grows p [] = Grows-refl p
run-Grows p (c ∷ cs) =
    Grows-trans p (perform c p) (run (perform c p) cs) (perform-Grows c p)
      (run-Grows (perform c p) cs)
