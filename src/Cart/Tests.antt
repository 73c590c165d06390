-- ===== src/Cart/Tests.antt =====
-- A run of the cart, and its theorem there.
use tri_ad_backend.Base.{◌≡◌, refl, [], ◌∷◌, arith}
use tri_ad_backend.Base.Int.{pos, negsuc}
use tri_ad_backend.Shared.Number.{integer, not_integer, positive_safe, max_safe}
use tri_ad_backend.Shared.Money.{Money, vnd}
use tri_ad_backend.Shared.Errors.{domain, invalid_cart_quantity, err}
use tri_ad_backend.Cart.{Cart, get, add_item, added_item, increase}
use tri_ad_backend.Cart.Replay.{Accounts, adds, updates, removes, clears, run, run-Accounts}

abbrev price : Money
price = record { amount = 90_000; currency = vnd }

-- A cart with two items, of which one is full.
abbrev full : Cart
full = record {
  root = record { id = 1; domain_events = []; version = 0 };
  user_id = 5;
  items =
      record { product_id = 7; product_name = []; unit_price = price; quantity = 2 }
      ∷ record { product_id = 8; product_name = []; unit_price = price; quantity = max_safe }
      ∷ [];
}

-- A quantity beyond the safe integers is refused.
add_beyond : add_item 8 [] price (integer (pos 1)) full ≡ err (domain invalid_cart_quantity)
unfolding add_item added_item increase positive_safe get
add_beyond = refl

run-Accounts_example : Accounts full (
    run full (
      adds 7 [] price (integer (pos 3))
      ∷ updates 8 (integer (pos 4))
      ∷ adds 9 [] price not_integer
      ∷ updates 7 (integer (negsuc 0))
      ∷ removes 7
      ∷ clears
      ∷ []))
unfolding get
run-Accounts_example =
    run-Accounts full _ (refl, omega arith, omega arith, (refl, omega arith, omega arith, tt))
