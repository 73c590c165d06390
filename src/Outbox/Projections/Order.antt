-- ===== src/Outbox/Projections/Order.antt =====
-- src/core/outbox/projection-writer.ts: snapshots written in different orders.
use tri_ad_backend.Base.{
  ℕ, ◌≡◌, ◌≢◌, refl, sym, ap, ◌∙◌, true, false, Option, none, some, List, ◌∷◌, ◌==◌, ltb,
  if◌then◌else◌, arith, inl, inr, equal_self, Bool-cases, Option-cases,
}
use mathlib.Core.Path.{subst}
use tri_ad_backend.Outbox.Projections.{Row, returned, get, settled, retry_update, write_version}
use tri_ad_backend.Outbox.Projections.Versions.{
  IsKeyed, any_older-none, any_older-get, update-same, IsKeyed-update, newer, IsWritten, equal-eq,
  updated-get,
}

differ : {m n : ℕ} → m ≡ n → m == n ≡ false → ⊥
differ e x = ground (arith, e, x)

apart : (m n : ℕ) → m ≢ n → (m == n) ≡ false
apart m n d = ground (arith, d)

module _ {A : Type 0} where
  -- A writer that nobody interrupts.
  abbrev pub quiet : ℕ → List (Row A) → List (Row A)
  quiet n rs = rs

  created-IsWritten :
      (k v : ℕ) (a : A) (rs : List (Row A))
      → IsKeyed rs
      → get k rs ≡ none
      → IsWritten k v a rs (returned, record { key = k; source_version = v; columns = a } ∷ rs)
  unfolding get
  created-IsWritten k v a rs i g = record {
    returns = refl;
    gets = λ j. ground (arith, g);
    keyed = (g, i);
  }

  newer-later :
      (k v : ℕ) (a : A) (rs : List (Row A)) (r : Row A)
      → get k rs ≡ some r
      → ltb r.source_version v ≡ true
      → newer k v a (get k rs) ≡ record { key = k; source_version = v; columns = a }
  newer-later k v a rs r g l = ground (arith, g, l)

  kept-IsWritten :
      (k v : ℕ) (a : A) (rs : List (Row A)) (r : Row A)
      → IsKeyed rs
      → get k rs ≡ some r
      → ltb r.source_version v ≡ false
      → IsWritten k v a rs (settled v (get k rs), rs)
  kept-IsWritten k v a rs r i g l = record {
    returns = ground (arith, g, l);
    gets = λ j. elim (Bool-cases (k == j)) [
      | inl x ↦ ground (arith, x, g, l, ap (λ m. get m rs) (equal-eq x))
      | inr x ↦ ground (arith, x)
    ];
    keyed = i;
  }

  pub write_version-IsWritten :
      (k v : ℕ) (a : A) (rs : List (Row A))
      → IsKeyed rs
      → IsWritten k v a rs (write_version quiet k v a rs)
  unfolding write_version retry_update
  write_version-IsWritten k v a rs i = elim (Option-cases (get k rs)) [
    | inl g ↦
        let n = any_older-none k v rs g in
        rw (n, update-same k v a rs n, g) (created-IsWritten k v a rs i g)
    | inr (r, g) ↦ elim (Bool-cases (ltb r.source_version v)) [
      | inl l ↦
          let o = any_older-get k v rs r i g ∙ l in
          rw o (record {
            returns = refl;
            gets = λ j.
                updated-get k v a rs r j (get j rs) g l refl
                ∙ ap (λ m. if k == j then some m else get j rs) (sym (newer-later k v a rs r g l));
            keyed = IsKeyed-update k v a rs i;
          })
      | inr l ↦
          let o = any_older-get k v rs r i g ∙ l in
          rw (o, update-same k v a rs o, g, o, update-same k v a rs o)
            (kept-IsWritten k v a rs r i g l)
    ]
  ]

  newer-swap :
      (k v v' : ℕ) (a a' : A) (o : Option (Row A))
      → v ≢ v'
      → newer k v' a' (some (newer k v a o)) ≡ newer k v a (some (newer k v' a' o))
  newer-swap k v v' a a' none d = ground (arith, d)
  newer-swap k v v' a a' (some r) d = ground (arith, d)

  -- What is found for `i` after a snapshot of `k` was written to what `found` gives.
  abbrev pub then_found : ℕ → ℕ → A → (ℕ → Option (Row A)) → ℕ → Option (Row A)
  then_found k v a found i = if k == i then some (newer k v a (found k)) else found i

  then_found-same :
      (k v v' : ℕ) (a a' : A) (found : ℕ → Option (Row A)) (i : ℕ)
      → v ≢ v'
      → then_found k v' a' (then_found k v a found) i
        ≡ then_found k v a (then_found k v' a' found) i
  then_found-same k v v' a a' found i d = rw (equal_self k) (
      rw (newer-swap k v v' a a' (found k) d)
        (elim (Bool-cases (k == i)) [ inl x ↦ rw x refl | inr x ↦ rw x refl ]))

  then_found-apart :
      (k k' v v' : ℕ) (a a' : A) (found : ℕ → Option (Row A)) (i : ℕ)
      → k ≢ k'
      → then_found k' v' a' (then_found k v a found) i
        ≡ then_found k v a (then_found k' v' a' found) i
  then_found-apart k k' v v' a a' found i d =
      rw (apart k k' d, apart k' k (λ e. d (sym e)))
        (elim (Bool-cases (k == i)) [
          | inr x ↦ rw x refl
          | inl x ↦ rw (x, apart k' i (λ e. d (equal-eq x ∙ sym e))) refl
        ])

  -- Two snapshots, written in either order.
  pub write_version-swap :
      (k k' v v' : ℕ) (a a' : A) (rs : List (Row A)) (i : ℕ)
      → IsKeyed rs
      → (k ≡ k' → v ≢ v')
      → get i (write_version quiet k' v' a' (write_version quiet k v a rs).1).1
        ≡ get i (write_version quiet k v a (write_version quiet k' v' a' rs).1).1
  write_version-swap k k' v v' a a' rs i keyed d =
      let one = write_version-IsWritten k v a rs keyed in
      let other = write_version-IsWritten k' v' a' rs keyed in
      let one_other = write_version-IsWritten k' v' a' _ one.keyed in
      let other_one = write_version-IsWritten k v a _ other.keyed in
      let found = λ (j : ℕ). get j rs in
      one_other.gets i
      ∙ rw (one.gets k', one.gets i, other.gets k, other.gets i)
          (elim (Bool-cases (k == k')) [
            | inl x ↦
                subst
                  (λ m.
                    then_found m v' a' (then_found k v a found) i
                    ≡ then_found k v a (then_found m v' a' found) i)
                  (equal-eq x) (then_found-same k v v' a a' found i (d (equal-eq x)))
            | inr x ↦ then_found-apart k k' v v' a a' found i (λ e. differ e x)
          ])
      ∙ sym (other_one.gets i)
