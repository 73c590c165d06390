-- ===== src/Outbox/Projections/Writes.antt =====
-- src/core/outbox/projection-writer.ts: a write among those of others, and writes of snapshots.
use tri_ad_backend.Base.{
  ℕ, ◌≡◌, ◌≢◌, refl, sym, ap, ◌∙◌, true, Option, some, List, ◌∷◌, map, ltb, arith, inl, inr,
  Bool-cases, Option-cases,
}
use tri_ad_backend.Shared.Number.{Number, nonneg_safe}
use tri_ad_backend.Outbox.Projections.{
  Row, Snapshot, Outcome, returned, version_invalid, require_source_version, get, any_older,
  update_row, settled, retry_update, write_version, write_checked, write_projection,
}
use tri_ad_backend.Outbox.Projections.Versions.{
  IsKeyed, Has, any_older-none, any_older-get, get-update, get-key, update-same,
}
use tri_ad_backend.Outbox.Projections.Order.{quiet, write_version-swap}

version-of :
    {n : Number} {v : ℕ} {o : Option Number}
    → o ≡ some n
    → nonneg_safe n ≡ some v
    → require_source_version o ≡ (some v, version_invalid)
version-of {n} e s = ap require_source_version e ∙ ap (λ m. (m, version_invalid)) s

module _ {A : Type 0} where
  -- Two snapshots with safe versions, different if they are of the same key, leave the same rows in
  -- whichever order they are written, one after the other.
  pub write_projection-swap :
      (d d' : Snapshot A) (n n' : Number) (v v' : ℕ) (rs : List (Row A)) (i : ℕ)
      → d.source_version ≡ some n
      → d'.source_version ≡ some n'
      → nonneg_safe n ≡ some v
      → nonneg_safe n' ≡ some v'
      → IsKeyed rs
      → (d.key ≡ d'.key → v ≢ v')
      → get i (write_projection quiet d' (write_projection quiet d rs).1).1
        ≡ get i (write_projection quiet d (write_projection quiet d' rs).1).1
  unfolding write_projection
  write_projection-swap d d' n n' v v' rs i e e' s s' keyed apart =
      let first = version-of e s in
      let second = version-of e' s' in
      ap (λ o. get i (write_checked quiet d' (write_projection quiet d rs).1 o).1) second
      ∙ ap
          (λ o.
            get i
              (write_checked quiet d' (write_checked quiet d rs o).1 (some v', version_invalid)).1)
          first
      ∙ write_version-swap d.key d'.key v v' d.columns d'.columns rs i keyed apart
      ∙ sym (
          ap (λ o. get i (write_checked quiet d (write_projection quiet d' rs).1 o).1) first
          ∙ ap
              (λ o.
                get i
                  (write_checked quiet d (write_checked quiet d' rs o).1
                    (some v, version_invalid)).1)
              second)

  -- What others do to the table between the requests of a writer: they keep rows, and versions only
  -- grow.
  pub record OnlyGrow (others : ℕ → List (Row A) → List (Row A)) : Type 0 where
    pub keeps : (n k v : ℕ) (rs : List (Row A)) → Has k v rs → Has k v (others n rs)
    pub keyed : (n : ℕ) (rs : List (Row A)) → IsKeyed rs → IsKeyed (others n rs)

  -- The version that is there after a write is at least the snapshot's, and the write returns.
  abbrev pub IsDone : ℕ → ℕ → Outcome × List (Row A) → Type 0
  IsDone k v r = (r.0 ≡ returned) × Has k v r.1

  updated-Has :
      (k v : ℕ) (a : A) (rs : List (Row A)) (r : Row A)
      → get k rs ≡ some r
      → r.key ≡ k
      → ltb r.source_version v ≡ true
      → Has k v (map (update_row k v a) rs)
  unfolding update_row
  updated-Has k v a rs r g e l =
      (update_row k v a r, get-update k v a k rs r g, ground (arith, e, l))

  retried :
      (others : ℕ → List (Row A) → List (Row A)) (k v : ℕ) (a : A) (rs : List (Row A)) (r : Row A)
      → OnlyGrow others
      → IsKeyed (others 1 rs)
      → get k (others 1 rs) ≡ some r
      → IsDone k v (retry_update others k v a rs)
  unfolding retry_update
  retried others k v a rs r o i g =
      let older = any_older-get k v (others 1 rs) r i g in
      elim (Bool-cases (ltb r.source_version v)) [
        | inl l ↦
            rw (older ∙ l)
              (refl, updated-Has k v a (others 1 rs) r g (get-key k (others 1 rs) r g) l)
        | inr l ↦
            let same = update-same k v a (others 1 rs) (older ∙ l) in
            rw (older ∙ l, same) (at_last _ (o.keeps 2 k v (others 1 rs) (r, g, ground (arith, l))))
      ]
    where
      at_last : (rs : List (Row A)) → Has k v rs → (settled v (get k rs) ≡ returned) × Has k v rs
      at_last rs (s, g, l) = (ground (arith, g, l), (s, g, l))

  older_updated :
      (k v : ℕ) (a : A) (rs : List (Row A))
      → IsKeyed rs
      → any_older k v rs ≡ true
      → Has k v (map (update_row k v a) rs)
  older_updated k v a rs i x = elim (Option-cases (get k rs)) [
    | inl g ↦ cc (x, any_older-none k v rs g)
    | inr (r, g) ↦
        updated-Has k v a rs r g (get-key k rs r g) (sym (any_older-get k v rs r i g) ∙ x)
  ]

  get-first :
      (k v : ℕ) (a : A) (rs : List (Row A))
      → get k (record { key = k; source_version = v; columns = a } ∷ rs)
        ≡ some (record { key = k; source_version = v; columns = a })
  unfolding get
  get-first k v a rs = ground arith

  -- A write of a snapshot with a version, among writes of others that keep rows and never lower a
  -- version, returns, and leaves a row of the key with at least that version, even if the row is
  -- created by another in between.
  pub write_version-IsDone :
      (others : ℕ → List (Row A) → List (Row A)) (k v : ℕ) (a : A) (rs : List (Row A))
      → OnlyGrow others
      → IsKeyed rs
      → IsDone k v (write_version others k v a rs)
  unfolding write_version
  write_version-IsDone others k v a rs o i = elim (Bool-cases (any_older k v rs)) [
    | inl x ↦ rw x (refl, older_updated k v a rs i x)
    | inr x ↦
        rw (x, update-same k v a rs x)
          (elim (Option-cases (get k (others 0 rs))) [
            | inl g ↦ rw g (
              refl,
              (
                record { key = k; source_version = v; columns = a },
                get-first k v a (others 0 rs),
                omega arith,
              ),
            )
            | inr (r, g) ↦ rw g (
                let (s, h, l) = o.keeps 1 k r.source_version (others 0 rs) (r, g, omega arith) in
                retried others k v a (others 0 rs) s o (o.keyed 1 (others 0 rs) (o.keyed 0 rs i)) h)
          ])
  ]
