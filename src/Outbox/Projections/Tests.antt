-- ===== src/Outbox/Projections/Tests.antt =====
-- Writes of snapshots to a small projection.
use tri_ad_backend.Base.{ℕ, ◌≡◌, refl, some, List, [], ◌∷◌, arith}
use tri_ad_backend.Base.Int.{pos}
use tri_ad_backend.Shared.Number.{integer, nonneg_safe}
use tri_ad_backend.Outbox.Projections.{Row, Snapshot, get, write_projection, write_version}
use tri_ad_backend.Outbox.Projections.Order.{quiet}
use tri_ad_backend.Outbox.Projections.Writes.{
  write_projection-swap, write_version-IsDone, IsDone, OnlyGrow,
}

abbrev table : List (Row ℕ)
table = record { key = 1; source_version = 4; columns = 40 } ∷ []

-- The snapshot of order 1 at a version.
abbrev snapshot : ℕ → Snapshot ℕ
snapshot v = record { key = 1; source_version = some (integer (pos v)); columns = v }

write_projection-swap_example :
    get 1 (write_projection quiet (snapshot 6) (write_projection quiet (snapshot 5) table).1).1
    ≡ get 1 (write_projection quiet (snapshot 5) (write_projection quiet (snapshot 6) table).1).1
unfolding nonneg_safe get
write_projection-swap_example =
    write_projection-swap (snapshot 5) (snapshot 6) (integer (pos 5)) (integer (pos 6)) 5 6 table 1
      refl refl refl refl (refl, tt) (λ x y. omega (arith, y))

-- Others do nothing to the table.
grows : OnlyGrow {A = ℕ} quiet
grows = record { keeps = λ n k v rs h. h; keyed = λ n rs i. i }

write_version-IsDone_example : IsDone {A = ℕ} 1 5 (write_version quiet 1 5 50 table)
unfolding get
write_version-IsDone_example = write_version-IsDone quiet 1 5 50 table grows (refl, tt)
