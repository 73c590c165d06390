-- ===== src/Outbox/Maintenance/Selection.antt =====
-- src/core/outbox/outbox-maintenance.service.ts, `normalizeIds`: the ids that a replay selects.
use tri_ad_backend.Base.{
  ◌≡◌, ◌≢◌, refl, sym, ap, ◌∙◌, true, false, List, [], ◌∷◌, map, arith, All, ◌⊎◌, inl, inr,
  if◌then◌else◌, Bool-cases,
}
use mathlib.Core.Path.{subst}
use tri_ad_backend.Shared.Text.{Text, trim, same_text, same_text-eq, same_text_self}
use tri_ad_backend.Outbox.Maintenance.{
  has_text, without_text, set_of, if_filled, trimmed, normalize_ids,
}

-- No text is repeated.
pub AreDistinct : List Text → Type 0
AreDistinct [] = Unit
AreDistinct (t ∷ ts) = (has_text t ts ≡ false) × AreDistinct ts

-- The texts that some ids select: each is one of the ids trimmed, none is empty or repeated, and
-- every id that is not blank is among them.
pub record IsSelection (ids us : List Text) : Type 0 where
  pub given : All (λ t. (t ≢ []) × (has_text t (map trim ids) ≡ true)) us
  pub once : AreDistinct us
  pub complete : All (λ i. (trim i ≡ []) ⊎ (has_text (trim i) us ≡ true)) ids

pub has_text-All :
    (P : Text → Type 0) (t : Text) (ts : List Text) → All P ts → has_text t ts ≡ true → P t
unfolding has_text
has_text-All P t [] a = λ x. cc
has_text-All P t (s ∷ ts) a = elim (Bool-cases (same_text s t)) [
  | inl x ↦ rw x (λ y. subst P (same_text-eq s t x) a.0)
  | inr x ↦ rw x (has_text-All P t ts a.1)
]

without_text-All :
    (P : Text → Type 0) (t : Text) (ts : List Text) → All P ts → All P (without_text t ts)
unfolding without_text
without_text-All P t [] a = tt
without_text-All P t (s ∷ ts) a = elim (Bool-cases (same_text s t)) [
  | inl x ↦ rw x (without_text-All P t ts a.1)
  | inr x ↦ rw x (a.0, without_text-All P t ts a.1)
]

set_of-All : (P : Text → Type 0) (ts : List Text) → All P ts → All P (set_of ts)
unfolding set_of
set_of-All P [] a = tt
set_of-All P (t ∷ ts) a = (a.0, without_text-All P t (set_of ts) (set_of-All P ts a.1))

without_text_absent : (t : Text) (ts : List Text) → has_text t (without_text t ts) ≡ false
unfolding has_text without_text
without_text_absent t [] = refl
without_text_absent t (s ∷ ts) = ground (arith, without_text_absent t ts)

without_text-absent :
    (t u : Text) (ts : List Text) → has_text u ts ≡ false → has_text u (without_text t ts) ≡ false
unfolding has_text without_text
without_text-absent t u [] h = refl
without_text-absent t u (s ∷ ts) h = ground (arith, without_text-absent t u ts)

without_text-AreDistinct :
    (t : Text) (ts : List Text) → AreDistinct ts → AreDistinct (without_text t ts)
unfolding AreDistinct without_text
without_text-AreDistinct t [] a = tt
without_text-AreDistinct t (s ∷ ts) a = elim (Bool-cases (same_text s t)) [
  | inl x ↦ rw x (without_text-AreDistinct t ts a.1)
  | inr x ↦ rw x (without_text-absent t s ts a.0, without_text-AreDistinct t ts a.1)
]

set_of-AreDistinct : (ts : List Text) → AreDistinct (set_of ts)
unfolding AreDistinct set_of
set_of-AreDistinct [] = tt
set_of-AreDistinct (t ∷ ts) = (
  without_text_absent t (set_of ts),
  without_text-AreDistinct t (set_of ts) (set_of-AreDistinct ts),
)

-- Another text stays.
without_text-has_text :
    (t u : Text) (ts : List Text)
    → same_text t u ≡ false
    → has_text u ts ≡ true
    → has_text u (without_text t ts) ≡ true
unfolding has_text without_text
without_text-has_text t u [] d = λ h. h
without_text-has_text t u (s ∷ ts) d = elim (Bool-cases (same_text s t)) [
  | inl x ↦
      let other : same_text s u ≡ false = ap (λ r. same_text r u) (same_text-eq s t x) ∙ d in
      rw (x, other) (without_text-has_text t u ts d)
  | inr x ↦ λ h. ground (arith, x, h, without_text-has_text t u ts d)
]

set_of-has_text : (u : Text) (ts : List Text) → has_text u ts ≡ true → has_text u (set_of ts) ≡ true
unfolding has_text set_of
set_of-has_text u [] h = h
set_of-has_text u (t ∷ ts) h = elim (Bool-cases (same_text t u)) [
  | inl x ↦ rw x refl
  | inr x ↦ rw x (
      without_text-has_text t u (set_of ts) x
        (set_of-has_text u ts (sym (ap (λ b. if b then true else has_text u ts) x) ∙ h)))
]

-- A text that is among some is among more.
more-has_text :
    (s : Text) (ts us : List Text)
    → All (λ t. (t ≢ []) × (has_text t ts ≡ true)) us
    → All (λ t. (t ≢ []) × (has_text t (s ∷ ts) ≡ true)) us
unfolding has_text
more-has_text s ts [] a = tt
more-has_text s ts (u ∷ us) a = ((a.0.0, ground (arith, a.0.1)), more-has_text s ts us a.1)

if_filled-given :
    (t : Text) (ts us : List Text)
    → All (λ t. (t ≢ []) × (has_text t ts ≡ true)) us
    → All (λ u. (u ≢ []) × (has_text u (t ∷ ts) ≡ true)) (if_filled t us)
unfolding if_filled has_text
if_filled-given [] ts us a = more-has_text [] ts us a
if_filled-given (c ∷ t) ts us a =
    ((λ q. cc, rw (same_text_self (c ∷ t)) refl), more-has_text (c ∷ t) ts us a)

trimmed-given :
    (ids : List Text) → All (λ t. (t ≢ []) × (has_text t (map trim ids) ≡ true)) (trimmed ids)
unfolding trimmed
trimmed-given [] = tt
trimmed-given (i ∷ is) = if_filled-given (trim i) (map trim is) (trimmed is) (trimmed-given is)

if_filled_complete : (t : Text) (ts : List Text) → (t ≡ []) ⊎ (has_text t (if_filled t ts) ≡ true)
unfolding if_filled has_text
if_filled_complete [] ts = inl refl
if_filled_complete (c ∷ t) ts = inr (rw (same_text_self (c ∷ t)) refl)

if_filled-has_text :
    (t u : Text) (ts : List Text) → has_text u ts ≡ true → has_text u (if_filled t ts) ≡ true
unfolding if_filled has_text
if_filled-has_text [] u ts h = h
if_filled-has_text (c ∷ t) u ts h = ground arith

among :
    (t : Text) (ts us : List Text)
    → ((u : Text) → has_text u ts ≡ true → has_text u us ≡ true)
    → (t ≡ []) ⊎ (has_text t ts ≡ true)
    → (t ≡ []) ⊎ (has_text t us ≡ true)
among t ts us h (inl e) = inl e
among t ts us h (inr x) = inr (h t x)

trimmed_complete :
    (ids us : List Text)
    → ((t : Text) → has_text t (trimmed ids) ≡ true → has_text t us ≡ true)
    → All (λ i. (trim i ≡ []) ⊎ (has_text (trim i) us ≡ true)) ids
unfolding trimmed
trimmed_complete [] us h = tt
trimmed_complete (i ∷ is) us h = (
  among (trim i) (if_filled (trim i) (trimmed is)) us h (if_filled_complete (trim i) (trimmed is)),
  trimmed_complete is us (λ t x. h t (if_filled-has_text (trim i) t (trimmed is) x)),
)

pub normalize_ids-IsSelection : (ids : List Text) → IsSelection ids (normalize_ids ids)
unfolding normalize_ids
normalize_ids-IsSelection ids = record {
  given = set_of-All _ (trimmed ids) (trimmed-given ids);
  once = set_of-AreDistinct (trimmed ids);
  complete = trimmed_complete ids (set_of (trimmed ids)) (λ t. set_of-has_text t (trimmed ids));
}
