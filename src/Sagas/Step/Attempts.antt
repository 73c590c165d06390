-- ===== src/Sagas/Step/Attempts.antt =====
-- src/shared/application/saga/saga-state.ts: what the attempts of a step amount to.
use tri_ad_backend.Base.{
  ℕ, zero, suc, ◌+◌, ◌≤◌, ◌<◌, ◌≡◌, refl, sym, ap, ◌∙◌, Bool, true, false, arith, leb, inl, inr,
  Bool-cases,
}
use tri_ad_backend.Shared.Errors.{Error, other, Result, ok, err, Result-cases}
use tri_ad_backend.Sagas.Step.{Pace, race, or_next, last_error, attempts_from, execute_saga_step}

or_next-ok :
    {W A : Type 0} (out rest : Result A × W) (a : A) → out.0 ≡ ok a → or_next out rest ≡ out
unfolding or_next
or_next-ok (ok x, w) rest a h = refl
or_next-ok (err e, w) rest a h = cc

or_next-err :
    {W A : Type 0} (out rest : Result A × W) (e : Error) → out.0 ≡ err e → or_next out rest ≡ rest
unfolding or_next
or_next-err (ok x, w) rest e h = cc
or_next-err (err x, w) rest e h = refl

module _ {W A : Type 0} (operation : W → Result A × W) where
  -- The world after the operation has run some times.
  unfoldable pub times : ℕ → W → W
  times zero w = w
  times (suc n) w = times n (operation w).1

  -- The runs, the last one set apart.
  pub times_last : (n : ℕ) (w : W) → times (suc n) w ≡ (operation (times n w)).1
  unfolding times
  times_last zero w = refl
  times_last (suc n) w = times_last n (operation w).1

times-keeps {κ} :
    {W A : Type 0} (operation : W → Result A × W) (P : W → Type κ)
    → ((w : W) → P w → P (operation w).1)
    → (n : ℕ) (w : W) → P w
    → P (times operation n w)
unfolding times
times-keeps operation P keep zero w p = p
times-keeps operation P keep (suc n) w p = times-keeps operation P keep n (operation w).1 (keep w p)

module _ {W A : Type 0} (operation : W → Result A × W) (pace : Pace) (deadline : ℕ) where
  -- What the attempts from number `k` on come to: `ran` of at most `n` were made, the last of them
  -- in time and successful if the step is.
  pub record Outcome (n k : ℕ) (w : W) (r : Result A) (w' : W) : Type 0 where
    pub ran : ℕ
    pub bounded : ran ≤ n
    pub world : w' ≡ times operation ran w
    pub succeeded :
        (a : A)
        → r ≡ ok a
        → (j : ℕ) × (ran ≡ suc j)
          × ((operation (times operation j w)).0 ≡ ok a)
          × (pace.late (k + j) ≡ false)
          × (pace.now (k + j) < deadline)

  race-world : (b : Bool) (out : Result A × W) → (race b out).1 ≡ out.1
  unfolding race
  race-world true (r, w) = refl
  race-world false out = refl

  race-ok :
      (b : Bool) (out : Result A × W) (a : A) → (race b out).0 ≡ ok a → (b ≡ false) × (out.0 ≡ ok a)
  unfolding race
  race-ok true (r, w) a h = cc
  race-ok false out a h = (refl, h)

  attempts_from-Outcome :
      (n k : ℕ) (last : Error) (w : W)
      → let out = attempts_from operation pace deadline n k last w in Outcome n k w out.0 out.1
  unfolding attempts_from times
  attempts_from-Outcome zero k last w = record {
    ran = 0;
    bounded = omega arith;
    world = refl;
    succeeded = λ a h. cc;
  }
  attempts_from-Outcome (suc n) k last w = elim (Bool-cases (leb deadline (pace.now k))) [
    | inl e ↦ rw e (record { ran = 0; bounded = omega arith; world = refl; succeeded = λ a h. cc })
    | inr e ↦
        let out = race (pace.late k) (operation w) in
        let ran = race-world (pace.late k) (operation w) in
        let rest = attempts_from operation pace deadline n (suc k) (last_error last out) out.1 in
        elim (Result-cases out.0) [
          | inl (a, f) ↦
              rw (e, or_next-ok out rest a f)
                (record {
                  ran = 1;
                  bounded = omega arith;
                  world = ran;
                  succeeded = λ b h.
                      (let (late, done) = race-ok (pace.late k) (operation w) b h in
                        let same : k + 0 ≡ k = omega arith in
                        (0, refl, done, rw same late, rw same (ground arith)));
                })
          | inr (x, f) ↦
              let ih = attempts_from-Outcome n (suc k) (last_error last out) out.1 in
              rw (e, or_next-err out rest x f)
                (record {
                  ran = suc ih.ran;
                  bounded = omega (arith, ih.bounded);
                  world = ih.world ∙ ap (times operation ih.ran) ran;
                  succeeded = λ b h.
                      (let (j, r, done, late, before) = ih.succeeded b h in
                        let same : k + suc j ≡ suc k + j = omega arith in
                        (suc j, ap suc r, rw (← ran) done, rw same late, rw same before));
                })
        ]
  ]

  -- A step of a saga runs its operation at most as often as its policy allows, and the world that is
  -- left is the one that these runs give, those that the timer cut off included. If the step
  -- succeeds, the last of them gave its result, before the timer and begun before the deadline.
  pub execute_saga_step-Outcome :
      (max_attempts : ℕ) (w : W)
      → let out = execute_saga_step operation max_attempts pace deadline w in
        Outcome max_attempts 0 w out.0 out.1
  unfolding execute_saga_step
  execute_saga_step-Outcome max_attempts w = attempts_from-Outcome max_attempts 0 (other 0) w

-- A step keeps what its operation keeps; if it succeeds, its result is that of a run of the operation
-- on a world for which this held.
pub execute_saga_step-keeps {κ} :
    {W A : Type 0} (operation : W → Result A × W) (P : W → Type κ)
    → ((w : W) → P w → P (operation w).1)
    → (max_attempts : ℕ) (pace : Pace) (deadline : ℕ) (w : W) → P w
    → let out = execute_saga_step operation max_attempts pace deadline w in
      P out.1 × ((a : A) → out.0 ≡ ok a → (v : W) × P v × (operation v ≡ (ok a, out.1)))
execute_saga_step-keeps operation P keep max_attempts pace deadline w p =
    let out = execute_saga_step operation max_attempts pace deadline w in
    let oc = execute_saga_step-Outcome operation pace deadline max_attempts w in
    (
      rw oc.world (times-keeps operation P keep oc.ran w p),
      λ a h.
          (let (j, r, done, late, before) = oc.succeeded a h in
            let v = times operation j w in
            let world : out.1 ≡ (operation v).1 =
              oc.world ∙ ap (λ (n : ℕ). times operation n w) r ∙ times_last operation j w in
            (v, times-keeps operation P keep j w p, λ i. (done i, sym world i))),
    )
