-- ===== src/Users/User/History.antt =====
-- src/modules/users/domain/user.entity.ts: the user against the events that it has raised.
use mathlib.Core.List.{append-nil, append_assoc}
use tri_ad_backend.Base.{
  ◌≡◌, refl, sym, ap, ◌∙◌, Bool, true, false, Option, none, some, List, [], ◌∷◌, ◌++◌, arith,
}
use tri_ad_backend.Shared.Text.{Text}
use tri_ad_backend.Shared.ValueObjects.{new_phone_number}
use tri_ad_backend.Shared.Aggregate.{raise}
use tri_ad_backend.Shared.Events.{
  DomainEvent, user_email_verified, user_two_factor_enabled, user_two_factor_disabled,
}
use tri_ad_backend.Shared.Errors.{Result, ok, err}
use tri_ad_backend.Users.User.{
  User, with_event, is_set, set_hashed_password, verify, start_enabling_2fa, confirm_2fa,
  disable_2fa, with_names, with_phone, phone_assigned, update_profile,
}

-- From a state the events lead to another: an address is verified at most once, and two-factor logins
-- are switched on and off in turns.
abbrev pub Follows : Bool → Bool → List DomainEvent → Bool → Bool → Type 0
Follows verified enabled [] verified' enabled' = (verified ≡ verified') × (enabled ≡ enabled')
Follows verified enabled (user_email_verified i ∷ es) verified' enabled' =
    (verified ≡ false) × Follows true enabled es verified' enabled'
Follows verified enabled (user_two_factor_enabled i ∷ es) verified' enabled' =
    (enabled ≡ false) × Follows verified true es verified' enabled'
Follows verified enabled (user_two_factor_disabled i ∷ es) verified' enabled' =
    (enabled ≡ true) × Follows verified false es verified' enabled'
Follows verified enabled (_ ∷ es) verified' enabled' =
    Follows verified enabled es verified' enabled'

-- The calls that a client can make on a user.
pub data Call : Type 0 where
  verifies confirms disables : Call
  sets_password starts : Text → Call
  updates : (first last phone : Option Text) → Call

abbrev after : User → Result User → User
after u (ok u') = u'
after u (err e) = u

-- The user after a call, one that throws included.
unfoldable pub perform : Call → User → User
perform verifies u = after u (verify u)
perform confirms u = after u (confirm_2fa u)
perform disables u = after u (disable_2fa u)
perform (sets_password hashed) u = set_hashed_password hashed u
perform (starts secret) u = after u (start_enabling_2fa secret u)
perform (updates first last phone) u = (update_profile first last phone u).1

pub run : User → List Call → User
run u [] = u
run u (c ∷ cs) = run (perform c u) cs

-- Whoever has to give a one-time password has a secret.
abbrev pub IsUsable : User → Type 0
IsUsable u = u.is_2fa_enabled ≡ true → is_set u.totp_secret ≡ true

-- `u'` has the identity, the e-mail address and the role of `u`, has raised more events, behind those
-- of `u`, that lead from its state to that of `u'`, and is usable if `u` is.
pub record Develops (u u' : User) : Type 0 where
  pub raised : List DomainEvent
  pub appended : u'.domain_events ≡ u.domain_events ++ raised
  pub follows : Follows u.is_verified u.is_2fa_enabled raised u'.is_verified u'.is_2fa_enabled
  pub same_id : u'.id ≡ u.id
  pub same_email : u'.email ≡ u.email
  pub same_role : u'.role ≡ u.role
  pub usable : IsUsable u → IsUsable u'

Follows-append :
    (v w x a b c : Bool) (es fs : List DomainEvent)
    → Follows v a es w b
    → Follows w b fs x c
    → Follows v a (es ++ fs) x c
Follows-append v w x a b c [] fs (h, k) g = rw (h, k) g
Follows-append v w x a b c (user_email_verified i ∷ es) fs (h, k) g =
    (h, Follows-append true w x a b c es fs k g)
Follows-append v w x a b c (user_two_factor_enabled i ∷ es) fs (h, k) g =
    (h, Follows-append v w x true b c es fs k g)
Follows-append v w x a b c (user_two_factor_disabled i ∷ es) fs (h, k) g =
    (h, Follows-append v w x false b c es fs k g)
Follows-append v w x a b c (_ ∷ es) fs k g = Follows-append v w x a b c es fs k g

-- A user whose state and events are as they were.
Develops-quietly :
    (u u' : User)
    → u'.root ≡ u.root
    → (u'.is_verified ≡ u.is_verified) × (u'.is_2fa_enabled ≡ u.is_2fa_enabled)
    → (u'.email ≡ u.email) × (u'.role ≡ u.role)
    → (IsUsable u → IsUsable u')
    → Develops u u'
Develops-quietly u u' r (v, e) (m, o) s = record {
  raised = [];
  appended = ap (λ x. x.domain_events) r ∙ sym (append-nil u.domain_events);
  follows = (sym v, sym e);
  same_id = ap (λ x. x.id) r;
  same_email = m;
  same_role = o;
  usable = s;
}

Develops-refl : (u : User) → Develops u u
Develops-refl u = Develops-quietly u u refl (refl, refl) (refl, refl) (λ s. s)

Develops-trans : (t u v : User) → Develops t u → Develops u v → Develops t v
Develops-trans t u v x y = record {
  raised = x.raised ++ y.raised;
  appended =
      y.appended
      ∙ ap (λ (l : List DomainEvent). l ++ y.raised) x.appended
      ∙ append_assoc t.domain_events x.raised y.raised;
  follows =
      Follows-append t.is_verified u.is_verified v.is_verified t.is_2fa_enabled u.is_2fa_enabled
        v.is_2fa_enabled x.raised y.raised x.follows y.follows;
  same_id = y.same_id ∙ x.same_id;
  same_email = y.same_email ∙ x.same_email;
  same_role = y.same_role ∙ x.same_role;
  usable = λ h. y.usable (x.usable h);
}

-- A user that has raised one event.
Develops-one :
    (u u' : User) (e : DomainEvent)
    → u'.root ≡ raise e u.root
    → Follows u.is_verified u.is_2fa_enabled (e ∷ []) u'.is_verified u'.is_2fa_enabled
    → (u'.email ≡ u.email) × (u'.role ≡ u.role)
    → (IsUsable u → IsUsable u')
    → Develops u u'
unfolding raise
Develops-one u u' e r f (m, o) s = record {
  raised = e ∷ [];
  appended = rw r refl;
  follows = f;
  same_id = rw r refl;
  same_email = m;
  same_role = o;
  usable = s;
}

verify-Develops : (u u' : User) → verify u ≡ ok u' → Develops u u'
unfolding verify
verify-Develops u u' h =
    let not_yet : u.is_verified ≡ false = ground arith in
    let same : u' ≡ with_event (user_email_verified u.id) (record u { is_verified = true }) =
      ground arith in
    rw same (Develops-one u _ _ refl (not_yet, (refl, refl)) (refl, refl) (λ s. s))

start_enabling_2fa-Develops :
    (secret : Text) (u u' : User) → start_enabling_2fa secret u ≡ ok u' → Develops u u'
unfolding start_enabling_2fa
start_enabling_2fa-Develops secret u u' h =
    let off : u.is_2fa_enabled ≡ false = ground arith in
    let same : u' ≡ record u { totp_secret = some secret } = ground arith in
    rw same (Develops-quietly u _ refl (refl, refl) (refl, refl) (λ s x. cc (x, off)))

confirm_2fa-Develops : (u u' : User) → confirm_2fa u ≡ ok u' → Develops u u'
unfolding confirm_2fa
confirm_2fa-Develops u u' h =
    let off : u.is_2fa_enabled ≡ false = ground arith in
    let has : is_set u.totp_secret ≡ true = ground arith in
    let same : u' ≡ with_event (user_two_factor_enabled u.id) (record u { is_2fa_enabled = true }) =
      ground arith in
    rw same (Develops-one u _ _ refl (off, (refl, refl)) (refl, refl) (λ s x. has))

disable_2fa-Develops : (u u' : User) → disable_2fa u ≡ ok u' → Develops u u'
unfolding disable_2fa
disable_2fa-Develops u u' h =
    let on : u.is_2fa_enabled ≡ true = ground arith in
    let same : u'
        ≡ with_event (user_two_factor_disabled u.id)
            (record u { is_2fa_enabled = false; totp_secret = none }) =
      ground arith in
    rw same (Develops-one u _ _ refl (on, (refl, refl)) (refl, refl) (λ s x. cc x))

with_phone-Develops : (phone : Option Text) (u : User) → Develops u (with_phone phone u).1
with_phone-Develops none u = Develops-refl u
with_phone-Develops (some t) u = assigned (new_phone_number t)
  where
    assigned : (r : Result Text) → Develops u (phone_assigned u r).1
    assigned (ok p) = Develops-quietly u _ refl (refl, refl) (refl, refl) (λ s. s)
    assigned (err e) = Develops-refl u

update_profile-Develops :
    (first last phone : Option Text) (u : User) → Develops u (update_profile first last phone u).1
unfolding update_profile
update_profile-Develops first last phone u =
    Develops-trans u (with_names first last u) _
      (Develops-quietly u _ refl (refl, refl) (refl, refl) (λ s. s))
      (with_phone-Develops phone (with_names first last u))

after-Develops :
    (u : User) (r : Result User)
    → ((u' : User) → r ≡ ok u' → Develops u u')
    → Develops u (after u r)
after-Develops u (ok u') h = h u' refl
after-Develops u (err e) h = Develops-refl u

perform-Develops : (c : Call) (u : User) → Develops u (perform c u)
unfolding perform set_hashed_password
perform-Develops verifies u = after-Develops u (verify u) (verify-Develops u)
perform-Develops confirms u = after-Develops u (confirm_2fa u) (confirm_2fa-Develops u)
perform-Develops disables u = after-Develops u (disable_2fa u) (disable_2fa-Develops u)
perform-Develops (sets_password hashed) u =
    Develops-quietly u _ refl (refl, refl) (refl, refl) (λ s. s)
perform-Develops (starts secret) u =
    after-Develops u (start_enabling_2fa secret u) (start_enabling_2fa-Develops secret u)
perform-Develops (updates first last phone) u = update_profile-Develops first last phone u

-- Whatever calls are made on a user, those that throw included, it keeps its identity, e-mail address
-- and role, its events are only appended to, an address is verified at most once among them and
-- two-factor logins are switched on and off in turns, from the old state to the new, and if two-factor
-- logins imply a secret before, they do so after.
pub run-Develops : (u : User) (cs : List Call) → Develops u (run u cs)
unfolding run
run-Develops u [] = Develops-refl u
run-Develops u (c ∷ cs) =
    Develops-trans u (perform c u) (run (perform c u) cs) (perform-Develops c u)
      (run-Develops (perform c u) cs)
