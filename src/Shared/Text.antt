-- ===== src/Shared/Text.antt =====
-- Texts as lists of character codes, with what the value objects of src/shared/value-objects use of
-- JavaScript's strings: white space (`\s` and `trim` agree on it), trimming, and tests by character.
use tri_ad_backend.Base.{
  ℕ, ◌≡◌, refl, Bool, true, false, not, ◌&&◌, ◌||◌, List, [], ◌∷◌, ◌++◌, arith, leb, ◌==◌,
  if◌then◌else◌,
}
use mathlib.Core.List.{reverse, reverse-reverse, reverse-cons}

abbrev pub Text : Type 0
Text = List ℕ

abbrev between : ℕ → ℕ → ℕ → Bool
between lo hi c = leb lo c && leb c hi

-- The characters that `\s` matches: ECMAScript's WhiteSpace and LineTerminator.
unfoldable pub is_space : ℕ → Bool
is_space c =
    between 9 13 c
    || c == 32
    || c == 160
    || c == 0x1680
    || between 0x2000 0x200a c
    || c == 0x2028
    || c == 0x2029
    || c == 0x202f
    || c == 0x205f
    || c == 0x3000
    || c == 0xfeff

unfoldable pub is_digit : ℕ → Bool
is_digit c = between b'0' b'9' c

unfoldable pub is_capital : ℕ → Bool
is_capital c = between b'A' b'Z' c

-- Every character passes the test.
abbrev pub every : (ℕ → Bool) → Text → Bool
every p [] = true
every p (c ∷ t) = p c && every p t

unfoldable pub trim_start : Text → Text
trim_start [] = []
trim_start (c ∷ t) = if is_space c then trim_start t else c ∷ t

unfoldable pub trim : Text → Text
unfolding trim_start
trim t = reverse (trim_start (reverse (trim_start t)))

-- `replace(/[…]/g, "")` for a class of characters.
unfoldable pub remove_all : (ℕ → Bool) → Text → Text
remove_all p [] = []
remove_all p (c ∷ t) = if p c then remove_all p t else c ∷ remove_all p t

-- `replace(/\s+/g, " ")`; the flag says whether the run before has been written already.
unfoldable pub collapse_from : Bool → Text → Text
collapse_from seen [] = []
collapse_from true (c ∷ t) = if is_space c then collapse_from true t else c ∷ collapse_from false t
collapse_from false (c ∷ t) =
    if is_space c then 32 ∷ collapse_from true t else c ∷ collapse_from false t

unfoldable pub collapse_spaces : Text → Text
unfolding collapse_from
collapse_spaces t = collapse_from false t

-- `text1 === text2`
unfoldable pub same_text : Text → Text → Bool
same_text [] [] = true
same_text [] (d ∷ t) = false
same_text (c ∷ s) [] = false
same_text (c ∷ s) (d ∷ t) = c == d && same_text s t

pub same_text-eq : (s t : Text) → same_text s t ≡ true → s ≡ t
unfolding same_text
same_text-eq [] [] h = refl
same_text-eq [] (d ∷ t) h = cc
same_text-eq (c ∷ s) [] h = cc
same_text-eq (c ∷ s) (d ∷ t) h = ground (arith, same_text-eq s t)

pub same_text_self : (t : Text) → same_text t t ≡ true
unfolding same_text
same_text_self [] = refl
same_text_self (c ∷ t) = ground (arith, same_text_self t)

-- What the JavaScript engine supplies: the case mappings of Unicode.
pub record Unicode : Type 0 where
  pub to_lower : Text → Text
  pub to_upper : Text → Text

-- A text whose ends are no white space is left alone by `trim`.
trim_start-every : (t : Text) → every (λ c. not (is_space c)) t ≡ true → trim_start t ≡ t
unfolding trim_start
trim_start-every [] h = refl
trim_start-every (c ∷ t) h = ground arith

every-append :
    (p : ℕ → Bool) (s t : Text) → every p s ≡ true → every p t ≡ true → every p (s ++ t) ≡ true
every-append p [] t hs ht = ht
every-append p (c ∷ s) t hs ht = ground (arith, every-append p s t)

every-reverse : (p : ℕ → Bool) (t : Text) → every p t ≡ true → every p (reverse t) ≡ true
every-reverse p [] h = refl
every-reverse p (c ∷ t) h =
    rw (reverse-cons c t)
      (every-append p (reverse t) (c ∷ []) (every-reverse p t (ground arith)) (ground arith))

pub trim-every : (t : Text) → every (λ c. not (is_space c)) t ≡ true → trim t ≡ t
unfolding trim
trim-every t h =
    rw (trim_start-every t h, trim_start-every (reverse t) (every-reverse _ t h))
      (reverse-reverse t)

pub remove_all-every :
    (p : ℕ → Bool) (t : Text) → every (λ c. not (p c)) t ≡ true → remove_all p t ≡ t
unfolding remove_all
remove_all-every p [] h = refl
remove_all-every p (c ∷ t) h = ground (arith, remove_all-every p t)

pub every_mono :
    (p q : ℕ → Bool)
    → ((c : ℕ) → p c ≡ true → q c ≡ true)
    → (t : Text) → every p t ≡ true
    → every q t ≡ true
every_mono p q h [] e = refl
every_mono p q h (c ∷ t) e = ground (arith, h c, every_mono p q h t)
