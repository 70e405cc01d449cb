-- ===== src/Verify/Redactions/Parts.antt =====
-- What `str.split`, `str.rstrip` and the tests of names do on the parts of a path to a field.
use mathlib.Core.Path.{subst}
use continuity_receipt.Base.{
  ℕ, String, Bool, true, false, not, ◌&&◌, ◌||◌, ◌==◌, List, [], ◌∷◌, ◌++◌, All, str_eq, eq_iff,
  &&_true, member, ◌≡◌, refl, sym, ap, ◌∙◌, arith,
}
use continuity_receipt.Value.Number.{codes}
use continuity_receipt.Value.Number.Decimal.{IsDigit}
use continuity_receipt.Records.{base_fields}
use continuity_receipt.Verify.Redactions.{codes_eq, names_part, split_dots, strip_brackets}
use continuity_receipt.Verify.Redactions.Place.{codes_eq_refl}

-- A text without a dot.
abbrev pub IsDotless : List ℕ → Type 0
IsDotless s = All (λ c. (c == b'.') ≡ false) s

pub split_dots_part : (s : List ℕ) → IsDotless s → split_dots s ≡ (s, [])
unfolding split_dots
split_dots_part [] h = refl
split_dots_part (c ∷ s) h = rw (h.0, split_dots_part s h.1)

pub split_dots-append :
    (s t : List ℕ)
    → IsDotless s
    → split_dots (s ++ b'.' ∷ t) ≡ (s, (split_dots t).0 ∷ (split_dots t).1)
unfolding split_dots
split_dots-append [] t h = refl
split_dots-append (c ∷ s) t h = rw (h.0, split_dots-append s t h.1)

pub strip_brackets-append :
    (s : List ℕ) → All (λ c. (c == b']') ≡ false) s → strip_brackets (s ++ b']' ∷ []) ≡ s
unfolding strip_brackets
strip_brackets-append [] h = refl
strip_brackets-append (c ∷ []) h = rw (h.0)
strip_brackets-append (c ∷ d ∷ s) h = rw (strip_brackets-append (d ∷ s) h.1)

or_right : (a b : Bool) → b ≡ true → (a || b) ≡ true
or_right a b h = ground arith

dotless_lem : (b : Bool) → not b ≡ true → b ≡ false
dotless_lem b h = ground arith

pub digit_no_dot : (c : ℕ) → IsDigit c → (c == b'.') ≡ false
digit_no_dot c h = ground arith

pub digit_no_bracket : (c : ℕ) → IsDigit c → (c == b']') ≡ false
digit_no_bracket c h = ground arith

pub All-map {ℓ κ τ} :
    {A : Type ℓ} {P : A → Type κ} {Q : A → Type τ} (f : (a : A) → P a → Q a) (xs : List A)
    → All P xs
    → All Q xs
All-map f [] h = tt
All-map f (x ∷ xs) h = (f x h.0, All-map f xs h.1)

pub All-both {ℓ κ} :
    {A : Type ℓ} (P : A → Type κ) (xs ys : List A) → All P xs → All P ys → All P (xs ++ ys)
All-both P [] ys h k = k
All-both P (x ∷ xs) ys h k = (h.0, All-both P xs ys h.1 k)

pub names_part-member :
    (name : String) (names : List String)
    → member name names ≡ true
    → names_part (codes name) names ≡ true
unfolding names_part
names_part-member name [] h = cc
names_part-member name (n ∷ names) h = go (str_eq name n) refl h (names_part-member name names)
  where
    go :
        (b : Bool)
        → str_eq name n ≡ b
        → (b || member name names) ≡ true
        → (member name names ≡ true → names_part (codes name) names ≡ true)
        → (codes_eq (codes name) (codes n) || names_part (codes name) names) ≡ true
    go true e k later =
        let same : codes_eq (codes name) (codes n) ≡ true =
          ap (λ m. codes_eq (codes name) (codes m)) (sym ((eq_iff name n).0 e))
          ∙ codes_eq_refl (codes name) in
        rw same
    go false e k later = or_right (codes_eq (codes name) (codes n)) _ (later k)

-- No dot in the text, and in none of the texts.
pub dotless : List ℕ → Bool
dotless [] = true
dotless (c ∷ s) = not (c == b'.') && dotless s

pub dotless_names : List String → Bool
dotless_names [] = true
dotless_names (n ∷ names) = dotless (codes n) && dotless_names names

pub dotless-IsDotless : (s : List ℕ) → dotless s ≡ true → IsDotless s
unfolding dotless
dotless-IsDotless [] h = tt
dotless-IsDotless (c ∷ s) h =
    let (first, rest) = (&&_true (not (c == b'.')) (dotless s)).0 h in
    (dotless_lem (c == b'.') first, dotless-IsDotless s rest)

pub member-IsDotless :
    (name : String) (names : List String)
    → dotless_names names ≡ true
    → member name names ≡ true
    → IsDotless (codes name)
unfolding dotless_names
member-IsDotless name [] d h = cc
member-IsDotless name (n ∷ names) d h =
    let (first, rest) = (&&_true (dotless (codes n)) (dotless_names names)).0 d in
    go (str_eq name n) refl h first (member-IsDotless name names rest)
  where
    go :
        (b : Bool)
        → str_eq name n ≡ b
        → (b || member name names) ≡ true
        → dotless (codes n) ≡ true
        → (member name names ≡ true → IsDotless (codes name))
        → IsDotless (codes name)
    go true e k first later =
        subst (λ m. IsDotless (codes m)) (sym ((eq_iff name n).0 e))
          (dotless-IsDotless (codes n) first)
    go false e k first later = later k

pub body_dotless : dotless (codes "body") ≡ true
unfolding dotless
body_dotless = refl

pub base_fields-dotless : (t : String) → dotless_names (base_fields t) ≡ true
unfolding dotless_names dotless
base_fields-dotless t = ground arith
