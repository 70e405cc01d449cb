-- ===== src/Verify/Redactions/Required.antt =====
-- The paths of what stands in a required field, for `_required_field_for_path`.
use mathlib.Core.List.{append_assoc}
use mathlib.Core.Path.{subst}
use continuity_receipt.Base.{
  ℕ, String, true, false, ◌==◌, Option, none, some, List, [], ◌∷◌, ◌++◌, get_elem?, member, ◌≡◌,
  ◌≢◌, refl, ap, ◌∙◌,
}
use continuity_receipt.Value.{Value, bool, str, dict, Fields, lookup, get}
use continuity_receipt.Value.Number.{codes}
use continuity_receipt.Value.Number.Decimal.{IsDigit-decimal, read_int-decimal}
use continuity_receipt.Canon.{decimal}
use continuity_receipt.Records.{base_fields}
use continuity_receipt.Verify.Redactions.{
  FieldPath, member_path, index_path, names_part, split_dots, strip_brackets, receipt_at,
  required_parts, is_required_path,
}
use continuity_receipt.Verify.Redactions.Parts.{
  IsDotless, split_dots_part, split_dots-append, strip_brackets-append, digit_no_dot,
  digit_no_bracket, All-map, All-both, names_part-member, dotless-IsDotless, member-IsDotless,
  body_dotless, base_fields-dotless,
}
use continuity_receipt.Verify.Redactions.Place.{RedactedAt}

-- A redacted object is the value, or is a member of it, or of a member of it, and so on.
pub data Hides : Value → Type 0 where
  here : (d : Fields) → get d "redacted" ≡ bool true → Hides (dict d)
  inside :
      (d : Fields) (k : String) (v : Value)
      → get d "redacted" ≢ bool true
      → lookup k d ≡ some v
      → Hides v
      → Hides (dict d)

-- The path itself, or one that goes on after a dot.
abbrev pub continue : FieldPath → Option (List ℕ) → FieldPath
continue path none = path
continue path (some more) = path ++ b'.' ∷ more

further : String → Option (List ℕ) → List ℕ
further k none = codes k
further k (some more) = codes k ++ b'.' ∷ more

continue-member_path :
    (x : ℕ) (path : List ℕ) (k : String) (more : Option (List ℕ))
    → continue (member_path (x ∷ path) k) more ≡ continue (x ∷ path) (some (further k more))
unfolding further
continue-member_path x path k none = refl
continue-member_path x path k (some more) = append_assoc (x ∷ path) (b'.' ∷ codes k) (b'.' ∷ more)

-- What a value hides stands at a path that starts with the value's.
pub RedactedAt-Hides :
    {v : Value} (x : ℕ) (path : List ℕ)
    → Hides v
    → (more : Option (List ℕ)) × (f : Fields) × RedactedAt v (x ∷ path) (continue (x ∷ path) more) f
RedactedAt-Hides x path (Hides.here d e) = (none, d, RedactedAt.here d e)
RedactedAt-Hides x path (inside d k v open_ e h) =
    let (more, f, r) = RedactedAt-Hides x (path ++ b'.' ∷ codes k) h in
    (
      some (further k more),
      f,
      RedactedAt.in_member d k v open_ e (
          subst (λ q. RedactedAt v (x ∷ (path ++ b'.' ∷ codes k)) q f)
            (continue-member_path x path k more) r),
    )

-- The paths of a receipt and of a member of its body.
abbrev pub receipt_path : ℕ → FieldPath
receipt_path i = index_path (codes "receipts") i

abbrev pub field_path : ℕ → String → FieldPath
field_path i name = member_path (member_path (receipt_path i) "body") name

receipt_path-IsDotless : (i : ℕ) → IsDotless (receipt_path i)
receipt_path-IsDotless i =
    All-both (λ c. (c == b'.') ≡ false) (codes "receipts[") (decimal i ++ b']' ∷ [])
      (refl, (refl, (refl, (refl, (refl, (refl, (refl, (refl, (refl, tt)))))))))
      (All-both (λ c. (c == b'.') ≡ false) (decimal i) (b']' ∷ [])
        (All-map digit_no_dot (decimal i) (IsDigit-decimal i)) (refl, tt))

receipt_at-decimal :
    (i : ℕ) (receipts : List Fields) → receipt_at (decimal i) receipts ≡ get_elem? receipts i
unfolding receipt_at
receipt_at-decimal i receipts = rw (read_int-decimal i, receipt_at)

continue-field_path :
    (i : ℕ) (name : String) (more : Option (List ℕ))
    → continue (field_path i name) more
      ≡ receipt_path i ++ b'.' ∷ (codes "body" ++ b'.' ∷ further name more)
unfolding further
continue-field_path i name none =
    append_assoc (receipt_path i) (b'.' ∷ codes "body") (b'.' ∷ codes name)
continue-field_path i name (some more) =
    ap (λ p. p ++ b'.' ∷ more)
      (append_assoc (receipt_path i) (b'.' ∷ codes "body") (b'.' ∷ codes name))
    ∙ append_assoc (receipt_path i) (b'.' ∷ (codes "body" ++ b'.' ∷ codes name)) (b'.' ∷ more)

first-further :
    (name : String) (more : Option (List ℕ))
    → IsDotless (codes name)
    → (split_dots (further name more)).0 ≡ codes name
unfolding further
first-further name none h = ap (λ p. p.0) (split_dots_part (codes name) h)
first-further name (some more) h = ap (λ p. p.0) (split_dots-append (codes name) more h)

required_parts-body :
    (receipts : List Fields) (i : ℕ) (receipt : Fields) (t : String) (third : List ℕ)
    (rest : List (List ℕ))
    → get_elem? receipts i ≡ some receipt
    → get receipt "type" ≡ str t
    → names_part third (base_fields t) ≡ true
    → required_parts (receipt_path i, codes "body" ∷ third ∷ rest) receipts ≡ true
unfolding required_parts
required_parts-body receipts i receipt t third rest at typed listed =
    let found : receipt_at (strip_brackets (decimal i ++ b']' ∷ [])) receipts ≡ some receipt =
      ap (λ s. receipt_at s receipts)
        (strip_brackets-append (decimal i)
          (All-map digit_no_bracket (decimal i) (IsDigit-decimal i)))
      ∙ (receipt_at-decimal i receipts ∙ at) in
    rw (found, typed, listed)

-- A path into a required field of a receipt is one that `is_required_path` knows.
pub required_path :
    (receipts : List Fields) (i : ℕ) (receipt : Fields) (t name : String) (more : Option (List ℕ))
    → get_elem? receipts i ≡ some receipt
    → get receipt "type" ≡ str t
    → member name (base_fields t) ≡ true
    → is_required_path (continue (field_path i name) more) receipts ≡ true
unfolding is_required_path
required_path receipts i receipt t name more at typed listed =
    let parts = split_dots (further name more) in
    let path : split_dots (continue (field_path i name) more)
        ≡ (receipt_path i, codes "body" ∷ parts.0 ∷ parts.1) =
      ap split_dots (continue-field_path i name more)
      ∙ (split_dots-append (receipt_path i) (codes "body" ++ b'.' ∷ further name more)
            (receipt_path-IsDotless i)
          ∙ ap (λ p. (receipt_path i, p.0 ∷ p.1))
              (split_dots-append (codes "body") (further name more)
                (dotless-IsDotless (codes "body") body_dotless))) in
    let third : parts.0 ≡ codes name =
      first-further name more
        (member-IsDotless name (base_fields t) (base_fields-dotless t) listed) in
    ap (λ p. required_parts p receipts) path
    ∙ required_parts-body receipts i receipt t parts.0 parts.1 at typed (
        ap (λ p. names_part p (base_fields t)) third
        ∙ names_part-member name (base_fields t) listed)
