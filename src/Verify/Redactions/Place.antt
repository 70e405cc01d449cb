-- ===== src/Verify/Redactions/Place.antt =====
-- Where a redacted object stands in a value, and what `_iter_redactions` lists.
use text.Mathlib.TextEquality.{Char-path}
use continuity_receipt.Base.{
  ℕ, zero, suc, ◌+◌, String, Bool, true, false, ◌==◌, some, List, [], ◌∷◌, ◌++◌, All, get_elem?,
  str_eq, eq_iff, ==_iff, &&_true, if◌then◌else◌, ◌≡◌, ◌≢◌, refl, ap, ◌∙◌, arith, Bool-cases, inl,
  inr,
}
use mathlib.Core.Path.{subst, ap₂}
use continuity_receipt.Value.{
  Value, bool, dict, list, null, int, float, str, Items, nil, cons, elements, Fields, end, field,
  lookup, get,
}
use continuity_receipt.Value.Number.{codes}
use continuity_receipt.Verify.Redactions.{
  FieldPath, member_path, index_path, iter_redactions, iter_elements, iter_members, codes_eq,
  find_disclosure,
}

-- A value at `path` has the redacted object `f` at the path `q`, and no redacted object round it.
pub data RedactedAt : Value → FieldPath → FieldPath → Fields → Type 0 where
  here :
      {path : FieldPath} (d : Fields)
      → get d "redacted" ≡ bool true
      → RedactedAt (dict d) path path d
  in_member :
      {path q : FieldPath} {f : Fields} (d : Fields) (k : String) (v : Value)
      → get d "redacted" ≢ bool true
      → lookup k d ≡ some v
      → RedactedAt v (member_path path k) q f
      → RedactedAt (dict d) path q f
  in_element :
      {path q : FieldPath} {f : Fields} (vs : Items) (i : ℕ) (v : Value)
      → get_elem? (elements vs) i ≡ some v
      → RedactedAt v (index_path path i) q f
      → RedactedAt (list vs) path q f

redacted_true : (v : Value) → v ≡ bool true → elim v [ bool b ↦ b | _ ↦ false ] ≡ true
redacted_true v e = ap (λ w. elim w [ bool b ↦ b | _ ↦ false ]) e

redacted_false : (v : Value) → v ≢ bool true → elim v [ bool b ↦ b | _ ↦ false ] ≡ false
redacted_false (bool true) h = absurd (h refl)
redacted_false (bool false) h = refl
redacted_false null h = refl
redacted_false (int z) h = refl
redacted_false (float f) h = refl
redacted_false (str s) h = refl
redacted_false (list vs) h = refl
redacted_false (dict d) h = refl

module _ {ℓ κ} {A : Type ℓ} (P : A → Type κ) where
  pub All-left : (xs ys : List A) → All P (xs ++ ys) → All P xs
  All-left [] ys h = tt
  All-left (x ∷ xs) ys h = (h.0, All-left xs ys h.1)

  pub All-right : (xs ys : List A) → All P (xs ++ ys) → All P ys
  All-right [] ys h = h
  All-right (x ∷ xs) ys h = All-right xs ys h.1

module _ {ℓ} (P : FieldPath × Fields → Type ℓ) where
  All-iter_members :
      (d : Fields) (k : String) (v : Value) (path : FieldPath)
      → lookup k d ≡ some v
      → All P (iter_members d path)
      → All P (iter_redactions v (member_path path k))
  unfolding iter_members
  All-iter_members end k v path e h = cc
  All-iter_members (field j w d) k v path e h = go (str_eq j k) refl e (λ t.
      All-iter_members d k v path t
        (All-right P (iter_redactions w (member_path path j)) (iter_members d path) h))
    where
      go :
          (b : Bool)
          → str_eq j k ≡ b
          → (if b then some w else lookup k d) ≡ some v
          → (lookup k d ≡ some v → All P (iter_redactions v (member_path path k)))
          → All P (iter_redactions v (member_path path k))
      go true s t later =
          let same : w ≡ v = cc t in
          subst (λ u. All P (iter_redactions u (member_path path k))) same
            (subst (λ i. All P (iter_redactions w (member_path path i))) ((eq_iff j k).0 s)
              (All-left P (iter_redactions w (member_path path j)) (iter_members d path) h))
      go false s t later = later t

  All-iter_elements :
      (vs : Items) (n i : ℕ) (v : Value) (path : FieldPath)
      → get_elem? (elements vs) i ≡ some v
      → All P (iter_elements vs n path)
      → All P (iter_redactions v (index_path path (n + i)))
  unfolding iter_elements
  All-iter_elements nil n i v path e h = cc
  All-iter_elements (cons w vs) n zero v path e h =
      let same : w ≡ v = cc e in
      let at : n ≡ n + 0 = omega arith in
      subst (λ u. All P (iter_redactions u (index_path path (n + 0)))) same
        (subst (λ i. All P (iter_redactions w (index_path path i))) at
          (All-left P (iter_redactions w (index_path path n)) (iter_elements vs (suc n) path) h))
  All-iter_elements (cons w vs) n (suc i) v path e h =
      let at : suc n + i ≡ n + suc i = omega arith in
      subst (λ i. All P (iter_redactions v (index_path path i))) at
        (All-iter_elements vs (suc n) i v path e
          (All-right P (iter_redactions w (index_path path n)) (iter_elements vs (suc n) path) h))

  -- What holds of every pair that `iter_redactions` lists holds at every redacted object.
  pub RedactedAt-All :
      {v : Value} {path q : FieldPath} {f : Fields}
      → RedactedAt v path q f
      → All P (iter_redactions v path)
      → P (q, f)
  unfolding iter_redactions
  RedactedAt-All (here {path} d e) h =
      (subst (λ b. All P (if b then (path, d) ∷ [] else iter_members d path))
        (redacted_true (get d "redacted") e) h).0
  RedactedAt-All (in_member {path} d k v open_ e r) h = RedactedAt-All r (
      All-iter_members d k v path e (
        subst (λ b. All P (if b then (path, d) ∷ [] else iter_members d path))
          (redacted_false (get d "redacted") open_) h))
  RedactedAt-All (in_element {path} vs i v e r) h = RedactedAt-All r (
      subst (λ n. All P (iter_redactions v (index_path path n))) (omega arith)
        (All-iter_elements vs 0 i v path e h))

pub codes_eq-eq : (s t : List ℕ) → codes_eq s t ≡ true → s ≡ t
unfolding codes_eq
codes_eq-eq [] [] h = refl
codes_eq-eq [] (d ∷ t) h = cc
codes_eq-eq (c ∷ s) [] h = cc
codes_eq-eq (c ∷ s) (d ∷ t) h =
    let (first, rest) = (&&_true (c == d) (codes_eq s t)).0 h in
    ap₂ ◌∷◌ ((==_iff c d).0 first) (codes_eq-eq s t rest)

pub codes_eq_refl : (s : List ℕ) → codes_eq s s ≡ true
unfolding codes_eq
codes_eq_refl [] = refl
codes_eq_refl (c ∷ s) = (&&_true (c == c) (codes_eq s s)).1 ((==_iff c c).1 refl, codes_eq_refl s)

codes_injective : (s t : String) → codes s ≡ codes t → s ≡ t
codes_injective String.[] String.[] h = refl
codes_injective String.[] (String.◌∷◌ d t) h = cc
codes_injective (String.◌∷◌ c s) String.[] h = cc
codes_injective (String.◌∷◌ c s) (String.◌∷◌ d t) h =
    ap₂ String.◌∷◌ (Char-path c d (cc h)) (codes_injective s t (cc h))

-- `find_disclosure` is `get` for the path of a text.
pub find_disclosure-lookup :
    (d : Fields) (key : String) (v : Value)
    → lookup key d ≡ some v
    → find_disclosure (codes key) d ≡ v
unfolding find_disclosure
find_disclosure-lookup end key v e = cc
find_disclosure-lookup (field j w d) key v e = elim (Bool-cases (str_eq j key)) [
  | inl s ↦
      let same : w ≡ v = cc (rw s at e) in
      let found : codes_eq (codes j) (codes key) ≡ true =
        ap (λ t. codes_eq (codes t) (codes key)) ((eq_iff j key).0 s) ∙ codes_eq_refl (codes key) in
      rw found same
  | inr s ↦
      other (codes_eq (codes j) (codes key)) refl s (find_disclosure-lookup d key v (rw s at e))
]
  where
    other :
        (b : Bool)
        → codes_eq (codes j) (codes key) ≡ b
        → str_eq j key ≡ false
        → find_disclosure (codes key) d ≡ v
        → (if b then w else find_disclosure (codes key) d) ≡ v
    other true c s later =
        let eq = (eq_iff j key).1 (codes_injective j key (codes_eq-eq (codes j) (codes key) c)) in
        cc (eq, s)
    other false c s later = later
