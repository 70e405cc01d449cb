-- ===== src/Verification/Members.antt =====
-- What the members of a valid verification receipt are.
use continuity_receipt.Base.{
  &&_true, pos, String, Bool, true, false, not, ◌&&◌, ◌≡◌, refl, ap, ◌∙◌, List, [], ◌∷◌, arith, All,
  if◌then◌else◌,
}
use continuity_receipt.Verify.Body.{is_digest}
use mathlib.Core.Path.{ap₂}
use continuity_receipt.Value.{
  Value, null, bool, int, float, str, list, dict, Items, nil, cons, elements, Fields, get, is_dict,
  text_in, is_text,
}
use continuity_receipt.Value.Equal.{items_eq, py_eq, py_eq-str, is_text-eq}
use continuity_receipt.Records.Timestamp.{validate_timestamp}
use continuity_receipt.Verification.{
  all_texts, all_error_entries, is_error_entry, entry_codes, kind, verdicts, errors_well_formed,
  string_list, verdict_class, codes_of, failures, member_tests,
}

-- No test holds.
abbrev pub NoneHolds : List (Bool × String) → Type 0
NoneHolds tests = All (λ t. t.0 ≡ false) tests

pub failures-eq_nil : (tests : List (Bool × String)) → failures tests ≡ [] → NoneHolds tests
failures-eq_nil [] h = tt
failures-eq_nil ((true, code) ∷ tests) h = cc
failures-eq_nil ((false, code) ∷ tests) h = (refl, failures-eq_nil tests h)

pub NoneHolds-failures : (tests : List (Bool × String)) → NoneHolds tests → failures tests ≡ []
NoneHolds-failures [] h = refl
NoneHolds-failures ((test, code) ∷ tests) h =
    ap (λ b. if b then code ∷ failures tests else failures tests) h.0 ∙ NoneHolds-failures tests h.1

pub true_of_not : (b : Bool) → not b ≡ false → b ≡ true
true_of_not b h = ground arith

-- What equals a list of texts in Python is that list.
items_eq-texts : (vs ws : Items) → all_texts ws ≡ true → items_eq vs ws ≡ true → vs ≡ ws
unfolding items_eq all_texts
items_eq-texts nil nil h e = refl
items_eq-texts nil (cons w ws) h e = cc
items_eq-texts (cons v vs) nil h e = cc
items_eq-texts (cons v vs) (cons (str t) ws) h e =
    let (same, rest) = (&&_true (py_eq v (str t)) (items_eq vs ws)).0 e in
    ap₂ cons (py_eq-str v t same) (items_eq-texts vs ws h rest)
items_eq-texts (cons v vs) (cons null ws) h e = cc
items_eq-texts (cons v vs) (cons (bool b) ws) h e = cc
items_eq-texts (cons v vs) (cons (int z) ws) h e = cc
items_eq-texts (cons v vs) (cons (float f) ws) h e = cc
items_eq-texts (cons v vs) (cons (list l) ws) h e = cc
items_eq-texts (cons v vs) (cons (dict d) ws) h e = cc

text_code : (v : Value) → elim v [ str s ↦ true | _ ↦ false ] ≡ true → (s : String) × (v ≡ str s)
text_code (str s) h = (s, refl)
text_code null h = cc
text_code (bool b) h = cc
text_code (int z) h = cc
text_code (float f) h = cc
text_code (list l) h = cc
text_code (dict d) h = cc

pub all_texts-entry_codes :
    (vs : Items) → all_error_entries vs ≡ true → all_texts (entry_codes vs) ≡ true
unfolding all_texts all_error_entries is_error_entry
all_texts-entry_codes nil h = refl
all_texts-entry_codes (cons (dict d) vs) h =
    let (first, rest) = (&&_true (is_error_entry (dict d)) (all_error_entries vs)).0 h in
    let (s, e) = text_code (get d "code") first in
    ap (λ v. all_texts (cons v (entry_codes vs))) e ∙ all_texts-entry_codes vs rest
all_texts-entry_codes (cons null vs) h = cc
all_texts-entry_codes (cons (bool b) vs) h = cc
all_texts-entry_codes (cons (int z) vs) h = cc
all_texts-entry_codes (cons (float f) vs) h = cc
all_texts-entry_codes (cons (str s) vs) h = cc
all_texts-entry_codes (cons (list l) vs) h = cc

codes_agree :
    (codes errors : Value)
    → string_list codes ≡ true
    → errors_well_formed errors ≡ true
    → py_eq codes (codes_of errors) ≡ true
    → codes ≡ codes_of errors
unfolding string_list errors_well_formed py_eq
codes_agree (list vs) (list es) h k e =
    ap list (items_eq-texts vs (entry_codes es) (all_texts-entry_codes es k) e)
codes_agree _ null h k e = cc
codes_agree _ (bool b) h k e = cc
codes_agree _ (int z) h k e = cc
codes_agree _ (float f) h k e = cc
codes_agree _ (str s) h k e = cc
codes_agree _ (dict d) h k e = cc
codes_agree null (list es) h k e = cc
codes_agree (bool b) (list es) h k e = cc
codes_agree (int z) (list es) h k e = cc
codes_agree (float f) (list es) h k e = cc
codes_agree (str s) (list es) h k e = cc
codes_agree (dict d) (list es) h k e = cc

-- A list of texts.
pub record IsTextList (v : Value) : Type 0 where
  pub texts : Items
  pub is_list : v ≡ list texts
  pub are_texts : All (λ w. (s : String) × (w ≡ str s)) (elements texts)

texts_of : (vs : Items) → all_texts vs ≡ true → All (λ w. (s : String) × (w ≡ str s)) (elements vs)
unfolding all_texts
texts_of nil h = tt
texts_of (cons (str s) vs) h = ((s, refl), texts_of vs h)
texts_of (cons null vs) h = cc
texts_of (cons (bool b) vs) h = cc
texts_of (cons (int z) vs) h = cc
texts_of (cons (float f) vs) h = cc
texts_of (cons (list l) vs) h = cc
texts_of (cons (dict d) vs) h = cc

IsTextList-string_list : (v : Value) → string_list v ≡ true → IsTextList v
unfolding string_list
IsTextList-string_list (list vs) h = record {
  texts = vs;
  is_list = refl;
  are_texts = texts_of vs h;
}
IsTextList-string_list null h = cc
IsTextList-string_list (bool b) h = cc
IsTextList-string_list (int z) h = cc
IsTextList-string_list (float f) h = cc
IsTextList-string_list (str s) h = cc
IsTextList-string_list (dict d) h = cc

-- What the members of a valid receipt are.
pub record MembersFit (r : Fields) : Type 0 where
  pub kind_is : get r "kind" ≡ str kind
  pub version_is : py_eq (get r "version") (int (pos 1)) ≡ true
  pub dated : validate_timestamp (get r "verified_at") ≡ true
  pub digest_form : is_digest "sha256:" (get r "bundle_digest") ≡ true
  pub summary_is : is_dict (get r "summary") ≡ true
  pub entries_fit : errors_well_formed (get r "errors") ≡ true
  pub codes_are : get r "error_codes" ≡ codes_of (get r "errors")
  pub provisional_texts : IsTextList (get r "provisional_reasons")
  pub insufficient_texts : IsTextList (get r "insufficient_reasons")
  pub implied :
      get r "verdict"
      ≡ str (
          verdict_class
            (get r "errors")
            (get r "provisional_reasons")
            (get r "insufficient_reasons"))

pub taken_second : (a b : Bool) → a ≡ true → (a && not b) ≡ false → b ≡ true
taken_second a b h k = ground arith

taken_third : (a b d : Bool) → a ≡ true → b ≡ true → (a && (b && not d)) ≡ false → d ≡ true
taken_third a b d h k l = ground arith

all_four :
    (a b d e : Bool) → a ≡ true → b ≡ true → d ≡ true → e ≡ true → (a && (b && (d && e))) ≡ true
all_four a b d e p q r s = ground arith

pub MembersFit-member_tests : (r : Fields) → NoneHolds (member_tests r) → MembersFit r
unfolding member_tests
MembersFit-member_tests r
      (
        kind_ok,
        (
          version_ok,
          (
            verdict_ok,
            (
              at_ok,
              (
                digest_ok,
                (
                  errors_ok,
                  (
                    provisional_ok,
                    (insufficient_ok, (summary_ok, (codes_ok, (mismatch_ok, (class_ok, _))))),
                  ),
                ),
              ),
            ),
          ),
        ),
      ) =
    let errors = get r "errors" in
    let provisional = get r "provisional_reasons" in
    let insufficient = get r "insufficient_reasons" in
    let codes = get r "error_codes" in
    let class = verdict_class errors provisional insufficient in
    let known = true_of_not (text_in (get r "verdict") verdicts) verdict_ok in
    let fit = true_of_not (errors_well_formed errors) errors_ok in
    let texts = true_of_not (string_list codes) codes_ok in
    let listed = true_of_not (string_list provisional) provisional_ok in
    let listed_too = true_of_not (string_list insufficient) insufficient_ok in
    let whole =
      all_four (text_in (get r "verdict") verdicts) (errors_well_formed errors)
        (string_list provisional) (string_list insufficient) known fit listed listed_too in
    record {
      kind_is = is_text-eq (get r "kind") kind (true_of_not (is_text (get r "kind") kind) kind_ok);
      version_is = true_of_not (py_eq (get r "version") (int (pos 1))) version_ok;
      dated = true_of_not (validate_timestamp (get r "verified_at")) at_ok;
      digest_form = true_of_not (is_digest "sha256:" (get r "bundle_digest")) digest_ok;
      summary_is = true_of_not (is_dict (get r "summary")) summary_ok;
      entries_fit = fit;
      codes_are = codes_agree codes errors texts fit (
          taken_third (string_list codes) (errors_well_formed errors)
            (py_eq codes (codes_of errors)) texts fit mismatch_ok);
      provisional_texts = IsTextList-string_list provisional listed;
      insufficient_texts = IsTextList-string_list insufficient listed_too;
      implied = is_text-eq (get r "verdict") class (
          taken_second
            (text_in (get r "verdict") verdicts
              && (errors_well_formed errors
                  && (string_list provisional && string_list insufficient)))
            (is_text (get r "verdict") class) whole class_ok);
    }
