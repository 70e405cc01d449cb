-- ===== src/Verification/Consistent.antt =====
-- The members of a receipt that is made of a consistent result pass their tests.
use continuity_receipt.Base.{
  String, Bool, true, false, not, ◌&&◌, ◌≡◌, ◌≢◌, refl, ap, arith, str_eq, eq_iff, &&_true,
}
use continuity_receipt.Value.{str, list, Items, nil, cons, Fields, put, is_text, text_in}
use continuity_receipt.Value.Equal.{items_eq, py_eq}
use continuity_receipt.Records.Timestamp.{validate_timestamp}
use continuity_receipt.Verify.Body.{is_digest}
use continuity_receipt.Bundle.{signature_of}
use continuity_receipt.Verification.{
  all_texts, string_list, errors_well_formed, entry_codes, member_tests, verdict_class, verdicts,
}
use continuity_receipt.Verification.Issue.{ResultForm, is_consistent, statement}
use continuity_receipt.Verification.Members.{NoneHolds, all_texts-entry_codes}

items_eq-texts_refl : (vs : Items) → all_texts vs ≡ true → items_eq vs vs ≡ true
unfolding all_texts items_eq py_eq
items_eq-texts_refl nil h = refl
items_eq-texts_refl (cons (str s) vs) h =
    (&&_true (str_eq s s) (items_eq vs vs)).1 ((eq_iff s s).1 refl, items_eq-texts_refl vs h)
items_eq-texts_refl (cons _ vs) h = cc

pub is_text_refl : (s : String) → is_text (str s) s ≡ true
is_text_refl s = (eq_iff s s).1 refl

pub off : (b : Bool) → b ≡ true → not b ≡ false
off b h = ap not h

pub off_after : (a b : Bool) → b ≡ true → (a && not b) ≡ false
off_after a b h = ground arith

off_third : (a b d : Bool) → d ≡ true → (a && (b && not d)) ≡ false
off_third a b d h = ground arith

pub not_empty : (s : String) → s ≢ "" → not (str_eq s "") ≡ true
not_empty s h = unequal (str_eq s "") refl
  where
    unequal : (b : Bool) → str_eq s "" ≡ b → not b ≡ true
    unequal true e = absurd (h ((eq_iff s "").0 e))
    unequal false e = refl

-- The receipt made of a statement.
abbrev pub signed_statement :
    ResultForm → (digest issuer implementation version verified_at value : String) → Fields
signed_statement r digest issuer implementation version verified_at value =
    put "sig" (signature_of issuer value)
      (statement r digest issuer implementation version verified_at)

pub NoneHolds-member_tests :
    (r : ResultForm) (digest issuer implementation version verified_at value : String)
    → is_consistent r ≡ true
    → is_digest "sha256:" (str digest) ≡ true
    → validate_timestamp (str verified_at) ≡ true
    → NoneHolds
        (member_tests (signed_statement r digest issuer implementation version verified_at value))
unfolding is_consistent member_tests errors_well_formed string_list py_eq
NoneHolds-member_tests r digest issuer implementation version verified_at value fit hashed dated =
    let errors = list r.errors in
    let provisional = list r.provisional in
    let insufficient = list r.insufficient in
    let class = verdict_class errors provisional insufficient in
    let (known, rest) =
      (&&_true (text_in r.verdict verdicts) (
          errors_well_formed errors
          && ((string_list provisional && string_list insufficient) && is_text r.verdict class))).0
        fit in
    let (formed, rest') =
      (&&_true (errors_well_formed errors)
          ((string_list provisional && string_list insufficient) && is_text r.verdict class)).0
        rest in
    let (lists, implied) =
      (&&_true (string_list provisional && string_list insufficient) (is_text r.verdict class)).0
        rest' in
    let (first, second) = (&&_true (string_list provisional) (string_list insufficient)).0 lists in
    let texts = all_texts-entry_codes r.errors formed in
    (
      refl,
      (
        refl,
        (
          off (text_in r.verdict verdicts) known,
          (
            off (validate_timestamp (str verified_at)) dated,
            (
              off (is_digest "sha256:" (str digest)) hashed,
              (
                off (errors_well_formed errors) formed,
                (
                  off (string_list provisional) first,
                  (
                    off (string_list insufficient) second,
                    (
                      refl,
                      (
                        off (all_texts (entry_codes r.errors)) texts,
                        (
                          off_third (all_texts (entry_codes r.errors)) (errors_well_formed errors)
                              (items_eq (entry_codes r.errors) (entry_codes r.errors))
                              (items_eq-texts_refl (entry_codes r.errors) texts),
                          (
                            off_after
                                (text_in r.verdict verdicts
                                  && (errors_well_formed errors
                                      && (string_list provisional && string_list insufficient)))
                                (is_text r.verdict class) implied,
                            tt,
                          ),
                        ),
                      ),
                    ),
                  ),
                ),
              ),
            ),
          ),
        ),
      ),
    )
