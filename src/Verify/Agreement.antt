-- ===== src/Verify/Agreement.antt =====
-- `_check_agreements`, `_check_accept` and `_check_agreement_completeness` of
-- continuity_receipt/verify.py.
pub mod Sound
use continuity_receipt.Base.{
  String, Bool, true, false, not, ◌&&◌, ◌||◌, Option, none, some, List, [], ◌∷◌, ◌++◌,
  if◌then◌else◌, member,
}
use continuity_receipt.Value.{
  dict, Value, str, Fields, get, as_dict, as_text, is_null, is_nonempty_text, is_text, text_in,
}
use continuity_receipt.Value.Equal.{py_eq}
use continuity_receipt.Crypto.{Crypto}
use continuity_receipt.Records.{specs_from_04}
use continuity_receipt.Records.Timestamp.{validate_timestamp, is_before, is_at_or_before}
use continuity_receipt.Agreements.{bound_types}
use continuity_receipt.Verify.Report.{
  Report, malformed, offer_mismatch, offer_expired, offeree_mismatch, accept_before_offer,
  agreement_before_accept, agreement_issuer_mismatch, missing_agreement, missing_offer,
  agreement_unreferenced, missing_agreement_ref, insufficient, provisional, fatal_if,
}
use continuity_receipt.Verify.Resolve.{
  Table, find_entry, issuer_id, Resolution, skipped, missing, resolved, resolve, referenced_by,
  table_of,
}

-- The 0.4 part of `_check_accept`: the offeree signs, and accepts after the offer.
unfoldable pub check_offeree : Fields → Fields → Fields → Fields → Report
check_offeree receipt body offer offer_body =
    let rid = get receipt "receipt_id" in
    let offeree = get body "offeree" in
    (if not (is_nonempty_text offeree)
      then fatal_if true malformed rid
      else fatal_if
          (not (py_eq (issuer_id receipt) offeree)
            || not (py_eq offeree (get offer_body "offeree")))
          offeree_mismatch rid)
    ++ fatal_if (is_before (get receipt "issued_at") (get offer "issued_at")) accept_before_offer
        rid

-- `_check_accept` once the offer is found and its body is an object.
unfoldable pub check_accept_offer : Fields → Fields → Fields → Fields → Report
unfolding check_offeree
check_accept_offer receipt body offer offer_body =
    let rid = get receipt "receipt_id" in
    let valid_until = get offer_body "valid_until" in
    if not (validate_timestamp valid_until)
    then fatal_if true malformed (get offer "receipt_id")
    else if not (py_eq (get body "offer_id") (get offer_body "offer_id"))
        || not (py_eq (get body "terms_hash") (get offer_body "terms_hash"))
    then fatal_if true offer_mismatch rid
    else fatal_if (is_before valid_until (get receipt "issued_at")) offer_expired rid
      ++ (if text_in (get receipt "spec") specs_from_04
          then check_offeree receipt body offer offer_body
          else [])

abbrev pub find_offer : Table → Value → Option Fields
find_offer offers (str ref) = find_entry ref offers
find_offer offers _ = none

abbrev pub check_offer_body : Value → Fields → Fields → Fields → Report
check_offer_body (dict offer_body) receipt body offer =
    check_accept_offer receipt body offer offer_body
check_offer_body _ receipt body offer = []

abbrev pub check_found : Option Fields → Fields → Fields → Report
check_found none receipt body = insufficient (missing_offer (get receipt "receipt_id")) ∷ []
check_found (some offer) receipt body = check_offer_body (get offer "body") receipt body offer

abbrev pub check_accept_record : Table → Value → Fields → Report
check_accept_record offers (dict body) receipt =
    check_found (find_offer offers (get body "offer_ref")) receipt body
check_accept_record offers _ receipt = []

unfoldable pub check_accept : Table → Fields → Report
unfolding check_accept_offer
check_accept offers receipt = check_accept_record offers (get receipt "body") receipt

unfoldable pub check_accepts : Table → List Fields → Report
check_accepts offers [] = []
check_accepts offers (r ∷ rs) =
    (if is_text (get r "type") "agreement.accept" then check_accept offers r else [])
    ++ check_accepts offers rs

-- The offeree of the accept, where it is a text, against the issuer.
abbrev pub is_other_offeree : Value → Value → Bool
is_other_offeree (str offeree) issuer = not (py_eq issuer (str offeree))
is_other_offeree _ issuer = false

abbrev pub check_accept_body : Value → Fields → Fields → Report
check_accept_body (dict accept_body) receipt accept =
    fatal_if (is_before (get receipt "issued_at") (get accept "issued_at")) agreement_before_accept
      (get receipt "receipt_id")
    ++ fatal_if (is_other_offeree (get accept_body "offeree") (issuer_id receipt))
        agreement_issuer_mismatch (get receipt "receipt_id")
check_accept_body _ receipt accept = []

-- A bound receipt against the accept that it names.
unfoldable pub check_bound_accept : Fields → Fields → Report
check_bound_accept receipt accept = check_accept_body (get accept "body") receipt accept

abbrev pub check_resolution : Resolution → Fields → Report
check_resolution skipped receipt = []
check_resolution missing receipt = insufficient (missing_agreement (get receipt "receipt_id")) ∷ []
check_resolution (resolved ref accept) receipt = check_bound_accept receipt accept

unfoldable pub check_bound : Table → List Fields → Report
unfolding resolve check_bound_accept
check_bound accepts [] = []
check_bound accepts (r ∷ rs) =
    check_resolution (resolve specs_from_04 "agreement_ref" accepts r) r ++ check_bound accepts rs

unfoldable pub check_unreferenced : List String → Table → Report
check_unreferenced referenced [] = []
check_unreferenced referenced ((digest, accept) ∷ t) =
    (if text_in (get accept "spec") specs_from_04 && not (member digest referenced)
      then provisional (agreement_unreferenced (get accept "receipt_id")) ∷ []
      else [])
    ++ check_unreferenced referenced t

-- An accept of the issuer stands at or before the bound receipt.
unfoldable pub accepted_before : String → Value → Table → Bool
accepted_before issuer bound_issued [] = false
accepted_before issuer bound_issued ((digest, accept) ∷ t) =
    (text_in (get accept "spec") specs_from_04 && elim (as_dict (get accept "body")) [
      | none ↦ false
      | some accept_body ↦
          py_eq (get accept_body "offeree") (str issuer)
          && is_at_or_before (get accept "issued_at") bound_issued
    ])
    || accepted_before issuer bound_issued t

-- A bound receipt of the offeree that carries no reference.
unfoldable pub skips_reference : Table → Fields → Bool
unfolding accepted_before
skips_reference accepts receipt =
    (text_in (get receipt "spec") specs_from_04 && text_in (get receipt "type") bound_types)
    && elim (as_dict (get receipt "body")) [
      | none ↦ false
      | some body ↦ is_null (get body "agreement_ref") && elim (as_text (issuer_id receipt)) [
        | none ↦ false
        | some issuer ↦ accepted_before issuer (get receipt "issued_at") accepts
      ]
    ]

unfoldable pub check_skipped : Table → List Fields → Report
unfolding skips_reference
check_skipped accepts [] = []
check_skipped accepts (r ∷ rs) =
    (if skips_reference accepts r
      then provisional (missing_agreement_ref (get r "receipt_id")) ∷ []
      else [])
    ++ check_skipped accepts rs

module _ (c : Crypto) where
  unfoldable pub check_agreements : List Fields → Report
  unfolding table_of check_accepts check_bound check_unreferenced check_skipped referenced_by
  check_agreements receipts =
      let offers = table_of c "agreement.offer" [] receipts in
      let accepts = table_of c "agreement.accept" [] receipts in
      check_accepts offers receipts
      ++ check_bound accepts receipts
      ++ check_unreferenced (referenced_by specs_from_04 "agreement_ref" accepts receipts) accepts
      ++ check_skipped accepts receipts
