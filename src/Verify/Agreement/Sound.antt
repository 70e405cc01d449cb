-- ===== src/Verify/Agreement/Sound.antt =====
-- Accepts and bound receipts of a clean bundle: offer, accept and bound record fit together.
use continuity_receipt.Base.{
  refl, if◌then◌else◌, ◌++◌, some, ◌||◌, Bool, true, false, not, ◌&&◌, ◌≡◌, List, [], ◌∷◌, All,
  String, arith, sym, ap, ◌∙◌,
}
use continuity_receipt.Verify.Report.Grade.{taken, not_raised}
use continuity_receipt.Verify.Report.{
  Code, malformed, offeree_mismatch, accept_before_offer, offer_expired, offer_mismatch,
}
use continuity_receipt.Value.{is_text, Value, str, dict, Fields, get, text_in, is_nonempty_text}
use continuity_receipt.Value.Equal.{py_eq, py_eq-str}
use continuity_receipt.Records.{specs_from_04}
use continuity_receipt.Records.Timestamp.{
  NotBefore, NotBefore-is_before, is_before, validate_timestamp,
}
use continuity_receipt.Verify.Report.Grade.{
  fatal_free, fatal_free_parts, fatal_free-append, fatal_free-fatal_if,
}
use continuity_receipt.Verify.Resolve.{Table, issuer_id, resolved, resolve}
use continuity_receipt.Verify.Agreement.{
  check_offer_body, check_found, check_accept_record, check_skipped, check_unreferenced,
  referenced_by, table_of, find_offer, fatal_if, Crypto, check_agreements, check_accept,
  check_accepts, Report, check_offeree, check_accept_offer, is_other_offeree, check_accept_body,
  check_bound_accept, check_resolution, check_bound,
}

-- A bound receipt follows the accept that it names and is issued by its offeree.
pub record FollowsAccept (receipt accept accept_body : Fields) : Type 0 where
  pub after_accept : NotBefore (get receipt "issued_at") (get accept "issued_at")
  pub by_offeree :
      (offeree : String) → get accept_body "offeree" ≡ str offeree → issuer_id receipt ≡ str offeree

offeree_is_issuer :
    (issuer v : Value) (offeree : String)
    → is_other_offeree v issuer ≡ false
    → v ≡ str offeree
    → issuer ≡ str offeree
offeree_is_issuer issuer v offeree h e =
    let here : not (py_eq issuer (str offeree)) ≡ false =
      sym (ap (λ w. is_other_offeree w issuer) e) ∙ h in
    py_eq-str issuer offeree (ground arith)

two_false : (a b : Bool) → (not a && not b) ≡ true → (a ≡ false) × (b ≡ false)
two_false a b h = ground arith

FollowsAccept-check :
    (receipt accept accept_body : Fields)
    → fatal_free (check_accept_body (dict accept_body) receipt accept) ≡ true
    → FollowsAccept receipt accept accept_body
FollowsAccept-check receipt accept accept_body free =
    let (early, other) =
      two_false (is_before (get receipt "issued_at") (get accept "issued_at"))
        (is_other_offeree (get accept_body "offeree") (issuer_id receipt))
        (simp (fatal_free-append, fatal_free-fatal_if) at free) in
    record {
      after_accept = NotBefore-is_before (get receipt "issued_at") (get accept "issued_at") early;
      by_offeree = λ offeree e.
          offeree_is_issuer (issuer_id receipt) (get accept_body "offeree") offeree other e;
    }

abbrev pub IsBound : Table → Fields → Type 0
IsBound accepts receipt =
    (ref : String) (accept accept_body : Fields)
    → resolve specs_from_04 "agreement_ref" accepts receipt ≡ resolved ref accept
    → get accept "body" ≡ dict accept_body
    → FollowsAccept receipt accept accept_body

IsBound-check_bound :
    (accepts : Table) (dicts : List Fields)
    → fatal_free (check_bound accepts dicts) ≡ true
    → All (IsBound accepts) dicts
unfolding check_bound check_bound_accept
IsBound-check_bound accepts [] free = tt
IsBound-check_bound accepts (d ∷ ds) free =
    let resolution = resolve specs_from_04 "agreement_ref" accepts d in
    let (first, rest) =
      fatal_free_parts (check_resolution resolution d) (check_bound accepts ds) free in
    (
      (λ ref accept accept_body e has_body. FollowsAccept-check d accept accept_body (
          sym (
            ap (λ r. fatal_free (check_resolution r d)) e
            ∙ ap (λ v. fatal_free (check_accept_body v d accept)) has_body)
          ∙ first)),
      IsBound-check_bound accepts ds rest,
    )

-- An accept matches the offer that it names, and is in time; from 0.4 on the offeree of both signs
-- it, after the offer.
pub record MatchesOffer (receipt body offer offer_body : Fields) : Type 0 where
  pub dated : validate_timestamp (get offer_body "valid_until") ≡ true
  pub same_offer : py_eq (get body "offer_id") (get offer_body "offer_id") ≡ true
  pub same_terms : py_eq (get body "terms_hash") (get offer_body "terms_hash") ≡ true
  pub in_time : NotBefore (get offer_body "valid_until") (get receipt "issued_at")
  pub offeree_named :
      text_in (get receipt "spec") specs_from_04 ≡ true
      → is_nonempty_text (get body "offeree") ≡ true
  pub offeree_signs :
      text_in (get receipt "spec") specs_from_04 ≡ true
      → py_eq (issuer_id receipt) (get body "offeree") ≡ true
  pub offeree_offered :
      text_in (get receipt "spec") specs_from_04 ≡ true
      → py_eq (get body "offeree") (get offer_body "offeree") ≡ true
  pub after_offer :
      text_in (get receipt "spec") specs_from_04 ≡ true
      → NotBefore (get receipt "issued_at") (get offer "issued_at")

guard_passed :
    (b : Bool) (code : Code) (rid : Value) (k : Report)
    → fatal_free (if b then fatal_if true code rid else k) ≡ true
    → (b ≡ false) × (fatal_free k ≡ true)
guard_passed true code rid k h = cc
guard_passed false code rid k h = (refl, h)

neither : (a b : Bool) → (not a || not b) ≡ false → (a ≡ true) × (b ≡ true)
neither a b h = ground arith

held : (a : Bool) → not a ≡ false → a ≡ true
held a h = ground arith

-- What `check_offeree` establishes.
record OffereeFits (receipt body offer offer_body : Fields) : Type 0 where
  named : is_nonempty_text (get body "offeree") ≡ true
  signs : py_eq (issuer_id receipt) (get body "offeree") ≡ true
  offered : py_eq (get body "offeree") (get offer_body "offeree") ≡ true
  after : NotBefore (get receipt "issued_at") (get offer "issued_at")

OffereeFits-check_offeree :
    (receipt body offer offer_body : Fields)
    → fatal_free (check_offeree receipt body offer offer_body) ≡ true
    → OffereeFits receipt body offer offer_body
unfolding check_offeree
OffereeFits-check_offeree receipt body offer offer_body free =
    let rid = get receipt "receipt_id" in
    let offeree = get body "offeree" in
    let named = is_nonempty_text offeree in
    let signs = py_eq (issuer_id receipt) offeree in
    let offered = py_eq offeree (get offer_body "offeree") in
    let early = is_before (get receipt "issued_at") (get offer "issued_at") in
    let mismatch = fatal_if (not signs || not offered) offeree_mismatch rid in
    let (first, second) =
      fatal_free_parts (if not named then fatal_if true malformed rid else mismatch)
        (fatal_if early accept_before_offer rid) free in
    let (is_named, fits) = guard_passed (not named) malformed rid mismatch first in
    let (is_signed, is_offered) =
      neither signs offered (not_raised (not signs || not offered) offeree_mismatch rid fits) in
    record {
      named = held named is_named;
      signs = is_signed;
      offered = is_offered;
      after =
          NotBefore-is_before (get receipt "issued_at") (get offer "issued_at")
            (not_raised early accept_before_offer rid second);
    }

MatchesOffer-check :
    (receipt body offer offer_body : Fields)
    → fatal_free (check_accept_offer receipt body offer offer_body) ≡ true
    → MatchesOffer receipt body offer offer_body
unfolding check_accept_offer
MatchesOffer-check receipt body offer offer_body free =
    let rid = get receipt "receipt_id" in
    let valid_until = get offer_body "valid_until" in
    let same_offer = py_eq (get body "offer_id") (get offer_body "offer_id") in
    let same_terms = py_eq (get body "terms_hash") (get offer_body "terms_hash") in
    let late = is_before valid_until (get receipt "issued_at") in
    let from_04 = text_in (get receipt "spec") specs_from_04 in
    let offeree_part = check_offeree receipt body offer offer_body in
    let last = fatal_if late offer_expired rid ++ (if from_04 then offeree_part else []) in
    let (dated, after_date) =
      guard_passed (not (validate_timestamp valid_until)) malformed (get offer "receipt_id")
        (if not same_offer || not same_terms then fatal_if true offer_mismatch rid else last)
        free in
    let (same, after_same) =
      guard_passed (not same_offer || not same_terms) offer_mismatch rid last after_date in
    let (is_same_offer, is_same_terms) = neither same_offer same_terms same in
    let (in_time, offeree_free) =
      fatal_free_parts (fatal_if late offer_expired rid) (if from_04 then offeree_part else [])
        after_same in
    let fits = λ (e : from_04 ≡ true).
      OffereeFits-check_offeree receipt body offer offer_body
        (taken from_04 offeree_part offeree_free e) in
    record {
      dated = held (validate_timestamp valid_until) dated;
      same_offer = is_same_offer;
      same_terms = is_same_terms;
      in_time =
          NotBefore-is_before valid_until (get receipt "issued_at")
            (not_raised late offer_expired rid in_time);
      offeree_named = λ e. (fits e).named;
      offeree_signs = λ e. (fits e).signs;
      offeree_offered = λ e. (fits e).offered;
      after_offer = λ e. (fits e).after;
    }

-- The receipt is no accept, or it matches the offer that it names where the table has it.
abbrev pub IsAgreed : Table → Fields → Type 0
IsAgreed offers receipt =
    (body offer offer_body : Fields)
    → is_text (get receipt "type") "agreement.accept" ≡ true
    → get receipt "body" ≡ dict body
    → find_offer offers (get body "offer_ref") ≡ some offer
    → get offer "body" ≡ dict offer_body
    → MatchesOffer receipt body offer offer_body

IsAgreed-check_accept :
    (offers : Table) (receipt : Fields)
    → fatal_free (
        if is_text (get receipt "type") "agreement.accept" then check_accept offers receipt else [])
      ≡ true
    → IsAgreed offers receipt
unfolding check_accept
IsAgreed-check_accept offers receipt free body offer offer_body is_accept has_body found has_terms =
    let here =
      taken (is_text (get receipt "type") "agreement.accept") (check_accept offers receipt) free
        is_accept in
    MatchesOffer-check receipt body offer offer_body (
      sym (
        ap (λ v. fatal_free (check_accept_record offers v receipt)) has_body
        ∙ (ap (λ o. fatal_free (check_found o receipt body)) found
            ∙ ap (λ v. fatal_free (check_offer_body v receipt body offer)) has_terms))
      ∙ here)

IsAgreed-check_accepts :
    (offers : Table) (dicts : List Fields)
    → fatal_free (check_accepts offers dicts) ≡ true
    → All (IsAgreed offers) dicts
unfolding check_accepts
IsAgreed-check_accepts offers [] free = tt
IsAgreed-check_accepts offers (d ∷ ds) free =
    let (first, rest) =
      fatal_free_parts
        (if is_text (get d "type") "agreement.accept" then check_accept offers d else [])
        (check_accepts offers ds) free in
    (IsAgreed-check_accept offers d first, IsAgreed-check_accepts offers ds rest)

-- In a clean bundle accepts match their offers, and bound receipts follow their accepts.
pub IsBound-check_agreements :
    (c : Crypto) (dicts : List Fields)
    → fatal_free (check_agreements c dicts) ≡ true
    → All (IsAgreed (table_of c "agreement.offer" [] dicts)) dicts
      × All (IsBound (table_of c "agreement.accept" [] dicts)) dicts
unfolding check_agreements
IsBound-check_agreements c dicts free =
    let offers = table_of c "agreement.offer" [] dicts in
    let accepts = table_of c "agreement.accept" [] dicts in
    let used = referenced_by specs_from_04 "agreement_ref" accepts dicts in
    let unused = check_unreferenced used accepts in
    let agreed = check_accepts offers dicts in
    let bound = check_bound accepts dicts in
    let (a, b) = fatal_free_parts (agreed ++ bound ++ unused) (check_skipped accepts dicts) free in
    let (a', b') = fatal_free_parts (agreed ++ bound) unused a in
    let (in_agreed, in_bound) = fatal_free_parts agreed bound a' in
    (IsAgreed-check_accepts offers dicts in_agreed, IsBound-check_bound accepts dicts in_bound)
