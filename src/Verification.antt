-- ===== src/Verification.antt =====
-- continuity_receipt/verification.py: receipts of verification runs, issued and verified. The command
-- line is not modelled. The clock and the package's version are arguments.
pub mod Consistent
pub mod Issue
pub mod Members
pub mod Roundtrip
pub mod Sound
use continuity_receipt.Base.{
  ℕ, String, Bool, true, false, not, ◌&&◌, Option, none, some, List, [], ◌∷◌, ◌++◌, pos, leb,
  str_eq, if◌then◌else◌, ◌>>=◌,
}
use continuity_receipt.Value.{
  Value, null, int, str, list, dict, Items, nil, cons, Fields, get, without, is_dict, is_text,
  is_nonempty_text, text_in, truthy,
}
use continuity_receipt.Value.Equal.{py_eq}
use continuity_receipt.Crypto.{Crypto}
use continuity_receipt.Canon.{canonical_bytes, sha256_prefixed}
use continuity_receipt.Keys
use continuity_receipt.StrictJson.{Json, loads}
use continuity_receipt.Records.Timestamp.{validate_timestamp, timestamp}
use continuity_receipt.Revocations.{verify_statements}
use continuity_receipt.Verify.Body.{is_digest}

abbrev pub kind : String
kind = "continuity-receipt-verification"

abbrev pub verdicts : List String
verdicts = "TRUSTED" ∷ "PROVISIONAL" ∷ "INSUFFICIENT_EVIDENCE" ∷ "UNTRUSTED" ∷ []

pub record VerificationReceiptResult : Type 0 where
  pub is_valid : Bool
  pub errors : List String
  pub issuer : Value
  pub verdict : Value
  pub verified_at : Value
  pub bundle_digest : Value
  pub digest_match : Option Bool

-- The argument `bundle`: a parsed object, JSON bytes or text, or anything else.
pub data BundleInput : Type 0 where
  object : Fields → BundleInput
  text : List ℕ → BundleInput
  other : BundleInput

-- `_bundle_object`
unfoldable pub bundle_object : Json → BundleInput → Option Value
bundle_object j (object d) = some (dict d)
bundle_object j (text t) = loads j t
bundle_object j other = none

-- `_errors_well_formed`
unfoldable pub is_error_entry : Value → Bool
is_error_entry (dict d) = elim (get d "code") [ str s ↦ true | _ ↦ false ]
is_error_entry _ = false

unfoldable pub all_error_entries : Items → Bool
unfolding is_error_entry
all_error_entries nil = true
all_error_entries (cons v vs) = is_error_entry v && all_error_entries vs

unfoldable pub errors_well_formed : Value → Bool
unfolding all_error_entries
errors_well_formed (list vs) = all_error_entries vs
errors_well_formed _ = false

unfoldable pub all_texts : Items → Bool
all_texts nil = true
all_texts (cons (str s) vs) = all_texts vs
all_texts (cons _ vs) = false

-- `_string_list`
unfoldable pub string_list : Value → Bool
unfolding all_texts
string_list (list vs) = all_texts vs
string_list _ = false

-- `_verdict_class`
abbrev pub class_of : Bool → Bool → Bool → String
class_of errors provisional insufficient =
    if errors
    then "UNTRUSTED"
    else if insufficient
    then "INSUFFICIENT_EVIDENCE"
    else if provisional
    then "PROVISIONAL"
    else "TRUSTED"

abbrev pub verdict_class : Value → Value → Value → String
verdict_class errors provisional insufficient =
    class_of (truthy errors) (truthy provisional) (truthy insufficient)

-- `[entry["code"] for entry in errors]`
abbrev pub entry_code : Value → Value
entry_code (dict d) = get d "code"
entry_code _ = null

abbrev pub entry_codes : Items → Items
entry_codes nil = nil
entry_codes (cons v vs) = cons (entry_code v) (entry_codes vs)

abbrev pub codes_of : Value → Value
codes_of (list vs) = list (entry_codes vs)
codes_of _ = null

-- The codes of the tests that hold, in order: `if test: errors.append(code)` for each.
abbrev pub failures : List (Bool × String) → List String
failures [] = []
failures ((test, code) ∷ tests) = let rest = failures tests in if test then code ∷ rest else rest

-- The tests of the members.
unfoldable pub member_tests : Fields → List (Bool × String)
unfolding errors_well_formed string_list is_digest
member_tests r =
    let errors = get r "errors" in
    let provisional = get r "provisional_reasons" in
    let insufficient = get r "insufficient_reasons" in
    let codes = get r "error_codes" in
    let well_formed = errors_well_formed errors in
    (not (is_text (get r "kind") kind), "bad_kind")
    ∷ (not (py_eq (get r "version") (int (pos 1))), "bad_version")
    ∷ (not (text_in (get r "verdict") verdicts), "bad_verdict")
    ∷ (not (validate_timestamp (get r "verified_at")), "bad_verified_at")
    ∷ (not (is_digest "sha256:" (get r "bundle_digest")), "bad_bundle_digest")
    ∷ (not well_formed, "bad_errors")
    ∷ (not (string_list provisional), "bad_provisional_reasons")
    ∷ (not (string_list insufficient), "bad_insufficient_reasons")
    ∷ (not (is_dict (get r "summary")), "bad_summary")
    ∷ (not (string_list codes), "bad_error_codes")
    ∷ (
      string_list codes && (well_formed && not (py_eq codes (codes_of errors))),
      "error_codes_mismatch",
    )
    ∷ (
      (text_in (get r "verdict") verdicts
            && (well_formed && (string_list provisional && string_list insufficient)))
          && not (is_text (get r "verdict") (verdict_class errors provisional insufficient)),
      "verdict_mismatch",
    )
    ∷ []

-- `sig_shape_ok`
unfoldable pub sig_shape_ok : Value → Bool
sig_shape_ok (dict sig) =
    is_text (get sig "alg") "ed25519"
    && (elim (get sig "key") [ str k ↦ true | _ ↦ false ] && is_nonempty_text (get sig "value"))
sig_shape_ok _ = false

abbrev pub sig_member : Value → String → Value
sig_member (dict sig) name = get sig name
sig_member _ name = null

-- `if key_id == issuer and at >= revoked_at: errors.append("key_revoked")` for each pair
unfoldable pub revoked_codes : String → ℕ → List (String × ℕ) → List String
revoked_codes issuer at [] = []
revoked_codes issuer at ((key, revoked_at) ∷ revoked) =
    (if str_eq key issuer && leb revoked_at at then "key_revoked" ∷ [] else [])
    ++ revoked_codes issuer at revoked

abbrev pub repeat_code : ℕ → List String
repeat_code ℕ.zero = []
repeat_code (ℕ.suc n) = "bad_revocation" ∷ repeat_code n

abbrev pub issuer_revoked : Value → Option ℕ → List (String × ℕ) → List String
issuer_revoked (str issuer) (some at) revoked =
    if str_eq issuer "" then [] else revoked_codes issuer at revoked
issuer_revoked _ _ revoked = []

-- `verify_verification_receipt` returns a result, or lets out an exception of `verify_statements`.
pub data Verified : Type 0 where
  verified : VerificationReceiptResult → Verified
  raised : Verified

module _ (c : Crypto) where
  -- `receipt_digest`
  unfoldable pub receipt_digest : Fields → Option String
  receipt_digest receipt =
      canonical_bytes (dict (without "sig" receipt)) >>= λ message. some (sha256_prefixed c message)

  -- The issuer is the key of the signature, which verifies.
  unfoldable pub signed_by : Fields → Value → Value → Value → Bool
  signed_by r (str issuer) (str key) (str value) =
      not (str_eq issuer "")
      && (str_eq key issuer && elim (canonical_bytes (dict (without "sig" r))) [
        | none ↦ false
        | some message ↦ Keys.verify c issuer message value
      ])
  signed_by r _ _ _ = false

  unfoldable pub signature_tests : Fields → List (Bool × String)
  unfolding sig_shape_ok signed_by
  signature_tests r =
      let sig = get r "sig" in
      (not (sig_shape_ok sig), "bad_signature_shape")
      ∷ (
        sig_shape_ok sig
            && not (signed_by r (get r "issuer") (sig_member sig "key") (sig_member sig "value")),
        "bad_signature",
      )
      ∷ []

  -- `digest_match` for a bundle that is given.
  unfoldable pub digest_matches : Json → Fields → BundleInput → Bool
  unfolding bundle_object
  digest_matches j r bundle = elim (bundle_object j bundle >>= canonical_bytes) [
    | none ↦ false
    | some bytes ↦ is_text (get r "bundle_digest") (sha256_prefixed c bytes)
  ]

  unfoldable pub bundle_match : Json → Fields → Option BundleInput → Option Bool
  unfolding digest_matches
  bundle_match j r none = none
  bundle_match j r (some bundle) = some (digest_matches j r bundle)

  abbrev pub bundle_tests : Option Bool → List (Bool × String)
  bundle_tests none = []
  bundle_tests (some matches) = (not matches, "bundle_digest_mismatch") ∷ []

  -- The codes that the revocations add; none is looked at where the list is empty.
  unfoldable pub revocation_codes : Fields → List Value → Option (List String)
  unfolding revoked_codes
  revocation_codes r [] = some []
  revocation_codes r (v ∷ vs) = verify_statements c (v ∷ vs) >>= λ (revoked, rejected). some (
      repeat_code rejected
      ++ issuer_revoked (get r "issuer") (timestamp (get r "verified_at")) revoked)

  abbrev pub result_of : Fields → List String → Option Bool → VerificationReceiptResult
  result_of r errors digest_match = record {
    is_valid = elim errors [ [] ↦ true | e ∷ es ↦ false ];
    errors = errors;
    issuer = get r "issuer";
    verdict = get r "verdict";
    verified_at = get r "verified_at";
    bundle_digest = get r "bundle_digest";
    digest_match = digest_match;
  }

  abbrev pub conclude : Fields → List String → Option Bool → Option (List String) → Verified
  conclude r errors digest_match none = raised
  conclude r errors digest_match (some more) = verified (result_of r (errors ++ more) digest_match)

  unfoldable pub verify_object : Json → Fields → Option BundleInput → List Value → Verified
  unfolding member_tests signature_tests bundle_match revocation_codes
  verify_object j r bundle revocations =
      let digest_match = bundle_match j r bundle in
      conclude r
        (failures (member_tests r)
          ++ (failures (signature_tests r) ++ failures (bundle_tests digest_match)))
        digest_match (revocation_codes r revocations)

  -- `verify_verification_receipt`; the revocations are `[]` for None.
  unfoldable pub verify_verification_receipt :
      Json → Value → Option BundleInput → List Value → Verified
  unfolding verify_object
  verify_verification_receipt j (dict r) bundle revocations = verify_object j r bundle revocations
  verify_verification_receipt j _ bundle revocations = verified (record {
    is_valid = false;
    errors = "not_an_object" ∷ [];
    issuer = null;
    verdict = null;
    verified_at = null;
    bundle_digest = null;
    digest_match = none;
  })
