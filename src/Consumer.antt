-- ===== src/Consumer.antt =====
-- continuity_receipt/consumer.py: what a relying agent's own policy makes of a bundle. Reading the
-- two files and the command line are not modelled.
pub mod Accepts
use continuity_receipt.Base.{
  ◌>>=◌, ℕ, String, Bool, true, false, not, ◌&&◌, ◌||◌, Option, none, some, List, [], ◌∷◌, ◌++◌,
  if◌then◌else◌, member, str_eq, is_some,
}
use continuity_receipt.Value.{
  Value, dict, list, str, null, Items, nil, cons, Fields, end, field, get, lookup, as_list, as_dict,
  elements, text_in, is_text,
}
use continuity_receipt.Value.Number.{codes, is_space}
use continuity_receipt.Crypto.{Crypto}
use continuity_receipt.Canon.{canonical_bytes, sha256_prefixed}
use continuity_receipt.Verify.Report.{
  VerifyResult, Verdict, trusted, conditional, insufficient_evidence, untrusted,
}
use continuity_receipt.Verify.Main.{
  Outcome, finished, overflow_error, Summary, insert_text, verify_bundle,
}

abbrev pub profile_specs : List String
profile_specs =
    "continuity-receipt/0.1" ∷ "continuity-receipt/0.2" ∷ "continuity-receipt/0.3"
    ∷ "continuity-receipt/0.4" ∷ []

abbrev pub profile_record_types : List String
profile_record_types =
    "session.pass.created" ∷ "task.decision" ∷ "task.execution" ∷ "delivery.attestation"
    ∷ "task.termination" ∷ "settlement" ∷ "authority.succession" ∷ "agreement.offer"
    ∷ "agreement.accept" ∷ []

pub data Decision : Type 0 where
  accept needs_evidence reject : Decision

-- The checked lists of a policy, or the text of an InputError.
pub data PolicyCheck : Type 0 where
  valid : (specs issuers required : List String) → PolicyCheck
  invalid : String → PolicyCheck

abbrev policy_members : List String
policy_members = "id" ∷ "accepted_specs" ∷ "trusted_issuers" ∷ "required_record_types" ∷ []

known_members : Fields → Bool
known_members end = true
known_members (field k v d) = member k policy_members && known_members d

-- `not text.strip()`
is_blank : List ℕ → Bool
is_blank [] = true
is_blank (c ∷ s) = is_space c && is_blank s

is_policy_id : Value → Bool
unfolding is_blank
is_policy_id (str s) = not (is_blank (codes s))
is_policy_id _ = false

all_texts_in : List String → List Value → Bool
all_texts_in names [] = true
all_texts_in names (v ∷ vs) = text_in v names && all_texts_in names vs

all_named : List Value → Bool
all_named [] = true
all_named (str s ∷ vs) = not (str_eq s "") && all_named vs
all_named (_ ∷ vs) = false

abbrev texts : List Value → List String
texts [] = []
texts (str s ∷ vs) = s ∷ texts vs
texts (_ ∷ vs) = texts vs

abbrev texts_of : Value → List String
texts_of (list vs) = texts (elements vs)
texts_of _ = []

distinct : List String → Bool
distinct [] = true
distinct (s ∷ ss) = not (member s ss) && distinct ss

is_spec_list : Value → Bool
unfolding all_texts_in
is_spec_list (list (cons v vs)) = all_texts_in profile_specs (v ∷ elements vs)
is_spec_list _ = false

is_issuer_list : Value → Bool
unfolding all_named
is_issuer_list (list vs) = all_named (elements vs)
is_issuer_list _ = false

is_type_list : Value → Bool
unfolding all_texts_in
is_type_list (list vs) = all_texts_in profile_record_types (elements vs)
is_type_list _ = false

-- `policy.get("required_record_types", [])`
abbrev required_of : Fields → Value
required_of p = elim (lookup "required_record_types" p) [ none ↦ list nil | some v ↦ v ]

-- `_validate_policy`
unfoldable pub validate_policy : Value → PolicyCheck
unfolding known_members is_policy_id is_spec_list is_issuer_list is_type_list distinct
validate_policy (dict p) =
    let specs = get p "accepted_specs" in
    let issuers = get p "trusted_issuers" in
    let required = required_of p in
    if not (known_members p)
    then invalid "policy_unknown_field"
    else if not (is_policy_id (get p "id"))
    then invalid "policy_id_invalid"
    else if not (is_spec_list specs)
    then invalid "policy_specs_invalid"
    else if not (distinct (texts_of specs))
    then invalid "policy_specs_duplicate"
    else if not (is_issuer_list issuers)
    then invalid "policy_issuers_invalid"
    else if not (distinct (texts_of issuers))
    then invalid "policy_issuers_duplicate"
    else if not (is_type_list required)
    then invalid "policy_record_types_invalid"
    else if not (distinct (texts_of required))
    then invalid "policy_record_types_duplicate"
    else valid (texts_of specs) (texts_of issuers) (texts_of required)
validate_policy _ = invalid "policy_not_object"

all_of_specs : List String → List Value → Bool
all_of_specs specs [] = true
all_of_specs specs (dict r ∷ vs) = text_in (get r "spec") specs && all_of_specs specs vs
all_of_specs specs (_ ∷ vs) = false

abbrev list_or_empty : Value → List Value
list_or_empty (list vs) = elements vs
list_or_empty _ = []

-- The bundle and each of its receipts have an accepted version.
unfoldable pub specs_accepted : List String → Value → Bool
unfolding all_of_specs
specs_accepted specs (dict bundle) =
    text_in (get bundle "spec") specs && all_of_specs specs (list_or_empty (get bundle "receipts"))
specs_accepted specs _ = false

abbrev pub all_members : List String → List String → Bool
all_members issuers [] = true
all_members issuers (s ∷ ss) = member s issuers && all_members issuers ss

abbrev pub signers_of : Option Summary → List String
signers_of none = []
signers_of (some s) = s.issuers

abbrev pub types_of : Option Summary → List Value
types_of none = []
types_of (some s) = s.types

abbrev any_is : String → List Value → Bool
any_is t [] = false
any_is t (v ∷ vs) = is_text v t || any_is t vs

abbrev pub all_present : List String → List Value → Bool
all_present [] types = true
all_present (t ∷ ts) types = any_is t types && all_present ts types

abbrev pub issuer_reasons : List String → List String → List String
issuer_reasons [] signers = "trusted_issuer_policy_empty" ∷ []
issuer_reasons (i ∷ is) [] = "issuer_not_trusted" ∷ []
issuer_reasons (i ∷ is) (s ∷ ss) =
    if all_members (i ∷ is) (s ∷ ss) then [] else "issuer_not_trusted" ∷ []

abbrev pub evidence_reasons : Verdict → List String
evidence_reasons conditional = "core_evidence_incomplete" ∷ []
evidence_reasons insufficient_evidence = "core_evidence_incomplete" ∷ []
evidence_reasons _ = []

-- `sorted(set(reasons))`
unfoldable pub sorted_set : List String → List String
unfolding insert_text
sorted_set [] = []
sorted_set (s ∷ ss) = insert_text s (sorted_set ss)

-- The reasons of the policy, in the order in which the code appends them.
unfoldable pub policy_reasons :
    (specs issuers required : List String) → Value → VerifyResult → Option Summary → List String
unfolding specs_accepted
policy_reasons specs issuers required bundle core summary =
    (if specs_accepted specs bundle then [] else "spec_not_accepted" ∷ [])
    ++ issuer_reasons issuers (signers_of summary)
    ++ (if all_present required (types_of summary) then [] else "required_record_missing" ∷ [])
    ++ evidence_reasons core.verdict

-- An explicit mismatch with the policy's lists is a denial.
abbrev pub denied : List String → Bool
denied reasons = member "issuer_not_trusted" reasons || member "spec_not_accepted" reasons

-- Where nothing is denied; `digest` says that the bundle has canonical bytes.
abbrev pub decide_allowed : Verdict → (digest : Bool) → List String → Decision × List String
unfolding sorted_set
decide_allowed trusted false reasons = (reject, sorted_set ("bundle_not_canonicalizable" ∷ reasons))
decide_allowed trusted true [] = (accept, "policy_satisfied" ∷ [])
decide_allowed trusted true (r ∷ rs) = (needs_evidence, sorted_set (r ∷ rs))
decide_allowed _ digest reasons = (needs_evidence, sorted_set reasons)

unfoldable pub decide : Verdict → (digest : Bool) → List String → Decision × List String
unfolding sorted_set
decide untrusted digest reasons = (reject, sorted_set ("core_untrusted" ∷ reasons))
decide verdict digest reasons =
    if denied reasons then (reject, sorted_set reasons) else decide_allowed verdict digest reasons

-- The decision without a policy.
unfoldable pub decide_unasked : Verdict → (digest : Bool) → Decision × List String
decide_unasked untrusted digest = (reject, "core_untrusted" ∷ "policy_missing" ∷ [])
decide_unasked verdict false = (reject, "bundle_not_canonicalizable" ∷ "policy_missing" ∷ [])
decide_unasked verdict true = (needs_evidence, "policy_missing" ∷ [])

pub record Assessment : Type 0 where
  pub outcome : Decision
  pub reason_codes : List String
  pub core : VerifyResult
  pub bundle_digest : Option String
  pub policy_id : Value
  pub policy_digest : Option String

-- What `assess_bundle` does: it returns, raises an InputError, or lets an OverflowError out.
pub data Assessed : Type 0 where
  assessed : Assessment → Assessed
  input_error : String → Assessed
  uncaught : Assessed

module _ (c : Crypto) where
  unfoldable pub digest_of : Value → Option String
  digest_of v = canonical_bytes v >>= λ bytes. some (sha256_prefixed c bytes)

  unfoldable pub assess_checked :
      PolicyCheck → Option String → Value → Value → VerifyResult → Option Summary → Assessed
  unfolding policy_reasons decide digest_of
  assess_checked (invalid error) policy_digest bundle policy core summary = input_error error
  assess_checked (valid specs issuers required) none bundle policy core summary =
      input_error "policy_not_canonicalizable"
  assess_checked (valid specs issuers required) (some policy_digest) bundle policy core summary =
      let decided =
        decide core.verdict (is_some (digest_of bundle))
          (policy_reasons specs issuers required bundle core summary) in
      assessed (record {
        outcome = decided.0;
        reason_codes = decided.1;
        core = core;
        bundle_digest = digest_of bundle;
        policy_id = elim policy [ dict p ↦ get p "id" | _ ↦ null ];
        policy_digest = some policy_digest;
      })

  unfoldable pub assess_core : Value → Option Value → Outcome → Assessed
  unfolding assess_checked decide_unasked validate_policy
  assess_core bundle policy overflow_error = uncaught
  assess_core bundle none (finished core summary) =
      let decided = decide_unasked core.verdict (is_some (digest_of bundle)) in
      assessed (record {
        outcome = decided.0;
        reason_codes = decided.1;
        core = core;
        bundle_digest = digest_of bundle;
        policy_id = null;
        policy_digest = none;
      })
  assess_core bundle (some policy) (finished core summary) =
      assess_checked (validate_policy policy) (digest_of policy) bundle policy core summary

  unfoldable pub assess_bundle : Value → Option Value → Assessed
  unfolding assess_core
  assess_bundle bundle policy = assess_core bundle policy (verify_bundle c false none bundle)
