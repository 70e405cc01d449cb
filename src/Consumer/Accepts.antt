-- ===== src/Consumer/Accepts.antt =====
-- What an accepting assessment guarantees.
use continuity_receipt.Base.{
  append-eq_nil, String, Bool, true, false, Option, none, some, ◌≡◌, ◌≢◌, refl, ap, ◌∙◌, List, [],
  ◌∷◌, ◌++◌, if◌then◌else◌, is_some,
}
use continuity_receipt.Value.{Value}
use continuity_receipt.Crypto.{Crypto}
use continuity_receipt.Verify.Report.{
  VerifyResult, Verdict, trusted, conditional, insufficient_evidence, untrusted,
}
use continuity_receipt.Verify.Main.{Outcome, finished, overflow_error, Summary, verify_bundle}
use continuity_receipt.Consumer.{
  Decision, accept, PolicyCheck, valid, invalid, validate_policy, specs_accepted, all_members,
  all_present, signers_of, types_of, issuer_reasons, evidence_reasons, policy_reasons, denied,
  decide_allowed, decide, decide_unasked, sorted_set, Assessment, Assessed, assessed, digest_of,
  assess_checked, assess_core, assess_bundle,
}

decide_allowed-accept :
    (v : Verdict) (digest : Bool) (reasons : List String)
    → (decide_allowed v digest reasons).0 ≡ accept
    → (v ≡ trusted) × (digest ≡ true) × (reasons ≡ [])
unfolding decide_allowed
decide_allowed-accept trusted false reasons h = cc
decide_allowed-accept trusted true [] h = (refl, refl, refl)
decide_allowed-accept trusted true (r ∷ rs) h = cc
decide_allowed-accept conditional digest reasons h = cc
decide_allowed-accept insufficient_evidence digest reasons h = cc
decide_allowed-accept untrusted digest reasons h = cc

undenied :
    (b : Bool) (reasons : List String) (k : Decision × List String)
    → (if b then (Decision.reject, reasons) else k).0 ≡ accept
    → k.0 ≡ accept
undenied true reasons k h = cc
undenied false reasons k h = h

decide-accept :
    (v : Verdict) (digest : Bool) (reasons : List String)
    → (decide v digest reasons).0 ≡ accept
    → (v ≡ trusted) × (digest ≡ true) × (reasons ≡ [])
unfolding decide
decide-accept untrusted digest reasons h = cc
decide-accept trusted digest reasons h =
    decide_allowed-accept trusted digest reasons
      (undenied (denied reasons) (sorted_set reasons) (decide_allowed trusted digest reasons) h)
decide-accept conditional digest reasons h =
    decide_allowed-accept conditional digest reasons
      (undenied (denied reasons) (sorted_set reasons) (decide_allowed conditional digest reasons) h)
decide-accept insufficient_evidence digest reasons h =
    decide_allowed-accept insufficient_evidence digest reasons (
      undenied (denied reasons) (sorted_set reasons)
        (decide_allowed insufficient_evidence digest reasons) h)

no_reason : (b : Bool) (s : String) → (if b then [] else s ∷ []) ≡ [] → b ≡ true
no_reason true s h = refl
no_reason false s h = cc

trusted_signers :
    (issuers signers : List String)
    → issuer_reasons issuers signers ≡ []
    → (signers ≢ []) × (all_members issuers signers ≡ true)
trusted_signers [] signers h = cc
trusted_signers (i ∷ is) [] h = cc
trusted_signers (i ∷ is) (s ∷ ss) h =
    ((λ e. cc), no_reason (all_members (i ∷ is) (s ∷ ss)) "issuer_not_trusted" h)

-- What a policy demands of a result of the verifier.
pub record Meets (c : Crypto) (specs issuers required : List String) (bundle : Value)
    (core : VerifyResult) (summary : Option Summary) : Type 0 where
  pub is_trusted : core.verdict ≡ trusted
  pub encodable : is_some (digest_of c bundle) ≡ true
  pub versions : specs_accepted specs bundle ≡ true
  pub signed : signers_of summary ≢ []
  pub signers : all_members issuers (signers_of summary) ≡ true
  pub present : all_present required (types_of summary) ≡ true

-- The policy of an assessment and the result that it is applied to.
pub record Accepts (c : Crypto) (bundle : Value) (policy : Option Value) : Type 0 where
  pub given : Value
  pub policy_is : policy ≡ some given
  pub core : VerifyResult
  pub summary : Option Summary
  pub verified : verify_bundle c false none bundle ≡ finished core summary
  pub specs : List String
  pub issuers : List String
  pub required : List String
  pub checked : validate_policy given ≡ valid specs issuers required
  pub meets : Meets c specs issuers required bundle core summary

abbrev outcome_of : Assessed → Decision
outcome_of (assessed a) = a.outcome
outcome_of _ = Decision.reject

-- Without a policy nothing is accepted.
unasked : (v : Verdict) (digest : Bool) → (decide_unasked v digest).0 ≢ accept
unfolding decide_unasked
unasked untrusted digest h = cc
unasked trusted false h = cc
unasked trusted true h = cc
unasked conditional false h = cc
unasked conditional true h = cc
unasked insufficient_evidence false h = cc
unasked insufficient_evidence true h = cc

module _ (c : Crypto) (bundle : Value) where
  Meets-decide :
      (specs issuers required : List String) (core : VerifyResult) (summary : Option Summary)
      → (decide core.verdict
          (is_some (digest_of c bundle))
          (policy_reasons specs issuers required bundle core summary)).0
        ≡ accept
      → Meets c specs issuers required bundle core summary
  unfolding policy_reasons
  Meets-decide specs issuers required core summary h =
      let versions = specs_accepted specs bundle in
      let present = all_present required (types_of summary) in
      let reasons = policy_reasons specs issuers required bundle core summary in
      let (is_trusted, encodable, none_left) =
        decide-accept core.verdict (is_some (digest_of c bundle)) reasons h in
      let first : List String = if versions then [] else "spec_not_accepted" ∷ [] in
      let second : List String = issuer_reasons issuers (signers_of summary) in
      let third : List String = if present then [] else "required_record_missing" ∷ [] in
      let (front, last) =
        append-eq_nil (first ++ second ++ third) (evidence_reasons core.verdict) none_left in
      let (start, d) = append-eq_nil (first ++ second) third front in
      let (a, b) = append-eq_nil first second start in
      let (signed, members) = trusted_signers issuers (signers_of summary) b in
      record {
        is_trusted = is_trusted;
        encodable = encodable;
        versions = no_reason versions "spec_not_accepted" a;
        signed = signed;
        signers = members;
        present = no_reason present "required_record_missing" d;
      }

  Meets-assess_checked :
      (check : PolicyCheck) (digest : Option String) (policy : Value) (core : VerifyResult)
      (summary : Option Summary) (a : Assessment)
      → assess_checked c check digest bundle policy core summary ≡ assessed a
      → a.outcome ≡ accept
      → (specs issuers required : List String) × (check ≡ valid specs issuers required)
        × Meets c specs issuers required bundle core summary
  unfolding assess_checked
  Meets-assess_checked (invalid error) digest policy core summary a e h = cc
  Meets-assess_checked (valid specs issuers required) none policy core summary a e h = cc
  Meets-assess_checked (valid specs issuers required) (some d) policy core summary a e h = (
    specs,
    issuers,
    required,
    refl,
    Meets-decide specs issuers required core summary (ap outcome_of e ∙ h),
  )

  Accepts-assess_core :
      (policy : Option Value) (o : Outcome) (a : Assessment)
      → verify_bundle c false none bundle ≡ o
      → assess_core c bundle policy o ≡ assessed a
      → a.outcome ≡ accept
      → Accepts c bundle policy
  unfolding assess_core
  Accepts-assess_core policy overflow_error a run e h = cc
  Accepts-assess_core none (finished core summary) a run e h =
      absurd (unasked core.verdict (is_some (digest_of c bundle)) (ap outcome_of e ∙ h))
  Accepts-assess_core (some p) (finished core summary) a run e h =
      let (specs, issuers, required, checked, meets) =
        Meets-assess_checked (validate_policy p) (digest_of c p) p core summary a e h in
      record {
        given = p;
        policy_is = refl;
        core = core;
        summary = summary;
        verified = run;
        specs = specs;
        issuers = issuers;
        required = required;
        checked = checked;
        meets = meets;
      }

-- If `assess_bundle` returns ACCEPT, then it was given a valid policy, and `verify_bundle` returned
-- TRUSTED for the bundle; the bundle has canonical bytes; it and its receipts have versions that the
-- policy accepts; it has signers, each trusted by the policy; and every record type that the policy
-- requires is present.
pub assess_bundle-Accepts :
    (c : Crypto) (bundle : Value) (policy : Option Value) (a : Assessment)
    → assess_bundle c bundle policy ≡ assessed a
    → a.outcome ≡ accept
    → Accepts c bundle policy
unfolding assess_bundle
assess_bundle-Accepts c bundle policy a e h =
    Accepts-assess_core c bundle policy (verify_bundle c false none bundle) a refl e h
