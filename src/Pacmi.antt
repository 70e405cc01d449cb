-- ===== src/Pacmi.antt =====
-- continuity_receipt/pacmi.py: `evaluate_pacmi`. The texts of an evaluation are fixed by its code and
-- status, and are left out; so are the printed forms of the report and the command line.
pub mod Anchored
pub mod Attacks
pub mod Refusals
pub mod Sound
pub mod Conformant
use continuity_receipt.Base.{
  ℕ, zero, suc, String, Bool, true, false, not, ◌&&◌, ◌||◌, ◌==◌, Option, none, some, List, [], ◌∷◌,
  length, if◌then◌else◌, ◌>>=◌,
}
use continuity_receipt.Value.{
  Value, null, bool, int, str, dict, Items, Fields, end, get, has, as_list, is_text, is_null,
  truthy,
}
use continuity_receipt.Crypto.{Crypto}
use continuity_receipt.Canon.{canonical_bytes, sha256_prefixed}
use continuity_receipt.Verify.Report.{
  Code, VerifyResult, Verdict, trusted, conditional, insufficient_evidence, untrusted, is_nil,
}
use continuity_receipt.Verify.Main.{
  Outcome, finished, overflow_error, verify_bundle, well_formed, dict_or_empty,
}
use continuity_receipt.Pacmi.Attacks.{
  on_receipts, tamper_record, truncate_tail, delete_middle, reorder, forge_record, cross_replay,
  rollback_replay, tamper_metadata,
}

pub data Status : Type 0 where
  safe vulnerable : Status

pub record ThreatEvaluation : Type 0 where
  pub code : String
  pub name : String
  pub status : Status

pub data Conformance : Type 0 where
  nonconformant partial conformant : Conformance

pub record PacmiReport : Type 0 where
  pub bundle_digest : Option String
  pub task_id : Value
  pub spec_version : Value
  pub verdict : Conformance
  pub neutralized_count : ℕ
  pub scitt_envelope_compliant : Bool
  pub offstore_anchor_present : Bool
  pub erasure_commitment_present : Bool
  pub threats : List ThreatEvaluation
  pub errors : List (Code × Value)

-- `evaluate_pacmi` returns a report, or lets an exception out.
pub data Evaluation : Type 0 where
  evaluated : PacmiReport → Evaluation
  raises : Evaluation

abbrev pub is_untrusted : Verdict → Bool
is_untrusted untrusted = true
is_untrusted _ = false

-- `res.errors or res.verdict == "UNTRUSTED"`
abbrev pub result_refused : VerifyResult → Bool
result_refused r = not (is_nil r.errors) || is_untrusted r.verdict

abbrev pub refused : Outcome → Bool
refused (finished r summary) = result_refused r
refused overflow_error = true

abbrev pub any_field : (Fields → Bool) → List Fields → Bool
any_field test [] = false
any_field test (d ∷ ds) = test d || any_field test ds

abbrev pub all_fields : (Fields → Bool) → List Fields → Bool
all_fields test [] = true
all_fields test (d ∷ ds) = test d && all_fields test ds

abbrev is_str : Value → Bool
is_str (str s) = true
is_str _ = false

-- `isinstance(v, int)`: a Boolean is one.
abbrev is_int : Value → Bool
is_int (int z) = true
is_int (bool b) = true
is_int _ = false

unfoldable pub signature_shaped : Fields → Bool
signature_shaped r = elim (get r "sig") [
  | dict sig ↦ is_text (get sig "alg") "ed25519" && is_str (get sig "value")
  | _ ↦ false
]

unfoldable pub root_shaped : Fields → Bool
root_shaped r = is_str (get r "task_id") && is_int (get r "seq")

abbrev pub body_of : Fields → Fields
body_of r = dict_or_empty (get r "body")

-- A receipt whose body says that its commitment is kept outside the store.
unfoldable pub commits_offstore : Fields → Bool
commits_offstore r =
    let body = body_of r in
    (has "anchor_ref" body
      || (has "offstore_digest" body || is_text (get r "type") "state.commitment"))
    && (is_text (get body "anchor_location") "offstore" || truthy (get body "offstore"))

unfoldable pub is_anchored : Fields → List Fields → Value → Bool
unfolding commits_offstore
is_anchored b dicts offstore =
    truthy offstore
    || (any_field commits_offstore dicts
        || (truthy (get b "anchors")
            || truthy (get (dict_or_empty (get b "chain_head")) "anchored")))

unfoldable pub commits_erasure : Fields → Bool
commits_erasure r =
    let body = body_of r in
    is_text (get r "type") "state.commitment"
    && (has "erasure_count" body
        || (has "erased_crystal_ids_digest" body
            || (has "erased_ids_digest" body || not (is_null (get body "revision")))))

abbrev pub evaluation : String → String → Bool → ThreatEvaluation
evaluation code name neutralized = record {
  code = code;
  name = name;
  status = if neutralized then safe else vulnerable;
}

abbrev is_safe : Status → Bool
is_safe safe = true
is_safe vulnerable = false

unfoldable pub count_safe : List ThreatEvaluation → ℕ
count_safe [] = 0
count_safe (t ∷ ts) = let rest = count_safe ts in if is_safe t.status then suc rest else rest

abbrev first_spec : List Fields → Value
first_spec [] = null
first_spec (d ∷ ds) = get d "spec"

module _ (c : Crypto) where
  -- `_simulate_attack_refusal`
  unfoldable pub attack_refused : Option Fields → Bool
  attack_refused none = true
  attack_refused (some b) = refused (verify_bundle c false none (dict b))

  unfoldable pub threat_evaluations : Fields → (anchored erasure : Bool) → List ThreatEvaluation
  unfolding attack_refused tamper_record truncate_tail delete_middle reorder forge_record
      cross_replay rollback_replay tamper_metadata
  threat_evaluations b anchored erasure =
      evaluation "T01" "Record Tamper" (attack_refused (on_receipts tamper_record b))
      ∷ evaluation "T02" "Tail Truncate" (attack_refused (on_receipts truncate_tail b))
      ∷ evaluation "T03" "Middle Delete" (attack_refused (on_receipts delete_middle b))
      ∷ evaluation "T04" "Sequence Reorder" (attack_refused (on_receipts reorder b))
      ∷ evaluation "T05" "Record Forge" (attack_refused (on_receipts forge_record b))
      ∷ evaluation "T06" "Cross-Context Replay" (attack_refused (cross_replay b))
      ∷ evaluation "T07" "Rollback Replay" (attack_refused (on_receipts rollback_replay b))
      ∷ evaluation "T08" "Metadata Tamper" (attack_refused (on_receipts tamper_metadata b))
      ∷ evaluation "T09" "Snapshot Rollback" anchored
      ∷ evaluation "T10" "Erasure Resurrection" (anchored && erasure)
      ∷ []

  -- The report on a bundle that the verifier does not refuse.
  unfoldable pub report_on : Fields → List Fields → Value → String → PacmiReport
  unfolding signature_shaped root_shaped is_anchored commits_erasure count_safe threat_evaluations
  report_on b dicts offstore digest =
      let anchored = is_anchored b dicts offstore in
      let erasure = any_field commits_erasure dicts in
      let threats = threat_evaluations b anchored erasure in
      let neutralized = count_safe threats in
      record {
        bundle_digest = some digest;
        task_id = get b "task_id";
        spec_version = first_spec dicts;
        verdict = if neutralized == length threats then conformant else partial;
        neutralized_count = neutralized;
        scitt_envelope_compliant =
            all_fields signature_shaped dicts && all_fields root_shaped dicts;
        offstore_anchor_present = anchored;
        erasure_commitment_present = erasure;
        threats = threats;
        errors = [];
      }

  abbrev pub refusal : Fields → VerifyResult → PacmiReport
  refusal b r = record {
    bundle_digest = none;
    task_id = get b "task_id";
    spec_version = null;
    verdict = nonconformant;
    neutralized_count = 0;
    scitt_envelope_compliant = false;
    offstore_anchor_present = false;
    erasure_commitment_present = false;
    threats = [];
    errors = r.errors;
  }

  -- The objects among the receipts: all of them, in a bundle that is not refused.
  abbrev pub receipt_dicts : Fields → List Fields
  unfolding well_formed
  receipt_dicts b = elim (as_list (get b "receipts")) [ none ↦ [] | some vs ↦ well_formed vs ]

  -- `canonical_bytes` refuses a float.
  abbrev pub report_encoded : Fields → Value → Option (List ℕ) → Evaluation
  unfolding report_on receipt_dicts
  report_encoded b offstore none = raises
  report_encoded b offstore (some bytes) =
      evaluated (report_on b (receipt_dicts b) offstore (sha256_prefixed c bytes))

  unfoldable pub evaluate_outcome : Fields → Value → Outcome → Evaluation
  unfolding report_encoded
  evaluate_outcome b offstore overflow_error = raises
  evaluate_outcome b offstore (finished r summary) =
      if result_refused r
      then evaluated (refusal b r)
      else report_encoded b offstore (canonical_bytes (dict b))

  -- `evaluate_pacmi`
  unfoldable pub evaluate_pacmi : Fields → Value → Evaluation
  unfolding evaluate_outcome
  evaluate_pacmi b offstore = evaluate_outcome b offstore (verify_bundle c false none (dict b))
