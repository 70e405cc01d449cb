-- ===== src/Verify/Report.antt =====
-- `VerifyResult` of continuity_receipt/verify.py and what the passes append to it. No pass reads
-- the result, so a pass is the list of its entries in order. The `detail` texts are left out.
pub mod Grade
use continuity_receipt.Base.{ℕ, Bool, true, false, not, List, [], ◌∷◌, if◌then◌else◌}
use continuity_receipt.Value.{Value}

-- The codes of `_fatal`.
pub data Code : Type 0 where
  malformed nesting_too_deep version_unsupported too_many_receipts task_mismatch unknown_type : Code
  chain_break bad_signature policy_mismatch cap_exceeded delivery_before_settlement : Code
  missing_termination offer_mismatch offer_expired offeree_mismatch accept_before_offer : Code
  agreement_before_accept agreement_issuer_mismatch authority_before_grant : Code
  authority_agent_mismatch authority_expired redacted_required commit_mismatch : Code
  bad_attestation provenance_invalid bad_revocation key_revoked anchor_invalid head_mismatch : Code
  head_anchor_invalid : Code

-- The reasons, with the receipt id or the path that their text ends in.
pub data Reason : Type 0 where
  missing_agreement missing_authority missing_offer : Value → Reason
  agreement_unreferenced authority_unreferenced missing_agreement_ref : Value → Reason
  erased_content redacted_without_disclosure : List ℕ → Reason
  anchor_missing head_anchor_missing : Reason

-- A counterparty attestation in the summary.
pub data Attested : Type 0 where
  absent valid invalid : Attested

-- What a pass adds to the summary.
pub data Note : Type 0 where
  attestation : (receipt_id counterparty : Value) → Attested → (key : Value) → Note
  anchors : List Value → Note
  chain_head : (seq anchored : Value) → Note
  revocations_checked revocations_external : ℕ → Note

pub data Entry : Type 0 where
  fatal : Code → Value → Entry
  insufficient provisional : Reason → Entry
  note : Note → Entry

abbrev pub Report : Type 0
Report = List Entry

pub data Verdict : Type 0 where
  trusted conditional insufficient_evidence untrusted : Verdict

pub record VerifyResult : Type 0 where
  pub verdict : Verdict
  pub errors : List (Code × Value)
  pub provisional_reasons : List Reason
  pub insufficient_reasons : List Reason
  pub notes : List Note

abbrev pub empty_result : VerifyResult
empty_result = record {
  verdict = trusted;
  errors = [];
  provisional_reasons = [];
  insufficient_reasons = [];
  notes = [];
}

-- One append to the result.
unfoldable pub append_entry : Entry → VerifyResult → VerifyResult
append_entry (fatal code rid) r = record r { errors = (code, rid) ∷ r.errors }
append_entry (insufficient reason) r = record r {
  insufficient_reasons = reason ∷ r.insufficient_reasons;
}
append_entry (provisional reason) r = record r {
  provisional_reasons = reason ∷ r.provisional_reasons;
}
append_entry (note n) r = record r { notes = n ∷ r.notes }

-- The lists of the result after all the entries, each in the order of the appends.
unfoldable pub collect : Report → VerifyResult
unfolding append_entry
collect [] = empty_result
collect (e ∷ es) = append_entry e (collect es)

abbrev pub is_nil {ℓ} : {A : Type ℓ} → List A → Bool
is_nil [] = true
is_nil (x ∷ xs) = false

abbrev choose_verdict : Bool → Bool → Bool → Verdict
choose_verdict no_errors no_insufficient no_provisional =
    if not no_errors
    then untrusted
    else if not no_insufficient
    then insufficient_evidence
    else if not no_provisional
    then conditional
    else trusted

-- `_finish`
unfoldable pub finish : VerifyResult → VerifyResult
finish r = record r {
  verdict =
      choose_verdict (is_nil r.errors) (is_nil r.insufficient_reasons)
        (is_nil r.provisional_reasons);
}

-- `if test: _fatal(result, code, …, rid)`
abbrev pub fatal_if : Bool → Code → Value → Report
fatal_if test code rid = if test then fatal code rid ∷ [] else []
