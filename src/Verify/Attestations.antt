-- ===== src/Verify/Attestations.antt =====
-- `_check_attestations` and `_check_provenance` of continuity_receipt/verify.py.
use continuity_receipt.Base.{
  Bool, false, not, ◌&&◌, ◌||◌, none, some, List, [], ◌∷◌, ◌++◌, if◌then◌else◌, is_some,
}
use continuity_receipt.Value.{Value, null, str, dict, Fields, end, get, as_dict, is_text, truthy}
use continuity_receipt.Value.Number.{codes}
use continuity_receipt.Crypto.{Crypto}
use continuity_receipt.Canon.{canonical_bytes}
use continuity_receipt.Keys
use continuity_receipt.Keys.{drop_prefix}
use continuity_receipt.Records.{attestation_view}
use continuity_receipt.Verify.Report.{
  Report, note, attestation, absent, valid, invalid, bad_attestation, provenance_invalid, fatal_if,
}

-- `v if isinstance(v, dict) else {}`: a missing member reads as None either way.
abbrev dict_or_empty : Value → Fields
dict_or_empty (dict d) = d
dict_or_empty _ = end

module _ (c : Crypto) where
  verify_texts : Value → Fields → Value → Bool
  verify_texts (str key) body (str value) = elim (canonical_bytes (dict (attestation_view body))) [
    | none ↦ false
    | some view ↦ Keys.verify c key view value
  ]
  verify_texts _ body _ = false

  unfoldable pub attestation_verifies : Fields → Value → Bool
  unfolding verify_texts
  attestation_verifies body v = elim (as_dict v) [
    | none ↦ false
    | some a ↦ is_text (get a "alg") "ed25519" && verify_texts (get a "key") body (get a "value")
  ]

  unfoldable pub check_attestation : Fields → Report
  check_attestation receipt =
      let rid = get receipt "receipt_id" in
      let body = dict_or_empty (get receipt "body") in
      let party = dict_or_empty (get body "counterparty") in
      let a = get party "attestation" in
      if not (truthy a)
      then note (attestation rid (get party "id") absent null) ∷ []
      else let verified = attestation_verifies body a in
        note (
          attestation rid (get party "id") (if verified then valid else invalid)
            (get (dict_or_empty a) "key"))
        ∷ fatal_if (not verified) bad_attestation rid

  unfoldable pub check_attestations : List Fields → Report
  unfolding check_attestation
  check_attestations [] = []
  check_attestations (r ∷ rs) =
      (if is_text (get r "type") "delivery.attestation" then check_attestation r else [])
      ++ check_attestations rs

-- `observed.startswith(PROVENANCE_PREFIXES)` for a text
has_provenance_prefix : Value → Bool
unfolding drop_prefix
has_provenance_prefix (str s) =
    is_some (drop_prefix (codes "sha256:") (codes s))
    || is_some (drop_prefix (codes "merkle-sha256:") (codes s))
has_provenance_prefix _ = false

abbrev check_observed : Value → Value → Report
check_observed null rid = []
check_observed observed rid = fatal_if (not (has_provenance_prefix observed)) provenance_invalid rid

check_decision_provenance : Fields → Report
unfolding has_provenance_prefix
check_decision_provenance receipt = elim (as_dict (get receipt "body")) [
  | none ↦ []
  | some body ↦ elim (as_dict (get body "input_provenance")) [
    | none ↦ []
    | some p ↦ check_observed (get p "observed_sources_hash") (get receipt "receipt_id")
  ]
]

unfoldable pub check_provenance : List Fields → Report
unfolding check_decision_provenance
check_provenance [] = []
check_provenance (r ∷ rs) =
    (if is_text (get r "type") "task.decision" then check_decision_provenance r else [])
    ++ check_provenance rs
