-- ===== src/Verify/Chain.antt =====
-- The loop over the receipts in `verify_bundle` of continuity_receipt/verify.py: versions, types,
-- required fields, positions, links and signatures.
pub mod Linked
pub mod Sound
use continuity_receipt.Base.{
  ℕ, suc, String, Bool, true, false, not, ◌&&◌, none, some, List, [], ◌∷◌, ◌++◌, pos, if◌then◌else◌,
  member, str_eq, is_some,
}
use continuity_receipt.Value.{
  Value, null, int, str, dict, Fields, lookup, get, as_dict, is_text, is_nonempty_text, text_in,
}
use continuity_receipt.Value.Equal.{py_eq}
use continuity_receipt.Crypto.{Crypto}
use continuity_receipt.Canon.{canonical_bytes}
use continuity_receipt.Keys
use continuity_receipt.Records.{
  supported_specs, record_types, specs_from_05, spec_06, required_fields, missing_from, is_empty,
  unsigned_view,
}
use continuity_receipt.Records.Timestamp.{validate_timestamp}
use continuity_receipt.Bundle.{receipt_digest}
use continuity_receipt.Verify.Report.{
  Report, malformed, version_unsupported, task_mismatch, unknown_type, chain_break, bad_signature,
  fatal_if,
}
use continuity_receipt.Verify.Body.{check_05_body, check_06_body}

-- The type is known to the receipt's version.
unfoldable pub known_type : String → Value → Bool
known_type t spec =
    member t record_types
    && (not (str_eq t "state.commitment" && not (text_in spec specs_from_05))
        && not (str_eq t "authority.grant" && not (is_text spec spec_06)))

-- `issuer.get("id", "")` where the issuer is an object, and `""` elsewhere.
abbrev pub issuer_id_or_empty : Fields → Value
issuer_id_or_empty receipt = elim (as_dict (get receipt "issuer")) [
  | none ↦ str ""
  | some issuer ↦ elim (lookup "id" issuer) [ none ↦ str "" | some v ↦ v ]
]

module _ (c : Crypto) where
  -- The issuer's key verifies the signature over the canonical bytes of the unsigned receipt.
  unfoldable pub signature_verifies : Fields → Value → Value → Bool
  signature_verifies receipt (str did) (str value) =
      elim (canonical_bytes (dict (unsigned_view receipt))) [
        | none ↦ false
        | some message ↦ Keys.verify c did message value
      ]
  signature_verifies receipt _ _ = false

  unfoldable pub verifies_sig : Fields → Value → Bool
  unfolding signature_verifies
  verifies_sig receipt (dict sig) =
      (is_text (get sig "alg") "ed25519" && is_nonempty_text (get sig "value"))
      && signature_verifies receipt (issuer_id_or_empty receipt) (get sig "value")
  verifies_sig receipt _ = false

  -- Each way to fail adds one `bad_signature`.
  unfoldable pub has_signature : Fields → Bool
  unfolding verifies_sig
  has_signature receipt = verifies_sig receipt (get receipt "sig")

  -- `expected_prev` after a receipt: its digest, or None where it has none.
  unfoldable pub link_after : Fields → Value
  link_after receipt = elim (receipt_digest c receipt) [ none ↦ null | some d ↦ str d ]

  -- What the loop does with an object of a known type whose body is an object.
  unfoldable pub check_body : String → ℕ → Value → Fields → Fields → Report
  unfolding required_fields missing_from
  check_body t index expected receipt body =
      let rid = get receipt "receipt_id" in
      let spec = get receipt "spec" in
      fatal_if (not (is_empty (missing_from body (required_fields t spec)))) malformed rid
      ++ (if text_in spec specs_from_05 then check_05_body t body rid else [])
      ++ (if is_text spec spec_06 then check_06_body t body rid else [])
      ++ fatal_if (not (validate_timestamp (get receipt "issued_at"))) malformed rid
      ++ fatal_if (not (py_eq (get receipt "seq") (int (pos index)))) chain_break rid
      ++ fatal_if (not (py_eq (get receipt "prev") expected)) chain_break rid
      ++ fatal_if (not (is_some (receipt_digest c receipt))) malformed rid
      ++ fatal_if (not (has_signature receipt)) bad_signature rid

  -- The entries of one receipt, and the link that the next one must carry. After an unknown type
  -- or a body that is no object the expected link stays.
  unfoldable pub check_typed : Value → ℕ → Value → Fields → Report × Value
  unfolding known_type
  check_typed (str t) index expected receipt =
      if known_type t (get receipt "spec")
      then elim (as_dict (get receipt "body")) [
        | none ↦ ([], expected)
        | some body ↦ (check_body t index expected receipt body, link_after receipt)
      ]
      else (fatal_if true unknown_type (get receipt "receipt_id"), expected)
  check_typed _ index expected receipt =
      (fatal_if true unknown_type (get receipt "receipt_id"), expected)

  unfoldable pub check_receipt : Value → ℕ → Value → Value → Report × Value
  check_receipt task_id index expected (dict receipt) =
      let rid = get receipt "receipt_id" in
      let typed = check_typed (get receipt "type") index expected receipt in
      (
        fatal_if (not (text_in (get receipt "spec") supported_specs)) version_unsupported rid
            ++ fatal_if (not (py_eq (get receipt "task_id") task_id)) task_mismatch rid
            ++ typed.0,
        typed.1,
      )
  check_receipt task_id index expected _ = ([], expected)

  unfoldable pub check_receipts : Value → ℕ → Value → List Value → Report
  check_receipts task_id index expected [] = []
  check_receipts task_id index expected (v ∷ vs) =
      let step = check_receipt task_id index expected v in
      step.0 ++ check_receipts task_id (suc index) step.1 vs
