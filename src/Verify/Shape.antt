-- ===== src/Verify/Shape.antt =====
-- `_check_shape` of continuity_receipt/verify.py.
use continuity_receipt.Base.{true, not, ◌&&◌, none, some, List, [], ◌∷◌, ◌++◌}
use continuity_receipt.Value.{Value, null, str, dict, Fields, get, as_list, is_dict, is_null}
use continuity_receipt.Verify.Report.{
  Report, Code, malformed, bad_revocation, anchor_invalid, fatal_if,
}

-- `receipt_id` if it is a text, else None.
abbrev text_or_null : Value → Value
text_or_null (str s) = str s
text_or_null _ = null

unfoldable pub check_receipt_shape : Value → Report
check_receipt_shape (dict receipt) =
    let rid = text_or_null (get receipt "receipt_id") in
    fatal_if (not (is_dict (get receipt "body"))) malformed rid
    ++ fatal_if (not (is_dict (get receipt "issuer"))) malformed rid
check_receipt_shape _ = fatal_if true malformed null

unfoldable pub check_receipt_shapes : List Value → Report
unfolding check_receipt_shape
check_receipt_shapes [] = []
check_receipt_shapes (v ∷ vs) = check_receipt_shape v ++ check_receipt_shapes vs

each_dict : Code → List Value → Report
each_dict code [] = []
each_dict code (v ∷ vs) = fatal_if (not (is_dict v)) code null ++ each_dict code vs

-- An optional list of objects, with the code for what is no list and that for what is no object.
check_object_list : Code → Code → Value → Report
unfolding each_dict
check_object_list bad_list bad_entry v = elim (as_list v) [
  | none ↦ fatal_if (not (is_null v)) bad_list null
  | some vs ↦ each_dict bad_entry vs
]

unfoldable pub check_shape : Fields → List Value → Report
unfolding check_receipt_shapes check_object_list
check_shape bundle receipts =
    check_receipt_shapes receipts
    ++ check_object_list malformed anchor_invalid (get bundle "anchors")
    ++ check_object_list bad_revocation bad_revocation (get bundle "revocations")
    ++ fatal_if
        (not (is_null (get bundle "disclosure_map")) && not (is_dict (get bundle "disclosure_map")))
        malformed null
    ++ fatal_if (not (is_null (get bundle "chain_head")) && not (is_dict (get bundle "chain_head")))
        malformed null
