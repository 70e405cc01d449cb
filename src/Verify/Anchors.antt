-- ===== src/Verify/Anchors.antt =====
-- `_check_anchors` and `_check_chain_head` of continuity_receipt/verify.py.
pub mod Sound
use continuity_receipt.Base.{
  String, Bool, true, false, not, ◌&&◌, Option, none, some, List, [], ◌∷◌, ◌++◌, if◌then◌else◌,
}
use continuity_receipt.Value.{
  Value, null, str, dict, Fields, get, as_dict, as_list, is_text, is_nonempty_text, text_in, truthy,
}
use continuity_receipt.Value.Equal.{py_eq}
use continuity_receipt.Crypto.{Crypto}
use continuity_receipt.Bundle.{receipt_digest, last?}
use continuity_receipt.Verify.Report.{
  Report, note, anchors, chain_head, anchor_invalid, head_mismatch, head_anchor_invalid,
  anchor_missing, head_anchor_missing, provisional, fatal_if,
}

abbrev anchor_types : List String
anchor_types = "opentimestamps" ∷ "public-chain" ∷ "custom" ∷ []

-- `by_id.get(rid)`: the last receipt with that text as its identifier.
unfoldable pub find_by_id : String → List Fields → Option Fields
find_by_id id [] = none
find_by_id id (r ∷ rs) = elim (find_by_id id rs) [
  | some later ↦ some later
  | none ↦ if is_text (get r "receipt_id") id then some r else none
]

unfoldable pub find_target : Value → List Fields → Option Fields
unfolding find_by_id
find_target (str id) receipts = find_by_id id receipts
find_target _ receipts = none

-- The entries of one anchor, and the type that it adds to the kinds.
check_meta : Value → Report × List Value
check_meta null = ([], [])
check_meta (dict m) =
    if text_in (get m "type") anchor_types
    then ([], get m "type" ∷ [])
    else (fatal_if true anchor_invalid null, [])
check_meta _ = (fatal_if true anchor_invalid null, [])

abbrev kinds_or_default : List Value → List Value
kinds_or_default [] = str "hash-only" ∷ []
kinds_or_default (k ∷ ks) = k ∷ ks

module _ (c : Crypto) where
  -- The anchor's target is in the bundle, and its hash is the target's digest.
  unfoldable pub anchor_matches : List Fields → Fields → Bool
  unfolding find_target
  anchor_matches receipts anchor = elim (find_target (get anchor "target") receipts) [
    | none ↦ false
    | some target ↦ elim (receipt_digest c target) [
      | none ↦ false
      | some digest ↦ py_eq (get anchor "hash") (str digest)
    ]
  ]

  unfoldable pub check_anchor : List Fields → Value → Report × List Value
  unfolding check_meta
  check_anchor receipts (dict anchor) =
      if anchor_matches receipts anchor
      then check_meta (get anchor "anchor")
      else (fatal_if true anchor_invalid null, [])
  check_anchor receipts _ = ([], [])

  unfoldable pub check_each_anchor : List Fields → List Value → Report × List Value
  check_each_anchor receipts [] = ([], [])
  check_each_anchor receipts (a ∷ as') =
      let first = check_anchor receipts a in
      let rest = check_each_anchor receipts as' in (first.0 ++ rest.0, first.1 ++ rest.1)

  unfoldable pub check_anchors : Fields → List Fields → Bool → Report
  unfolding check_each_anchor
  check_anchors bundle receipts require_anchor =
      let v = get bundle "anchors" in
      if not (truthy v)
      then (if require_anchor then provisional anchor_missing ∷ [] else [])
      else elim (as_list v) [
        | none ↦ []
        | some vs ↦
            let checked = check_each_anchor receipts vs in
            checked.0 ++ note (anchors (kinds_or_default checked.1)) ∷ []
      ]

  -- The head names the last receipt: its position, its identifier and its digest.
  unfoldable pub head_matches : Fields → Fields → String → Bool
  head_matches head last digest =
      py_eq (get head "seq") (get last "seq")
      && (py_eq (get head "receipt_id") (get last "receipt_id")
          && py_eq (get head "digest") (str digest))

  check_head_anchor : Value → Fields → Bool → Report
  check_head_anchor null last require_anchor =
      if require_anchor then provisional head_anchor_missing ∷ [] else []
  check_head_anchor (dict a) last require_anchor =
      if text_in (get a "type") anchor_types && is_nonempty_text (get a "proof_ref")
      then note (chain_head (get last "seq") (get a "type")) ∷ []
      else fatal_if true head_anchor_invalid null
  check_head_anchor _ last require_anchor = fatal_if true head_anchor_invalid null

  -- The head against the digest of the last receipt; one that has none is passed over.
  unfoldable pub check_digest : Option String → Fields → Fields → Bool → Report
  unfolding check_head_anchor head_matches
  check_digest none head last require_anchor = []
  check_digest (some digest) head last require_anchor =
      if head_matches head last digest
      then check_head_anchor (get head "anchored") last require_anchor
      else fatal_if true head_mismatch null

  unfoldable pub check_last : Option Fields → Fields → Bool → Report
  unfolding check_digest
  check_last none head require_anchor = []
  check_last (some last) head require_anchor =
      check_digest (receipt_digest c last) head last require_anchor

  unfoldable pub check_head : Value → List Fields → Bool → Report
  unfolding check_last
  check_head (dict head) receipts require_anchor = check_last (last? receipts) head require_anchor
  check_head _ receipts require_anchor = []

  unfoldable pub check_chain_head : Fields → List Fields → Bool → Report
  unfolding check_head
  check_chain_head bundle receipts require_anchor =
      check_head (get bundle "chain_head") receipts require_anchor
