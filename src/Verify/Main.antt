-- ===== src/Verify/Main.antt =====
-- `verify_bundle` of continuity_receipt/verify.py, composed of the passes.
use continuity_receipt.Base.{
  ℕ, String, Bool, true, not, Option, none, some, List, [], ◌∷◌, ◌++◌, length, ltb, map, str_eq,
  if◌then◌else◌,
}
use continuity_receipt.Value.{
  Value, null, dict, Fields, end, get, as_dict, as_list, as_text, text_in,
}
use continuity_receipt.Value.Number.{codes}
use continuity_receipt.Crypto.{Crypto}
use continuity_receipt.Canon.{lt_codes}
use continuity_receipt.Records.{supported_specs}
use continuity_receipt.Verify.Report.{
  Report, VerifyResult, malformed, nesting_too_deep, version_unsupported, too_many_receipts,
  collect, finish, fatal_if,
}
use continuity_receipt.Verify.Depth.{depth_exceeded}
use continuity_receipt.Verify.Shape.{check_shape}
use continuity_receipt.Verify.Chain.{check_receipts}
use continuity_receipt.Verify.Settlement.{
  Run, returned, raised, ◌then_run◌, check_cross_record, any_type,
}
use continuity_receipt.Verify.Agreement.{check_agreements}
use continuity_receipt.Verify.Authority.{check_authority}
use continuity_receipt.Verify.Redactions.{check_redactions}
use continuity_receipt.Verify.Attestations.{check_attestations, check_provenance}
use continuity_receipt.Verify.Revoked.{check_revocations}
use continuity_receipt.Verify.Anchors.{check_anchors, check_chain_head}
use continuity_receipt.Verify.Resolve.{issuer_id}

abbrev pub max_receipts : ℕ
max_receipts = 10000

abbrev pub max_nesting_depth : ℕ
max_nesting_depth = 64

-- `[r for r in receipts if isinstance(r, dict)]`
unfoldable pub well_formed : List Value → List Fields
well_formed [] = []
well_formed (v ∷ vs) =
    let rest = well_formed vs in elim (as_dict v) [ none ↦ rest | some d ↦ d ∷ rest ]

-- A sorted list with no text twice.
unfoldable pub insert_text : String → List String → List String
insert_text s [] = s ∷ []
insert_text s (t ∷ ts) =
    let rest = insert_text s ts in
    if str_eq s t then t ∷ ts else if lt_codes (codes s) (codes t) then s ∷ t ∷ ts else t ∷ rest

issuers_of : List Fields → List String
unfolding insert_text
issuers_of [] = []
issuers_of (r ∷ rs) =
    let rest = issuers_of rs in
    elim (as_text (issuer_id r)) [ none ↦ rest | some s ↦ insert_text s rest ]

-- The members of the summary that `verify_bundle` computes itself.
pub record Summary : Type 0 where
  pub receipts : ℕ
  pub types : List Value
  pub issuers : List String
  pub terminated : Bool
  pub settled : Bool

unfoldable pub summarize : List Value → List Fields → Summary
unfolding issuers_of any_type
summarize receipts dicts = record {
  receipts = length receipts;
  types = map (λ r. get r "type") dicts;
  issuers = issuers_of dicts;
  terminated = any_type "task.termination" dicts;
  settled = any_type "settlement" dicts;
}

-- `verify_bundle` returns a result, with its summary unless it stops early, or lets an exception out.
pub data Outcome : Type 0 where
  finished : VerifyResult → Option Summary → Outcome
  overflow_error : Outcome

abbrev pub stop : Report → Outcome
stop report = finished (finish (collect report)) none

abbrev pub dict_or_empty : Value → Fields
dict_or_empty (dict d) = d
dict_or_empty _ = end

abbrev pub conclude : Run → Summary → Outcome
conclude (returned report) summary = finished (finish (collect report)) (some summary)
conclude raised summary = overflow_error

module _ (c : Crypto) (require_anchor : Bool) (external : Option (List Value)) where
  -- The passes after `_check_cross_record`, which raise nothing.
  unfoldable pub later_passes : Fields → List Fields → Report
  later_passes bundle dicts =
      check_agreements c dicts
      ++ check_authority c dicts
      ++ check_redactions c dicts (dict_or_empty (get bundle "disclosure_map"))
      ++ check_attestations c dicts
      ++ check_provenance dicts
      ++ check_revocations c bundle dicts external
      ++ check_anchors c bundle dicts require_anchor
      ++ check_chain_head c bundle dicts require_anchor

  -- All the passes over a bundle with a list of receipts, in their order.
  unfoldable pub all_passes : Fields → List Value → Run
  unfolding well_formed
  all_passes bundle receipts =
      returned
        (check_shape bundle receipts ++ check_receipts c (get bundle "task_id") 0 null receipts)
      then_run check_cross_record (well_formed receipts)
      then_run returned (later_passes bundle (well_formed receipts))

  unfoldable pub verify_receipts : Fields → List Value → Outcome
  unfolding summarize well_formed
  verify_receipts bundle receipts =
      if ltb max_receipts (length receipts)
      then stop (fatal_if true too_many_receipts null)
      else conclude (all_passes bundle receipts) (summarize receipts (well_formed receipts))

  -- `receipts` must be a list that is not empty.
  unfoldable pub verify_list : Fields → Option (List Value) → Outcome
  unfolding verify_receipts
  verify_list bundle none = stop (fatal_if true malformed null)
  verify_list bundle (some []) = stop (fatal_if true malformed null)
  verify_list bundle (some (v ∷ vs)) = verify_receipts bundle (v ∷ vs)

  unfoldable pub verify_object : Fields → Outcome
  unfolding verify_list
  verify_object bundle =
      if not (text_in (get bundle "spec") supported_specs)
      then stop (fatal_if true version_unsupported null)
      else verify_list bundle (as_list (get bundle "receipts"))

  unfoldable pub verify_bundle : Value → Outcome
  unfolding verify_object
  verify_bundle (dict bundle) =
      if depth_exceeded (dict bundle) max_nesting_depth
      then stop (fatal_if true nesting_too_deep null)
      else verify_object bundle
  verify_bundle _ = stop (fatal_if true malformed null)
