-- ===== src/Verify/Authority.antt =====
-- `_check_authority` of continuity_receipt/verify.py: 0.6 bound receipts against their grants.
pub mod Sound
use continuity_receipt.Base.{
  false, Bool, String, not, ◌&&◌, ◌||◌, none, some, List, [], ◌∷◌, ◌++◌, if◌then◌else◌, member,
}
use continuity_receipt.Value.{dict, Value, str, Fields, get, as_dict, as_text}
use continuity_receipt.Value.Equal.{py_eq}
use continuity_receipt.Crypto.{Crypto}
use continuity_receipt.Records.{spec_06}
use continuity_receipt.Records.Timestamp.{validate_timestamp, is_before}
use continuity_receipt.Verify.Report.{
  Report, authority_before_grant, authority_agent_mismatch, authority_expired, missing_authority,
  authority_unreferenced, insufficient, provisional, fatal_if,
}
use continuity_receipt.Verify.Resolve.{
  Table, issuer_id, Resolution, skipped, missing, resolved, resolve, referenced_by, table_of,
}

-- The later of the grant's own time and the time at which it was signed.
unfoldable pub effective_from : Value → Value → Value
effective_from granted_at grant_issued =
    if validate_timestamp granted_at
      && (not (validate_timestamp grant_issued) || is_before grant_issued granted_at)
    then granted_at
    else grant_issued

-- The agent of the grant, where it is a text, against the issuer.
abbrev pub is_other_agent : Value → Value → Bool
is_other_agent (str agent) issuer = not (py_eq issuer (str agent))
is_other_agent _ issuer = false

-- A bound receipt against the body of the grant that it names.
unfoldable pub check_window : Fields → Fields → Fields → Report
unfolding effective_from
check_window receipt grant grant_body =
    let rid = get receipt "receipt_id" in
    let bound_issued = get receipt "issued_at" in
    fatal_if
      (is_before bound_issued
        (effective_from (get grant_body "granted_at") (get grant "issued_at")))
      authority_before_grant rid
    ++ fatal_if (is_other_agent (get grant_body "agent") (issuer_id receipt))
        authority_agent_mismatch rid
    ++ fatal_if (is_before (get grant_body "expires_at") bound_issued) authority_expired rid

abbrev pub check_grant_body : Value → Fields → Fields → Report
check_grant_body (dict grant_body) receipt grant = check_window receipt grant grant_body
check_grant_body _ receipt grant = []

unfoldable pub check_bound_grant : Fields → Fields → Report
unfolding check_window
check_bound_grant receipt grant = check_grant_body (get grant "body") receipt grant

abbrev pub check_resolution : Resolution → Fields → Report
check_resolution skipped receipt = []
check_resolution missing receipt = insufficient (missing_authority (get receipt "receipt_id")) ∷ []
check_resolution (resolved ref grant) receipt = check_bound_grant receipt grant

unfoldable pub check_granted : Table → List Fields → Report
unfolding resolve check_bound_grant
check_granted grants [] = []
check_granted grants (r ∷ rs) =
    check_resolution (resolve (spec_06 ∷ []) "authority_ref" grants r) r ++ check_granted grants rs

unfoldable pub check_unused : List String → Table → Report
check_unused referenced [] = []
check_unused referenced ((digest, grant) ∷ t) =
    (if member digest referenced
      then []
      else provisional (authority_unreferenced (get grant "receipt_id")) ∷ [])
    ++ check_unused referenced t

module _ (c : Crypto) where
  unfoldable pub check_authority : List Fields → Report
  unfolding table_of check_granted check_unused referenced_by
  check_authority receipts =
      let grants = table_of c "authority.grant" [] receipts in
      check_granted grants receipts
      ++ check_unused (referenced_by (spec_06 ∷ []) "authority_ref" grants receipts) grants
