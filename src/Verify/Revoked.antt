-- ===== src/Verify/Revoked.antt =====
-- `_check_revocations` of continuity_receipt/verify.py.
pub mod Sound
use continuity_receipt.Base.{
  ℕ, String, Bool, true, ◌&&◌, Option, none, some, List, [], ◌∷◌, ◌++◌, length, leb, str_eq,
  if◌then◌else◌,
}
use continuity_receipt.Value.{str, Value, null, Fields, get, as_list, as_text, is_dict, truthy}
use continuity_receipt.Crypto.{Crypto}
use continuity_receipt.Records.Timestamp.{timestamp}
use continuity_receipt.Revocations.{merge_statements, verify_statements}
use continuity_receipt.Verify.Report.{
  Report, note, revocations_checked, revocations_external, bad_revocation, key_revoked, fatal_if,
}
use continuity_receipt.Verify.Resolve.{issuer_id}

-- One entry for each revocation of the key at or before the instant.
unfoldable pub check_issuer : List (String × ℕ) → String → ℕ → Value → Report
check_issuer [] key issued_at rid = []
check_issuer ((revoked_key, revoked_at) ∷ revoked) key issued_at rid =
    fatal_if (str_eq revoked_key key && leb revoked_at issued_at) key_revoked rid
    ++ check_issuer revoked key issued_at rid

-- A receipt whose issuer is no text or that has no time is passed over.
unfoldable pub check_stamped : List (String × ℕ) → Value → Option ℕ → Value → Report
unfolding check_issuer
check_stamped revoked (str key) (some issued_at) rid = check_issuer revoked key issued_at rid
check_stamped revoked _ _ rid = []

unfoldable pub check_revoked : List (String × ℕ) → Fields → Report
unfolding check_stamped
check_revoked revoked receipt =
    check_stamped revoked (issuer_id receipt) (timestamp (get receipt "issued_at"))
      (get receipt "receipt_id")

unfoldable pub check_all_revoked : List (String × ℕ) → List Fields → Report
unfolding check_revoked
check_all_revoked revoked [] = []
check_all_revoked revoked (r ∷ rs) = check_revoked revoked r ++ check_all_revoked revoked rs

unfoldable pub all_dicts : List Value → Bool
all_dicts [] = true
all_dicts (v ∷ vs) = is_dict v && all_dicts vs

-- `count` entries of the code
unfoldable pub rejections : ℕ → Report
rejections ℕ.zero = []
rejections (ℕ.suc n) = fatal_if true bad_revocation null ++ rejections n

-- `bundle.get("revocations") or []`; `none` where it is no list.
abbrev pub bundled : Value → Option (List Value)
bundled v = if truthy v then as_list v else some []

abbrev pub external_note : Option (List Value) → Report
external_note none = []
external_note (some vs) = note (revocations_external (length vs)) ∷ []

abbrev pub checked_note : List Value → ℕ → Report
checked_note [] n = []
checked_note (v ∷ vs) n = note (revocations_checked n) ∷ []

-- What the verified statements, or their exception, add.
unfoldable pub check_verified :
    List Value → Option (List Value) → List Fields → Option (List (String × ℕ) × ℕ) → Report
unfolding rejections check_all_revoked
check_verified statements external receipts none = fatal_if true bad_revocation null
check_verified statements external receipts (some (revoked, errors)) =
    rejections errors
    ++ check_all_revoked revoked receipts
    ++ checked_note statements (length revoked)
    ++ external_note external

module _ (c : Crypto) where
  unfoldable pub check_merged : List Value → Option (List Value) → List Fields → Report
  unfolding check_verified
  check_merged statements external receipts =
      check_verified statements external receipts (verify_statements c statements)

  -- The list of the bundle, if it has one; it must be one of objects.
  unfoldable pub check_bundled : Option (List Value) → Option (List Value) → List Fields → Report
  unfolding all_dicts check_merged
  check_bundled none external receipts = []
  check_bundled (some statements) external receipts =
      if all_dicts statements
      then check_merged (merge_statements statements external) external receipts
      else []

  unfoldable pub check_revocations : Fields → List Fields → Option (List Value) → Report
  unfolding check_bundled
  check_revocations bundle receipts external =
      check_bundled (bundled (get bundle "revocations")) external receipts
