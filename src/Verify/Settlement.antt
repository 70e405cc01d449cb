-- ===== src/Verify/Settlement.antt =====
-- `_check_cross_record` of continuity_receipt/verify.py: the policy of the pass, the spend cap,
-- delivery before a gated settlement, and the termination receipt.
pub mod Sound
pub mod Overflow
use continuity_receipt.Base.{
  ℕ, suc, Bool, true, false, not, ◌&&◌, ◌||◌, String, Option, none, some, List, [], ◌∷◌, ◌++◌, pos,
  ltb, ltb_ℤ, if◌then◌else◌,
}
use continuity_receipt.Value.{
  Value, null, int, dict, Fields, end, lookup, get, as_dict, is_dict, is_null, is_text, truthy,
}
use continuity_receipt.Value.Equal.{py_eq}
use continuity_receipt.Value.Number.{Conversion, converted, not_numeric, overflow_error, to_int}
use continuity_receipt.Verify.Report.{
  Report, malformed, policy_mismatch, cap_exceeded, delivery_before_settlement, missing_termination,
  fatal_if,
}

-- A pass returns its entries, or lets an OverflowError out.
pub data Run : Type 0 where
  returned : Report → Run
  raised : Run

infixr 6 ◌then_run◌
abbrev pub ◌then_run◌ : Run → Run → Run
◌then_run◌ raised k = raised
◌then_run◌ (returned a) raised = raised
◌then_run◌ (returned a) (returned b) = returned (a ++ b)

abbrev pub type_is : String → Fields → Bool
type_is t receipt = is_text (get receipt "type") t

-- The first receipt of a type, and the first position of one (the least of the indexes).
unfoldable pub first_of_type : String → List Fields → Option Fields
first_of_type t [] = none
first_of_type t (r ∷ rs) = if type_is t r then some r else first_of_type t rs

unfoldable pub first_index : String → ℕ → List Fields → Option ℕ
first_index t index [] = none
first_index t index (r ∷ rs) = if type_is t r then some index else first_index t (suc index) rs

unfoldable pub check_policies : Value → List Fields → Report
check_policies policy [] = []
check_policies policy (r ∷ rs) =
    (if type_is "task.decision" r
      then elim (as_dict (get r "body")) [
        | none ↦ []
        | some body ↦
            fatal_if (not (py_eq (get body "policy_version") policy)) policy_mismatch
              (get r "receipt_id")
      ]
      else [])
    ++ check_policies policy rs

-- `d.get("minor", 0)`
abbrev pub minor_of : Fields → Value
minor_of d = elim (lookup "minor" d) [ none ↦ int (pos 0) | some v ↦ v ]

-- `int(left) > int(right)`: the left conversion comes first.
pub data Comparison : Type 0 where
  compared : Bool → Comparison
  bad_number : Comparison
  overflow : Comparison

abbrev pub compare_minors : Conversion → Conversion → Comparison
compare_minors overflow_error right = overflow
compare_minors not_numeric right = bad_number
compare_minors (converted a) overflow_error = overflow
compare_minors (converted a) not_numeric = bad_number
compare_minors (converted a) (converted b) = compared (ltb_ℤ b a)

abbrev pub report_comparison : Comparison → Value → Run
report_comparison (compared exceeds) rid = returned (fatal_if exceeds cap_exceeded rid)
report_comparison bad_number rid = returned (fatal_if true malformed rid)
report_comparison overflow rid = raised

-- The cap of the pass against the amount of one settlement.
unfoldable pub check_cap : Fields → Fields → Value → Run
check_cap cap amount rid =
    if not (py_eq (get amount "currency") (get cap "currency"))
    then returned (fatal_if true cap_exceeded rid)
    else report_comparison (compare_minors (to_int (minor_of amount)) (to_int (minor_of cap))) rid

-- `body.get("amount") if "amount" in body else {}`
abbrev pub amount_of : Fields → Value
amount_of body = elim (lookup "amount" body) [ none ↦ dict end | some v ↦ v ]

-- No delivery attestation stands at or before the position.
abbrev pub undelivered : Option ℕ → ℕ → Bool
undelivered none index = true
undelivered (some delivery) index = ltb index delivery

abbrev pub check_optional_cap : Option Fields → Fields → Value → Run
check_optional_cap none amount rid = returned []
check_optional_cap (some cap) amount rid = check_cap cap amount rid

abbrev pub check_amount : Option Fields → Option ℕ → ℕ → Fields → Value → Value → Run
check_amount cap delivery index body rid (dict amount) =
    check_optional_cap cap amount rid
    then_run returned (
        fatal_if (truthy (get body "gated_on_delivery") && undelivered delivery index)
          delivery_before_settlement rid)
check_amount cap delivery index body rid _ = returned (fatal_if true malformed rid)

abbrev pub check_settlement_body : Option Fields → Option ℕ → ℕ → Value → Value → Run
check_settlement_body cap delivery index rid (dict body) =
    check_amount cap delivery index body rid (amount_of body)
check_settlement_body cap delivery index rid _ = returned []

unfoldable pub check_settlement : Option Fields → Option ℕ → ℕ → Fields → Run
unfolding check_cap
check_settlement cap delivery index receipt =
    check_settlement_body cap delivery index (get receipt "receipt_id") (get receipt "body")

unfoldable pub check_settlements : Option Fields → Option ℕ → ℕ → List Fields → Run
check_settlements cap delivery index [] = returned []
check_settlements cap delivery index (r ∷ rs) =
    (if type_is "settlement" r then check_settlement cap delivery index r else returned [])
    then_run check_settlements cap delivery (suc index) rs

unfoldable pub any_type : String → List Fields → Bool
any_type t [] = false
any_type t (r ∷ rs) = type_is t r || any_type t rs

abbrev pub check_pass_body : List Fields → Value → Value → Run
check_pass_body receipts rid (dict body) =
    let cap = get body "spend_cap" in
    returned (
      check_policies (get body "policy_version") receipts
      ++ fatal_if (not (is_null cap) && not (is_dict cap)) malformed rid)
    then_run check_settlements (as_dict cap) (first_index "delivery.attestation" 0 receipts) 0
        receipts
    then_run returned
        (fatal_if (not (any_type "task.termination" receipts)) missing_termination null)
check_pass_body receipts rid _ = returned []

abbrev pub check_pass : List Fields → Option Fields → Run
check_pass receipts none = returned (fatal_if true malformed null)
check_pass receipts (some pass) = check_pass_body receipts (get pass "receipt_id") (get pass "body")

unfoldable pub check_cross_record : List Fields → Run
unfolding check_settlements any_type check_policies first_of_type first_index
check_cross_record receipts = check_pass receipts (first_of_type "session.pass.created" receipts)
