-- ===== src/Verify/Settlement/Overflow.antt =====
-- When `_check_cross_record` lets an OverflowError out.
use continuity_receipt.Base.{
  ℕ, suc, Bool, true, ◌≡◌, List, [], ◌∷◌, ◌++◌, Option, some, none, refl, ap, ◌∙◌, if◌then◌else◌,
}
use continuity_receipt.Value.{Value, float, infinite, dict, Fields, get, as_dict}
use continuity_receipt.Value.Equal.{py_eq}
use continuity_receipt.Value.Number.{to_int}
use continuity_receipt.Verify.Settlement.{
  Run, returned, raised, ◌then_run◌, type_is, first_of_type, first_index, minor_of, amount_of,
  check_cap, check_settlement, check_settlements, check_settlement_body, check_amount,
  check_pass_body, check_pass, check_cross_record,
}

then_run-raised : (a : Run) → (a then_run raised) ≡ raised
then_run-raised raised = refl
then_run-raised (returned r) = refl

-- A settlement whose amount is of the cap's currency and has an infinite `minor`.
pub record IsInfinite (cap receipt : Fields) : Type 0 where
  pub settlement : type_is "settlement" receipt ≡ true
  pub body : Fields
  pub body_member : get receipt "body" ≡ dict body
  pub amount : Fields
  pub amount_member : amount_of body ≡ dict amount
  pub same_currency : py_eq (get amount "currency") (get cap "currency") ≡ true
  pub negative : Bool
  pub infinite_minor : minor_of amount ≡ float (infinite negative)

check_cap-infinite :
    (cap amount : Fields) (rid : Value) (s : Bool)
    → py_eq (get amount "currency") (get cap "currency") ≡ true
    → minor_of amount ≡ float (infinite s)
    → check_cap cap amount rid ≡ raised
unfolding check_cap to_int
check_cap-infinite cap amount rid s currency minor = rw (currency, minor)

check_settlement-infinite :
    (cap receipt : Fields) (delivery : Option ℕ) (index : ℕ)
    → IsInfinite cap receipt
    → check_settlement (some cap) delivery index receipt ≡ raised
unfolding check_settlement
check_settlement-infinite cap receipt delivery index h =
    let rid = get receipt "receipt_id" in
    let gate = check_amount none delivery index h.body rid (dict h.amount) in
    ap (check_settlement_body (some cap) delivery index rid) h.body_member
    ∙ (ap (check_amount (some cap) delivery index h.body rid) h.amount_member
        ∙ ap (λ run. run then_run gate)
            (check_cap-infinite cap h.amount rid h.negative h.same_currency h.infinite_minor))

check_settlements-infinite :
    (cap receipt : Fields) (delivery : Option ℕ) (before after : List Fields) (index : ℕ)
    → IsInfinite cap receipt
    → check_settlements (some cap) delivery index (before ++ receipt ∷ after) ≡ raised
unfolding check_settlements
check_settlements-infinite cap receipt delivery [] after index h =
    let rest = check_settlements (some cap) delivery (suc index) after in
    let here = check_settlement (some cap) delivery index receipt in
    ap (λ b. (if b then here else returned []) then_run rest) h.settlement
    ∙ ap (λ run. run then_run rest) (check_settlement-infinite cap receipt delivery index h)
check_settlements-infinite cap receipt delivery (r ∷ before) after index h =
    ap
      (λ run.
        (if type_is "settlement" r
          then check_settlement (some cap) delivery index r
          else returned [])
        then_run run)
      (check_settlements-infinite cap receipt delivery before after (suc index) h)
    ∙ then_run-raised _

-- The pass has a cap, and one settlement is infinite in it.
pub record Overflows (dicts : List Fields) : Type 0 where
  pub pass : Fields
  pub first : first_of_type "session.pass.created" dicts ≡ some pass
  pub pass_body : Fields
  pub pass_member : get pass "body" ≡ dict pass_body
  pub cap : Fields
  pub cap_member : get pass_body "spend_cap" ≡ dict cap
  pub before : List Fields
  pub receipt : Fields
  pub after : List Fields
  pub split : dicts ≡ before ++ receipt ∷ after
  pub infinite : IsInfinite cap receipt

then_run-raised_middle : (a b : Run) → (a then_run (raised then_run b)) ≡ raised
then_run-raised_middle a b = then_run-raised a

pub check_cross_record-Overflows :
    (dicts : List Fields) → Overflows dicts → check_cross_record dicts ≡ raised
unfolding check_cross_record
check_cross_record-Overflows dicts o =
    let delivery = first_index "delivery.attestation" 0 dicts in
    let settle : check_settlements (as_dict (get o.pass_body "spend_cap")) delivery 0 dicts
        ≡ raised =
      ap (λ v. check_settlements (as_dict v) delivery 0 dicts) o.cap_member
      ∙ (ap (λ ds. check_settlements (some o.cap) delivery 0 ds) o.split
          ∙ check_settlements-infinite o.cap o.receipt delivery o.before o.after 0 o.infinite) in
    ap (check_pass dicts) o.first
    ∙ (ap (check_pass_body dicts (get o.pass "receipt_id")) o.pass_member ∙ rw settle)
