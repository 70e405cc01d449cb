-- ===== src/Verify/Settlement/Sound.antt =====
-- The settlements of a bundle in which nothing fatal is found.
use continuity_receipt.Base.{
  ℕ, suc, ◌≤◌, Bool, true, false, not, ◌&&◌, ◌≡◌, List, [], ◌∷◌, ◌++◌, Option, some, none, refl,
  if◌then◌else◌, ℤ, ltb_ℤ, ◌≤ℤ◌, arith,
}
use mathlib.Core.Path.{subst}
use continuity_receipt.Value.{Value, null, dict, Fields, get, as_dict, truthy, is_null, is_dict}
use continuity_receipt.Value.Equal.{py_eq}
use continuity_receipt.Value.Number.{to_int, Conversion, converted, not_numeric, overflow_error}
use continuity_receipt.Verify.Report.{
  malformed, cap_exceeded, delivery_before_settlement, missing_termination, fatal_if,
}
use continuity_receipt.Verify.Report.Grade.{fatal_free, fatal_free_parts, not_raised, passed}
use continuity_receipt.Verify.Settlement.{
  Run, returned, raised, ◌then_run◌, type_is, first_of_type, first_index, minor_of, amount_of,
  undelivered, check_cap, check_settlement, check_settlements, check_settlement_body, check_amount,
  check_optional_cap, check_pass_body, check_pass, check_cross_record, compare_minors,
  report_comparison, check_policies, any_type,
}

-- A run that returns, with nothing fatal.
abbrev pub CleanRun : Run → Type 0
CleanRun (returned report) = fatal_free report ≡ true
CleanRun raised = ⊥

pub CleanRun-then_run : (a b : Run) → CleanRun (a then_run b) → CleanRun a × CleanRun b
CleanRun-then_run raised b h = elim h [ ]
CleanRun-then_run (returned x) raised h = elim h [ ]
CleanRun-then_run (returned x) (returned y) h = fatal_free_parts x y h

-- The amount is in the cap's currency, both numbers are numeric, and it does not exceed the cap.
pub record WithinCap (cap amount : Fields) : Type 0 where
  pub same_currency : py_eq (get amount "currency") (get cap "currency") ≡ true
  pub spent : ℤ
  pub limit : ℤ
  pub spent_is : to_int (minor_of amount) ≡ converted spent
  pub limit_is : to_int (minor_of cap) ≡ converted limit
  pub within : spent ≤ℤ limit

not_less : (a b : ℤ) → ltb_ℤ b a ≡ false → a ≤ℤ b
not_less a b h = ground arith

compared_within :
    (left right : Conversion) (rid : Value)
    → CleanRun (report_comparison (compare_minors left right) rid)
    → (spent limit : ℤ) × (left ≡ converted spent) × (right ≡ converted limit) × (spent ≤ℤ limit)
compared_within (converted a) (converted b) rid h =
    (a, b, refl, refl, not_less a b (not_raised (ltb_ℤ b a) cap_exceeded rid h))
compared_within (converted a) not_numeric rid h = cc
compared_within (converted a) overflow_error rid h = elim h [ ]
compared_within not_numeric right rid h = cc
compared_within overflow_error right rid h = elim h [ ]

WithinCap-if :
    (same : Bool) (cap amount : Fields) (rid : Value)
    → py_eq (get amount "currency") (get cap "currency") ≡ same
    → CleanRun (
        if not same
        then returned (fatal_if true cap_exceeded rid)
        else report_comparison
            (compare_minors (to_int (minor_of amount)) (to_int (minor_of cap)))
            rid)
    → WithinCap cap amount
WithinCap-if false cap amount rid e h = cc
WithinCap-if true cap amount rid e h =
    let (spent, limit, spent_is, limit_is, within) =
      compared_within (to_int (minor_of amount)) (to_int (minor_of cap)) rid h in
    record {
      same_currency = e;
      spent = spent;
      limit = limit;
      spent_is = spent_is;
      limit_is = limit_is;
      within = within;
    }

-- What holds of a settlement at a position: its amount is an object, within the cap if there is
-- one, and if it is gated a delivery stands at or before its position.
pub record Settles (cap : Option Fields) (delivery : Option ℕ) (index : ℕ) (body : Fields)
    : Type 0 where
  pub amount : Fields
  pub amount_is : amount_of body ≡ dict amount
  pub within_cap : (limit : Fields) → cap ≡ some limit → WithinCap limit amount
  pub delivered :
      truthy (get body "gated_on_delivery") ≡ true → (d : ℕ) × (delivery ≡ some d) × (d ≤ index)

delivered_by :
    (gated : Bool) (delivery : Option ℕ) (index : ℕ)
    → (gated && undelivered delivery index) ≡ false
    → gated ≡ true
    → (d : ℕ) × (delivery ≡ some d) × (d ≤ index)
delivered_by gated none index h g = cc
delivered_by gated (some d) index h g = (d, refl, ground arith)

WithinCap-check_optional :
    (cap : Option Fields) (amount : Fields) (rid : Value)
    → CleanRun (check_optional_cap cap amount rid)
    → (limit : Fields) → cap ≡ some limit
    → WithinCap limit amount
unfolding check_cap
WithinCap-check_optional none amount rid h limit e = cc
WithinCap-check_optional (some k) amount rid h limit e =
    let same : k ≡ limit = cc in
    subst (λ l. WithinCap l amount) same
      (WithinCap-if (py_eq (get amount "currency") (get k "currency")) k amount rid refl h)

Settles-check_amount :
    (cap : Option Fields) (delivery : Option ℕ) (index : ℕ) (body : Fields) (rid v : Value)
    → amount_of body ≡ v
    → CleanRun (check_amount cap delivery index body rid v)
    → Settles cap delivery index body
Settles-check_amount cap delivery index body rid (dict amount) e h =
    let gated = truthy (get body "gated_on_delivery") in
    let gate = fatal_if (gated && undelivered delivery index) delivery_before_settlement rid in
    let (capped, in_gate) =
      CleanRun-then_run (check_optional_cap cap amount rid) (returned gate) h in
    record {
      amount = amount;
      amount_is = e;
      within_cap = WithinCap-check_optional cap amount rid capped;
      delivered =
          delivered_by gated delivery index (
            not_raised (gated && undelivered delivery index) delivery_before_settlement rid
              in_gate);
    }
Settles-check_amount cap delivery index body rid _ e h = cc

-- The settlements from a position on.
abbrev pub AllSettle : Option Fields → Option ℕ → ℕ → List Fields → Type 0
AllSettle cap delivery index [] = Unit
AllSettle cap delivery index (r ∷ rs) =
    ((body : Fields)
      → type_is "settlement" r ≡ true
      → get r "body" ≡ dict body
      → Settles cap delivery index body)
    × AllSettle cap delivery (suc index) rs

AllSettle-check :
    (cap : Option Fields) (delivery : Option ℕ) (index : ℕ) (dicts : List Fields)
    → CleanRun (check_settlements cap delivery index dicts)
    → AllSettle cap delivery index dicts
unfolding check_settlements check_settlement
AllSettle-check cap delivery index [] h = tt
AllSettle-check cap delivery index (r ∷ rs) h =
    let rid = get r "receipt_id" in
    let here = check_settlement cap delivery index r in
    let (first, rest) =
      CleanRun-then_run (if type_is "settlement" r then here else returned [])
        (check_settlements cap delivery (suc index) rs) h in
    (
      (λ body is_settlement has_body.
          Settles-check_amount cap delivery index body rid (amount_of body) refl (
            subst (λ v. CleanRun (check_settlement_body cap delivery index rid v)) has_body
              (subst (λ b. CleanRun (if b then here else returned [])) is_settlement first))),
      AllSettle-check cap delivery (suc index) rs rest,
    )

-- What a clean cross-record pass says, where the pass has an object for its body: the settlements,
-- and that some receipt terminates the task.
pub record CrossClean (dicts : List Fields) (pass_body : Fields) : Type 0 where
  pub settlements :
      AllSettle
        (as_dict (get pass_body "spend_cap"))
        (first_index "delivery.attestation" 0 dicts)
        0
        dicts
  pub terminated : any_type "task.termination" dicts ≡ true

CrossClean-check_pass_body :
    (dicts : List Fields) (rid : Value) (pass_body : Fields)
    → CleanRun (check_pass_body dicts rid (dict pass_body))
    → CrossClean dicts pass_body
CrossClean-check_pass_body dicts rid pass_body h =
    let cap = get pass_body "spend_cap" in
    let policies = check_policies (get pass_body "policy_version") dicts in
    let bad_cap = fatal_if (not (is_null cap) && not (is_dict cap)) malformed rid in
    let settle =
      check_settlements (as_dict cap) (first_index "delivery.attestation" 0 dicts) 0 dicts in
    let ended = any_type "task.termination" dicts in
    let last = returned (fatal_if (not ended) missing_termination null) in
    let (first, rest) =
      CleanRun-then_run (returned (policies ++ bad_cap)) (settle then_run last) h in
    let (settled, terminated) = CleanRun-then_run settle last rest in
    record {
      settlements =
          AllSettle-check (as_dict cap) (first_index "delivery.attestation" 0 dicts) 0 dicts
            settled;
      terminated = passed ended missing_termination null terminated;
    }

-- A clean cross-record pass has a first session pass.
pub CrossClean-check_cross_record :
    (dicts : List Fields)
    → CleanRun (check_cross_record dicts)
    → (pass : Fields) × (first_of_type "session.pass.created" dicts ≡ some pass)
      × ((pass_body : Fields) → get pass "body" ≡ dict pass_body → CrossClean dicts pass_body)
unfolding check_cross_record
CrossClean-check_cross_record dicts h = go (first_of_type "session.pass.created" dicts) refl h
  where
    go :
        (o : Option Fields)
        → first_of_type "session.pass.created" dicts ≡ o
        → CleanRun (check_pass dicts o)
        → (pass : Fields) × (first_of_type "session.pass.created" dicts ≡ some pass)
          × ((pass_body : Fields) → get pass "body" ≡ dict pass_body → CrossClean dicts pass_body)
    go none e k = cc
    go (some pass) e k = (
      pass,
      e,
      λ pass_body has_body.
          CrossClean-check_pass_body dicts (get pass "receipt_id") pass_body
            (subst (λ v. CleanRun (check_pass_body dicts (get pass "receipt_id") v)) has_body k),
    )
