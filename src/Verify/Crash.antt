-- ===== src/Verify/Crash.antt =====
-- The input on which `verify_bundle` raises.
use continuity_receipt.Verify.Settlement.Overflow.{Overflows, check_cross_record-Overflows}
use continuity_receipt.Base.{
  ℕ, Bool, true, false, ◌≡◌, List, ◌∷◌, ◌++◌, Option, some, ap, ◌∙◌, if◌then◌else◌,
}
use continuity_receipt.Base.{length, ◌≤◌, ltb, arith}
use continuity_receipt.Base.{◌++◌, if◌then◌else◌, ap, ◌∙◌, not}
use continuity_receipt.Verify.Main.{
  conclude, stop, summarize, verify_object, verify_list, later_passes,
}
use continuity_receipt.Verify.Report.{
  fatal_if, nesting_too_deep, version_unsupported, too_many_receipts,
}
use continuity_receipt.Verify.Shape.{check_shape}
use continuity_receipt.Verify.Chain.{check_receipts}
use continuity_receipt.Verify.Settlement.{raised, returned, ◌then_run◌}
use continuity_receipt.Value.{null, as_list, text_in}
use continuity_receipt.Crypto.{Crypto}
use continuity_receipt.Records.{supported_specs}
use continuity_receipt.Verify.Depth.{depth_exceeded}
use continuity_receipt.Verify.Main.{
  verify_bundle, verify_object, verify_list, verify_receipts, all_passes, later_passes, well_formed,
  max_receipts, max_nesting_depth, overflow_error, conclude, stop, summarize,
}
use continuity_receipt.Value.{Value, dict, Fields, get}
use continuity_receipt.Verify.Settlement.{returned, raised, ◌then_run◌}

fits_limit : (n : ℕ) → n ≤ max_receipts → ltb max_receipts n ≡ false
fits_limit n h = ground arith

-- A bundle that is not nested too deep, has a supported version and 1 to 10,000 receipts, and in which
-- the first pass has a spend cap and a settlement in the cap's currency has an infinite float for its
-- `minor`, makes `verify_bundle` raise an
-- OverflowError in place of a verdict.
pub verify_bundle-Overflows :
    (c : Crypto) (require_anchor : Bool) (external : Option (List Value)) (bundle : Fields)
    (v : Value) (vs : List Value)
    → depth_exceeded (dict bundle) max_nesting_depth ≡ false
    → text_in (get bundle "spec") supported_specs ≡ true
    → as_list (get bundle "receipts") ≡ some (v ∷ vs)
    → length (v ∷ vs) ≤ max_receipts
    → Overflows (well_formed (v ∷ vs))
    → verify_bundle c require_anchor external (dict bundle) ≡ overflow_error
unfolding verify_bundle verify_object verify_list verify_receipts all_passes
verify_bundle-Overflows c require_anchor external bundle v vs shallow supported listed bounded o =
    let receipts = v ∷ vs in
    let dicts = well_formed receipts in
    let later = later_passes c require_anchor external bundle dicts in
    let first =
      check_shape bundle receipts ++ check_receipts c (get bundle "task_id") 0 null receipts in
    let passes : all_passes c require_anchor external bundle receipts ≡ raised =
      ap (λ run. returned first then_run (run then_run returned later))
        (check_cross_record-Overflows dicts o) in
    let object = verify_object c require_anchor external bundle in
    let listing = verify_list c require_anchor external bundle (as_list (get bundle "receipts")) in
    let whole =
      conclude (all_passes c require_anchor external bundle receipts) (summarize receipts dicts) in
    ap (λ b. if b then stop (fatal_if true nesting_too_deep null) else object) shallow
    ∙ (ap (λ b. if not b then stop (fatal_if true version_unsupported null) else listing) supported
        ∙ (ap (verify_list c require_anchor external bundle) listed
            ∙ (ap (λ b. if b then stop (fatal_if true too_many_receipts null) else whole)
                  (fits_limit (length receipts) bounded)
                ∙ ap (λ run. conclude run (summarize receipts dicts)) passes)))
