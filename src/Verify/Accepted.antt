-- ===== src/Verify/Accepted.antt =====
-- What it takes for `verify_bundle` to return a verdict other than UNTRUSTED.
use continuity_receipt.Base.{
  ◌∙◌, arith, none, sym, ltb, ◌∷◌, not, ℕ, [], some, length, ◌+◌, List, false, if◌then◌else◌,
  Option, ◌++◌, Bool, ◌≢◌, true, ◌≡◌, ◌≤◌, refl,
}
use continuity_receipt.Verify.Report.{
  malformed, nesting_too_deep, version_unsupported, too_many_receipts,
}
use continuity_receipt.Verify.Main.{summarize}
use continuity_receipt.Value.{Value, null, dict, Fields, get, as_list, text_in}
use continuity_receipt.Crypto.{Crypto}
use continuity_receipt.Records.{supported_specs}
use continuity_receipt.Verify.Report.{Code, Report, untrusted, fatal_if}
use continuity_receipt.Verify.Report.Grade.{
  fatal_free, fatal_free_parts, fatal_free_of_verdict, verdict-finish,
}
use continuity_receipt.Verify.Depth.{levels, depth_exceeded, depth_exceeded-eq_levels}
use continuity_receipt.Verify.Shape.{check_shape}
use continuity_receipt.Verify.Chain.{check_receipts}
use continuity_receipt.Verify.Settlement.{Run, returned, raised, ◌then_run◌, check_cross_record}
use continuity_receipt.Verify.Main.{
  Outcome, finished, overflow_error, Summary, stop, conclude, well_formed, max_receipts,
  max_nesting_depth, later_passes, all_passes, verify_receipts, verify_list, verify_object,
  verify_bundle,
}

-- The bundle is not UNTRUSTED.
abbrev pub IsAccepted : Outcome → Type 0
IsAccepted (finished r summary) = r.verdict ≢ untrusted
IsAccepted overflow_error = ⊥

within : (l n : ℕ) → ltb l n ≡ false → n ≤ l
within l n h = ground arith

stop_rejects : (code : Code) (rid : Value) → ¬ IsAccepted (stop (fatal_if true code rid))
stop_rejects code rid h = h (verdict-finish (fatal_if true code rid))

IsAccepted-if :
    (b : Bool) (code : Code) (k : Outcome)
    → IsAccepted (if b then stop (fatal_if true code null) else k)
    → (b ≡ false) × IsAccepted k
IsAccepted-if true code k h = absurd (stop_rejects code null h)
IsAccepted-if false code k h = (refl, h)

then_run_returned :
    (a b : Run) {r : Report}
    → (a then_run b) ≡ returned r
    → (x y : Report) × (a ≡ returned x) × (b ≡ returned y) × (r ≡ x ++ y)
then_run_returned raised b e = cc
then_run_returned (returned x) raised e = cc
then_run_returned (returned x) (returned y) e = (x, y, refl, refl, cc)

-- Nothing fatal is found in any pass over the receipts.
pub record IsClean (c : Crypto) (require_anchor : Bool) (external : Option (List Value))
    (bundle : Fields) (receipts : List Value) : Type 0 where
  pub shape : fatal_free (check_shape bundle receipts) ≡ true
  pub loop : fatal_free (check_receipts c (get bundle "task_id") 0 null receipts) ≡ true
  pub cross : Report
  pub cross_returned : check_cross_record (well_formed receipts) ≡ returned cross
  pub cross_clean : fatal_free cross ≡ true
  pub later :
      fatal_free (later_passes c require_anchor external bundle (well_formed receipts)) ≡ true

-- What acceptance says about the bundle as a whole.
pub record Accepted (c : Crypto) (require_anchor : Bool) (external : Option (List Value))
    (v : Value) : Type 0 where
  pub bundle : Fields
  pub receipts : List Value
  pub is_object : v ≡ dict bundle
  pub shallow : 1 + levels (dict bundle) ≤ max_nesting_depth
  pub supported : text_in (get bundle "spec") supported_specs ≡ true
  pub listed : as_list (get bundle "receipts") ≡ some receipts
  pub nonempty : receipts ≢ []
  pub bounded : length receipts ≤ max_receipts
  pub clean : IsClean c require_anchor external bundle receipts

accepted_report :
    (run : Run) (s : Summary)
    → IsAccepted (conclude run s)
    → (report : Report) × (run ≡ returned report) × (fatal_free report ≡ true)
accepted_report (returned report) s h = (report, refl, fatal_free_of_verdict report h)
accepted_report raised s h = elim h [ ]

module _ (c : Crypto) (require_anchor : Bool) (external : Option (List Value)) where
  IsClean-all_passes :
      (bundle : Fields) (receipts : List Value) (report : Report)
      → all_passes c require_anchor external bundle receipts ≡ returned report
      → fatal_free report ≡ true
      → IsClean c require_anchor external bundle receipts
  unfolding all_passes
  IsClean-all_passes bundle receipts report e free =
      let dicts = well_formed receipts in
      let later = later_passes c require_anchor external bundle dicts in
      let first =
        check_shape bundle receipts ++ check_receipts c (get bundle "task_id") 0 null receipts in
      let (x, rest, ex, erest, er) =
        then_run_returned (returned first) (check_cross_record dicts then_run returned later) e in
      let (cross, z, ecross, ez, ecz) =
        then_run_returned (check_cross_record dicts) (returned later) erest in
      let whole : report ≡ first ++ (cross ++ later) = cc in
      let (in_first, in_rest) = fatal_free_parts first (cross ++ later) (rw whole at free) in
      let (in_shape, in_loop) =
        fatal_free_parts (check_shape bundle receipts)
          (check_receipts c (get bundle "task_id") 0 null receipts) in_first in
      let (in_cross, in_later) = fatal_free_parts cross later in_rest in
      record {
        shape = in_shape;
        loop = in_loop;
        cross = cross;
        cross_returned = ecross;
        cross_clean = in_cross;
        later = in_later;
      }

  IsClean-verify_receipts :
      (bundle : Fields) (receipts : List Value)
      → IsAccepted (verify_receipts c require_anchor external bundle receipts)
      → (length receipts ≤ max_receipts) × IsClean c require_anchor external bundle receipts
  unfolding verify_receipts
  IsClean-verify_receipts bundle receipts h =
      let summary = summarize receipts (well_formed receipts) in
      let run = all_passes c require_anchor external bundle receipts in
      let (fits, accepted) =
        IsAccepted-if (ltb max_receipts (length receipts)) too_many_receipts (conclude run summary)
          h in
      let (report, e, free) = accepted_report run summary accepted in
      (ground arith, IsClean-all_passes bundle receipts report e free)

  -- The list of receipts, as `verify_list` reads it.
  IsClean-verify_list :
      (bundle : Fields) (o : Option (List Value))
      → IsAccepted (verify_list c require_anchor external bundle o)
      → (receipts : List Value) × (o ≡ some receipts)
        × (receipts ≢ [])
        × (length receipts ≤ max_receipts)
        × IsClean c require_anchor external bundle receipts
  unfolding verify_list
  IsClean-verify_list bundle none h = absurd (stop_rejects malformed null h)
  IsClean-verify_list bundle (some []) h = absurd (stop_rejects malformed null h)
  IsClean-verify_list bundle (some (v ∷ vs)) h =
      let (fits, clean) = IsClean-verify_receipts bundle (v ∷ vs) h in
      (v ∷ vs, refl, (λ e. cc), fits, clean)

  -- A bundle that is not UNTRUSTED passed every guard, and no pass found anything fatal.
  pub Accepted-verify_bundle :
      (v : Value)
      → IsAccepted (verify_bundle c require_anchor external v)
      → Accepted c require_anchor external v
  unfolding verify_bundle verify_object
  Accepted-verify_bundle (dict bundle) h =
      let object = verify_object c require_anchor external bundle in
      let list = verify_list c require_anchor external bundle (as_list (get bundle "receipts")) in
      let (shallow, h1) =
        IsAccepted-if (depth_exceeded (dict bundle) max_nesting_depth) nesting_too_deep object h in
      let (known, h2) =
        IsAccepted-if (not (text_in (get bundle "spec") supported_specs)) version_unsupported list
          h1 in
      let (receipts, listed, nonempty, bounded, clean) =
        IsClean-verify_list bundle (as_list (get bundle "receipts")) h2 in
      record {
        bundle = bundle;
        receipts = receipts;
        is_object = refl;
        shallow =
            within max_nesting_depth (1 + levels (dict bundle))
              (sym (depth_exceeded-eq_levels (dict bundle) max_nesting_depth) ∙ shallow);
        supported = ground arith;
        listed = listed;
        nonempty = nonempty;
        bounded = bounded;
        clean = clean;
      }
  Accepted-verify_bundle _ h = absurd (stop_rejects malformed null h)
