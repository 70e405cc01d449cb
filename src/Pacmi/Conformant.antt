-- ===== src/Pacmi/Conformant.antt =====
-- What it takes for `evaluate_pacmi` to report a bundle as CONFORMANT.
use continuity_receipt.Base.{
  ℕ, suc, ◌≤◌, String, Bool, true, false, ◌&&◌, ◌==◌, get_elem?, Option, none, some, List, [], ◌∷◌,
  length, ◌≡◌, refl, ap, ◌∙◌, arith, if◌then◌else◌, All, &&_true,
}
use continuity_receipt.Value.{Value, dict, Fields}
use continuity_receipt.Crypto.{Crypto}
use continuity_receipt.Canon.{canonical_bytes}
use continuity_receipt.Verify.Main.{Outcome, finished, overflow_error, verify_bundle}
use continuity_receipt.Verify.Accepted.{IsAccepted}
use continuity_receipt.Pacmi.Attacks.{
  on_receipts, tamper_record, truncate_tail, delete_middle, reorder, forge_record, cross_replay,
  rollback_replay, tamper_metadata,
}
use continuity_receipt.Pacmi.{
  is_safe, Status, safe, vulnerable, ThreatEvaluation, PacmiReport, conformant, partial,
  nonconformant, Evaluation, evaluated, raises, evaluation, count_safe, any_field, commits_erasure,
  is_anchored, attack_refused, threat_evaluations, report_on, receipt_dicts, report_encoded,
  evaluate_outcome, evaluate_pacmi, refused, result_refused, Conformance, refusal,
}
use continuity_receipt.Pacmi.Anchored.{
  HasAnchor, CommitsErasure, found_in, HasAnchor-is_anchored, CommitsErasure-commits_erasure,
}
use continuity_receipt.Pacmi.Refusals.{IsAccepted-refused}

IsSafe : ThreatEvaluation → Type 0
IsSafe t = t.status ≡ safe

count_safe-length : (ts : List ThreatEvaluation) → count_safe ts ≤ length ts
unfolding count_safe
count_safe-length [] = omega arith
count_safe-length (t ∷ ts) = ground (arith, count_safe-length ts)

both_safe :
    (s : Status) (n m : ℕ) → n ≤ m → (if is_safe s then suc n else n) ≡ suc m → (s ≡ safe) × (n ≡ m)
both_safe safe n m h e = (refl, omega arith)
both_safe vulnerable n m h e = absurd (omega arith)

IsSafe-count_safe : (ts : List ThreatEvaluation) → count_safe ts ≡ length ts → All IsSafe ts
unfolding count_safe IsSafe
IsSafe-count_safe [] h = tt
IsSafe-count_safe (t ∷ ts) h =
    let (first, rest) = both_safe t.status (count_safe ts) (length ts) (count_safe-length ts) h in
    (first, IsSafe-count_safe ts rest)

neutralized : (code name : String) (b : Bool) → IsSafe (evaluation code name b) → b ≡ true
unfolding IsSafe
neutralized code name true h = refl
neutralized code name false h = cc

module _ (c : Crypto) where
  -- A bundle with the eight attacks on it refused, with an anchor given or named by the bundle itself,
  -- and with a receipt that commits to what was erased.
  pub record IsConformant (b : Fields) (offstore : Value) : Type 0 where
    pub accepted : IsAccepted (verify_bundle c false none (dict b))
    pub record_tamper : attack_refused c (on_receipts tamper_record b) ≡ true
    pub tail_truncate : attack_refused c (on_receipts truncate_tail b) ≡ true
    pub middle_delete : attack_refused c (on_receipts delete_middle b) ≡ true
    pub sequence_reorder : attack_refused c (on_receipts reorder b) ≡ true
    pub record_forge : attack_refused c (on_receipts forge_record b) ≡ true
    pub context_replay : attack_refused c (cross_replay b) ≡ true
    pub rollback : attack_refused c (on_receipts rollback_replay b) ≡ true
    pub metadata_tamper : attack_refused c (on_receipts tamper_metadata b) ≡ true
    pub anchored : HasAnchor b (receipt_dicts c b) offstore
    pub erasing : ℕ
    pub erasing_receipt : Fields
    pub erasing_at : get_elem? (receipt_dicts c b) erasing ≡ some erasing_receipt
    pub erasure : CommitsErasure erasing_receipt

  IsConformant-threat_evaluations :
      (b : Fields) (offstore : Value)
      → IsAccepted (verify_bundle c false none (dict b))
      → All IsSafe (
          threat_evaluations c b
            (is_anchored b (receipt_dicts c b) offstore)
            (any_field commits_erasure (receipt_dicts c b)))
      → IsConformant b offstore
  unfolding threat_evaluations
  IsConformant-threat_evaluations b offstore accepted
        (t1, (t2, (t3, (t4, (t5, (t6, (t7, (t8, (t9, (t10, _)))))))))) =
      let anchored = is_anchored b (receipt_dicts c b) offstore in
      let erasure = any_field commits_erasure (receipt_dicts c b) in
      let (i, r, at, commits) =
        found_in commits_erasure (receipt_dicts c b)
          ((&&_true anchored erasure).0
            (neutralized "T10" "Erasure Resurrection" (anchored && erasure) t10)).1 in
      record {
        accepted = accepted;
        record_tamper = neutralized "T01" "Record Tamper" _ t1;
        tail_truncate = neutralized "T02" "Tail Truncate" _ t2;
        middle_delete = neutralized "T03" "Middle Delete" _ t3;
        sequence_reorder = neutralized "T04" "Sequence Reorder" _ t4;
        record_forge = neutralized "T05" "Record Forge" _ t5;
        context_replay = neutralized "T06" "Cross-Context Replay" _ t6;
        rollback = neutralized "T07" "Rollback Replay" _ t7;
        metadata_tamper = neutralized "T08" "Metadata Tamper" _ t8;
        anchored =
            HasAnchor-is_anchored b (receipt_dicts c b) offstore
              (neutralized "T09" "Snapshot Rollback" anchored t9);
        erasing = i;
        erasing_receipt = r;
        erasing_at = at;
        erasure = CommitsErasure-commits_erasure r commits;
      }

  verdict_conformant : (n m : ℕ) → (if n == m then conformant else partial) ≡ conformant → n ≡ m
  verdict_conformant n m h = go (n == m) refl h
    where
      go : (o : Bool) → (n == m) ≡ o → (if o then conformant else partial) ≡ conformant → n ≡ m
      go true e k = ground arith
      go false e k = cc

  verdict_of : Evaluation → Conformance
  verdict_of raises = nonconformant
  verdict_of (evaluated r) = r.verdict

  IsConformant-evaluate_outcome :
      (b : Fields) (offstore : Value) (o : Outcome)
      → verify_bundle c false none (dict b) ≡ o
      → verdict_of (evaluate_outcome c b offstore o) ≡ conformant
      → IsConformant b offstore
  unfolding evaluate_outcome report_encoded report_on verdict_of
  IsConformant-evaluate_outcome b offstore overflow_error e h = cc
  IsConformant-evaluate_outcome b offstore (finished r summary) e h =
      go (result_refused r) (canonical_bytes (dict b)) refl h
    where
      go :
          (x : Bool) (o : Option (List ℕ))
          → result_refused r ≡ x
          → verdict_of (if x then evaluated (refusal c b r) else report_encoded c b offstore o)
            ≡ conformant
          → IsConformant b offstore
      go true o f k = cc
      go false none f k = cc
      go false (some bytes) f k =
          IsConformant-threat_evaluations b offstore
            (IsAccepted-refused (verify_bundle c false none (dict b)) (ap refused e ∙ f))
            (IsSafe-count_safe
              (threat_evaluations c b (is_anchored b (receipt_dicts c b) offstore)
                (any_field commits_erasure (receipt_dicts c b)))
              (verdict_conformant
                (count_safe (
                  threat_evaluations c b (is_anchored b (receipt_dicts c b) offstore)
                    (any_field commits_erasure (receipt_dicts c b))))
                10 k))

  -- A report of `evaluate_pacmi` is CONFORMANT only for a bundle that the verifier does not call
  -- UNTRUSTED, with each of the eight attacks on it refused. An anchor is then given beside the bundle,
  -- or the bundle names one itself: it has anchors, its chain head is marked as anchored, or the body
  -- of a receipt says that its commitment is kept outside the store. And a receipt of it is a state
  -- commitment whose body has a count or a digest of what was erased, or a revision.
  pub evaluate_pacmi-IsConformant :
      (b : Fields) (offstore : Value) (report : PacmiReport)
      → evaluate_pacmi c b offstore ≡ evaluated report
      → report.verdict ≡ conformant
      → IsConformant b offstore
  unfolding evaluate_pacmi verdict_of
  evaluate_pacmi-IsConformant b offstore report e h =
      IsConformant-evaluate_outcome b offstore (verify_bundle c false none (dict b)) refl
        (ap verdict_of e ∙ h)
