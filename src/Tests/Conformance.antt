-- ===== src/Tests/Conformance.antt =====
-- A bundle that withstands every attack.
use Prim.Native.String.{◌++◌ as append_text}
use continuity_receipt.Base.{
  arith, map, some, length, ◌≢◌, ◌≤◌, List, [], ◌∷◌, none, false, ◌≡◌, refl, pos,
}
use continuity_receipt.Value.{Value, dict, str, int, nil, Fields, end}
use continuity_receipt.Bundle.{new_chain, add, make_bundle}
use continuity_receipt.Verify.Main.{verify_bundle, later_passes, all_passes}
use continuity_receipt.Verify.Agreement.{check_agreements}
use continuity_receipt.Verify.Authority.{check_authority}
use continuity_receipt.Verify.Redactions.{check_redactions}
use continuity_receipt.Verify.Attestations.{check_attestations, check_provenance}
use continuity_receipt.Verify.Revoked.{check_revocations}
use continuity_receipt.Verify.Anchors.{check_anchors, check_chain_head}
use continuity_receipt.Verify.Depth.{depth_exceeded}
use continuity_receipt.Verify.Shape.{check_shape}
use continuity_receipt.Verify.Chain.{
  check_receipts, has_signature, link_after, check_body, check_typed, check_receipt,
}
use continuity_receipt.Verify.Settlement.{check_cross_record}
use continuity_receipt.Verify.Report.{collect, finish, untrusted}
use continuity_receipt.Tests.{as_list, get, toy, agent, obj, Step, extend, receipts_of, repeated}
use continuity_receipt.Bundle.{new_envelope, sign_receipt, receipt_digest}
use continuity_receipt.Canon.{insert_member, sort_members, reject_floats, dump}
use continuity_receipt.Canon.Text.{lt_codes, join, decimal, quote, utf8}
use continuity_receipt.Value.Equal.{py_eq}
use continuity_receipt.Keys.{verify}
use continuity_receipt.Verify.Body.{check_05_body}
use continuity_receipt.Revocations.{merge_from, merge_statements, verify_statements}
use continuity_receipt.Records.Timestamp.{validate_timestamp}
use continuity_receipt.Verify.Accepted.{IsAccepted}
use continuity_receipt.Pacmi.Attacks.{other_task}
use continuity_receipt.Pacmi.Sound.{Withstands, verify_bundle-Withstands}
use continuity_receipt.Pacmi.Conformant.{IsConformant, evaluate_pacmi-IsConformant}
use continuity_receipt.Pacmi.{
  conformant, evaluate_pacmi, PacmiReport, evaluated, Evaluation, raises, refusal,
}

abbrev committed_steps : List Step
committed_steps =
    (
      agent,
      "r0",
      "2026-01-01T00:00:00Z",
      "session.pass.created",
      λ rs.
          ("gate_id", str "g")
          ∷ ("mandala_class", str "local")
          ∷ ("quotas", dict end)
          ∷ ("expires_at", str "e")
          ∷ ("policy_version", str "p")
          ∷ ("mandate_ref", str "m")
          ∷ ("agent_id", str "a")
          ∷ [],
    )
    ∷ (
      agent,
      "r1",
      "2026-01-01T00:00:01Z",
      "state.commitment",
      λ rs.
          ("state_kind", str "memory")
          ∷ ("scope", str "all")
          ∷ ("count", int (pos 3))
          ∷ ("head_digest", str (append_text "sha256:" (repeated 64 "a")))
          ∷ ("erasure_count", int (pos 1))
          ∷ [],
    )
    ∷ (
      agent,
      "r2",
      "2026-01-01T00:00:02Z",
      "task.termination",
      λ rs. ("reason", str "done") ∷ ("limits_at_stop", dict end) ∷ ("remaining", dict end) ∷ [],
    )
    ∷ []

committed_receipts : List Fields
unfolding add
committed_receipts =
    receipts_of (extend (new_chain "task" "continuity-receipt/0.5") committed_steps)

committed : Fields
unfolding committed_receipts make_bundle
committed =
    make_bundle
      (record { task_id = "task"; spec = "continuity-receipt/0.5"; receipts = committed_receipts })
      end nil nil

accepted : IsAccepted (verify_bundle toy false none (dict committed))
unfolding committed verify_bundle depth_exceeded check_shape check_receipts check_cross_record
    later_passes collect finish check_agreements check_authority check_redactions check_attestations
    check_provenance check_revocations check_anchors check_chain_head toy new_envelope sign_receipt
    receipt_digest new_chain insert_member sort_members lt_codes join decimal quote utf8
    reject_floats dump py_eq has_signature link_after check_body check_typed check_receipt
    merge_from merge_statements verify_statements verify all_passes validate_timestamp check_05_body
accepted e = cc

abbrev kept_outside : Value
kept_outside = obj (("ledger", str "l") ∷ [])

abbrev report_of : Evaluation → PacmiReport
report_of (evaluated r) = r
report_of raises = refusal toy end (record {
  verdict = untrusted;
  errors = [];
  provisional_reasons = [];
  insufficient_reasons = [];
  notes = [];
})

report : PacmiReport
unfolding committed evaluate_pacmi
report = report_of (evaluate_pacmi toy committed kept_outside)

reported : evaluate_pacmi toy committed kept_outside ≡ evaluated report
unfolding report committed evaluate_pacmi verify_bundle depth_exceeded check_shape check_receipts
    check_cross_record later_passes collect finish check_agreements check_authority check_redactions
    check_attestations check_provenance check_revocations check_anchors check_chain_head toy
    new_envelope sign_receipt receipt_digest new_chain insert_member sort_members lt_codes join
    decimal quote utf8 reject_floats dump py_eq has_signature link_after check_body check_typed
    check_receipt merge_from merge_statements verify_statements verify all_passes validate_timestamp
    check_05_body
reported = refl

is_conformant : report.verdict ≡ conformant
unfolding report committed evaluate_pacmi verify_bundle depth_exceeded check_shape check_receipts
    check_cross_record later_passes collect finish check_agreements check_authority check_redactions
    check_attestations check_provenance check_revocations check_anchors check_chain_head toy
    new_envelope sign_receipt receipt_digest new_chain insert_member sort_members lt_codes join
    decimal quote utf8 reject_floats dump py_eq has_signature link_after check_body check_typed
    check_receipt merge_from merge_statements verify_statements verify all_passes validate_timestamp
    check_05_body
is_conformant = refl

evaluate_pacmi-IsConformant_example : IsConformant toy committed kept_outside
evaluate_pacmi-IsConformant_example =
    evaluate_pacmi-IsConformant toy committed kept_outside report reported is_conformant

committed_listed : as_list (get committed "receipts") ≡ some (map dict committed_receipts)
unfolding committed committed_receipts make_bundle add new_chain new_envelope sign_receipt
    reject_floats receipt_digest
committed_listed = refl

long_enough : 3 ≤ length (map dict committed_receipts)
unfolding committed_receipts add new_chain new_envelope sign_receipt reject_floats receipt_digest
long_enough = omega arith

elsewhere : get committed "task_id" ≢ str other_task
unfolding committed make_bundle
elsewhere e = cc

verify_bundle-Withstands_example : Withstands toy committed
verify_bundle-Withstands_example =
    verify_bundle-Withstands toy committed (map dict committed_receipts) accepted committed_listed
      long_enough elsewhere
