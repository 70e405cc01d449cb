-- ===== src/Tests/Policy.antt =====
-- A bundle that a policy accepts.
use continuity_receipt.Base.{List, [], ◌∷◌, some}
use continuity_receipt.Value.{Value, dict, str, list, nil, cons, Fields, end}
use continuity_receipt.Bundle.{new_chain, add, make_bundle}
use continuity_receipt.Verify.Main.{verify_bundle, later_passes}
use continuity_receipt.Verify.Agreement.{check_agreements}
use continuity_receipt.Verify.Authority.{check_authority}
use continuity_receipt.Verify.Redactions.{check_redactions}
use continuity_receipt.Verify.Attestations.{check_attestations, check_provenance}
use continuity_receipt.Verify.Revoked.{check_revocations}
use continuity_receipt.Verify.Anchors.{check_anchors, check_chain_head}
use continuity_receipt.Verify.Depth.{depth_exceeded}
use continuity_receipt.Verify.Shape.{check_shape}
use continuity_receipt.Verify.Chain.{check_receipts}
use continuity_receipt.Verify.Settlement.{check_cross_record}
use continuity_receipt.Verify.Report.{collect, finish}
use continuity_receipt.Consumer.{Assessment, assessed, assess_bundle}
use continuity_receipt.Tests.{toy, agent, obj, Step, extend, receipts_of}
use continuity_receipt.Bundle.{new_envelope, sign_receipt, receipt_digest}
use continuity_receipt.Canon.{insert_member, sort_members, reject_floats, dump}
use continuity_receipt.Canon.Text.{lt_codes, join, decimal, quote, utf8}
use continuity_receipt.Value.Equal.{py_eq}
use continuity_receipt.Keys.{verify}
use continuity_receipt.Verify.Main.{all_passes}
use continuity_receipt.Verify.Chain.{
  has_signature, link_after, check_body, check_typed, check_receipt,
}
use continuity_receipt.Revocations.{merge_from, merge_statements, verify_statements}
use continuity_receipt.Consumer.{accept, Assessment, assessed}
use continuity_receipt.Consumer.Accepts.{Accepts, assess_bundle-Accepts}
use continuity_receipt.Verify.Report.{trusted}
use continuity_receipt.Base.{◌≡◌, refl}
use continuity_receipt.Records.Timestamp.{validate_timestamp}

abbrev pub short_steps : List Step
short_steps =
    (
      agent,
      "r0",
      "2026-01-01T00:00:00Z",
      "session.pass.created",
      λ rs.
          ("gate_id", str "g")
          ∷ ("mandala_class", str "local")
          ∷ ("quotas", dict end)
          ∷ ("expires_at", str "e")
          ∷ ("policy_version", str "p")
          ∷ ("mandate_ref", str "m")
          ∷ ("agent_id", str "a")
          ∷ [],
    )
    ∷ (
      agent,
      "r1",
      "2026-01-01T00:00:01Z",
      "task.termination",
      λ rs. ("reason", str "done") ∷ ("limits_at_stop", dict end) ∷ ("remaining", dict end) ∷ [],
    )
    ∷ []

short_receipts : List Fields
unfolding add
short_receipts = receipts_of (extend (new_chain "task" "continuity-receipt/0.3") short_steps)

short_bundle : Value
unfolding short_receipts make_bundle
short_bundle = dict (
    make_bundle
      (record { task_id = "task"; spec = "continuity-receipt/0.3"; receipts = short_receipts }) end
      nil nil)

policy : Value
policy = obj (
    ("id", str "p")
    ∷ ("accepted_specs", list (cons (str "continuity-receipt/0.3") nil))
    ∷ ("trusted_issuers", list (cons (str agent) nil))
    ∷ ("required_record_types", list (cons (str "task.termination") nil))
    ∷ [])

accepting : Assessment
accepting = record {
  outcome = accept;
  reason_codes = "policy_satisfied" ∷ [];
  core = record {
    verdict = trusted;
    errors = [];
    provisional_reasons = [];
    insufficient_reasons = [];
    notes = [];
  };
  bundle_digest = some "sha256:bgafcha";
  policy_id = str "p";
  policy_digest = some "sha256:cfhebba";
}

short_accepted : assess_bundle toy short_bundle (some policy) ≡ assessed accepting
unfolding accepting assess_bundle policy short_bundle verify_bundle depth_exceeded check_shape
    check_receipts check_cross_record later_passes collect finish check_agreements check_authority
    check_redactions check_attestations check_provenance check_revocations check_anchors
    check_chain_head toy new_envelope sign_receipt receipt_digest new_chain insert_member
    sort_members lt_codes join decimal quote utf8 reject_floats dump py_eq has_signature link_after
    check_body check_typed check_receipt merge_from merge_statements verify_statements verify
    all_passes validate_timestamp
short_accepted = refl

accepting_accept : accepting.outcome ≡ accept
unfolding accepting
accepting_accept = refl

assess_bundle-Accepts_example : Accepts toy short_bundle (some policy)
assess_bundle-Accepts_example =
    assess_bundle-Accepts toy short_bundle (some policy) accepting short_accepted accepting_accept
