-- ===== src/Tests/Import.antt =====
-- A bundle that a receiver imports.
use continuity_receipt.Base.{
  true, ℕ, zero, suc, String, List, [], ◌∷◌, some, none, ◌≡◌, refl, pos, ◌==◌, ◌%◌, if◌then◌else◌,
  Option,
}
use continuity_receipt.Value.{Value, dict, str, int, nil, Fields, end}
use continuity_receipt.Crypto.{Crypto}
use continuity_receipt.StrictJson.{Json, loads}
use continuity_receipt.Bundle.{new_chain, add, make_bundle}
use continuity_receipt.Verify.Main.{verify_bundle, later_passes, all_passes}
use continuity_receipt.Verify.Agreement.{check_agreements}
use continuity_receipt.Verify.Authority.{check_authority}
use continuity_receipt.Verify.Redactions.{check_redactions}
use continuity_receipt.Verify.Attestations.{check_attestations, check_provenance}
use continuity_receipt.Verify.Revoked.{check_revocations}
use continuity_receipt.Verify.Anchors.{check_anchors, check_chain_head}
use continuity_receipt.Verify.Depth.{depth_exceeded}
use continuity_receipt.Verify.Shape.{check_shape}
use continuity_receipt.Verify.Chain.{
  check_receipts, has_signature, link_after, check_body, check_typed, check_receipt,
}
use continuity_receipt.Verify.Settlement.{check_cross_record}
use continuity_receipt.Verify.Report.{collect, finish}
use continuity_receipt.Bundle.{new_envelope, sign_receipt, receipt_digest}
use continuity_receipt.Canon.{insert_member, sort_members, reject_floats, dump}
use continuity_receipt.Canon.Text.{lt_codes, join, decimal, quote, utf8}
use continuity_receipt.Value.Equal.{py_eq}
use continuity_receipt.Keys.{verify}
use continuity_receipt.Verify.Body.{check_05_body}
use continuity_receipt.Revocations.{merge_from, merge_statements, verify_statements}
use continuity_receipt.Records.Timestamp.{validate_timestamp}
use continuity_receipt.Canon.{sha256_prefixed, canonical_bytes}
use continuity_receipt.Verify.Body.{is_digest, keys_in}
use continuity_receipt.Checkpoint.Time.{time}
use continuity_receipt.Tests.Policy.{short_steps}
use continuity_receipt.Tests.{extend_by, checksum, obj, fields, receipts_of, repeated}
use continuity_receipt.Checkpoint.Statement.{Receiver, accept, checkpoint_kind}
use continuity_receipt.Checkpoint.{assess_import, receive_bundle}
use continuity_receipt.Checkpoint.Accepts.{IsImportable}
use continuity_receipt.Checkpoint.Receive.{assess_import-IsImportable, receive_bundle-IsImportable}

abbrev zeros : ℕ → List ℕ
zeros zero = []
zeros (suc n) = 0 ∷ zeros n

-- A digest of 64 hexadecimal digits, and signatures of 64 bytes.
abbrev receiving : Crypto
unfolding checksum
receiving = record {
  sha256_hex = λ bytes. repeated 64 (if checksum 7 bytes % 2 == 0 then "a" else "b");
  urlsafe_b64decode = λ text. some (zeros 64);
  ed25519_verify = λ key signature message. true;
}

abbrev encode : List ℕ → String
encode raw = repeated 86 "A"

-- A chain of two receipts under that digest.
imported : Fields
unfolding add make_bundle
imported =
    make_bundle
      (record {
        task_id = "task";
        spec = "continuity-receipt/0.5";
        receipts =
            receipts_of
              (extend_by receiving (new_chain "task" "continuity-receipt/0.5") short_steps);
      })
      end nil nil

bundle_bytes : List ℕ
bundle_bytes = 1 ∷ []

checkpoint_bytes : List ℕ
checkpoint_bytes = 2 ∷ []

kept : Fields
unfolding bundle_bytes
kept = fields (
    ("kind", str checkpoint_kind)
    ∷ ("version", int (pos 1))
    ∷ ("bundle_digest", str (sha256_prefixed receiving bundle_bytes))
    ∷ ("context", str "ctx")
    ∷ ("issued_at", str "2026-02-28T23:30:00Z")
    ∷ ("max_age_seconds", int (pos 3600))
    ∷ ("expires_at", str "2026-03-01T00:30:00Z")
    ∷ ("sig", obj (("alg", str "Ed25519") ∷ ("value", str (repeated 86 "A")) ∷ []))
    ∷ [])

decode_toy : List ℕ → Option Value
unfolding imported kept
decode_toy [] = none
decode_toy (n ∷ bytes) = some (if n == 1 then dict imported else dict kept)

abbrev decoder : Json
decoder = record { decode = λ hook text. decode_toy text }

receiver : Receiver
unfolding kept
receiver = record {
  trusted_public_key = some (zeros 32);
  expected_context = str "ctx";
  accepted_checkpoint_digest = elim (canonical_bytes (dict kept)) [
    | none ↦ str ""
    | some bytes ↦ str (sha256_prefixed receiving bytes)
  ];
  now = str "2026-03-01T00:00:00Z";
  max_age_seconds = int (pos 3600);
}

is_accepted :
    (assess_import receiving decoder encode bundle_bytes (some checkpoint_bytes) receiver).outcome
    ≡ accept
unfolding assess_import receiver decode_toy bundle_bytes checkpoint_bytes verify_bundle
    depth_exceeded check_shape check_receipts check_cross_record later_passes collect finish
    check_agreements check_authority check_redactions check_attestations check_provenance
    check_revocations check_anchors check_chain_head new_envelope sign_receipt receipt_digest
    new_chain insert_member sort_members lt_codes join decimal quote utf8 reject_floats dump py_eq
    has_signature link_after check_body check_typed check_receipt merge_from merge_statements
    verify_statements verify all_passes validate_timestamp check_05_body sha256_prefixed receiving
    loads is_digest keys_in time
is_accepted = refl

assess_import-IsImportable_example :
    IsImportable receiving decoder encode receiver bundle_bytes (some checkpoint_bytes)
assess_import-IsImportable_example =
    assess_import-IsImportable receiving decoder encode bundle_bytes (some checkpoint_bytes)
      receiver is_accepted

is_received :
    (receive_bundle receiving decoder encode bundle_bytes (some checkpoint_bytes) receiver).1
    ≡ some (dict imported)
unfolding receive_bundle receiver decode_toy bundle_bytes checkpoint_bytes verify_bundle
    depth_exceeded check_shape check_receipts check_cross_record later_passes collect finish
    check_agreements check_authority check_redactions check_attestations check_provenance
    check_revocations check_anchors check_chain_head new_envelope sign_receipt receipt_digest
    new_chain insert_member sort_members lt_codes join decimal quote utf8 reject_floats dump py_eq
    has_signature link_after check_body check_typed check_receipt merge_from merge_statements
    verify_statements verify all_passes validate_timestamp check_05_body sha256_prefixed receiving
    loads is_digest keys_in time
is_received = refl

receive_bundle-IsImportable_example :
    (loads decoder bundle_bytes ≡ some (dict imported))
    × IsImportable receiving decoder encode receiver bundle_bytes (some checkpoint_bytes)
receive_bundle-IsImportable_example =
    receive_bundle-IsImportable receiving decoder encode bundle_bytes (some checkpoint_bytes)
      receiver (dict imported) is_received
