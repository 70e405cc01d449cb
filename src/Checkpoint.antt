-- ===== src/Checkpoint.antt =====
-- continuity_receipt/receiver_checkpoint.py: `assess_import` and `receive_bundle`. The decoder of UTF-8
-- and JSON and the encoder of base 64 are parameters. Issuing a checkpoint is not modelled.
pub mod Accepts
pub mod Current
pub mod Kept
pub mod Receive
pub mod Signature
pub mod Statement
pub mod Time
use Prim.Native.String.{count}
use continuity_receipt.Base.{
  ℕ, zero, suc, ◌+◌, ◌*◌, String, Bool, true, false, not, ◌&&◌, ◌||◌, ◌==◌, Option, none, some,
  List, [], ◌∷◌, pos, length, leb, ltb, str_eq, if◌then◌else◌, ◌>>=◌,
}
use continuity_receipt.Value.{
  Value, null, int, str, dict, Fields, get, has, without, is_text, is_nonempty_text,
}
use continuity_receipt.Value.Equal.{py_eq}
use continuity_receipt.Value.Number.{codes, is_digit}
use continuity_receipt.Crypto.{Crypto}
use continuity_receipt.Canon.{canonical_bytes, sha256_prefixed}
use continuity_receipt.Keys.{b64u_decode}
use continuity_receipt.StrictJson.{Json, loads}
use continuity_receipt.Verify.Body.{is_digest, keys_in}
use continuity_receipt.Verify.Report.{
  VerifyResult, Verdict, trusted, conditional, insufficient_evidence, untrusted,
}
use continuity_receipt.Verify.Main.{Outcome, finished, overflow_error, verify_bundle}
use continuity_receipt.Checkpoint.Time.{time}
use continuity_receipt.Checkpoint.Statement.{
  max_bundle_bytes, max_checkpoint_bytes, checkpoint_kind, Decision, Core, ImportAssessment,
  Receiver, first_reason, rejection, is_trusted, context_valid, max_age, is_exact_int,
  checkpoint_members, all_in, sig_value, window, window_reason, shape_tests, statement_tests,
  assess_statement, accept, needs_evidence, reject, verified, unassessed,
}

module _ (c : Crypto) (j : Json) (encode : List ℕ → String) where
  -- After the signature.
  unfoldable pub assess_signed :
      Fields → Receiver → (now age : ℕ) → String → Core → Option (List ℕ) → ImportAssessment
  unfolding assess_statement
  assess_signed cp r now age digest core none =
      rejection "checkpoint_invalid" core (some digest) none
  assess_signed cp r now age digest core (some bytes) =
      let chash = sha256_prefixed c bytes in
      if not (is_text r.accepted_checkpoint_digest chash)
      then rejection "checkpoint_reference_mismatch" core (some digest) (some chash)
      else assess_statement cp r now age digest chash core

  -- The reason why the signature of the checkpoint does not verify.
  abbrev pub signature_reason : List ℕ → Fields → String → Option String
  signature_reason key cp value = elim (b64u_decode c value) [
    | none ↦ some "checkpoint_invalid"
    | some raw ↦
        if not ((length raw == 64) && str_eq (encode raw) value)
        then some "checkpoint_signature_invalid"
        else elim (canonical_bytes (dict (without "sig" cp))) [
          | none ↦ some "checkpoint_invalid"
          | some message ↦
              if not (c.ed25519_verify key raw message)
              then some "checkpoint_bad_signature"
              else none
        ]
  ]

  unfoldable pub sig_reason : List ℕ → Fields → Option String
  unfolding sig_value
  sig_reason key cp = elim (sig_value (get cp "sig")) [
    | none ↦ some "checkpoint_signature_invalid"
    | some value ↦ signature_reason key cp value
  ]

  unfoldable pub assess_checkpoint :
      List ℕ → Receiver → (now age : ℕ) → String → Core → Value → ImportAssessment
  unfolding shape_tests sig_reason assess_signed
  assess_checkpoint key r now age digest core (dict cp) = elim (first_reason (shape_tests cp)) [
    | some reason ↦ rejection reason core (some digest) none
    | none ↦ elim (sig_reason key cp) [
      | some reason ↦ rejection reason core (some digest) none
      | none ↦ assess_signed cp r now age digest core (canonical_bytes (dict cp))
    ]
  ]
  assess_checkpoint key r now age digest core _ =
      rejection "checkpoint_shape_invalid" core (some digest) none

  -- The tests of the receiver's own arguments, then the checkpoint.
  unfoldable pub assess_request : List ℕ → Receiver → List ℕ → String → Core → ImportAssessment
  unfolding context_valid max_age time assess_checkpoint
  assess_request key r checkpoint digest core =
      if not (context_valid r.expected_context)
      then rejection "context_invalid" core (some digest) none
      else elim (max_age r.max_age_seconds) [
        | none ↦ rejection "freshness_invalid" core (some digest) none
        | some age ↦ elim (time r.now) [
          | none ↦ rejection "timestamp_invalid" core (some digest) none
          | some now ↦ elim (loads j checkpoint) [
            | none ↦ rejection "checkpoint_invalid" core (some digest) none
            | some v ↦ assess_checkpoint key r now age digest core v
          ]
        ]
      ]

  abbrev pub needed : String → Core → String → ImportAssessment
  needed reason core digest = record {
    outcome = needs_evidence;
    reason = reason;
    core = core;
    bundle_digest = some digest;
    checkpoint_digest = none;
  }

  abbrev pub assess_key : Option (List ℕ) → Receiver → List ℕ → String → Core → ImportAssessment
  unfolding assess_request is_digest
  assess_key none r checkpoint digest core =
      rejection "checkpoint_trust_key_invalid" core (some digest) none
  assess_key (some key) r checkpoint digest core =
      if not (is_digest "sha256:" r.accepted_checkpoint_digest)
      then rejection "accepted_reference_invalid" core (some digest) none
      else assess_request key r checkpoint digest core

  abbrev pub is_none : Value → Bool
  is_none null = true
  is_none _ = false

  -- For a bundle that the verifier trusts.
  unfoldable pub assess_evidence : Option (List ℕ) → Receiver → String → Core → ImportAssessment
  unfolding assess_key
  assess_evidence none r digest core = needed "checkpoint_missing" core digest
  assess_evidence (some checkpoint) r digest core =
      if ltb max_checkpoint_bytes (length checkpoint)
      then rejection "checkpoint_size_invalid" core (some digest) none
      else if is_none r.accepted_checkpoint_digest
      then needed "accepted_reference_missing" core digest
      else assess_key r.trusted_public_key r checkpoint digest core

  unfoldable pub assess_core :
      Fields → Option (List ℕ) → Receiver → String → Outcome → ImportAssessment
  unfolding assess_evidence
  assess_core bundle checkpoint r digest overflow_error =
      rejection "core_invalid_input" (unassessed "core_invalid_input") (some digest) none
  assess_core bundle checkpoint r digest (finished result summary) =
      if not (is_trusted result.verdict)
      then rejection "core_not_trusted" (verified result) (some digest) none
      else if not (is_text (get bundle "spec") "continuity-receipt/0.5")
      then rejection "receiver_version_unsupported" (verified result) (some digest) none
      else assess_evidence checkpoint r digest (verified result)

  -- The bundle of the bytes: a JSON object that has canonical bytes.
  abbrev pub object_of : Option Value → Option Fields
  object_of (some (dict d)) = canonical_bytes (dict d) >>= λ bytes. some d
  object_of _ = none

  abbrev pub assess_object : Option Fields → Option (List ℕ) → Receiver → String → ImportAssessment
  unfolding assess_core
  assess_object none checkpoint r digest =
      rejection "bundle_invalid_json" (unassessed "bundle_invalid_json") (some digest) none
  assess_object (some bundle) checkpoint r digest =
      assess_core bundle checkpoint r digest (verify_bundle c false none (dict bundle))

  -- `assess_import`
  unfoldable pub assess_import : List ℕ → Option (List ℕ) → Receiver → ImportAssessment
  unfolding assess_object
  assess_import bundle checkpoint r =
      if ltb max_bundle_bytes (length bundle)
      then rejection "bundle_size_invalid" (unassessed "bundle_size_invalid") none none
      else assess_object (object_of (loads j bundle)) checkpoint r (sha256_prefixed c bundle)

  abbrev pub is_accept : Decision → Bool
  is_accept accept = true
  is_accept _ = false

  -- `receive_bundle`: the assessment, and what the sink is called with.
  unfoldable pub receive_bundle :
      List ℕ → Option (List ℕ) → Receiver → ImportAssessment × Option Value
  unfolding assess_import
  receive_bundle bundle checkpoint r =
      let result = assess_import bundle checkpoint r in
      (result, if is_accept result.outcome then loads j bundle else none)
