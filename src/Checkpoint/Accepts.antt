-- ===== src/Checkpoint/Accepts.antt =====
-- What an accepted import is, and what the sink receives.
use continuity_receipt.Base.{
  ℕ, ◌≤◌, String, Bool, true, false, not, Option, none, some, List, ltb, length, arith, ◌≡◌, refl,
  if◌then◌else◌,
}
use continuity_receipt.Value.{Value, str, dict, Fields, get, is_text}
use continuity_receipt.Value.Equal.{is_text-eq}
use continuity_receipt.Crypto.{Crypto}
use continuity_receipt.Canon.{sha256_prefixed}
use continuity_receipt.StrictJson.{Json, loads}
use continuity_receipt.Verify.Body.{is_digest}
use continuity_receipt.Verify.Report.{
  VerifyResult, Verdict, trusted, conditional, insufficient_evidence, untrusted,
}
use continuity_receipt.Verify.Main.{Outcome, Summary, finished, overflow_error, verify_bundle}
use continuity_receipt.Checkpoint.Time.{time}
use continuity_receipt.Checkpoint.Statement.{
  Core, verified, ImportAssessment, Receiver, rejection, is_trusted, context_valid, max_age,
  max_bundle_bytes, max_checkpoint_bytes,
}
use continuity_receipt.Checkpoint.Current.{Accepting, holds}
use continuity_receipt.Checkpoint.Kept.{IsKept, IsKept-assess_checkpoint, unless}
use continuity_receipt.Checkpoint.{
  assess_checkpoint, assess_request, assess_key, assess_evidence, assess_core, is_none, needed,
}

pub within : (l n : ℕ) → ltb l n ≡ false → n ≤ l
within l n h = ground arith

module _ (c : Crypto) (j : Json) (encode : List ℕ → String) where
  IsKept-assess_request :
      (key : List ℕ) (r : Receiver) (checkpoint : List ℕ) (digest : String) (core : Core)
      → Accepting (assess_request c j encode key r checkpoint digest core)
      → IsKept c j encode key r checkpoint digest
  unfolding assess_request
  IsKept-assess_request key r checkpoint digest core h =
      go (max_age r.max_age_seconds) (time r.now) (loads j checkpoint) refl refl refl
        (unless (not (context_valid r.expected_context)) _ _ core (some digest) none h).1
    where
      go :
          (a n : Option ℕ) (v : Option Value)
          → max_age r.max_age_seconds ≡ a
          → time r.now ≡ n
          → loads j checkpoint ≡ v
          → Accepting (elim a [
            | none ↦ rejection "freshness_invalid" core (some digest) none
            | some age ↦ elim n [
              | none ↦ rejection "timestamp_invalid" core (some digest) none
              | some now ↦ elim v [
                | none ↦ rejection "checkpoint_invalid" core (some digest) none
                | some w ↦ assess_checkpoint c j encode key r now age digest core w
              ]
            ]
          ])
          → IsKept c j encode key r checkpoint digest
      go none n v ea en ev k = cc
      go (some age) none v ea en ev k = cc
      go (some age) (some now) none ea en ev k = cc
      go (some age) (some now) (some w) ea en ev k =
          IsKept-assess_checkpoint c j encode key r checkpoint digest core now age w ev en ea k

  -- The evidence for a bundle: a checkpoint of at most 16,384 bytes, which is kept under the digest
  -- that the receiver holds and signed by the key that it trusts.
  pub record HasEvidence (r : Receiver) (given : Option (List ℕ)) (digest : String) : Type 0 where
    pub checkpoint : List ℕ
    pub is_given : given ≡ some checkpoint
    pub bounded : length checkpoint ≤ max_checkpoint_bytes
    pub key : List ℕ
    pub key_is : r.trusted_public_key ≡ some key
    pub kept : IsKept c j encode key r checkpoint digest

  IsKept-assess_key :
      (k : Option (List ℕ)) (r : Receiver) (checkpoint : List ℕ) (digest : String) (core : Core)
      → Accepting (assess_key c j encode k r checkpoint digest core)
      → (key : List ℕ) × (k ≡ some key) × IsKept c j encode key r checkpoint digest
  unfolding assess_key
  IsKept-assess_key none r checkpoint digest core h = cc
  IsKept-assess_key (some key) r checkpoint digest core h = (
    key,
    refl,
    IsKept-assess_request key r checkpoint digest core
        (unless (not (is_digest "sha256:" r.accepted_checkpoint_digest)) _ _ core (some digest) none
          h).1,
  )

  needs :
      (b : Bool) (a : ImportAssessment) (reason : String) (core : Core) (digest : String)
      → Accepting (if b then needed c j encode reason core digest else a)
      → Accepting a
  needs true a reason core digest h = cc
  needs false a reason core digest h = h

  HasEvidence-assess_evidence :
      (given : Option (List ℕ)) (r : Receiver) (digest : String) (core : Core)
      → Accepting (assess_evidence c j encode given r digest core)
      → HasEvidence r given digest
  unfolding assess_evidence
  HasEvidence-assess_evidence none r digest core h = cc
  HasEvidence-assess_evidence (some checkpoint) r digest core h =
      let keyed = assess_key c j encode r.trusted_public_key r checkpoint digest core in
      let absent = is_none c j encode r.accepted_checkpoint_digest in
      let (bounded, rest) =
        unless (ltb max_checkpoint_bytes (length checkpoint))
          (if absent then needed c j encode "accepted_reference_missing" core digest else keyed) _
          core (some digest) none h in
      let (key, key_is, kept) =
        IsKept-assess_key r.trusted_public_key r checkpoint digest core
          (needs absent keyed _ core digest rest) in
      record {
        checkpoint = checkpoint;
        is_given = refl;
        bounded = within max_checkpoint_bytes (length checkpoint) bounded;
        key = key;
        key_is = key_is;
        kept = kept;
      }

  -- A bundle that may be imported: the verifier trusts it, its version is 0.5, and there is evidence.
  pub record IsImportable (r : Receiver) (bytes : List ℕ) (given : Option (List ℕ)) : Type 0 where
    pub bundle : Fields
    pub parsed : loads j bytes ≡ some (dict bundle)
    pub bounded : length bytes ≤ max_bundle_bytes
    pub result : VerifyResult
    pub summary : Option Summary
    pub assessed : verify_bundle c false none (dict bundle) ≡ finished result summary
    pub trusted_verdict : result.verdict ≡ trusted
    pub spec_is : get bundle "spec" ≡ str "continuity-receipt/0.5"
    pub evidence : HasEvidence r given (sha256_prefixed c bytes)

  is_trusted-eq : (v : Verdict) → is_trusted v ≡ true → v ≡ trusted
  is_trusted-eq trusted h = refl
  is_trusted-eq conditional h = cc
  is_trusted-eq insufficient_evidence h = cc
  is_trusted-eq untrusted h = cc

  pub IsImportable-assess_core :
      (bundle : Fields) (bytes : List ℕ) (given : Option (List ℕ)) (r : Receiver) (o : Outcome)
      → loads j bytes ≡ some (dict bundle)
      → length bytes ≤ max_bundle_bytes
      → verify_bundle c false none (dict bundle) ≡ o
      → Accepting (assess_core c j encode bundle given r (sha256_prefixed c bytes) o)
      → IsImportable r bytes given
  unfolding assess_core
  IsImportable-assess_core bundle bytes given r overflow_error parsed bounded e h = cc
  IsImportable-assess_core bundle bytes given r (finished result summary) parsed bounded e h =
      let digest = sha256_prefixed c bytes in
      let core = verified result in
      let judged = assess_evidence c j encode given r digest core in
      let spec = get bundle "spec" in
      let versioned =
        if not (is_text spec "continuity-receipt/0.5")
        then rejection "receiver_version_unsupported" core (some digest) none
        else judged in
      let (trust, rest) =
        unless (not (is_trusted result.verdict)) versioned _ core (some digest) none h in
      let (version, evidence) =
        unless (not (is_text spec "continuity-receipt/0.5")) judged _ core (some digest) none
          rest in
      record {
        bundle = bundle;
        parsed = parsed;
        bounded = bounded;
        result = result;
        summary = summary;
        assessed = e;
        trusted_verdict = is_trusted-eq result.verdict (holds _ trust);
        spec_is = is_text-eq spec "continuity-receipt/0.5" (holds _ version);
        evidence = HasEvidence-assess_evidence given r digest core evidence;
      }
