-- ===== src/Checkpoint/Statement.antt =====
-- The members of a checkpoint of continuity_receipt/receiver_checkpoint.py, and their tests.
use Prim.Native.String.{count}
use continuity_receipt.Base.{
  ℕ, ◌+◌, ◌*◌, String, Bool, true, false, not, ◌&&◌, ◌||◌, ◌==◌, Option, none, some, List, [], ◌∷◌,
  pos, length, leb, str_eq, if◌then◌else◌,
}
use continuity_receipt.Value.{Value, int, str, dict, Fields, get, has, is_text}
use continuity_receipt.Value.Equal.{py_eq}
use continuity_receipt.Value.Number.{codes, is_digit}
use continuity_receipt.Verify.Body.{keys_in}
use continuity_receipt.Verify.Report.{VerifyResult, Verdict, trusted}
use continuity_receipt.Checkpoint.Time.{time}

abbrev pub max_bundle_bytes : ℕ
max_bundle_bytes = 8 * 1024 * 1024

abbrev pub max_checkpoint_bytes : ℕ
max_checkpoint_bytes = 16 * 1024

abbrev pub checkpoint_kind : String
checkpoint_kind = "cpr-experimental-receiver-checkpoint"

pub data Decision : Type 0 where
  accept needs_evidence reject : Decision

-- The result of the verifier, or the code of the error that stands for it.
pub data Core : Type 0 where
  verified : VerifyResult → Core
  unassessed : String → Core

pub record ImportAssessment : Type 0 where
  pub outcome : Decision
  pub reason : String
  pub core : Core
  pub bundle_digest : Option String
  pub checkpoint_digest : Option String

-- What the receiver gives to `assess_import`. The key is `none` where it is no Ed25519 key.
pub record Receiver : Type 0 where
  pub trusted_public_key : Option (List ℕ)
  pub expected_context : Value
  pub accepted_checkpoint_digest : Value
  pub now : Value
  pub max_age_seconds : Value

-- The first test that holds decides the reason.
abbrev pub first_reason : List (Bool × String) → Option String
first_reason [] = none
first_reason ((test, reason) ∷ tests) =
    let rest = first_reason tests in if test then some reason else rest

abbrev pub rejection : String → Core → Option String → Option String → ImportAssessment
rejection reason core bundle_digest checkpoint_digest = record {
  outcome = reject;
  reason = reason;
  core = core;
  bundle_digest = bundle_digest;
  checkpoint_digest = checkpoint_digest;
}

abbrev pub is_trusted : Verdict → Bool
is_trusted trusted = true
is_trusted _ = false

-- `isinstance(v, str) and v and len(v) <= 512`
unfoldable pub context_valid : Value → Bool
context_valid (str s) = not (str_eq s "") && leb (count s) 512
context_valid _ = false

-- The number of seconds of an integer from 1 through 31,536,000, no Boolean.
unfoldable pub max_age : Value → Option ℕ
max_age (int (pos n)) = if leb 1 n && leb n 31536000 then some n else none
max_age _ = none

-- `type(v) is int`
abbrev pub is_exact_int : Value → Bool
is_exact_int (int z) = true
is_exact_int _ = false

abbrev pub checkpoint_members : List String
checkpoint_members =
    "kind" ∷ "version" ∷ "bundle_digest" ∷ "context" ∷ "issued_at" ∷ "max_age_seconds"
    ∷ "expires_at" ∷ "sig" ∷ []

abbrev pub all_in : List String → Fields → Bool
all_in [] d = true
all_in (k ∷ ks) d = has k d && all_in ks d

-- `[A-Za-z0-9_-]`
abbrev is_base64 : ℕ → Bool
is_base64 x =
    (leb b'A' x && leb x b'Z')
    || ((leb b'a' x && leb x b'z') || (is_digit x || ((x == b'_') || (x == b'-'))))

abbrev all_base64 : List ℕ → Bool
all_base64 [] = true
all_base64 (x ∷ xs) = is_base64 x && all_base64 xs

unfoldable pub sig_value : Value → Option String
unfolding keys_in
sig_value (dict sig) =
    if (keys_in ("alg" ∷ "value" ∷ []) sig && all_in ("alg" ∷ "value" ∷ []) sig)
      && is_text (get sig "alg") "Ed25519"
    then elim (get sig "value") [
      | str s ↦ if (length (codes s) == 86) && all_base64 (codes s) then some s else none
      | _ ↦ none
    ]
    else none
sig_value _ = none

-- `expires - issued` is the age, and `issued <= now <= expires`; `none` where one of the two is no time.
abbrev pub window : (issued expires : Option ℕ) → (now age : ℕ) → Option (Bool × Bool)
window (some i) (some e) now age = some (e == i + age, leb i now && leb now e)
window _ _ now age = none

-- The tests of the times, after both have been read.
abbrev pub window_reason : Option (Bool × Bool) → Option String
window_reason none = some "timestamp_invalid"
window_reason (some (lasts, current)) =
    if not lasts
    then some "freshness_policy_mismatch"
    else if not current
    then some "checkpoint_not_current"
    else none

-- A version and an age that are integers, in an object of the eight members.
unfoldable pub shape_tests : Fields → List (Bool × String)
unfolding keys_in
shape_tests cp =
    (
      not (keys_in checkpoint_members cp && all_in checkpoint_members cp),
      "checkpoint_shape_invalid",
    )
    ∷ (
      not (is_exact_int (get cp "version") && is_exact_int (get cp "max_age_seconds")),
      "checkpoint_shape_invalid",
    )
    ∷ []

unfoldable pub statement_tests : Fields → Receiver → String → List (Bool × String)
statement_tests cp r digest =
    (
      not (is_text (get cp "kind") checkpoint_kind && py_eq (get cp "version") (int (pos 1))),
      "checkpoint_version_invalid",
    )
    ∷ (not (py_eq (get cp "context") r.expected_context), "checkpoint_context_mismatch")
    ∷ (not (is_text (get cp "bundle_digest") digest), "checkpoint_bundle_mismatch")
    ∷ (not (py_eq (get cp "max_age_seconds") r.max_age_seconds), "freshness_policy_mismatch")
    ∷ []

-- After the signature and the reference.
unfoldable pub assess_statement :
    Fields → Receiver → (now age : ℕ) → String → String → Core → ImportAssessment
unfolding statement_tests time
assess_statement cp r now age digest chash core =
    elim (first_reason (statement_tests cp r digest)) [
      | some reason ↦ rejection reason core (some digest) none
      | none ↦
          elim (window_reason
            (window (time (get cp "issued_at")) (time (get cp "expires_at")) now age)) [
              | some reason ↦ rejection reason core (some digest) none
              | none ↦ record {
                outcome = accept;
                reason = "checkpoint_current";
                core = core;
                bundle_digest = some digest;
                checkpoint_digest = some chash;
              }
            ]
    ]
