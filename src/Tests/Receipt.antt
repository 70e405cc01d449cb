-- ===== src/Tests/Receipt.antt =====
-- A verification receipt that is issued and verified.
use Prim.Native.String.{◌++◌ as append_text}
use continuity_receipt.Base.{
  ℕ, String, Bool, List, [], ◌∷◌, true, false, none, some, ◌≡◌, ◌≢◌, refl, ◌==◌, ◌%◌, if◌then◌else◌,
}
use continuity_receipt.Keys
use continuity_receipt.Verify.Body.{is_digest}
use continuity_receipt.Revocations.{check_signed, check_statement, verify_statements}
use continuity_receipt.Value.Equal.{py_eq}
use continuity_receipt.Records.Timestamp.{validate_timestamp}
use continuity_receipt.Canon.{
  canonical_bytes, insert_member, sort_members, reject_floats, dump, sha256_prefixed,
}
use continuity_receipt.Canon.Text.{lt_codes, join, decimal, quote, utf8}
use continuity_receipt.Crypto.{Crypto}
use continuity_receipt.StrictJson.{Json, unique_members}
use continuity_receipt.StrictJson.Unique.{AllDiffer, unique_members-AllDiffer, unique_members-total}
use continuity_receipt.Tests.{repeated, agent, obj, checksum, revocation, fields}
use continuity_receipt.Value.{entries, Value, str, dict, list, nil, cons, Fields, end}
use continuity_receipt.Verification.{
  BundleInput, object, verified, verify_verification_receipt, result_of,
}
use continuity_receipt.Verification.Issue.{issue_verification_receipt}
use continuity_receipt.Verification.Sound.{IsValid, verify_verification_receipt-IsValid}
use continuity_receipt.Verification.Roundtrip.{
  verify_verification_receipt-issue_verification_receipt,
}

-- A digest of 64 hexadecimal digits.
abbrev hashing : Crypto
unfolding checksum
hashing = record {
  sha256_hex = λ bytes. repeated 64 (if checksum 7 bytes % 2 == 0 then "a" else "b");
  urlsafe_b64decode = λ text. some [];
  ed25519_verify = λ key signature message. true;
}

abbrev no_text : Json
no_text = record { decode = λ hook text. none }

signer : List ℕ → String
signer message = "c2ln"

abbrev sent : BundleInput
sent = object (fields (("spec", str "continuity-receipt/0.3") ∷ ("receipts", list nil) ∷ []))

abbrev outcome : Value
outcome = obj (
    ("verdict", str "UNTRUSTED")
    ∷ ("errors", list (cons (obj (("code", str "malformed") ∷ [])) nil))
    ∷ ("provisional_reasons", list nil)
    ∷ ("insufficient_reasons", list nil)
    ∷ ("summary", dict end)
    ∷ [])

-- The receipt that is issued for it.
issued_receipt : Fields
unfolding issue_verification_receipt signer insert_member sort_members lt_codes join decimal quote
    utf8 reject_floats dump py_eq
issued_receipt =
    elim (issue_verification_receipt hashing no_text sent outcome signer agent "python" "1.0"
      "2026-01-01T00:00:05Z") [ none ↦ end | some r ↦ r ]

is_issued :
    issue_verification_receipt hashing no_text sent outcome signer agent "python" "1.0"
      "2026-01-01T00:00:05Z"
    ≡ some issued_receipt
unfolding issue_verification_receipt issued_receipt signer insert_member sort_members lt_codes join
    decimal quote utf8 reject_floats dump py_eq canonical_bytes
is_issued = refl

hashing-is_digest : (m : List ℕ) → is_digest "sha256:" (str (sha256_prefixed hashing m)) ≡ true
unfolding is_digest sha256_prefixed checksum
hashing-is_digest m = by_parity (checksum 7 m % 2 == 0)
  where
    by_parity :
        (b : Bool)
        → is_digest "sha256:" (str (append_text "sha256:" (repeated 64 (if b then "a" else "b"))))
          ≡ true
    by_parity true = refl
    by_parity false = refl

verifies : (m : List ℕ) → Keys.verify hashing agent m (signer m) ≡ true
unfolding Keys.verify signer hashing
verifies m = refl

signs : (m : List ℕ) → signer m ≢ ""
unfolding signer
signs m = cc

verify_verification_receipt-issue_verification_receipt_example :
    verify_verification_receipt hashing no_text (dict issued_receipt) (some sent) []
    ≡ verified (result_of hashing issued_receipt [] (some true))
unfolding validate_timestamp
verify_verification_receipt-issue_verification_receipt_example =
    verify_verification_receipt-issue_verification_receipt hashing signer agent verifies signs
      (λ e. cc e) hashing-is_digest no_text sent outcome "python" "1.0" "2026-01-01T00:00:05Z"
      issued_receipt refl is_issued

is_verified :
    verify_verification_receipt hashing no_text (dict issued_receipt) (some sent) (revocation ∷ [])
    ≡ verified (result_of hashing issued_receipt [] (some true))
unfolding verify_verification_receipt issued_receipt insert_member sort_members lt_codes join
    decimal quote utf8 reject_floats dump py_eq is_digest Keys.verify signer validate_timestamp
    verify_statements check_statement check_signed hashing sha256_prefixed
is_verified = refl

verify_verification_receipt-IsValid_example :
    IsValid hashing no_text (dict issued_receipt) (some sent) (revocation ∷ [])
verify_verification_receipt-IsValid_example =
    verify_verification_receipt-IsValid hashing no_text (dict issued_receipt) (some sent)
      (revocation ∷ []) (result_of hashing issued_receipt [] (some true)) is_verified refl

two_members : List (String × Value)
two_members = ("a", str "x") ∷ ("b", str "y") ∷ []

are_unique : unique_members two_members ≡ some (fields two_members)
unfolding unique_members two_members
are_unique = refl

unique_members-AllDiffer_example :
    AllDiffer two_members × (entries (fields two_members) ≡ two_members)
unique_members-AllDiffer_example =
    unique_members-AllDiffer two_members (fields two_members) are_unique

two_differ : AllDiffer two_members
unfolding two_members
two_differ = ((refl, tt), (tt, tt))

unique_members-total_example :
    (d : Fields) × (unique_members two_members ≡ some d) × (entries d ≡ two_members)
unique_members-total_example = unique_members-total two_members two_differ
