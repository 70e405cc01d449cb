-- ===== src/Verification/Roundtrip.antt =====
-- A receipt that is issued for a bundle is valid with that bundle.
use continuity_receipt.Base.{
  if◌then◌else◌, Option, none, ◌∙◌, ◌++◌, [], some, ◌>>=◌, ℕ, List, String, Bool, true, false, not,
  ◌&&◌, ◌≡◌, ◌≢◌, refl, ap, str_eq, eq_iff, &&_true,
}
use continuity_receipt.Value.{Value, dict, str, Fields, put, is_text}
use mathlib.Core.Path.{ap₂, subst}
use continuity_receipt.Keys
use continuity_receipt.Crypto.{Crypto}
use continuity_receipt.StrictJson.{Json}
use continuity_receipt.Canon.{canonical_bytes, sha256_prefixed}
use continuity_receipt.Records.Timestamp.{validate_timestamp}
use continuity_receipt.Verify.Body.{is_digest}
use continuity_receipt.Bundle.{signature_of}
use continuity_receipt.Verification.{
  verify_verification_receipt, Verified, result_of, verified, bundle_tests, revocation_codes,
  failures, digest_matches, bundle_match, conclude, verify_object, signed_by, bundle_object,
  sig_shape_ok, BundleInput, signature_tests, member_tests,
}
use continuity_receipt.Verification.Issue.{
  result_dict, issue_form, issue_verification_receipt, sign_statement, ResultForm, is_consistent,
  statement,
}
use continuity_receipt.Verification.Consistent.{
  off, off_after, is_text_refl, not_empty, signed_statement, NoneHolds-member_tests,
}
use continuity_receipt.Verification.Members.{NoneHolds-failures, NoneHolds}

without_failures :
    (c : Crypto) (r : Fields) (ms ss : List String) (b : Bool)
    → ms ≡ []
    → ss ≡ []
    → b ≡ true
    → conclude c r (ms ++ (ss ++ failures (bundle_tests c (some b)))) (some b) (some [])
      ≡ verified (result_of c r [] (some true))
without_failures c r ms ss b m s h =
    let concluded : List String → List String → Bool → Verified = λ xs ys x.
      conclude c r (xs ++ (ys ++ failures (bundle_tests c (some x)))) (some x) (some []) in
    ap₂ (λ xs ys. concluded xs ys b) m s ∙ ap (concluded [] []) h

module _ (c : Crypto) (signer : List ℕ → String) (issuer : String)
    (verifies : (m : List ℕ) → Keys.verify c issuer m (signer m) ≡ true)
    (signs : (m : List ℕ) → signer m ≢ "") (named : issuer ≢ "")
    (hashes : (m : List ℕ) → is_digest "sha256:" (str (sha256_prefixed c m)) ≡ true) where
  NoneHolds-signature_tests :
      (r : ResultForm) (digest implementation version verified_at : String) (message : List ℕ)
      → canonical_bytes (dict (statement r digest issuer implementation version verified_at))
        ≡ some message
      → NoneHolds (
          signature_tests c
            (signed_statement r digest issuer implementation version verified_at (signer message)))
  unfolding signature_tests sig_shape_ok signed_by
  NoneHolds-signature_tests r digest implementation version verified_at message e =
      let checked : Bool =
        elim (canonical_bytes
          (dict (statement r digest issuer implementation version verified_at))) [
            | none ↦ false
            | some m ↦ Keys.verify c issuer m (signer message)
          ] in
      let holds : checked ≡ true =
        ap (λ o. elim o [ none ↦ false | some m ↦ Keys.verify c issuer m (signer message) ]) e
        ∙ verifies message in
      (
        off (not (str_eq (signer message) "")) (not_empty (signer message) (signs message)),
        (
          off_after (not (str_eq (signer message) ""))
              (not (str_eq issuer "") && (str_eq issuer issuer && checked))
              ((&&_true (not (str_eq issuer "")) (str_eq issuer issuer && checked)).1 (
                not_empty issuer named,
                (&&_true (str_eq issuer issuer) checked).1 ((eq_iff issuer issuer).1 refl, holds),
              )),
          tt,
        ),
      )

  issued :
      (j : Json) (bundle : BundleInput) (r : ResultForm)
      (implementation version verified_at : String) (bytes : List ℕ) (receipt : Fields)
      → (bundle_object j bundle >>= canonical_bytes) ≡ some bytes
      → is_consistent r ≡ true
      → validate_timestamp (str verified_at) ≡ true
      → sign_statement c signer issuer
          (statement r (sha256_prefixed c bytes) issuer implementation version verified_at)
        ≡ some receipt
      → verify_object c j receipt (some bundle) [] ≡ verified (result_of c receipt [] (some true))
  unfolding verify_object sign_statement bundle_match digest_matches revocation_codes
  issued j bundle r implementation version verified_at bytes receipt encoded fit dated e =
      go
        (canonical_bytes
          (dict (statement r (sha256_prefixed c bytes) issuer implementation version verified_at)))
        refl e
    where
      go :
          (o : Option (List ℕ))
          → canonical_bytes (
              dict
                (statement r (sha256_prefixed c bytes) issuer implementation version verified_at))
            ≡ o
          → (o >>= λ m. some (
              put "sig"
                (signature_of issuer (signer m))
                (statement r (sha256_prefixed c bytes) issuer implementation version verified_at)))
            ≡ some receipt
          → verify_object c j receipt (some bundle) []
            ≡ verified (result_of c receipt [] (some true))
      go none view k = cc
      go (some message) view k =
          let digest = sha256_prefixed c bytes in
          let receipt' =
            signed_statement r digest issuer implementation version verified_at (signer message) in
          let here : receipt' ≡ receipt = cc k in
          let same : digest_matches c j receipt' bundle ≡ true =
            ap (λ o. elim o [ none ↦ false | some m ↦ is_text (str digest) (sha256_prefixed c m) ])
              encoded
            ∙ is_text_refl digest in
          subst
            (λ x. verify_object c j x (some bundle) [] ≡ verified (result_of c x [] (some true)))
            here
            (without_failures c receipt' (failures (member_tests receipt'))
              (failures (signature_tests c receipt')) (digest_matches c j receipt' bundle)
              (NoneHolds-failures (member_tests receipt') (
                NoneHolds-member_tests r digest issuer implementation version verified_at
                  (signer message) fit (hashes bytes) dated))
              (NoneHolds-failures (signature_tests c receipt') (
                NoneHolds-signature_tests r digest implementation version verified_at message view))
              same)

  issued_form :
      (j : Json) (bundle : BundleInput) (r : ResultForm)
      (implementation version verified_at : String) (receipt : Fields)
      → validate_timestamp (str verified_at) ≡ true
      → issue_form c j bundle signer issuer implementation version verified_at r ≡ some receipt
      → verify_object c j receipt (some bundle) [] ≡ verified (result_of c receipt [] (some true))
  unfolding issue_form
  issued_form j bundle r implementation version verified_at receipt dated =
      go (is_consistent r) (bundle_object j bundle >>= canonical_bytes) refl refl
    where
      go :
          (b : Bool) (o : Option (List ℕ))
          → is_consistent r ≡ b
          → (bundle_object j bundle >>= canonical_bytes) ≡ o
          → (if b
              then (o >>= λ bytes.
                  sign_statement c signer issuer (
                    statement r
                      (sha256_prefixed c bytes)
                      issuer
                      implementation
                      version
                      verified_at))
              else none)
            ≡ some receipt
          → verify_object c j receipt (some bundle) []
            ≡ verified (result_of c receipt [] (some true))
      go false o fit encoded e = cc
      go true none fit encoded e = cc
      go true (some bytes) fit encoded e =
          issued j bundle r implementation version verified_at bytes receipt encoded fit dated e

  -- A receipt that `issue_verification_receipt` returns for a bundle is found valid with that
  -- bundle: no code, and the digest matches. The signer's signatures are not empty and verify under
  -- the issuer, which is not empty; the time given is a timestamp, and the digest has its form.
  pub verify_verification_receipt-issue_verification_receipt :
      (j : Json) (bundle : BundleInput) (result : Value)
      (implementation version verified_at : String) (receipt : Fields)
      → validate_timestamp (str verified_at) ≡ true
      → issue_verification_receipt c j bundle result signer issuer implementation version
          verified_at
        ≡ some receipt
      → verify_verification_receipt c j (dict receipt) (some bundle) []
        ≡ verified (result_of c receipt [] (some true))
  unfolding issue_verification_receipt verify_verification_receipt
  verify_verification_receipt-issue_verification_receipt j bundle result implementation version
        verified_at receipt dated =
      go (result_dict result)
    where
      go :
          (o : Option ResultForm)
          → (o >>= issue_form c j bundle signer issuer implementation version verified_at)
            ≡ some receipt
          → verify_object c j receipt (some bundle) []
            ≡ verified (result_of c receipt [] (some true))
      go none e = cc
      go (some r) e = issued_form j bundle r implementation version verified_at receipt dated e
