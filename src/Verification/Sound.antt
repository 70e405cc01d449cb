-- ===== src/Verification/Sound.antt =====
-- What a valid verification receipt is.
use mathlib.Core.Path.{ap₂}
use continuity_receipt.Base.{
  arith, leb, ◌++◌, append-eq_nil, ◌∷◌, sym, if◌then◌else◌, [], &&_true, ℕ, String, Bool, true,
  false, not, ◌&&◌, ◌<◌, Option, none, some, ◌≡◌, ◌≢◌, refl, ap, ◌∙◌, List, str_eq, eq_iff, All,
  ◌>>=◌,
}
use continuity_receipt.Verification.Members.{
  MembersFit-member_tests, failures-eq_nil, MembersFit, NoneHolds, true_of_not, taken_second,
}
use continuity_receipt.Value.{Value, str, dict, Fields, get, without, is_text}
use continuity_receipt.Value.Equal.{is_text-eq}
use continuity_receipt.Crypto.{Crypto}
use continuity_receipt.Canon.{canonical_bytes, sha256_prefixed}
use continuity_receipt.Keys
use continuity_receipt.StrictJson.{Json}
use continuity_receipt.Records.Timestamp.{timestamp}
use continuity_receipt.Revocations.{verify_statements}
use continuity_receipt.Verification.{
  member_tests, failures, VerificationReceiptResult, verified, raised, verify_verification_receipt,
  Verified, revocation_codes, conclude, verify_object, repeat_code, revoked_codes, issuer_revoked,
  BundleInput, bundle_object, sig_shape_ok, sig_member, signed_by, signature_tests, digest_matches,
  bundle_match, bundle_tests,
}

-- The issuer's key verifies the signature over the receipt without it.
pub record IsSigned (c : Crypto) (r : Fields) : Type 0 where
  pub issuer : String
  pub value : String
  pub message : List ℕ
  pub is_named : issuer ≢ ""
  pub issuer_is : get r "issuer" ≡ str issuer
  pub key_is : sig_member (get r "sig") "key" ≡ str issuer
  pub value_is : sig_member (get r "sig") "value" ≡ str value
  pub view : canonical_bytes (dict (without "sig" r)) ≡ some message
  pub checks : Keys.verify c issuer message value ≡ true

not_both : (b : Bool) → not b ≡ true → ¬ (b ≡ true)
not_both b h k = ground arith

module _ (c : Crypto) where
  message_of :
      (o : Option (List ℕ)) (issuer value : String)
      → elim o [ none ↦ false | some m ↦ Keys.verify c issuer m value ] ≡ true
      → (m : List ℕ) × (o ≡ some m) × (Keys.verify c issuer m value ≡ true)
  message_of none issuer value h = cc
  message_of (some m) issuer value h = (m, refl, h)

  IsSigned-signed_by :
      (r : Fields) (i k v : Value)
      → get r "issuer" ≡ i
      → sig_member (get r "sig") "key" ≡ k
      → sig_member (get r "sig") "value" ≡ v
      → signed_by c r i k v ≡ true
      → IsSigned c r
  unfolding signed_by
  IsSigned-signed_by r (str issuer) (str key) (str value) i k v h =
      let view = canonical_bytes (dict (without "sig" r)) in
      let checked : Bool = elim view [ none ↦ false | some m ↦ Keys.verify c issuer m value ] in
      let (named, rest) = (&&_true (not (str_eq issuer "")) (str_eq key issuer && checked)).0 h in
      let (same, checks) = (&&_true (str_eq key issuer) checked).0 rest in
      let (message, viewed, holds) = message_of view issuer value checks in
      record {
        issuer = issuer;
        value = value;
        message = message;
        is_named = λ e. not_both (str_eq issuer "") named ((eq_iff issuer "").1 e);
        issuer_is = i;
        key_is = k ∙ ap str ((eq_iff key issuer).0 same);
        value_is = v;
        view = viewed;
        checks = holds;
      }
  IsSigned-signed_by r _ _ _ i k v h = cc

  IsSigned-signature_tests : (r : Fields) → NoneHolds (signature_tests c r) → IsSigned c r
  unfolding signature_tests
  IsSigned-signature_tests r (shape, (signature, _)) =
      let sig = get r "sig" in
      let by = signed_by c r (get r "issuer") (sig_member sig "key") (sig_member sig "value") in
      IsSigned-signed_by r (get r "issuer") (sig_member sig "key") (sig_member sig "value") refl
        refl refl
        (taken_second (sig_shape_ok sig) by (true_of_not (sig_shape_ok sig) shape) signature)

  -- The digest of the bundle that is given.
  abbrev pub IsAbout : Json → Fields → BundleInput → Type 0
  IsAbout j r bundle =
      (v : Value) × (bytes : List ℕ) × (bundle_object j bundle ≡ some v)
      × (canonical_bytes v ≡ some bytes)
      × (get r "bundle_digest" ≡ str (sha256_prefixed c bytes))

  IsAbout-digest_matches :
      (j : Json) (r : Fields) (bundle : BundleInput)
      → digest_matches c j r bundle ≡ true
      → IsAbout j r bundle
  unfolding digest_matches
  IsAbout-digest_matches j r bundle h = go (bundle_object j bundle) refl h
    where
      encoded :
          (v : Value) (o : Option (List ℕ))
          → bundle_object j bundle ≡ some v
          → canonical_bytes v ≡ o
          → elim o [
            | none ↦ false
            | some bytes ↦ is_text (get r "bundle_digest") (sha256_prefixed c bytes)
          ]
            ≡ true
          → IsAbout j r bundle
      encoded v none e f k = cc
      encoded v (some bytes) e f k =
          (v, bytes, e, f, is_text-eq (get r "bundle_digest") (sha256_prefixed c bytes) k)

      go :
          (o : Option Value)
          → bundle_object j bundle ≡ o
          → elim (o >>= canonical_bytes) [
            | none ↦ false
            | some bytes ↦ is_text (get r "bundle_digest") (sha256_prefixed c bytes)
          ]
            ≡ true
          → IsAbout j r bundle
      go none e k = cc
      go (some v) e k = encoded v (canonical_bytes v) e refl k

  -- The bundle that was given, if any, is the one that the receipt is about.
  abbrev pub IsAboutGiven : Json → Fields → Option BundleInput → Type 0
  IsAboutGiven j r none = Unit
  IsAboutGiven j r (some bundle) = IsAbout j r bundle

  IsAboutGiven-bundle_match :
      (j : Json) (r : Fields) (bundle : Option BundleInput)
      → NoneHolds (bundle_tests c (bundle_match c j r bundle))
      → IsAboutGiven j r bundle
  unfolding bundle_match
  IsAboutGiven-bundle_match j r none h = tt
  IsAboutGiven-bundle_match j r (some bundle) h =
      IsAbout-digest_matches j r bundle (true_of_not (digest_matches c j r bundle) h.0)

  -- The issuer's key is revoked by none of the pairs at or before the receipt's time.
  abbrev pub IsUnrevoked : Fields → List (String × ℕ) → Type 0
  IsUnrevoked r revoked =
      (issuer : String) (at : ℕ)
      → get r "issuer" ≡ str issuer
      → timestamp (get r "verified_at") ≡ some at
      → All (λ entry. entry.0 ≡ issuer → at < entry.1) revoked

  before_issuer :
      (issuer : String) (at : ℕ) (revoked : List (String × ℕ))
      → revoked_codes issuer at revoked ≡ []
      → All (λ entry. entry.0 ≡ issuer → at < entry.1) revoked
  unfolding revoked_codes
  before_issuer issuer at [] h = tt
  before_issuer issuer at ((key, t) ∷ revoked) h =
      let (first, rest) =
        append-eq_nil (if str_eq key issuer && leb t at then "key_revoked" ∷ [] else [])
          (revoked_codes issuer at revoked) h in
      ((λ e. ground (arith, eq_iff key issuer)), before_issuer issuer at revoked rest)

  no_rejections : (n : ℕ) → repeat_code n ≡ [] → n ≡ 0
  no_rejections ℕ.zero h = refl
  no_rejections (ℕ.suc n) h = cc

  IsUnrevoked-issuer_revoked :
      (r : Fields) (revoked : List (String × ℕ))
      → get r "issuer" ≢ str ""
      → issuer_revoked (get r "issuer") (timestamp (get r "verified_at")) revoked ≡ []
      → IsUnrevoked r revoked
  IsUnrevoked-issuer_revoked r revoked named h issuer at i t =
      before_issuer issuer at revoked
        (unnamed (str_eq issuer "") refl (sym (ap₂ (λ v o. issuer_revoked v o revoked) i t) ∙ h))
    where
      unnamed :
          (b : Bool)
          → str_eq issuer "" ≡ b
          → (if b then [] else revoked_codes issuer at revoked) ≡ []
          → revoked_codes issuer at revoked ≡ []
      unnamed true e k = absurd (named (i ∙ ap str ((eq_iff issuer "").0 e)))
      unnamed false e k = k

  -- The statements verify and the receipt's issuer is not revoked by them.
  pub record IsChecked (r : Fields) (revocations : List Value) : Type 0 where
    pub revoked : List (String × ℕ)
    pub all_verified : verify_statements c revocations ≡ some (revoked, 0)
    pub unrevoked : IsUnrevoked r revoked

  IsChecked-revocation_codes :
      (r : Fields) (revocations : List Value)
      → get r "issuer" ≢ str ""
      → revocation_codes c r revocations ≡ some []
      → IsChecked r revocations
  unfolding revocation_codes verify_statements
  IsChecked-revocation_codes r [] named h = record {
    revoked = [];
    all_verified = refl;
    unrevoked = λ issuer at i t. tt;
  }
  IsChecked-revocation_codes r (v ∷ vs) named h = go (verify_statements c (v ∷ vs)) refl h
    where
      go :
          (o : Option (List (String × ℕ) × ℕ))
          → verify_statements c (v ∷ vs) ≡ o
          → (o >>= λ (revoked, rejected). some (
              repeat_code rejected
              ++ issuer_revoked (get r "issuer") (timestamp (get r "verified_at")) revoked))
            ≡ some []
          → IsChecked r (v ∷ vs)
      go none e k = cc
      go (some (revoked, rejected)) e k =
          let codes =
            repeat_code rejected
            ++ issuer_revoked (get r "issuer") (timestamp (get r "verified_at")) revoked in
          let none_left : some codes ≡ some [] = k in
          let (clean, unrevoked) =
            append-eq_nil (repeat_code rejected)
              (issuer_revoked (get r "issuer") (timestamp (get r "verified_at")) revoked)
              (cc none_left) in
          record {
            revoked = revoked;
            all_verified = e ∙ ap (λ n. some (revoked, n)) (no_rejections rejected clean);
            unrevoked = IsUnrevoked-issuer_revoked r revoked named unrevoked;
          }

  -- What a receipt is that the verifier finds valid.
  pub record IsValid (j : Json) (receipt : Value) (bundle : Option BundleInput)
      (revocations : List Value) : Type 0 where
    pub members : Fields
    pub is_object : receipt ≡ dict members
    pub fit : MembersFit members
    pub signed : IsSigned c members
    pub about : IsAboutGiven j members bundle
    pub checked : IsChecked members revocations

  abbrev validity : Verified → Bool
  validity raised = false
  validity (verified res) = res.is_valid

  no_codes :
      (r : Fields) (errors : List String) (m : Option Bool) (o : Option (List String))
      → validity (conclude c r errors m o) ≡ true
      → (errors ≡ []) × (o ≡ some [])
  no_codes r errors m none h = cc
  no_codes r [] m (some []) h = (refl, refl)
  no_codes r [] m (some (e ∷ more)) h = cc
  no_codes r (e ∷ errors) m (some more) h = cc

  IsValid-verify_object :
      (j : Json) (r : Fields) (bundle : Option BundleInput) (revocations : List Value)
      → validity (verify_object c j r bundle revocations) ≡ true
      → IsValid j (dict r) bundle revocations
  unfolding verify_object
  IsValid-verify_object j r bundle revocations h =
      let m = bundle_match c j r bundle in
      let later = failures (signature_tests c r) ++ failures (bundle_tests c m) in
      let (codes, unrevoked) =
        no_codes r (failures (member_tests r) ++ later) m (revocation_codes c r revocations) h in
      let (members, rest) = append-eq_nil (failures (member_tests r)) later codes in
      let (signature, about) =
        append-eq_nil (failures (signature_tests c r)) (failures (bundle_tests c m)) rest in
      let signed = IsSigned-signature_tests r (failures-eq_nil (signature_tests c r) signature) in
      record {
        members = r;
        is_object = refl;
        fit = MembersFit-member_tests r (failures-eq_nil (member_tests r) members);
        signed = signed;
        about = IsAboutGiven-bundle_match j r bundle (failures-eq_nil (bundle_tests c m) about);
        checked = IsChecked-revocation_codes r revocations (named signed) unrevoked;
      }
    where
      named : IsSigned c r → get r "issuer" ≢ str ""
      named s e = s.is_named (cc (s.issuer_is, e))

  -- A receipt that `verify_verification_receipt` finds valid is an object. Its kind, version, time,
  -- digest, error entries and summary have the form asked for, its provisional and insufficient
  -- reasons are lists of texts, its codes are those of its errors, and its verdict is the one that its
  -- lists imply. Its signature verifies under its issuer's key over its canonical encoding without the
  -- signature; the bundle given, if any, has the digest in it; every revocation statement given
  -- verifies, and none revokes the issuer's key at or before its time.
  pub verify_verification_receipt-IsValid :
      (j : Json) (receipt : Value) (bundle : Option BundleInput) (revocations : List Value)
      (res : VerificationReceiptResult)
      → verify_verification_receipt c j receipt bundle revocations ≡ verified res
      → res.is_valid ≡ true
      → IsValid j receipt bundle revocations
  unfolding verify_verification_receipt
  verify_verification_receipt-IsValid j (dict r) bundle revocations res e h =
      IsValid-verify_object j r bundle revocations (ap validity e ∙ h)
  verify_verification_receipt-IsValid j _ bundle revocations res e h = cc (ap validity e ∙ h)
