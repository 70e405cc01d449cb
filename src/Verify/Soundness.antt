-- ===== src/Verify/Soundness.antt =====
-- What the verdict of `verify_bundle` guarantees about the receipts.
use continuity_receipt.Base.{
  Bool, true, ◌&&◌, ◌≡◌, ◌≢◌, ◌+◌, ◌≤◌, refl, List, [], Option, some, length, arith,
}
use mathlib.Core.Path.{subst₂}
use continuity_receipt.Base.{ap, ◌∙◌, All}
use continuity_receipt.Revocations.{merge_statements}
use continuity_receipt.Verify.Main.{well_formed}
use continuity_receipt.Verify.Resolve.{table_of}
use continuity_receipt.Verify.Revoked.{bundled, all_dicts}
use continuity_receipt.Verify.Revoked.Sound.{IsChecked, IsChecked-check_revocations}
use continuity_receipt.Verify.Authority.Sound.{IsAuthorized, IsAuthorized-check_authority}
use continuity_receipt.Verify.Passes.{CleanPasses, CleanPasses-later}
use continuity_receipt.Verify.Accepted.{IsClean}
use continuity_receipt.Verify.Agreement.Sound.{IsAgreed, IsBound, IsBound-check_agreements}
use mathlib.Core.Path.{subst}
use continuity_receipt.Base.{sym}
use continuity_receipt.Verify.Settlement.{first_of_type}
use continuity_receipt.Verify.Settlement.Sound.{CleanRun, CrossClean, CrossClean-check_cross_record}
use continuity_receipt.Value.{
  dict, dict, dict, dict, dict, dict, Value, null, dict, Fields, get, as_list,
}
use continuity_receipt.Crypto.{Crypto}
use continuity_receipt.Verify.Report.Grade.{fatal_free, fatal_free-append}
use continuity_receipt.Verify.Depth.{levels}
use continuity_receipt.Verify.Shape.{check_shape, check_receipt_shapes}
use continuity_receipt.Verify.Chain.Linked.{IsChain, start}
use continuity_receipt.Verify.Chain.Sound.{IsChain-check_receipts}
use continuity_receipt.Verify.Main.{max_receipts, max_nesting_depth, verify_bundle}
use continuity_receipt.Verify.Accepted.{IsAccepted, Accepted-verify_bundle}

first_of_five : (a b c d e : Bool) → ((((a && b) && c) && d) && e) ≡ true → a ≡ true
first_of_five a b c d e h = ground arith

shapes_of_shape :
    (bundle : Fields) (receipts : List Value)
    → fatal_free (check_shape bundle receipts) ≡ true
    → fatal_free (check_receipt_shapes receipts) ≡ true
unfolding check_shape
shapes_of_shape bundle receipts h =
    first_of_five (fatal_free (check_receipt_shapes receipts)) _ _ _ _ (simp fatal_free-append at h)

-- If `verify_bundle` returns a verdict other than UNTRUSTED, then the bundle is an object nested at
-- most 64 deep, its `receipts` are a list of at least one and at most 10,000 objects, and they form a
-- chain: each has a supported version, the task of the bundle, a known type, its required fields, a
-- valid time, its position as `seq`, the digest of the receipt before it as `prev` (None for the
-- first), a digest of its own, and a signature that its issuer's key verifies.
pub verify_bundle-IsChain :
    (c : Crypto) (require_anchor : Bool) (external : Option (List Value)) (v : Value)
    → IsAccepted (verify_bundle c require_anchor external v)
    → (bundle : Fields) × (receipts : List Value) × (v ≡ dict bundle)
      × (1 + levels (dict bundle) ≤ max_nesting_depth)
      × (as_list (get bundle "receipts") ≡ some receipts)
      × (receipts ≢ [])
      × (length receipts ≤ max_receipts)
      × IsChain c (get bundle "task_id") 0 null receipts
verify_bundle-IsChain c require_anchor external v h =
    let a = Accepted-verify_bundle c require_anchor external v h in
    (
      a.bundle,
      a.receipts,
      a.is_object,
      a.shallow,
      a.listed,
      a.nonempty,
      a.bounded,
      IsChain-check_receipts c (get a.bundle "task_id") a.receipts null 0 (start refl)
          (shapes_of_shape a.bundle a.receipts a.clean.shape) a.clean.loop,
    )

-- Nothing fatal is found in any pass over the receipts of an accepted bundle.
IsClean-accepted :
    (c : Crypto) (require_anchor : Bool) (external : Option (List Value)) (bundle : Fields)
    (receipts : List Value)
    → IsAccepted (verify_bundle c require_anchor external (dict bundle))
    → as_list (get bundle "receipts") ≡ some receipts
    → IsClean c require_anchor external bundle receipts
IsClean-accepted c require_anchor external bundle receipts h listed =
    let a = Accepted-verify_bundle c require_anchor external (dict bundle) h in
    let same_bundle : a.bundle ≡ bundle = cc (a.is_object) in
    let here : as_list (get a.bundle "receipts") ≡ some receipts =
      ap (λ b. as_list (get b "receipts")) same_bundle ∙ listed in
    let same_receipts : a.receipts ≡ receipts = cc (a.listed, here) in
    subst₂ (λ b rs. IsClean c require_anchor external b rs) same_bundle same_receipts a.clean

module _ (c : Crypto) (require_anchor : Bool) (external : Option (List Value)) (bundle : Fields)
    (receipts : List Value)
    (accepted : IsAccepted (verify_bundle c require_anchor external (dict bundle)))
    (listed : as_list (get bundle "receipts") ≡ some receipts) where
  pub clean_passes : CleanPasses c require_anchor external bundle (well_formed receipts)
  clean_passes =
      CleanPasses-later c require_anchor external bundle (well_formed receipts)
        (IsClean-accepted c require_anchor external bundle receipts accepted listed).later

  -- If the bundle is not UNTRUSTED and its own revocations are a list of objects, then every
  -- statement among them and the external ones verifies, and every receipt with a text for its
  -- issuer and a valid time was issued before each verified revocation of its issuer's key.
  pub verify_bundle-IsChecked :
      (statements : List Value)
      → bundled (get bundle "revocations") ≡ some statements
      → all_dicts statements ≡ true
      → IsChecked c (merge_statements statements external) (well_formed receipts)
  verify_bundle-IsChecked statements found objects =
      IsChecked-check_revocations c bundle (well_formed receipts) external statements found objects
        clean_passes.revocations

  -- If the bundle is not UNTRUSTED, then every 0.6 bound receipt whose `authority_ref` names a grant
  -- of the bundle is issued by the grant's agent, not before the later of the grant's two times,
  -- and not after its expiry.
  pub verify_bundle-IsAuthorized :
      All
        (IsAuthorized (table_of c "authority.grant" [] (well_formed receipts)))
        (well_formed receipts)
  verify_bundle-IsAuthorized =
      IsAuthorized-check_authority c (well_formed receipts) clean_passes.authority

  -- If the bundle is not UNTRUSTED, then every accept whose offer is in the bundle matches it in
  -- offer and terms and is issued by the offer's valid time; from 0.4 on its issuer is the offeree
  -- that the accept and the offer name, and it does not precede the offer. And every bound receipt
  -- of 0.4 or later whose `agreement_ref` names an accept of the bundle does not precede it, and is
  -- issued by its offeree.
  pub verify_bundle-IsAgreed :
      All (IsAgreed (table_of c "agreement.offer" [] (well_formed receipts))) (well_formed receipts)
      × All
          (IsBound (table_of c "agreement.accept" [] (well_formed receipts)))
          (well_formed receipts)
  verify_bundle-IsAgreed = IsBound-check_agreements c (well_formed receipts) clean_passes.agreements

  -- An accepted bundle has a session pass, and the checks against its body found nothing.
  pub accepted_pass :
      (pass : Fields) × (first_of_type "session.pass.created" (well_formed receipts) ≡ some pass)
      × ((pass_body : Fields)
          → get pass "body" ≡ dict pass_body
          → CrossClean (well_formed receipts) pass_body)
  accepted_pass =
      let clean = IsClean-accepted c require_anchor external bundle receipts accepted listed in
      CrossClean-check_cross_record (well_formed receipts)
        (subst CleanRun (sym clean.cross_returned) clean.cross_clean)

  -- If the bundle is not UNTRUSTED and its first session pass has an object for its body, then:
  -- some receipt terminates the task; and every settlement whose body is an object has an object
  -- for its amount, which under a spend cap is of the cap's currency and at most the cap, both
  -- numeric; and one gated on delivery has a delivery attestation at or before its position.
  pub verify_bundle-CrossClean :
      (pass pass_body : Fields)
      → first_of_type "session.pass.created" (well_formed receipts) ≡ some pass
      → get pass "body" ≡ dict pass_body
      → CrossClean (well_formed receipts) pass_body
  verify_bundle-CrossClean pass pass_body found has_body =
      let (first, is_first, clean) = accepted_pass in
      let same_pass : first ≡ pass = cc (is_first, found) in
      clean pass_body (ap (λ r. get r "body") same_pass ∙ has_body)
