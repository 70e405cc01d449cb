-- ===== src/Verify/Evidence.antt =====
-- What the verdict of `verify_bundle` guarantees about disclosures, anchors and the chain head.
use continuity_receipt.Base.{String, Bool, Option, some, ◌≡◌, List, ◌∷◌, All}
use continuity_receipt.Value.{Value, str, dict, list, Fields, lookup, get, as_list}
use continuity_receipt.Value.Number.{codes}
use continuity_receipt.Crypto.{Crypto}
use continuity_receipt.Bundle.{items, last?, receipt_digest}
use continuity_receipt.Canon.{commit_field}
use continuity_receipt.Verify.Redactions.Place.{RedactedAt}
use continuity_receipt.Verify.Redactions.Sound.{commitment-check_redactions}
use continuity_receipt.Verify.Anchors.Sound.{
  IsAnchored, CommitsTo, IsAnchored-check_anchors, CommitsTo-check_chain_head,
}
use continuity_receipt.Verify.Main.{dict_or_empty, verify_bundle, well_formed}
use continuity_receipt.Verify.Accepted.{IsAccepted}
use continuity_receipt.Verify.Soundness.{clean_passes}

module _ (c : Crypto) (require_anchor : Bool) (external : Option (List Value)) (bundle : Fields)
    (receipts : List Value)
    (accepted : IsAccepted (verify_bundle c require_anchor external (dict bundle)))
    (listed : as_list (get bundle "receipts") ≡ some receipts) where
  -- If the bundle is not UNTRUSTED and its disclosure map has an object with a salt and a value for
  -- the path of a redacted object that is inside no other one, then they give a commitment, and the
  -- redacted object holds it.
  pub verify_bundle-Opens :
      (f : Fields) (key : String) (entry : Fields) (salt value : Value)
      → RedactedAt (list (items (well_formed receipts))) (codes "receipts") (codes key) f
      → lookup key (dict_or_empty (get bundle "disclosure_map")) ≡ some (dict entry)
      → lookup "salt" entry ≡ some salt
      → lookup "value" entry ≡ some value
      → (commit : String) × (commit_field c salt value ≡ some commit)
        × (get f "commit" ≡ str commit)
  verify_bundle-Opens f key entry salt value =
      commitment-check_redactions c (well_formed receipts)
        (dict_or_empty (get bundle "disclosure_map")) key entry salt value
        (clean_passes c require_anchor external bundle receipts accepted listed).redactions

  -- If the bundle is not UNTRUSTED and its anchors are a list that is not empty, then every object
  -- among them names a receipt of the bundle and holds that receipt's digest.
  pub verify_bundle-IsAnchored :
      (v : Value) (vs : List Value)
      → as_list (get bundle "anchors") ≡ some (v ∷ vs)
      → All (IsAnchored c (well_formed receipts)) (v ∷ vs)
  verify_bundle-IsAnchored v vs found =
      IsAnchored-check_anchors c bundle (well_formed receipts) require_anchor v vs found
        (clean_passes c require_anchor external bundle receipts accepted listed).anchors

  -- If the bundle is not UNTRUSTED and its chain head is an object, then the head has the position,
  -- the identifier and the digest of the last receipt, where that receipt has a digest.
  pub verify_bundle-CommitsTo :
      (head last : Fields) (digest : String)
      → get bundle "chain_head" ≡ dict head
      → last? (well_formed receipts) ≡ some last
      → receipt_digest c last ≡ some digest
      → CommitsTo head last digest
  verify_bundle-CommitsTo head last digest has_head has_last has_digest =
      CommitsTo-check_chain_head c bundle (well_formed receipts) require_anchor head last digest
        has_head has_last has_digest
        (clean_passes c require_anchor external bundle receipts accepted listed).chain_head
