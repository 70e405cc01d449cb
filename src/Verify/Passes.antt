-- ===== src/Verify/Passes.antt =====
-- The passes of `verify_bundle` one by one, in a bundle where nothing fatal is found.
use continuity_receipt.Base.{◌&&◌, Bool, true, List, Option, ◌≡◌, arith}
use continuity_receipt.Value.{Value, Fields, get}
use continuity_receipt.Crypto.{Crypto}
use continuity_receipt.Verify.Report.Grade.{fatal_free, fatal_free-append}
use continuity_receipt.Verify.Agreement.{check_agreements}
use continuity_receipt.Verify.Authority.{check_authority}
use continuity_receipt.Verify.Redactions.{check_redactions}
use continuity_receipt.Verify.Attestations.{check_attestations, check_provenance}
use continuity_receipt.Verify.Revoked.{check_revocations}
use continuity_receipt.Verify.Anchors.{check_anchors, check_chain_head}
use continuity_receipt.Verify.Main.{later_passes, dict_or_empty}

abbrev all_of_eight : Bool → Bool → Bool → Bool → Bool → Bool → Bool → Bool → Bool
all_of_eight a b c d e f g h = ((((((a && b) && c) && d) && e) && f) && g) && h

parts_of_eight :
    (a b c d e f g h : Bool)
    → all_of_eight a b c d e f g h ≡ true
    → (a ≡ true)
      × (b ≡ true)
      × (c ≡ true)
      × (d ≡ true)
      × (e ≡ true)
      × (f ≡ true)
      × (g ≡ true)
      × (h ≡ true)
parts_of_eight a b c d e f g h p = ground arith

module _ (c : Crypto) (require_anchor : Bool) (external : Option (List Value)) (bundle : Fields)
    (dicts : List Fields) where
  pub record CleanPasses : Type 0 where
    pub agreements : fatal_free (check_agreements c dicts) ≡ true
    pub authority : fatal_free (check_authority c dicts) ≡ true
    pub redactions :
        fatal_free (check_redactions c dicts (dict_or_empty (get bundle "disclosure_map"))) ≡ true
    pub attestations : fatal_free (check_attestations c dicts) ≡ true
    pub provenance : fatal_free (check_provenance dicts) ≡ true
    pub revocations : fatal_free (check_revocations c bundle dicts external) ≡ true
    pub anchors : fatal_free (check_anchors c bundle dicts require_anchor) ≡ true
    pub chain_head : fatal_free (check_chain_head c bundle dicts require_anchor) ≡ true

  pub CleanPasses-later :
      fatal_free (later_passes c require_anchor external bundle dicts) ≡ true → CleanPasses
  unfolding later_passes
  CleanPasses-later h =
      let (
        agreements, authority, redactions, attestations, provenance, revocations, anchors, head,
      ) =
        parts_of_eight (fatal_free (check_agreements c dicts))
          (fatal_free (check_authority c dicts))
          (fatal_free (check_redactions c dicts (dict_or_empty (get bundle "disclosure_map"))))
          (fatal_free (check_attestations c dicts)) (fatal_free (check_provenance dicts))
          (fatal_free (check_revocations c bundle dicts external))
          (fatal_free (check_anchors c bundle dicts require_anchor))
          (fatal_free (check_chain_head c bundle dicts require_anchor))
          (simp fatal_free-append at h) in
      record {
        agreements = agreements;
        authority = authority;
        redactions = redactions;
        attestations = attestations;
        provenance = provenance;
        revocations = revocations;
        anchors = anchors;
        chain_head = head;
      }
