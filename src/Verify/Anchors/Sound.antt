-- ===== src/Verify/Anchors/Sound.antt =====
-- What clean passes over the anchors and the chain head say.
use continuity_receipt.Base.{
  ◌++◌, String, Bool, true, false, ◌&&◌, Option, none, some, ◌≡◌, refl, sym, ap, ◌∙◌, List, [], ◌∷◌,
  All, arith, Bool-cases, inl, inr,
}
use continuity_receipt.Value.{Value, nil, cons, str, dict, list, Fields, get, truthy, as_list}
use continuity_receipt.Value.Equal.{py_eq, py_eq-str}
use continuity_receipt.Crypto.{Crypto}
use continuity_receipt.Bundle.{receipt_digest, last?}
use continuity_receipt.Verify.Report.{Report, Note, note}
use continuity_receipt.Verify.Report.Grade.{fatal_free, fatal_free_parts}
use continuity_receipt.Verify.Anchors.{
  find_target, anchor_matches, check_anchor, check_each_anchor, check_anchors, head_matches,
  check_chain_head, check_head, check_last, check_digest,
}

-- The anchor's target is a receipt of the bundle, and its hash is the digest of that receipt.
pub record Anchored (c : Crypto) (receipts : List Fields) (anchor : Fields) : Type 0 where
  pub target : Fields
  pub found : find_target (get anchor "target") receipts ≡ some target
  pub digest : String
  pub digest_is : receipt_digest c target ≡ some digest
  pub hash : get anchor "hash" ≡ str digest

-- The head names the position, the identifier and the digest of the last receipt.
pub record CommitsTo (head last : Fields) (digest : String) : Type 0 where
  pub same_position : py_eq (get head "seq") (get last "seq") ≡ true
  pub same_receipt : py_eq (get head "receipt_id") (get last "receipt_id") ≡ true
  pub same_digest : get head "digest" ≡ str digest

three_true : (a b d : Bool) → (a && (b && d)) ≡ true → (a ≡ true) × (b ≡ true) × (d ≡ true)
three_true a b d h = ground arith

CommitsTo-head_matches :
    (c : Crypto) (head last : Fields) (digest : String)
    → head_matches c head last digest ≡ true
    → CommitsTo head last digest
unfolding head_matches
CommitsTo-head_matches c head last digest h =
    let (position, receipt, same) = three_true _ _ _ h in
    record {
      same_position = position;
      same_receipt = receipt;
      same_digest = py_eq-str (get head "digest") digest same;
    }

before_note :
    (report : Report) (n : Note)
    → fatal_free (report ++ note n ∷ []) ≡ true
    → fatal_free report ≡ true
before_note report n free = (fatal_free_parts report (note n ∷ []) free).0

truthy_list : (w v : Value) (vs : List Value) → as_list w ≡ some (v ∷ vs) → truthy w ≡ true
truthy_list (list nil) v vs h = cc
truthy_list (list (cons x xs)) v vs h = refl
truthy_list _ v vs h = cc

module _ (c : Crypto) where
  Anchored-anchor_matches :
      (receipts : List Fields) (anchor : Fields)
      → anchor_matches c receipts anchor ≡ true
      → Anchored c receipts anchor
  unfolding anchor_matches
  Anchored-anchor_matches receipts anchor h = go (find_target (get anchor "target") receipts) refl h
    where
      digested :
          (target : Fields) (o : Option String)
          → find_target (get anchor "target") receipts ≡ some target
          → receipt_digest c target ≡ o
          → elim o [ none ↦ false | some digest ↦ py_eq (get anchor "hash") (str digest) ] ≡ true
          → Anchored c receipts anchor
      digested target none found e h = cc
      digested target (some d) found e h = record {
        target = target;
        found = found;
        digest = d;
        digest_is = e;
        hash = py_eq-str (get anchor "hash") d h;
      }

      go :
          (o : Option Fields)
          → find_target (get anchor "target") receipts ≡ o
          → elim o [
            | none ↦ false
            | some target ↦ elim (receipt_digest c target) [
              | none ↦ false
              | some digest ↦ py_eq (get anchor "hash") (str digest)
            ]
          ]
            ≡ true
          → Anchored c receipts anchor
      go none found h = cc
      go (some target) found h = digested target (receipt_digest c target) found refl h

  -- What holds of an entry of the list of anchors.
  abbrev pub IsAnchored : List Fields → Value → Type 0
  IsAnchored receipts (dict anchor) = Anchored c receipts anchor
  IsAnchored receipts _ = Unit

  IsAnchored-check_anchor :
      (receipts : List Fields) (v : Value)
      → fatal_free (check_anchor c receipts v).0 ≡ true
      → IsAnchored receipts v
  unfolding check_anchor
  IsAnchored-check_anchor receipts (dict anchor) free =
      elim (Bool-cases (anchor_matches c receipts anchor)) [
        | inl fits ↦ Anchored-anchor_matches receipts anchor fits
        | inr other ↦ cc (rw other at free)
      ]
  IsAnchored-check_anchor receipts _ free = tt

  IsAnchored-check_each :
      (receipts : List Fields) (vs : List Value)
      → fatal_free (check_each_anchor c receipts vs).0 ≡ true
      → All (IsAnchored receipts) vs
  unfolding check_each_anchor
  IsAnchored-check_each receipts [] free = tt
  IsAnchored-check_each receipts (v ∷ vs) free =
      let (first, rest) =
        fatal_free_parts (check_anchor c receipts v).0 (check_each_anchor c receipts vs).0 free in
      (IsAnchored-check_anchor receipts v first, IsAnchored-check_each receipts vs rest)

  -- In a clean bundle every anchor of a list that is not empty fits its target.
  pub IsAnchored-check_anchors :
      (bundle : Fields) (receipts : List Fields) (require_anchor : Bool) (v : Value)
      (vs : List Value)
      → as_list (get bundle "anchors") ≡ some (v ∷ vs)
      → fatal_free (check_anchors c bundle receipts require_anchor) ≡ true
      → All (IsAnchored receipts) (v ∷ vs)
  unfolding check_anchors
  IsAnchored-check_anchors bundle receipts require_anchor v vs listed free =
      IsAnchored-check_each receipts (v ∷ vs) (
        before_note (check_each_anchor c receipts (v ∷ vs)).0 _
          (rw (truthy_list (get bundle "anchors") v vs listed, listed) at free))

  CommitsTo-check_digest :
      (head last : Fields) (digest : String) (require_anchor : Bool)
      → fatal_free (check_digest c (some digest) head last require_anchor) ≡ true
      → CommitsTo head last digest
  unfolding check_digest
  CommitsTo-check_digest head last digest require_anchor free =
      elim (Bool-cases (head_matches c head last digest)) [
        | inl fits ↦ CommitsTo-head_matches c head last digest fits
        | inr other ↦ cc (rw other at free)
      ]

  -- In a clean bundle the chain head commits to the last receipt.
  pub CommitsTo-check_chain_head :
      (bundle : Fields) (receipts : List Fields) (require_anchor : Bool) (head last : Fields)
      (digest : String)
      → get bundle "chain_head" ≡ dict head
      → last? receipts ≡ some last
      → receipt_digest c last ≡ some digest
      → fatal_free (check_chain_head c bundle receipts require_anchor) ≡ true
      → CommitsTo head last digest
  unfolding check_chain_head
  CommitsTo-check_chain_head bundle receipts require_anchor head last digest has_head has_last e
        free =
      CommitsTo-check_digest head last digest require_anchor (
        sym (
          ap (λ v. fatal_free (check_head c v receipts require_anchor)) has_head
          ∙ (ap (λ o. fatal_free (check_last c o head require_anchor)) has_last
              ∙ ap (λ o. fatal_free (check_digest c o head last require_anchor)) e))
        ∙ free)
