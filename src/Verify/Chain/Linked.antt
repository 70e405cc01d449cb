-- ===== src/Verify/Chain/Linked.antt =====
-- What the loop of `verify_bundle` establishes about each receipt, as predicates.
use continuity_receipt.Base.{ℕ, suc, String, true, ◌≡◌, List, [], ◌∷◌, some}
use continuity_receipt.Records.{specs_from_05, spec_06}
use continuity_receipt.Verify.Report.Grade.{fatal_free}
use continuity_receipt.Verify.Body.{check_05_body, check_06_body}
use continuity_receipt.Value.{Value, null, bool, int, str, dict, Fields, get, text_in, is_text}
use continuity_receipt.Base.{pos, false}
use continuity_receipt.Value.Equal.{py_eq}
use continuity_receipt.Crypto.{Crypto}
use continuity_receipt.Canon.{canonical_bytes}
use continuity_receipt.Keys
use continuity_receipt.Records.{supported_specs, required_fields, missing_from, unsigned_view}
use continuity_receipt.Records.Timestamp.{validate_timestamp}
use continuity_receipt.Bundle.{receipt_digest}
use continuity_receipt.Verify.Chain.{known_type, issuer_id_or_empty, link_after}

-- The position `n` in a receipt without floats: the integer, or a Boolean that equals it.
pub data IsIndex (n : ℕ) (v : Value) : Type 0 where
  integer : v ≡ int (pos n) → IsIndex n v
  zero_as_false : v ≡ bool false → n ≡ 0 → IsIndex n v
  one_as_true : v ≡ bool true → n ≡ 1 → IsIndex n v

-- What a receipt may be expected to carry as `prev`: None or a text.
pub data IsLink (v : Value) : Type 0 where
  start : v ≡ null → IsLink v
  digest : (s : String) → v ≡ str s → IsLink v

-- The key of the issuer verifies the Ed25519 signature over the unsigned receipt.
pub record IsSigned (c : Crypto) (receipt : Fields) : Type 0 where
  pub sig : Fields
  pub did : String
  pub value : String
  pub message : List ℕ
  pub sig_member : get receipt "sig" ≡ dict sig
  pub algorithm : is_text (get sig "alg") "ed25519" ≡ true
  pub signature : get sig "value" ≡ str value
  pub issuer : issuer_id_or_empty receipt ≡ str did
  pub view : canonical_bytes (dict (unsigned_view receipt)) ≡ some message
  pub verified : Keys.verify c did message value ≡ true

pub record IsLinked (c : Crypto) (task_id : Value) (index : ℕ) (expected : Value) (receipt : Fields)
    : Type 0 where
  pub spec_supported : text_in (get receipt "spec") supported_specs ≡ true
  pub same_task : py_eq (get receipt "task_id") task_id ≡ true
  pub record_type : String
  pub typed : get receipt "type" ≡ str record_type
  pub known : known_type record_type (get receipt "spec") ≡ true
  pub body : Fields
  pub body_member : get receipt "body" ≡ dict body
  pub complete : missing_from body (required_fields record_type (get receipt "spec")) ≡ []
  pub vocabulary_05 :
      text_in (get receipt "spec") specs_from_05 ≡ true
      → fatal_free (check_05_body record_type body (get receipt "receipt_id")) ≡ true
  pub vocabulary_06 :
      is_text (get receipt "spec") spec_06 ≡ true
      → fatal_free (check_06_body record_type body (get receipt "receipt_id")) ≡ true
  pub dated : validate_timestamp (get receipt "issued_at") ≡ true
  pub in_position : IsIndex index (get receipt "seq")
  pub linked : get receipt "prev" ≡ expected
  pub own_digest : String
  pub encodable : receipt_digest c receipt ≡ some own_digest
  pub signed : IsSigned c receipt

-- Receipts that are linked from `expected` on, at positions from `index` on.
abbrev pub IsChain : Crypto → Value → ℕ → Value → List Value → Type 0
IsChain c task_id index expected [] = Unit
IsChain c task_id index expected (dict d ∷ vs) =
    IsLinked c task_id index expected d × IsChain c task_id (suc index) (link_after c d) vs
IsChain c task_id index expected (_ ∷ vs) = ⊥
