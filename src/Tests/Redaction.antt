-- ===== src/Tests/Redaction.antt =====
-- A redacted member of the sample bundle with its disclosure, and a required field beside it.
use continuity_receipt.Base.{
  String, true, none, some, List, [], ◌∷◌, ◌≡◌, ◌≢◌, refl, map, get_elem?,
}
use continuity_receipt.Value.{bool, str, dict, list, elements, Fields, end, lookup, get}
use continuity_receipt.Value.Number.{codes}
use continuity_receipt.Canon.{commit_field, dump, insert_member, reject_floats, sort_members}
use continuity_receipt.Canon.Text.{decimal, join, lt_codes, quote, utf8}
use continuity_receipt.Bundle.{items, new_chain, new_envelope, receipt_digest, sign_receipt}
use continuity_receipt.Verify.Main.{well_formed, dict_or_empty}
use continuity_receipt.Verify.Redactions.Place.{RedactedAt}
use continuity_receipt.Verify.Evidence.{verify_bundle-Opens}
use continuity_receipt.Tests.{
  toy, sample, sample_receipts, sample-IsAccepted, sample_listed, fields,
}

decision : Fields
unfolding sample_receipts
decision = elim (get_elem? sample_receipts 4) [ none ↦ end | some r ↦ r ]

decision_body : Fields
unfolding decision
decision_body = elim (get decision "body") [ dict d ↦ d | _ ↦ end ]

memo : Fields
unfolding decision_body
memo = elim (get decision_body "memo") [ dict d ↦ d | _ ↦ end ]

entry : Fields
unfolding sample
entry = fields (("salt", str "00ff") ∷ ("value", str "secret") ∷ [])

abbrev all : List Fields
all = well_formed (map dict sample_receipts)

decision_at : get_elem? (elements (items all)) 4 ≡ some (dict decision)
unfolding decision toy well_formed new_chain new_envelope sign_receipt reject_floats receipt_digest
    insert_member sort_members lt_codes join decimal quote utf8 dump
decision_at = refl

decision_shown : get decision "redacted" ≢ bool true
unfolding decision toy well_formed new_chain new_envelope sign_receipt reject_floats receipt_digest
    insert_member sort_members lt_codes join decimal quote utf8 dump
decision_shown e = cc e

has_body : lookup "body" decision ≡ some (dict decision_body)
unfolding decision_body toy well_formed new_chain new_envelope sign_receipt reject_floats
    receipt_digest insert_member sort_members lt_codes join decimal quote utf8 dump
has_body = refl

body_shown : get decision_body "redacted" ≢ bool true
unfolding decision_body toy well_formed new_chain new_envelope sign_receipt reject_floats
    receipt_digest insert_member sort_members lt_codes join decimal quote utf8 dump
body_shown e = cc e

has_memo : lookup "memo" decision_body ≡ some (dict memo)
unfolding memo toy well_formed new_chain new_envelope sign_receipt reject_floats receipt_digest
    insert_member sort_members lt_codes join decimal quote utf8 dump
has_memo = refl

memo-RedactedAt :
    RedactedAt (dict memo) (codes "receipts[4].body.memo") (codes "receipts[4].body.memo") memo
unfolding memo toy well_formed new_chain new_envelope sign_receipt reject_floats receipt_digest
    insert_member sort_members lt_codes join decimal quote utf8 dump
memo-RedactedAt = RedactedAt.here memo refl

memo_place : RedactedAt (list (items all)) (codes "receipts") (codes "receipts[4].body.memo") memo
unfolding decimal
memo_place = RedactedAt.in_element (items all) 4 (dict decision) decision_at (
    RedactedAt.in_member decision "body" (dict decision_body) decision_shown has_body
      (RedactedAt.in_member decision_body "memo" (dict memo) body_shown has_memo memo-RedactedAt))

is_disclosed :
    lookup "receipts[4].body.memo" (dict_or_empty (get sample "disclosure_map")) ≡ some (dict entry)
unfolding sample entry toy well_formed new_chain new_envelope sign_receipt reject_floats
    receipt_digest insert_member sort_members lt_codes join decimal quote utf8 dump
is_disclosed = refl

has_salt : lookup "salt" entry ≡ some (str "00ff")
unfolding entry
has_salt = refl

has_value : lookup "value" entry ≡ some (str "secret")
unfolding entry
has_value = refl

verify_bundle-Opens_example :
    (commit : String) × (commit_field toy (str "00ff") (str "secret") ≡ some commit)
    × (get memo "commit" ≡ str commit)
verify_bundle-Opens_example =
    verify_bundle-Opens toy true none sample (map dict sample_receipts) sample-IsAccepted
      sample_listed memo "receipts[4].body.memo" entry (str "00ff") (str "secret") memo_place
      is_disclosed has_salt has_value
