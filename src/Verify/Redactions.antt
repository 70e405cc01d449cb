-- ===== src/Verify/Redactions.antt =====
-- `_iter_redactions`, `_required_field_for_path` and `_check_redactions` of
-- continuity_receipt/verify.py. A path is a text, given by its code points.
pub mod Parts
pub mod Place
pub mod Required
pub mod Sound
use mathlib.Core.List.{reverse}
use continuity_receipt.Base.{
  ℕ, suc, String, Bool, true, false, not, ◌&&◌, ◌||◌, Option, none, some, List, [], ◌∷◌, ◌++◌, pos,
  negsuc, ◌==◌, get_elem?, if◌then◌else◌,
}
use continuity_receipt.Value.{
  Value, null, bool, str, list, dict, Items, nil, cons, Fields, end, field, get, has, truthy,
}
use continuity_receipt.Value.Equal.{py_eq}
use continuity_receipt.Value.Number.{codes, read_int}
use continuity_receipt.Crypto.{Crypto}
use continuity_receipt.Canon.{commit_field, decimal}
use continuity_receipt.Keys.{drop_prefix}
use continuity_receipt.Records.{base_fields}
use continuity_receipt.Bundle.{items}
use continuity_receipt.Verify.Report.{
  Report, redacted_required, commit_mismatch, erased_content, redacted_without_disclosure,
  insufficient, provisional, fatal_if,
}

abbrev pub FieldPath : Type 0
FieldPath = List ℕ

-- `f"{path}.{key}" if path else key` and `f"{path}[{index}]"`
abbrev member_path : FieldPath → String → FieldPath
member_path [] key = codes key
member_path (c ∷ path) key = (c ∷ path) ++ b'.' ∷ codes key

abbrev index_path : FieldPath → ℕ → FieldPath
index_path path index = path ++ b'[' ∷ (decimal index ++ b']' ∷ [])

-- `node.get("redacted") is True`
abbrev pub is_redacted : Fields → Bool
is_redacted d = elim (get d "redacted") [ bool b ↦ b | _ ↦ false ]

-- The redacted objects with their paths, in document order; none is looked for inside another.
unfoldable mutual
  pub iter_redactions : Value → FieldPath → List (FieldPath × Fields)
  iter_redactions (dict d) path =
      let inner = iter_members d path in if is_redacted d then (path, d) ∷ [] else inner
  iter_redactions (list vs) path = iter_elements vs 0 path
  iter_redactions _ path = []

  pub iter_elements : Items → ℕ → FieldPath → List (FieldPath × Fields)
  iter_elements nil index path = []
  iter_elements (cons v vs) index path =
      iter_redactions v (index_path path index) ++ iter_elements vs (suc index) path

  pub iter_members : Fields → FieldPath → List (FieldPath × Fields)
  iter_members end path = []
  iter_members (field k v d) path = iter_redactions v (member_path path k) ++ iter_members d path

-- `text.split(".")`: the part before the first dot, and the parts after it.
pub split_dots : List ℕ → List ℕ × List (List ℕ)
split_dots [] = ([], [])
split_dots (c ∷ s) =
    let rest = split_dots s in if c == b'.' then ([], rest.0 ∷ rest.1) else (c ∷ rest.0, rest.1)

pub codes_eq : List ℕ → List ℕ → Bool
codes_eq [] [] = true
codes_eq (c ∷ s) (d ∷ t) = c == d && codes_eq s t
codes_eq _ _ = false

pub names_part : List ℕ → List String → Bool
names_part part [] = false
names_part part (name ∷ names) = codes_eq part (codes name) || names_part part names

-- `text.rstrip("]")`
pub strip_brackets : List ℕ → List ℕ
strip_brackets [] = []
strip_brackets (c ∷ s) = elim (strip_brackets s) [
  | [] ↦ if c == b']' then [] else c ∷ []
  | d ∷ r ↦ c ∷ d ∷ r
]

-- `receipts[int(text)]`; `none` is a ValueError or an IndexError.
receipt_at : List ℕ → List Fields → Option Fields
unfolding read_int
receipt_at text receipts = elim (read_int text) [
  | none ↦ none
  | some (pos i) ↦ get_elem? receipts i
  | some (negsuc i) ↦ get_elem? (reverse receipts) i
]

-- The third part of the path names a required field of the receipt that the first part names.
required_parts : List ℕ × List (List ℕ) → List Fields → Bool
unfolding codes_eq names_part strip_brackets receipt_at drop_prefix
required_parts (first, second ∷ third ∷ more) receipts =
    elim (drop_prefix (codes "receipts[") first) [
      | none ↦ false
      | some index_text ↦
          codes_eq second (codes "body") && elim (receipt_at (strip_brackets index_text) receipts) [
            | none ↦ false
            | some receipt ↦ elim (get receipt "type") [
              | str t ↦ names_part third (base_fields t)
              | _ ↦ false
            ]
          ]
    ]
required_parts _ receipts = false

unfoldable pub is_required_path : FieldPath → List Fields → Bool
unfolding split_dots required_parts
is_required_path path receipts = required_parts (split_dots path) receipts

-- `disclosure_map.get(path)`
unfoldable pub find_disclosure : FieldPath → Fields → Value
unfolding codes_eq
find_disclosure path end = null
find_disclosure path (field k v d) = if codes_eq (codes k) path then v else find_disclosure path d

-- An entry with a salt and a value.
abbrev pub disclosure : Value → Option (Value × Value)
disclosure (dict entry) =
    if has "salt" entry && has "value" entry
    then some (get entry "salt", get entry "value")
    else none
disclosure _ = none

module _ (c : Crypto) where
  unfoldable pub check_redaction : List Fields → Fields → FieldPath → Fields → Report
  unfolding find_disclosure
  check_redaction receipts disclosure_map path d =
      if is_required_path path receipts
      then fatal_if true redacted_required null
      else elim (disclosure (find_disclosure path disclosure_map)) [
        | some (salt, value) ↦ elim (commit_field c salt value) [
          | none ↦ fatal_if true commit_mismatch null
          | some commit ↦ fatal_if (not (py_eq (get d "commit") (str commit))) commit_mismatch null
        ]
        | none ↦
            if truthy (get d "erased")
            then insufficient (erased_content path) ∷ []
            else provisional (redacted_without_disclosure path) ∷ []
      ]

  unfoldable pub check_each_redaction : List Fields → Fields → List (FieldPath × Fields) → Report
  check_each_redaction receipts disclosure_map [] = []
  check_each_redaction receipts disclosure_map ((path, d) ∷ rest) =
      check_redaction receipts disclosure_map path d
      ++ check_each_redaction receipts disclosure_map rest

  unfoldable pub check_redactions : List Fields → Fields → Report
  unfolding check_each_redaction iter_redactions
  check_redactions receipts disclosure_map =
      check_each_redaction receipts disclosure_map
        (iter_redactions (list (items receipts)) (codes "receipts"))
