-- ===== src/Verify/Resolve.antt =====
-- What `_check_agreements` and `_check_authority` of continuity_receipt/verify.py share: a dict of
-- receipts by digest, and the reference of a bound receipt into it.
use continuity_receipt.Base.{String, not, Option, none, some, List, [], ◌∷◌, if◌then◌else◌, str_eq}
use continuity_receipt.Value.{Value, null, str, Fields, get, as_dict, is_text, text_in}
use continuity_receipt.Crypto.{Crypto}
use continuity_receipt.Bundle.{receipt_digest}
use continuity_receipt.Agreements.{bound_types}

abbrev pub Table : Type 0
Table = List (String × Fields)

-- `table[digest] = receipt`, `table.get(digest)`
unfoldable pub set_entry : String → Fields → Table → Table
set_entry k r [] = (k, r) ∷ []
set_entry k r ((j, q) ∷ t) = if str_eq j k then (j, r) ∷ t else (j, q) ∷ set_entry k r t

unfoldable pub find_entry : String → Table → Option Fields
find_entry k [] = none
find_entry k ((j, q) ∷ t) = if str_eq j k then some q else find_entry k t

-- `issuer.get("id") if isinstance(issuer, dict) else None`
abbrev pub issuer_id : Fields → Value
issuer_id receipt = elim (as_dict (get receipt "issuer")) [ none ↦ null | some i ↦ get i "id" ]

-- How the reference of a receipt resolves: `skipped` is a `continue` before the look-up.
pub data Resolution : Type 0 where
  skipped missing : Resolution
  resolved : String → Fields → Resolution

unfoldable pub resolve_ref : Table → Value → Resolution
unfolding find_entry
resolve_ref table null = skipped
resolve_ref table (str ref) = elim (find_entry ref table) [
  | none ↦ missing
  | some target ↦ resolved ref target
]
resolve_ref table _ = missing

-- A bound receipt of one of the versions, by the member `key` of its body.
unfoldable pub resolve : List String → String → Table → Fields → Resolution
unfolding resolve_ref
resolve specs key table receipt =
    if not (text_in (get receipt "type") bound_types)
    then skipped
    else if not (text_in (get receipt "spec") specs)
    then skipped
    else elim (as_dict (get receipt "body")) [
      | none ↦ skipped
      | some body ↦ resolve_ref table (get body key)
    ]

-- The references that resolve: the set `referenced`.
unfoldable pub referenced_by : List String → String → Table → List Fields → List String
unfolding resolve
referenced_by specs key table [] = []
referenced_by specs key table (r ∷ rs) =
    let rest = referenced_by specs key table rs in
    elim (resolve specs key table r) [ resolved ref target ↦ ref ∷ rest | _ ↦ rest ]

module _ (c : Crypto) where
  -- The receipts of a type that are canonically encodable, by digest: a later one replaces an
  -- earlier one of the same digest and keeps its place.
  unfoldable pub table_of : String → Table → List Fields → Table
  unfolding set_entry
  table_of t table [] = table
  table_of t table (r ∷ rs) =
      table_of t
        (if is_text (get r "type") t
          then elim (receipt_digest c r) [ none ↦ table | some d ↦ set_entry d r table ]
          else table)
        rs
