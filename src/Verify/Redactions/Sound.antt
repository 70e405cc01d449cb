-- ===== src/Verify/Redactions/Sound.antt =====
-- What a clean redaction pass says about each redacted object.
use continuity_receipt.Base.{
  ℕ, zero, suc, inr, inl, Bool-cases, String, true, false, not, Option, none, some, ◌≡◌, ◌≢◌, refl,
  ap, ◌∙◌, List, [], ◌∷◌, All, get_elem?, member, arith,
}
use continuity_receipt.Value.{null, bool, dict, list, Value, str, Fields, elements, lookup, get}
use continuity_receipt.Records.{base_fields}
use continuity_receipt.Value.Equal.{py_eq, py_eq-str}
use continuity_receipt.Crypto.{Crypto}
use continuity_receipt.Canon.{commit_field}
use continuity_receipt.Verify.Report.{commit_mismatch, fatal_if}
use continuity_receipt.Verify.Report.Grade.{fatal_free, fatal_free_parts, passed}
use continuity_receipt.Verify.Redactions.{
  codes, items, FieldPath, is_required_path, find_disclosure, disclosure, check_redaction,
  check_each_redaction, check_redactions, iter_redactions,
}
use continuity_receipt.Verify.Redactions.Place.{RedactedAt, RedactedAt-All, find_disclosure-lookup}
use continuity_receipt.Verify.Redactions.Required.{
  Hides, RedactedAt-Hides, continue, field_path, required_path,
}

-- The path is that of no required field, and what is disclosed for it opens the commitment.
record IsPassed (c : Crypto) (receipts : List Fields) (disclosure_map : Fields)
    (redaction : FieldPath × Fields) : Type 0 where
  optional : is_required_path redaction.0 receipts ≡ false
  opened :
      (salt value : Value)
      → disclosure (find_disclosure redaction.0 disclosure_map) ≡ some (salt, value)
      → (commit : String) × (commit_field c salt value ≡ some commit)
        × (get redaction.1 "commit" ≡ str commit)

commit_opens :
    (o : Option String) (v : Value)
    → fatal_free (elim o [
      | none ↦ fatal_if true commit_mismatch null
      | some commit ↦ fatal_if (not (py_eq v (str commit))) commit_mismatch null
    ])
      ≡ true
    → (commit : String) × (o ≡ some commit) × (v ≡ str commit)
commit_opens none v free = cc
commit_opens (some commit) v free =
    (commit, refl, py_eq-str v commit (passed (py_eq v (str commit)) commit_mismatch null free))

disclosure_lem :
    (entry : Fields) (salt value : Value)
    → lookup "salt" entry ≡ some salt
    → lookup "value" entry ≡ some value
    → disclosure (dict entry) ≡ some (salt, value)
disclosure_lem entry salt value s v = ground arith

get_elem?-items :
    (ds : List Fields) (i : ℕ) (d : Fields)
    → get_elem? ds i ≡ some d
    → get_elem? (elements (items ds)) i ≡ some (dict d)
get_elem?-items [] i d e = cc
get_elem?-items (x ∷ ds) zero d e = cc e
get_elem?-items (x ∷ ds) (suc i) d e = get_elem?-items ds i d e

abbrev tail_of : FieldPath → List ℕ
tail_of [] = []
tail_of (x ∷ path) = path

module _ (c : Crypto) (receipts : List Fields) (disclosure_map : Fields) where
  IsPassed-check_redaction :
      (path : FieldPath) (d : Fields)
      → fatal_free (check_redaction c receipts disclosure_map path d) ≡ true
      → IsPassed c receipts disclosure_map (path, d)
  unfolding check_redaction
  IsPassed-check_redaction path d free = elim (Bool-cases (is_required_path path receipts)) [
    | inl required ↦ cc (rw required at free)
    | inr optional ↦ record {
      optional = optional;
      opened = λ salt value e.
          commit_opens (commit_field c salt value) (get d "commit") (rw (optional, e) at free);
    }
  ]

  IsPassed-check_each :
      (redactions : List (FieldPath × Fields))
      → fatal_free (check_each_redaction c receipts disclosure_map redactions) ≡ true
      → All (IsPassed c receipts disclosure_map) redactions
  unfolding check_each_redaction
  IsPassed-check_each [] free = tt
  IsPassed-check_each ((path, d) ∷ rest) free =
      let (first, later) =
        fatal_free_parts (check_redaction c receipts disclosure_map path d)
          (check_each_redaction c receipts disclosure_map rest) free in
      (IsPassed-check_redaction path d first, IsPassed-check_each rest later)

  IsPassed-check_redactions :
      fatal_free (check_redactions c receipts disclosure_map) ≡ true
      → All
          (IsPassed c receipts disclosure_map)
          (iter_redactions (list (items receipts)) (codes "receipts"))
  unfolding check_redactions
  IsPassed-check_redactions free =
      IsPassed-check_each (iter_redactions (list (items receipts)) (codes "receipts")) free

  -- A redacted object with a salt and a value for its path holds their commitment.
  pub commitment-check_redactions :
      {f : Fields} (key : String) (entry : Fields) (salt value : Value)
      → fatal_free (check_redactions c receipts disclosure_map) ≡ true
      → RedactedAt (list (items receipts)) (codes "receipts") (codes key) f
      → lookup key disclosure_map ≡ some (dict entry)
      → lookup "salt" entry ≡ some salt
      → lookup "value" entry ≡ some value
      → (commit : String) × (commit_field c salt value ≡ some commit)
        × (get f "commit" ≡ str commit)
  commitment-check_redactions key entry salt value free r found salted valued =
      (RedactedAt-All (IsPassed c receipts disclosure_map) r
          (IsPassed-check_redactions free)).opened
        salt value
        (ap disclosure (find_disclosure-lookup disclosure_map key (dict entry) found)
          ∙ disclosure_lem entry salt value salted valued)

  -- A required field of a receipt hides nothing, where neither the receipt nor its body is redacted
  -- as a whole.
  pub not_hidden-check_redactions :
      (i : ℕ) (receipt body : Fields) (t name : String) (v : Value)
      → fatal_free (check_redactions c receipts disclosure_map) ≡ true
      → get_elem? receipts i ≡ some receipt
      → get receipt "redacted" ≢ bool true
      → get receipt "type" ≡ str t
      → lookup "body" receipt ≡ some (dict body)
      → get body "redacted" ≢ bool true
      → member name (base_fields t) ≡ true
      → lookup name body ≡ some v
      → ¬ Hides v
  not_hidden-check_redactions i receipt body t name v free at shown typed has_body open_ listed
        found h =
      let (more, f, r) = RedactedAt-Hides b'r' (tail_of (field_path i name)) h in
      let placed : RedactedAt (list (items receipts)) (codes "receipts")
          (continue (field_path i name) more) f =
        RedactedAt.in_element (items receipts) i (dict receipt)
          (get_elem?-items receipts i receipt at)
          (RedactedAt.in_member receipt "body" (dict body) shown has_body
            (RedactedAt.in_member body name v open_ found r)) in
      let optional =
        (RedactedAt-All (IsPassed c receipts disclosure_map) placed
          (IsPassed-check_redactions free)).optional in
      cc (optional, required_path receipts i receipt t name more at typed listed)
