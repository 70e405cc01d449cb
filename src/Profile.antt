-- ===== src/Profile.antt =====
-- continuity_receipt/receiver_profile.py: `validate_profile`, with the texts of its errors.
pub mod Sound
pub mod Valid
use continuity_receipt.Base.{
  ℕ, String, Bool, true, false, not, ◌&&◌, ◌||◌, ◌==◌, Option, none, some, List, [], ◌∷◌, pos,
  str_eq, member, if◌then◌else◌, ◌>>=◌,
}
use continuity_receipt.Value.{
  Value, null, bool, int, str, list, dict, Items, nil, cons, Fields, end, field, get, is_text,
}
use continuity_receipt.Value.Equal.{py_eq}
use continuity_receipt.Value.Number.{codes, is_space}
use continuity_receipt.Crypto.{Crypto}
use continuity_receipt.Canon.{canonical_bytes, sha256_prefixed}
use continuity_receipt.Canon.Text.{lt_codes}
use continuity_receipt.Verify.Body.{keys_in}
use continuity_receipt.Witness.{Result, done, raises}
use continuity_receipt.Checkpoint.Statement.{all_in, first_reason}

pub record Profile : Type 0 where
  pub id : Value
  pub digest : String
  pub inventory : List String
  pub optional : List String
  pub memory_paths : List String

-- `set(d) == {…}` for distinct names
unfoldable pub has_just : List String → Fields → Bool
unfolding keys_in
has_just names d = keys_in names d && all_in names d

-- The list of texts that a value is.
abbrev pub texts_in : Items → Option (List String)
texts_in nil = some []
texts_in (cons (str s) vs) = texts_in vs >>= λ ss. some (s ∷ ss)
texts_in (cons _ vs) = none

abbrev pub text_list : Value → Option (List String)
text_list (list vs) = texts_in vs
text_list _ = none

abbrev pub all_spaces : List ℕ → Bool
all_spaces [] = true
all_spaces (c ∷ s) = is_space c && all_spaces s

-- `isinstance(v, str) and v.strip()`
unfoldable pub is_named : Value → Bool
is_named (str s) = not (all_spaces (codes s))
is_named _ = false

abbrev prefix_first : ℕ → List (List ℕ) → List (List ℕ)
prefix_first c [] = (c ∷ []) ∷ []
prefix_first c (part ∷ parts) = (c ∷ part) ∷ parts

-- `p.split("/")`
unfoldable pub components : List ℕ → List (List ℕ)
components [] = [] ∷ []
components (c ∷ s) = let rest = components s in if c == b'/' then [] ∷ rest else prefix_first c rest

-- A component that is not "", "." or "..".
abbrev pub is_plain : List ℕ → Bool
is_plain [] = false
is_plain (c ∷ []) = not (c == b'.')
is_plain (c ∷ d ∷ []) = not ((c == b'.') && (d == b'.'))
is_plain (c ∷ d ∷ e ∷ s) = true

abbrev pub all_plain : List (List ℕ) → Bool
all_plain [] = true
all_plain (part ∷ parts) = is_plain part && all_plain parts

abbrev starts_with_slash : List ℕ → Bool
starts_with_slash [] = false
starts_with_slash (c ∷ s) = c == b'/'

unfoldable pub path_valid : String → Bool
unfolding components
path_valid p =
    (not (str_eq p "") && not (starts_with_slash (codes p))) && all_plain (components (codes p))

abbrev pub all_texts_are : (String → Bool) → List String → Bool
all_texts_are test [] = true
all_texts_are test (s ∷ ss) = test s && all_texts_are test ss

-- `len(set(ss)) == len(ss)`
abbrev pub no_repeat : List String → Bool
no_repeat [] = true
no_repeat (s ∷ ss) = not (member s ss) && no_repeat ss

abbrev pub nonempty : List String → Bool
nonempty [] = false
nonempty (s ∷ ss) = true

-- The texts are of the inventory and differ.
abbrev pub chosen_from : List String → List String → Bool
chosen_from inventory ss = all_texts_are (λ s. member s inventory) ss && no_repeat ss

abbrev pub inventory_fits : List String → List String → List String → Bool
inventory_fits inventory optional memory_paths =
    (nonempty inventory && (all_texts_are path_valid inventory && no_repeat inventory))
    && (chosen_from inventory optional
        && (nonempty memory_paths && chosen_from inventory memory_paths))

-- The three lists of the export.
pub record Paths : Type 0 where
  pub inventory : List String
  pub optional : List String
  pub memory_paths : List String

unfoldable pub read_paths : Fields → Option Paths
unfolding path_valid
read_paths export = text_list (get export "inventory") >>= λ inventory.
    text_list (get export "optional") >>= λ optional.
    text_list (get export "memory_paths") >>= λ memory_paths.
    if inventory_fits inventory optional memory_paths
    then some (record { inventory = inventory; optional = optional; memory_paths = memory_paths })
    else none

-- `sorted`, by code points.
unfoldable pub insert_text : String → List String → List String
insert_text s [] = s ∷ []
insert_text s (t ∷ ts) =
    let rest = insert_text s ts in if lt_codes (codes t) (codes s) then t ∷ rest else s ∷ t ∷ ts

unfoldable pub sort_texts : List String → List String
unfolding insert_text
sort_texts [] = []
sort_texts (s ∷ ss) = insert_text s (sort_texts ss)

abbrev pub profile_members : List String
profile_members =
    "kind" ∷ "version" ∷ "id" ∷ "export" ∷ "trust" ∷ "authority" ∷ "consent" ∷ "retention"
    ∷ "refusal" ∷ []

abbrev pub is_one : Value → Bool
is_one v = elim v [ int z ↦ py_eq (int z) (int (pos 1)) | _ ↦ false ]

abbrev asserted : Value
asserted =
    dict
      (field "status" (str "operator-asserted") (field "basis" (str "outside this verifier") end))

abbrev consented : Value
consented =
    dict
      (field "status" (str "operator-asserted") (field "subject_consent_verified" (bool false) end))

abbrev retained : Value
retained = dict (
    field "mode"
      (str
        "retain current generation until explicit replacement; prior generations may remain on disk")
      (field "deletion" (str "operator-managed") end))

abbrev refusals : Value
refusals = list (
    cons (str "missing policy or reference") (
      cons (str "untrusted or stale evidence") (
        cons (str "inventory mismatch")
          (cons (str "selected memory file missing or invalid UTF-8") nil))))

abbrev is_false : Value → Bool
is_false v = elim v [ bool b ↦ not b | _ ↦ false ]

abbrev member_of : Value → String → Value
member_of (dict d) k = get d k
member_of _ k = null

-- The tests of the fixed members of a profile.
unfoldable pub custody_tests : Fields → List (Bool × String)
custody_tests p =
    (not (py_eq (get p "authority") asserted), "receiver_profile_authority_invalid")
    ∷ (
      not (py_eq (get p "consent") consented)
          || not (is_false (member_of (get p "consent") "subject_consent_verified")),
      "receiver_profile_consent_invalid",
    )
    ∷ (not (py_eq (get p "retention") retained), "receiver_profile_retention_invalid")
    ∷ (not (py_eq (get p "refusal") refusals), "receiver_profile_refusal_invalid")
    ∷ []

unfoldable pub head_tests : Fields → List (Bool × String)
unfolding has_just is_named
head_tests p =
    (not (has_just profile_members p), "receiver_profile_shape_invalid")
    ∷ (
      not (is_text (get p "kind") "cpr-experimental-local-receiver-profile")
          || not (is_one (get p "version")),
      "receiver_profile_version_invalid",
    )
    ∷ (not (is_named (get p "id")), "receiver_profile_id_invalid")
    ∷ []

unfoldable pub export_fits : Value → String → Bool
unfolding has_just
export_fits (dict e) scope =
    has_just ("scope" ∷ "inventory" ∷ "optional" ∷ "memory_paths" ∷ []) e
    && is_text (get e "scope") scope
export_fits _ scope = false

abbrev pub as_fields : Value → Fields
as_fields (dict d) = d
as_fields _ = end

abbrev pub checked {ℓ} : {A : Type ℓ} → Option String → Result A → Result A
checked (some reason) a = raises reason
checked none a = a

module _ (c : Crypto) (context scope : String) (public_key : List ℕ) where
  unfoldable pub trust_fits : Value → Bool
  unfolding has_just
  trust_fits (dict t) =
      has_just ("context" ∷ "key_sha256" ∷ "reference" ∷ "clock" ∷ []) t
      && ((is_text (get t "context") context
            && is_text (get t "key_sha256") (sha256_prefixed c public_key))
          && (is_text (get t "reference")
                "receiver-trust-db/current_reference; advanced only by explicit local publish"
              && is_text (get t "clock") "system-utc"))
  trust_fits _ = false

  -- What is returned; `canonical_bytes` raises a ValueError for a float.
  abbrev pub returned : Fields → Paths → Option (List ℕ) → Result Profile
  returned p paths none = raises "canonical_bytes"
  returned p paths (some bytes) = done (record {
    id = get p "id";
    digest = sha256_prefixed c bytes;
    inventory = sort_texts paths.inventory;
    optional = sort_texts paths.optional;
    memory_paths = paths.memory_paths;
  })

  abbrev pub with_paths : Fields → Option Paths → Result Profile
  unfolding trust_fits custody_tests
  with_paths p none = raises "receiver_profile_inventory_invalid"
  with_paths p (some paths) =
      checked
        (first_reason
          ((not (trust_fits (get p "trust")), "receiver_profile_trust_invalid") ∷ custody_tests p))
        (returned p paths (canonical_bytes (dict p)))

  -- `validate_profile`
  unfoldable pub validate_profile : Value → Result Profile
  unfolding head_tests export_fits read_paths with_paths
  validate_profile (dict p) = checked (first_reason (head_tests p)) (
      if not (export_fits (get p "export") scope)
      then raises "receiver_profile_export_invalid"
      else with_paths p (read_paths (as_fields (get p "export"))))
  validate_profile _ = raises "receiver_profile_shape_invalid"
