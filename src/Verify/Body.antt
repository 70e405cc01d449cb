-- ===== src/Verify/Body.antt =====
-- `_check_05_body` and `_check_06_body` of continuity_receipt/verify.py: the vocabularies of the
-- versions 0.5 and 0.6. Every test of a pass adds its own entry.
use continuity_receipt.Base.{
  ℕ, zero, suc, ◌-◌, ◌^◌, String, Bool, true, false, not, ◌&&◌, ◌||◌, none, some, List, [], ◌∷◌,
  ◌++◌, pos, leb, if◌then◌else◌, member, str_eq,
}
use continuity_receipt.Value.{
  Value, int, str, list, dict, Items, nil, cons, Fields, end, field, get, has, is_dict, is_null,
  is_text, is_nonempty_text, text_in,
}
use continuity_receipt.Value.Number.{codes}
use continuity_receipt.Keys.{drop_prefix}
use continuity_receipt.Records.Timestamp.{validate_timestamp, is_at_or_before}
use continuity_receipt.Verify.Report.{Report, malformed, fatal_if}

-- `[0-9a-f]{n}` as a whole
unfoldable pub is_hex : ℕ → List ℕ → Bool
is_hex zero [] = true
is_hex zero (c ∷ s) = false
is_hex (suc n) [] = false
is_hex (suc n) (c ∷ s) = (leb b'0' c && leb c b'9' || leb b'a' c && leb c b'f') && is_hex n s

-- A text that is the prefix and 64 hexadecimal digits.
unfoldable pub is_digest : String → Value → Bool
unfolding is_hex drop_prefix
is_digest prefix (str s) = elim (drop_prefix (codes prefix) (codes s)) [
  | none ↦ false
  | some rest ↦ is_hex 64 rest
]
is_digest prefix _ = false

-- `set(d) == {…}` for a dict and distinct names
unfoldable pub keys_in : List String → Fields → Bool
keys_in names end = true
keys_in names (field k v d) = member k names && keys_in names d

-- The profile is an object of the three members, each of its form.
is_runner_profile : Value → Bool
unfolding is_digest keys_in
is_runner_profile (dict p) =
    (keys_in ("profile_id" ∷ "executable_digest" ∷ "invocation_digest" ∷ []) p
      && (has "profile_id" p && (has "executable_digest" p && has "invocation_digest" p)))
    && (is_nonempty_text (get p "profile_id")
        && (is_digest "sha256:" (get p "executable_digest")
            && is_digest "sha256:" (get p "invocation_digest")))
is_runner_profile _ = false

-- An integer, no Boolean, from 0 through 2 ^ 53 - 1.
is_exact_count : Value → Bool
is_exact_count (int (pos n)) = leb n (2 ^ 53 - 1)
is_exact_count _ = false

abbrev mandala_classes : List String
mandala_classes = "gate-lite" ∷ "gate-hard" ∷ "local" ∷ []

abbrev sandbox_classes : List String
sandbox_classes =
    "bwrap" ∷ "landlock" ∷ "bwrap-landlock" ∷ "microvm-ch" ∷ "microvm-fc" ∷ "none" ∷ []

check_execution : Fields → Value → Report
unfolding is_runner_profile
check_execution body rid =
    fatal_if (not (text_in (get body "sandbox_class") sandbox_classes)) malformed rid
    ++ fatal_if (is_text (get body "sandbox_class") "bwrap" && not (has "runner_profile" body))
        malformed rid
    ++ fatal_if (has "runner_profile" body && not (is_runner_profile (get body "runner_profile")))
        malformed rid

check_commitment : Fields → Value → Report
unfolding is_exact_count is_digest
check_commitment body rid =
    fatal_if (not (is_nonempty_text (get body "state_kind"))) malformed rid
    ++ fatal_if (not (is_nonempty_text (get body "scope"))) malformed rid
    ++ fatal_if (not (is_exact_count (get body "count"))) malformed rid
    ++ fatal_if (not (is_digest "sha256:" (get body "head_digest"))) malformed rid
    ++ fatal_if
        (not (is_null (get body "merkle_root"))
          && not (is_digest "merkle-sha256:" (get body "merkle_root")))
        malformed rid

unfoldable pub check_05_body : String → Fields → Value → Report
unfolding check_execution check_commitment
check_05_body t body rid =
    fatal_if
      (str_eq t "session.pass.created" && not (text_in (get body "mandala_class") mandala_classes))
      malformed rid
    ++ (if str_eq t "task.execution" then check_execution body rid else [])
    ++ (if str_eq t "state.commitment" then check_commitment body rid else [])

is_principal : Value → Bool
is_principal (dict p) =
    is_nonempty_text (get p "id")
    && text_in (get p "assurance") ("self_asserted" ∷ "issuer_verified" ∷ [])
is_principal _ = false

all_nonempty_texts : Items → Bool
all_nonempty_texts nil = true
all_nonempty_texts (cons v vs) = is_nonempty_text v && all_nonempty_texts vs

is_scope : Value → Bool
unfolding all_nonempty_texts
is_scope (list (cons v vs)) = all_nonempty_texts (cons v vs)
is_scope _ = false

-- `if expires is not None: if not valid: … elif granted is valid and expires <= granted: …`
check_expiry : Value → Value → Value → Report
check_expiry granted expires rid =
    if is_null expires
    then []
    else if not (validate_timestamp expires)
    then fatal_if true malformed rid
    else fatal_if (is_at_or_before expires granted) malformed rid

unfoldable pub check_06_body : String → Fields → Value → Report
unfolding is_principal is_scope check_expiry is_digest
check_06_body t body rid =
    if not (str_eq t "authority.grant")
    then []
    else fatal_if (not (is_nonempty_text (get body "grant_id"))) malformed rid
      ++ fatal_if (not (is_principal (get body "principal"))) malformed rid
      ++ fatal_if (not (is_nonempty_text (get body "agent"))) malformed rid
      ++ fatal_if (not (is_scope (get body "scope"))) malformed rid
      ++ fatal_if (not (validate_timestamp (get body "granted_at"))) malformed rid
      ++ check_expiry (get body "granted_at") (get body "expires_at") rid
      ++ fatal_if
          (not (is_null (get body "review_policy"))
            && not (text_in (get body "review_policy") ("none" ∷ "flagged" ∷ "full" ∷ [])))
          malformed rid
      ++ fatal_if (not (is_null (get body "constraints")) && not (is_dict (get body "constraints")))
          malformed rid
      ++ fatal_if
          (not (is_null (get body "policy_ref"))
            && not (is_digest "sha256:" (get body "policy_ref")))
          malformed rid
      ++ fatal_if
          (not (is_null (get body "gate_ref")) && not (is_nonempty_text (get body "gate_ref")))
          malformed rid
