-- ===== src/Verification/Issue.antt =====
-- `issue_verification_receipt`, and `_result_dict` that it starts with.
use continuity_receipt.Base.{
  ℕ, String, Bool, ◌&&◌, Option, none, some, List, pos, if◌then◌else◌, ◌>>=◌,
}
use continuity_receipt.Value.{
  Value, int, str, list, dict, Items, nil, cons, Fields, end, field, get, put, is_text, text_in,
  truthy,
}
use continuity_receipt.Crypto.{Crypto}
use continuity_receipt.Canon.{canonical_bytes, sha256_prefixed}
use continuity_receipt.Bundle.{signature_of}
use continuity_receipt.StrictJson.{Json}
use continuity_receipt.Verification.{
  kind, verdicts, BundleInput, bundle_object, errors_well_formed, string_list, verdict_class,
  codes_of,
}

pub record ResultForm : Type 0 where
  pub verdict : Value
  pub errors : Items
  pub provisional : Items
  pub insufficient : Items
  pub summary : Fields

-- The one-character texts of a text.
abbrev characters : String → Items
characters String.[] = nil
characters (String.◌∷◌ c s) = cons (str (String.◌∷◌ c String.[])) (characters s)

abbrev keys_of : Fields → Items
keys_of end = nil
keys_of (field k v d) = cons (str k) (keys_of d)

-- `list(v or [])`; `none` is its TypeError.
abbrev iterated : Value → Option Items
iterated (list vs) = some vs
iterated (str s) = some (characters s)
iterated (dict d) = some (keys_of d)
iterated _ = none

unfoldable pub list_of : Value → Option Items
list_of v = if truthy v then iterated v else some nil

-- `dict(v or {})`, for a value that is no list of pairs.
abbrev copied : Value → Option Fields
copied (dict d) = some d
copied _ = none

unfoldable pub dict_of : Value → Option Fields
dict_of v = if truthy v then copied v else some end

-- `_result_dict`
unfoldable pub result_dict : Value → Option ResultForm
unfolding list_of dict_of
result_dict (dict r) = list_of (get r "errors") >>= λ errors.
    list_of (get r "provisional_reasons") >>= λ provisional.
    list_of (get r "insufficient_reasons") >>= λ insufficient.
    dict_of (get r "summary") >>= λ summary. some (record {
      verdict = get r "verdict";
      errors = errors;
      provisional = provisional;
      insufficient = insufficient;
      summary = summary;
    })
result_dict _ = none

-- The result's verdict is one of the four, its lists are well formed, and they imply the verdict.
unfoldable pub is_consistent : ResultForm → Bool
unfolding errors_well_formed string_list
is_consistent r =
    text_in r.verdict verdicts
    && (errors_well_formed (list r.errors)
        && ((string_list (list r.provisional) && string_list (list r.insufficient))
            && is_text r.verdict
                (verdict_class (list r.errors) (list r.provisional) (list r.insufficient))))

-- The statement without its signature.
abbrev pub statement :
    ResultForm → (digest issuer implementation version verified_at : String) → Fields
statement r digest issuer implementation version verified_at = field "kind" (str kind) (
    field "version" (int (pos 1)) (
      field "bundle_digest" (str digest) (
        field "verdict" r.verdict (
          field "error_codes" (codes_of (list r.errors)) (
            field "errors" (list r.errors) (
              field "provisional_reasons" (list r.provisional) (
                field "insufficient_reasons" (list r.insufficient) (
                  field "summary" (dict r.summary) (
                    field "verified_at" (str verified_at) (
                      field "verifier"
                        (dict (
                          field "implementation" (str implementation)
                            (field "version" (str version) end)))
                        (field "issuer" (str issuer) end)))))))))))

module _ (c : Crypto) where
  -- What is signed and returned once the result is consistent.
  unfoldable pub sign_statement : (List ℕ → String) → String → Fields → Option Fields
  sign_statement signer issuer s = canonical_bytes (dict s) >>= λ message.
      some (put "sig" (signature_of issuer (signer message)) s)

  unfoldable pub issue_form :
      Json
      → BundleInput
      → (List ℕ → String)
      → (issuer implementation version verified_at : String) → ResultForm
      → Option Fields
  unfolding is_consistent bundle_object sign_statement
  issue_form j bundle signer issuer implementation version verified_at r =
      if is_consistent r
      then (bundle_object j bundle >>= canonical_bytes >>= λ bytes.
          sign_statement signer issuer
            (statement r (sha256_prefixed c bytes) issuer implementation version verified_at))
      else none

  -- `issue_verification_receipt`; `none` is a ValueError or a TypeError.
  unfoldable pub issue_verification_receipt :
      Json
      → BundleInput
      → Value
      → (List ℕ → String)
      → (issuer implementation version verified_at : String) → Option Fields
  unfolding result_dict issue_form
  issue_verification_receipt j bundle result signer issuer implementation version verified_at =
      result_dict result >>= issue_form j bundle signer issuer implementation version verified_at
