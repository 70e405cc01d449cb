-- ===== src/Records.antt =====
-- continuity_receipt/records.py: the record types and their required fields, envelopes, and the
-- views that are signed.
pub mod Timestamp
use continuity_receipt.Base.{
  ℕ, String, Bool, true, false, not, ◌&&◌, ◌||◌, Option, none, some, List, [], ◌∷◌, ◌++◌, ◌≡◌, pos,
  if◌then◌else◌, str_eq, member,
}
use continuity_receipt.Value.{
  Value, null, int, str, list, dict, Fields, end, field, lookup, get, has, put, without, as_dict,
  text_in, is_text, is_dict,
}

abbrev pub spec_id : String
spec_id = "continuity-receipt/0.5"

abbrev pub supported_specs : List String
supported_specs =
    "continuity-receipt/0.1" ∷ "continuity-receipt/0.2" ∷ "continuity-receipt/0.3"
    ∷ "continuity-receipt/0.4" ∷ "continuity-receipt/0.5" ∷ "continuity-receipt/0.6" ∷ []

abbrev pub record_types : List String
record_types =
    "session.pass.created" ∷ "task.decision" ∷ "task.execution" ∷ "delivery.attestation"
    ∷ "task.termination" ∷ "settlement" ∷ "authority.succession" ∷ "agreement.offer"
    ∷ "agreement.accept" ∷ "state.commitment" ∷ "authority.grant" ∷ []

-- `REQUIRED_FIELDS.get(record_type, ())`
abbrev pub base_fields : String → List String
base_fields t =
    if str_eq t "session.pass.created"
    then "gate_id" ∷ "mandala_class" ∷ "quotas" ∷ "expires_at" ∷ "policy_version" ∷ "mandate_ref"
      ∷ "agent_id" ∷ []
    else if str_eq t "task.decision"
    then "action" ∷ "action_args_hash" ∷ "model" ∷ "input_provenance" ∷ "decision"
      ∷ "policy_version" ∷ []
    else if str_eq t "task.execution"
    then "tool_calls" ∷ "egress" ∷ "resources" ∷ "sandbox_class" ∷ []
    else if str_eq t "delivery.attestation"
    then "request_hash" ∷ "response_hash" ∷ "counterparty" ∷ []
    else if str_eq t "task.termination"
    then "reason" ∷ "limits_at_stop" ∷ "remaining" ∷ []
    else if str_eq t "settlement"
    then "rail" ∷ "rail_ref" ∷ "amount" ∷ "gated_on_delivery" ∷ "settled_at" ∷ []
    else if str_eq t "authority.succession"
    then "from_authority" ∷ "to_authority" ∷ "effective_at" ∷ "reason" ∷ []
    else if str_eq t "agreement.offer"
    then "offer_id" ∷ "offeree" ∷ "terms_hash" ∷ "valid_until" ∷ "nonce" ∷ []
    else if str_eq t "agreement.accept"
    then "offer_ref" ∷ "offer_id" ∷ "terms_hash" ∷ []
    else if str_eq t "state.commitment"
    then "state_kind" ∷ "scope" ∷ "count" ∷ "head_digest" ∷ []
    else if str_eq t "authority.grant"
    then "grant_id" ∷ "principal" ∷ "agent" ∷ "scope" ∷ "granted_at" ∷ []
    else []

abbrev pub specs_from_04 : List String
specs_from_04 = "continuity-receipt/0.4" ∷ "continuity-receipt/0.5" ∷ "continuity-receipt/0.6" ∷ []

abbrev pub specs_from_05 : List String
specs_from_05 = "continuity-receipt/0.5" ∷ "continuity-receipt/0.6" ∷ []

abbrev pub spec_06 : String
spec_06 = "continuity-receipt/0.6"

-- `required_fields(record_type, spec)`; REQUIRED_FIELDS_04 has the accept record alone.
unfoldable pub required_fields : String → Value → List String
required_fields t spec =
    if text_in spec specs_from_04 && str_eq t "agreement.accept"
    then "offer_ref" ∷ "offer_id" ∷ "terms_hash" ∷ "offeree" ∷ []
    else if str_eq t "state.commitment" && not (text_in spec specs_from_05)
    then []
    else if str_eq t "authority.grant" && not (is_text spec spec_06)
    then []
    else base_fields t

-- `[name for name in names if name not in body]`
unfoldable pub missing_from : Fields → List String → List String
missing_from body [] = []
missing_from body (name ∷ names) =
    let rest = missing_from body names in if has name body then rest else name ∷ rest

-- True if the list is empty.
abbrev pub is_empty {ℓ} : {A : Type ℓ} → List A → Bool
is_empty [] = true
is_empty (x ∷ xs) = false

-- `validate_body`: false if it raises its ValueError.
unfoldable pub validate_body : String → Value → Value → Bool
unfolding required_fields missing_from
validate_body t body spec =
    if not (member t record_types)
    then false
    else if str_eq t "state.commitment" && not (text_in spec specs_from_05)
    then false
    else if str_eq t "authority.grant" && not (is_text spec spec_06)
    then false
    else elim (as_dict body) [
      | none ↦ false
      | some d ↦ is_empty (missing_from d (required_fields t spec))
    ]

-- `unsigned_view(receipt)`
unfoldable pub unsigned_view : Fields → Fields
unsigned_view receipt = without "sig" receipt

-- `attestation_view(body)`: the body without `counterparty.attestation`.
unfoldable pub attestation_view : Fields → Fields
attestation_view body = elim (as_dict (get body "counterparty")) [
  | none ↦ body
  | some party ↦ put "counterparty" (dict (without "attestation" party)) body
]
