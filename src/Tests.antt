-- ===== src/Tests.antt =====
-- Concrete runs of the model, with a toy digest and a signature check that accepts everything.
mod Conformance
mod Disclosed
mod Import
mod Policy
mod Pinned
mod Publication
mod Receipt
mod Redaction
mod Shrink
use Prim.Native.String.{◌++◌ as append_text}
use continuity_receipt.Base.{
  arith, false, length, map, ◌≤◌, ◌≢◌, refl, ◌≡◌, All, zero, get_elem?, suc, ◌+◌, ◌*◌, ◌%◌, ◌/◌, ℕ,
  String, true, Option, none, some, List, [], ◌∷◌, pos, ◌>>=◌,
}
use continuity_receipt.Value.{
  get, as_list, Value, null, bool, int, str, list, dict, nil, cons, Fields, end, field,
}
use continuity_receipt.Crypto.{Crypto}
use continuity_receipt.Bundle.{make_bundle, TaskChain, new_chain, add, receipt_digest}
use continuity_receipt.Verify.Main.{
  max_receipts, max_nesting_depth, well_formed, verify_bundle, later_passes, Outcome,
}
use continuity_receipt.Verify.Agreement.{check_agreements}
use continuity_receipt.Verify.Authority.{check_authority}
use continuity_receipt.Verify.Redactions.{check_redactions}
use continuity_receipt.Verify.Attestations.{check_attestations, check_provenance}
use continuity_receipt.Verify.Revoked.{all_dicts, bundled, check_revocations}
use continuity_receipt.Verify.Anchors.{check_anchors, check_chain_head}
use continuity_receipt.Verify.Depth.{depth_exceeded}
use continuity_receipt.Verify.Shape.{check_shape}
use continuity_receipt.Verify.Chain.{check_receipts}
use continuity_receipt.Verify.Settlement.{first_of_type, check_cross_record}
use continuity_receipt.Verify.Report.{untrusted, conditional, collect, finish}
use continuity_receipt.Verify.Accepted.{IsAccepted}
use continuity_receipt.Verify.Soundness.{
  verify_bundle-IsChain, verify_bundle-IsAuthorized, verify_bundle-IsAgreed,
  verify_bundle-CrossClean, verify_bundle-IsChecked,
}
use continuity_receipt.Verify.Settlement.Sound.{CrossClean}
use continuity_receipt.Verify.Agreement.Sound.{IsAgreed, IsBound}
use continuity_receipt.Verify.Authority.Sound.{IsAuthorized}
use continuity_receipt.Verify.Revoked.Sound.{IsChecked}
use continuity_receipt.Verify.Chain.Linked.{IsChain}
use continuity_receipt.Verify.Depth.{levels}
use continuity_receipt.Revocations.{merge_statements}
use continuity_receipt.Verify.Crash.{verify_bundle-Overflows}
use continuity_receipt.Verify.Settlement.Overflow.{Overflows, IsInfinite}
use continuity_receipt.Verify.Report.{provisional, fatal, malformed, anchor_missing}
use continuity_receipt.Verify.Report.Grade.{verdict-finish, verdict_of}
use continuity_receipt.Verify.Depth.{depth_exceeded-eq_levels}
use continuity_receipt.Canon.{canonical_bytes}
use continuity_receipt.Canon.Order.{Same, dicts, swap, canonical_bytes-Same}
use continuity_receipt.Revocations.Merge.{Distinct, merge_statements_lem}
use continuity_receipt.Records.{supported_specs}
use continuity_receipt.Verify.Main.{max_receipts, overflow_error}
use continuity_receipt.Verify.Settlement.{first_of_type}
use continuity_receipt.Verify.Resolve.{table_of}
use continuity_receipt.Verify.Revoked.{all_dicts, bundled}
use continuity_receipt.Value.{text_in, float, infinite}
use continuity_receipt.Value.Equal.{py_eq}
use continuity_receipt.Base.{ltb}
use continuity_receipt.Revocations.{merge_from, check_signed, check_statement, verify_statements}
use continuity_receipt.Bundle.{new_envelope, sign_receipt}
use continuity_receipt.Canon.{insert_member, sort_members, reject_floats, dump}
use continuity_receipt.Canon.Text.{lt_codes, join, decimal, quote, utf8}
use continuity_receipt.Keys.{verify}
use continuity_receipt.Agreements.{offer_body}
use continuity_receipt.Verify.Main.{all_passes}
use continuity_receipt.Verify.Chain.{
  has_signature, link_after, check_body, check_typed, check_receipt,
}
use continuity_receipt.Verify.Body.{check_05_body, check_06_body}
use continuity_receipt.Verify.Agreement.{check_accept}
use continuity_receipt.Verify.Settlement.{check_settlement}
use continuity_receipt.Records.Timestamp.{is_before, is_at_or_before}
use continuity_receipt.Value.Number.{to_int}
use continuity_receipt.Canon.{commit_field, from_hex}
use continuity_receipt.Value.{put, Items}
use continuity_receipt.Verify.Redactions.{
  iter_redactions, is_required_path, find_disclosure, check_redaction,
}
use continuity_receipt.Verify.Anchors.{anchor_matches, find_target}
use continuity_receipt.Value.Number.{read_int}
use continuity_receipt.Verify.Anchors.Sound.{IsAnchored, CommitsTo}
use continuity_receipt.Verify.Evidence.{verify_bundle-IsAnchored, verify_bundle-CommitsTo}
use continuity_receipt.Verify.Anchors.{check_anchor}
use continuity_receipt.Verify.Main.{dict_or_empty}
use continuity_receipt.Bundle.{items, last?}
use continuity_receipt.Value.Number.{codes}

checksum : ℕ → List ℕ → ℕ
checksum acc [] = acc
checksum acc (b ∷ bs) = checksum ((acc * 257 + b) % 1000003) bs

abbrev letters : List String
letters = "a" ∷ "b" ∷ "c" ∷ "d" ∷ "e" ∷ "f" ∷ "g" ∷ "h" ∷ []

spell : ℕ → ℕ → String
spell zero n = ""
spell (suc k) n =
    append_text (elim (get_elem? letters (n % 8)) [ none ↦ "" | some s ↦ s ]) (spell k (n / 8))

abbrev repeated : ℕ → String → String
repeated zero s = ""
repeated (suc n) s = append_text s (repeated n s)

abbrev toy : Crypto
unfolding checksum spell
toy = record {
  sha256_hex = λ bytes. spell 7 (checksum 7 bytes);
  urlsafe_b64decode = λ text. some [];
  ed25519_verify = λ key signature message. true;
}

abbrev agent : String
agent = "did:key:z6MkwSG2hFkD41K85fvQFtNGCZXYFUwEZDqrzahZvWHt5hm1"

abbrev principal : String
principal = "did:key:z6MkqrXa4NxUxGiEsgvPc2pdoP7dArk58nA4YBguVR7igyPS"

abbrev fields : List (String × Value) → Fields
fields [] = end
fields ((k, v) ∷ ms) = field k v (fields ms)

abbrev obj : List (String × Value) → Value
obj members = dict (fields members)

-- A step of the task: who, when, what.
abbrev Step : Type 0
Step = String × String × String × String × (List Fields → List (String × Value))

-- `sha256:…` of the receipt at a position.
abbrev digest_at : ℕ → List Fields → Value
digest_at n receipts = elim (get_elem? receipts n) [
  | none ↦ null
  | some r ↦ elim (receipt_digest toy r) [ none ↦ null | some d ↦ str d ]
]

abbrev extend_by : Crypto → TaskChain → List Step → Option TaskChain
extend_by c chain [] = some chain
extend_by c chain ((did, rid, at, kind, body) ∷ steps) =
    add c chain (λ message. "c2ln") "agent" did rid at kind (obj (body chain.receipts))
    >>= λ (receipt, longer). extend_by c longer steps

abbrev extend : TaskChain → List Step → Option TaskChain
extend chain steps = extend_by toy chain steps

-- A redacted member, and its disclosure.
abbrev salt : String
salt = "00ff"

abbrev memo_commit : String
memo_commit = "sha256:bdgbccd"

abbrev memo_redacted : Fields
memo_redacted = fields (("redacted", bool true) ∷ ("commit", str memo_commit) ∷ [])

abbrev steps : List Step
steps =
    (
      principal,
      "r0",
      "2026-01-01T00:00:00Z",
      "session.pass.created",
      λ rs.
          ("gate_id", str "g")
          ∷ ("mandala_class", str "local")
          ∷ ("quotas", dict end)
          ∷ ("expires_at", str "2026-02-01T00:00:00Z")
          ∷ ("policy_version", str "p1")
          ∷ ("mandate_ref", str "m")
          ∷ ("agent_id", str agent)
          ∷ ("spend_cap", obj (("minor", int (pos 1000)) ∷ ("currency", str "USD") ∷ []))
          ∷ [],
    )
    ∷ (
      principal,
      "r1",
      "2026-01-01T00:00:01Z",
      "agreement.offer",
      λ rs.
          ("offer_id", str "o")
          ∷ ("offeree", str agent)
          ∷ ("terms_hash", str "t")
          ∷ ("valid_until", str "2026-01-01T00:10:00Z")
          ∷ ("nonce", str "n")
          ∷ [],
    )
    ∷ (
      agent,
      "r2",
      "2026-01-01T00:00:02Z",
      "agreement.accept",
      λ rs.
          ("offer_ref", digest_at 1 rs)
          ∷ ("offer_id", str "o")
          ∷ ("terms_hash", str "t")
          ∷ ("offeree", str agent)
          ∷ [],
    )
    ∷ (
      principal,
      "r3",
      "2026-01-01T00:00:03Z",
      "authority.grant",
      λ rs.
          ("grant_id", str "g1")
          ∷ ("principal", obj (("id", str "alice") ∷ ("assurance", str "self_asserted") ∷ []))
          ∷ ("agent", str agent)
          ∷ ("scope", list (cons (str "read") nil))
          ∷ ("granted_at", str "2026-01-01T00:00:03Z")
          ∷ ("expires_at", str "2026-01-02T00:00:00Z")
          ∷ [],
    )
    ∷ (
      agent,
      "r4",
      "2026-01-01T00:00:04Z",
      "task.decision",
      λ rs.
          ("action", str "read")
          ∷ ("action_args_hash", str "h")
          ∷ ("model", str "m")
          ∷ ("input_provenance", list nil)
          ∷ ("decision", str "allow")
          ∷ ("policy_version", str "p1")
          ∷ ("memo", dict (memo_redacted))
          ∷ ("agreement_ref", digest_at 2 rs)
          ∷ ("authority_ref", digest_at 3 rs)
          ∷ [],
    )
    ∷ (
      agent,
      "r5",
      "2026-01-01T00:00:05Z",
      "delivery.attestation",
      λ rs.
          ("request_hash", str "a")
          ∷ ("response_hash", str "b")
          ∷ ("counterparty", dict end)
          ∷ ("agreement_ref", digest_at 2 rs)
          ∷ ("authority_ref", digest_at 3 rs)
          ∷ [],
    )
    ∷ (
      principal,
      "r6",
      "2026-01-01T00:00:06Z",
      "settlement",
      λ rs.
          ("rail", str "x")
          ∷ ("rail_ref", str "y")
          ∷ ("amount", obj (("minor", int (pos 500)) ∷ ("currency", str "USD") ∷ []))
          ∷ ("gated_on_delivery", bool true)
          ∷ ("settled_at", str "2026-01-01T00:00:06Z")
          ∷ [],
    )
    ∷ (
      agent,
      "r7",
      "2026-01-01T00:00:07Z",
      "task.termination",
      λ rs.
          ("reason", str "done")
          ∷ ("limits_at_stop", dict end)
          ∷ ("remaining", dict end)
          ∷ ("agreement_ref", digest_at 2 rs)
          ∷ ("authority_ref", digest_at 3 rs)
          ∷ [],
    )
    ∷ []

-- A revocation of the principal's key a day later.
abbrev revocation : Value
revocation = obj (
    ("key", str principal)
    ∷ ("revoked_at", str "2026-01-02T00:00:00Z")
    ∷ ("sig", obj (("alg", str "ed25519") ∷ ("value", str "c2ln") ∷ []))
    ∷ [])

abbrev receipts_of : Option TaskChain → List Fields
receipts_of none = []
receipts_of (some chain) = chain.receipts

sample_receipts : List Fields
unfolding add
sample_receipts = receipts_of (extend (new_chain "task" "continuity-receipt/0.6") steps)

abbrev to_items : List Value → Items
to_items [] = nil
to_items (v ∷ vs) = cons v (to_items vs)

sample_anchors : List Value
unfolding sample_receipts
sample_anchors = obj (("target", str "r7") ∷ ("hash", digest_at 7 sample_receipts) ∷ []) ∷ []

sample_head : Fields
unfolding sample_receipts
sample_head =
    fields (
      ("seq", int (pos 7))
      ∷ ("receipt_id", str "r7")
      ∷ ("digest", digest_at 7 sample_receipts)
      ∷ [])

-- The bundle of the chain, with a disclosure, an anchor of the last receipt, its head, and a
-- revocation after it.
sample : Fields
unfolding sample_receipts sample_anchors sample_head make_bundle
sample = put "chain_head" (dict sample_head) (
    make_bundle
      (record { task_id = "task"; spec = "continuity-receipt/0.6"; receipts = sample_receipts })
      (field "receipts[4].body.memo" (obj (("salt", str salt) ∷ ("value", str "secret") ∷ [])) end)
      (to_items sample_anchors) (cons revocation nil))

sample_outcome : Outcome
unfolding verify_bundle sample depth_exceeded check_shape check_receipts check_cross_record
    later_passes collect finish check_agreements check_authority check_redactions check_attestations
    check_provenance check_revocations check_anchors check_chain_head
sample_outcome = verify_bundle toy true none (dict sample)

conditional-untrusted : conditional ≢ untrusted
conditional-untrusted e = cc

sample-IsAccepted : IsAccepted (verify_bundle toy true none (dict sample))
unfolding sample_outcome toy merge_from merge_statements check_signed check_statement
    verify_statements new_envelope sign_receipt new_chain receipt_digest insert_member sort_members
    verify offer_body all_passes has_signature link_after check_body check_typed check_receipt
    check_05_body check_06_body check_accept check_settlement lt_codes join decimal quote utf8
    is_before is_at_or_before to_int reject_floats dump py_eq commit_field from_hex iter_redactions
    is_required_path find_disclosure read_int check_redaction anchor_matches find_target
    check_anchor
sample-IsAccepted = conditional-untrusted

verify_bundle-IsChain_example :
    (bundle : Fields) × (receipts : List Value) × (dict sample ≡ dict bundle)
    × (1 + levels (dict bundle) ≤ max_nesting_depth)
    × (as_list (get bundle "receipts") ≡ some receipts)
    × (receipts ≢ [])
    × (length receipts ≤ max_receipts)
    × IsChain toy (get bundle "task_id") 0 null receipts
verify_bundle-IsChain_example = verify_bundle-IsChain toy true none (dict sample) sample-IsAccepted

sample_listed : as_list (get sample "receipts") ≡ some (map dict sample_receipts)
unfolding sample toy merge_from merge_statements check_signed check_statement verify_statements
    new_envelope sign_receipt new_chain receipt_digest insert_member sort_members verify offer_body
    all_passes has_signature link_after check_body check_typed check_receipt check_05_body
    check_06_body check_accept check_settlement lt_codes join decimal quote utf8 is_before
    is_at_or_before to_int reject_floats dump py_eq
sample_listed = refl

verify_bundle-IsAuthorized_example :
    All
      (IsAuthorized (table_of toy "authority.grant" [] (well_formed (map dict sample_receipts))))
      (well_formed (map dict sample_receipts))
verify_bundle-IsAuthorized_example =
    verify_bundle-IsAuthorized toy true none sample (map dict sample_receipts) sample-IsAccepted
      sample_listed

verify_bundle-IsAgreed_example :
    All
      (IsAgreed (table_of toy "agreement.offer" [] (well_formed (map dict sample_receipts))))
      (well_formed (map dict sample_receipts))
    × All
        (IsBound (table_of toy "agreement.accept" [] (well_formed (map dict sample_receipts))))
        (well_formed (map dict sample_receipts))
verify_bundle-IsAgreed_example =
    verify_bundle-IsAgreed toy true none sample (map dict sample_receipts) sample-IsAccepted
      sample_listed

-- The first receipt of the sample and its body.
sample_pass : Fields
unfolding sample_receipts
sample_pass = elim sample_receipts [ [] ↦ end | r ∷ rs ↦ r ]

sample_pass_body : Fields
unfolding sample_pass
sample_pass_body = elim (get sample_pass "body") [ dict d ↦ d | _ ↦ end ]

sample_first :
    first_of_type "session.pass.created" (well_formed (map dict sample_receipts)) ≡ some sample_pass
unfolding sample_pass first_of_type toy merge_from merge_statements check_signed check_statement
    verify_statements new_envelope sign_receipt new_chain receipt_digest insert_member sort_members
    verify offer_body all_passes has_signature link_after check_body check_typed check_receipt
    check_05_body check_06_body check_accept check_settlement lt_codes join decimal quote utf8
    is_before is_at_or_before to_int reject_floats dump py_eq
sample_first = refl

sample_body : get sample_pass "body" ≡ dict sample_pass_body
unfolding sample_pass_body toy merge_from merge_statements check_signed check_statement
    verify_statements new_envelope sign_receipt new_chain receipt_digest insert_member sort_members
    verify offer_body all_passes has_signature link_after check_body check_typed check_receipt
    check_05_body check_06_body check_accept check_settlement lt_codes join decimal quote utf8
    is_before is_at_or_before to_int reject_floats dump py_eq
sample_body = refl

verify_bundle-CrossClean_example :
    CrossClean (well_formed (map dict sample_receipts)) sample_pass_body
verify_bundle-CrossClean_example =
    verify_bundle-CrossClean toy true none sample (map dict sample_receipts) sample-IsAccepted
      sample_listed sample_pass sample_pass_body sample_first sample_body

sample-bundled : bundled (get sample "revocations") ≡ some (revocation ∷ [])
unfolding sample toy merge_from merge_statements check_signed check_statement verify_statements
    new_envelope sign_receipt new_chain receipt_digest insert_member sort_members verify offer_body
    all_passes has_signature link_after check_body check_typed check_receipt check_05_body
    check_06_body check_accept check_settlement lt_codes join decimal quote utf8 is_before
    is_at_or_before to_int reject_floats dump py_eq
sample-bundled = refl

sample_objects : all_dicts (revocation ∷ []) ≡ true
unfolding all_dicts
sample_objects = refl

verify_bundle-IsChecked_example :
    IsChecked toy (merge_statements (revocation ∷ []) none) (well_formed (map dict sample_receipts))
verify_bundle-IsChecked_example =
    verify_bundle-IsChecked toy true none sample (map dict sample_receipts) sample-IsAccepted
      sample_listed (revocation ∷ []) sample-bundled sample_objects

sample_anchor : Value
unfolding sample_receipts
sample_anchor = obj (("target", str "r7") ∷ ("hash", digest_at 7 sample_receipts) ∷ [])

sample_anchored : as_list (get sample "anchors") ≡ some (sample_anchor ∷ [])
unfolding sample sample_anchor toy new_envelope sign_receipt receipt_digest new_chain insert_member
    sort_members lt_codes join decimal quote utf8 reject_floats dump
sample_anchored = refl

verify_bundle-IsAnchored_example :
    All (IsAnchored toy (well_formed (map dict sample_receipts))) (sample_anchor ∷ [])
verify_bundle-IsAnchored_example =
    verify_bundle-IsAnchored toy true none sample (map dict sample_receipts) sample-IsAccepted
      sample_listed sample_anchor [] sample_anchored

sample_last : Fields
unfolding sample_receipts
sample_last = elim (last? sample_receipts) [ none ↦ end | some r ↦ r ]

sample_is_headed : get sample "chain_head" ≡ dict sample_head
unfolding sample toy new_envelope sign_receipt receipt_digest new_chain insert_member sort_members
    lt_codes join decimal quote utf8 reject_floats dump
sample_is_headed = refl

sample_is_last : last? (well_formed (map dict sample_receipts)) ≡ some sample_last
unfolding sample_last well_formed toy new_envelope sign_receipt receipt_digest new_chain
    insert_member sort_members lt_codes join decimal quote utf8 reject_floats dump
sample_is_last = refl

sample_digest : receipt_digest toy sample_last ≡ some "sha256:bdbfhhb"
unfolding sample_last toy new_envelope sign_receipt receipt_digest new_chain insert_member
    sort_members lt_codes join decimal quote utf8 reject_floats dump
sample_digest = refl

verify_bundle-CommitsTo_example : CommitsTo sample_head sample_last "sha256:bdbfhhb"
verify_bundle-CommitsTo_example =
    verify_bundle-CommitsTo toy true none sample (map dict sample_receipts) sample-IsAccepted
      sample_listed sample_head sample_last "sha256:bdbfhhb" sample_is_headed sample_is_last
      sample_digest

infinite_pass : Fields
infinite_pass = fields (
    ("receipt_id", str "r0")
    ∷ ("type", str "session.pass.created")
    ∷ (
      "body",
      obj (("spend_cap", obj (("minor", int (pos 5)) ∷ ("currency", str "USD") ∷ [])) ∷ []),
    )
    ∷ [])

infinite_amount : Fields
infinite_amount = fields (("minor", float (infinite false)) ∷ ("currency", str "USD") ∷ [])

infinite_settlement : Fields
unfolding infinite_amount
infinite_settlement = fields (
    ("receipt_id", str "r1")
    ∷ ("type", str "settlement")
    ∷ ("body", obj (("amount", dict infinite_amount) ∷ []))
    ∷ [])

infinite_bundle : Fields
unfolding infinite_pass infinite_settlement
infinite_bundle = fields (
    ("spec", str "continuity-receipt/0.6")
    ∷ ("task_id", str "task")
    ∷ ("receipts", list (cons (dict infinite_pass) (cons (dict infinite_settlement) nil)))
    ∷ [])

infinite_settlement-IsInfinite :
    IsInfinite (fields (("minor", int (pos 5)) ∷ ("currency", str "USD") ∷ [])) infinite_settlement
unfolding infinite_settlement py_eq
infinite_settlement-IsInfinite = record {
  settlement = refl;
  body = fields (("amount", dict infinite_amount) ∷ []);
  body_member = refl;
  amount = infinite_amount;
  amount_member = refl;
  same_currency = refl;
  negative = false;
  infinite_minor = refl;
}

infinite-Overflows : Overflows (well_formed (dict infinite_pass ∷ dict infinite_settlement ∷ []))
unfolding well_formed first_of_type infinite_pass
infinite-Overflows = record {
  pass = infinite_pass;
  first = refl;
  pass_body =
      fields (("spend_cap", obj (("minor", int (pos 5)) ∷ ("currency", str "USD") ∷ [])) ∷ []);
  pass_member = refl;
  cap = fields (("minor", int (pos 5)) ∷ ("currency", str "USD") ∷ []);
  cap_member = refl;
  before = infinite_pass ∷ [];
  receipt = infinite_settlement;
  after = [];
  split = refl;
  infinite = infinite_settlement-IsInfinite;
}

infinite_shallow : depth_exceeded (dict infinite_bundle) max_nesting_depth ≡ false
unfolding depth_exceeded infinite_bundle
infinite_shallow = refl

infinite_supported : text_in (get infinite_bundle "spec") supported_specs ≡ true
unfolding infinite_bundle
infinite_supported = refl

infinite_listed :
    as_list (get infinite_bundle "receipts")
    ≡ some (dict infinite_pass ∷ dict infinite_settlement ∷ [])
unfolding infinite_bundle
infinite_listed = refl

verify_bundle-Overflows_example :
    verify_bundle toy false none (dict infinite_bundle) ≡ overflow_error
verify_bundle-Overflows_example =
    verify_bundle-Overflows toy false none infinite_bundle (dict infinite_pass)
      (dict infinite_settlement ∷ []) infinite_shallow infinite_supported infinite_listed
      (omega arith) infinite-Overflows

nested : Value
nested = list (cons (list (cons null nil)) nil)

depth_exceeded-eq_levels_example : depth_exceeded nested 2 ≡ ltb 2 (1 + levels nested)
depth_exceeded-eq_levels_example = depth_exceeded-eq_levels nested 2

verdict-finish_example :
    (finish (collect (provisional anchor_missing ∷ fatal malformed null ∷ []))).verdict
    ≡ verdict_of (provisional anchor_missing ∷ fatal malformed null ∷ [])
verdict-finish_example = verdict-finish (provisional anchor_missing ∷ fatal malformed null ∷ [])

members_swapped :
    Same
      (dict (field "b" null (field "a" (bool true) end)))
      (dict (field "a" (bool true) (field "b" null end)))
members_swapped = dicts (swap "b" "a" null (bool true) end refl)

canonical_bytes-Same_example :
    canonical_bytes (dict (field "b" null (field "a" (bool true) end)))
    ≡ canonical_bytes (dict (field "a" (bool true) (field "b" null end)))
canonical_bytes-Same_example = canonical_bytes-Same members_swapped

merge_statements_lem_example :
    Distinct [] (merge_statements (revocation ∷ []) (some (revocation ∷ [])))
    × (merge_statements (merge_statements (revocation ∷ []) (some (revocation ∷ []))) none
        ≡ merge_statements (revocation ∷ []) (some (revocation ∷ [])))
merge_statements_lem_example = merge_statements_lem (revocation ∷ []) (some (revocation ∷ []))
