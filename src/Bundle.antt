-- ===== src/Bundle.antt =====
-- continuity_receipt/bundle.py, with the envelopes of records.py that it builds: receipt digests,
-- task chains and bundles. The clock and the identifiers of `uuid7` are arguments; the signer is
-- `keys.sign(private_key, ·)`.
use continuity_receipt.Base.{
  ℕ, String, Option, none, some, List, [], ◌∷◌, ◌++◌, pos, length, str_eq, if◌then◌else◌, ◌>>=◌,
}
use continuity_receipt.Value.{
  Value, null, int, str, list, dict, Items, nil, cons, Fields, end, field, put,
}
use continuity_receipt.Crypto.{Crypto}
use continuity_receipt.Canon.{canonical_bytes, sha256_prefixed}
use continuity_receipt.Records.{spec_id, validate_body, unsigned_view, attestation_view}

-- `text or default`
abbrev pub or_default : String → String → String
or_default s d = if str_eq s "" then d else s

-- `new_envelope`; `none` is the ValueError of `validate_body`. `prev` is a digest or None.
unfoldable pub new_envelope :
    (task_id kind did receipt_id : String)
    → String
    → ℕ
    → Value
    → Value
    → String
    → String
    → Option Fields
unfolding validate_body
new_envelope task_id kind did receipt_id record_type seq prev body spec issued_at =
    let spec' = or_default spec spec_id in
    if validate_body record_type body (str spec')
    then some (
        field "spec" (str spec') (
          field "receipt_id" (str receipt_id) (
            field "task_id" (str task_id) (
              field "issued_at" (str issued_at) (
                field "issuer" (dict (field "kind" (str kind) (field "id" (str did) end))) (
                  field "type" (str record_type)
                    (field "seq" (int (pos seq)) (field "prev" prev (field "body" body end)))))))))
    else none

abbrev pub signature_of : String → String → Value
signature_of did value =
    dict (field "alg" (str "ed25519") (field "key" (str did) (field "value" (str value) end)))

-- `sign_receipt`; `none` is the ValueError of `canonical_bytes`.
unfoldable pub sign_receipt : (List ℕ → String) → String → Fields → Option Fields
unfolding canonical_bytes unsigned_view
sign_receipt signer did receipt = canonical_bytes (dict (unsigned_view receipt)) >>= λ message.
    some (put "sig" (signature_of did (signer message)) receipt)

-- `sign_body_attestation`
unfoldable pub sign_body_attestation : (List ℕ → String) → String → Fields → Option Value
unfolding canonical_bytes attestation_view
sign_body_attestation signer did body =
    canonical_bytes (dict (attestation_view body)) >>= λ message.
    some (signature_of did (signer message))

abbrev pub last? {ℓ} : {A : Type ℓ} → List A → Option A
last? [] = none
last? (x ∷ []) = some x
last? (x ∷ y ∷ xs) = last? (y ∷ xs)

abbrev pub items : List Fields → Items
items [] = nil
items (d ∷ ds) = cons (dict d) (items ds)

pub record TaskChain : Type 0 where
  pub task_id : String
  pub spec : String
  pub receipts : List Fields

-- `TaskChain.__init__`
unfoldable pub new_chain : String → String → TaskChain
new_chain task_id spec = record { task_id = task_id; spec = or_default spec spec_id; receipts = [] }

module _ (c : Crypto) where
  -- `none` where the receipt is not canonically encodable.
  unfoldable pub receipt_digest : Fields → Option String
  unfolding sha256_prefixed
  receipt_digest receipt =
      canonical_bytes (dict (unsigned_view receipt)) >>= λ message. some (sha256_prefixed c message)

  -- `prev` of the next receipt: None at the head of a chain.
  unfoldable pub next_prev : List Fields → Option Value
  next_prev receipts = elim (last? receipts) [
    | none ↦ some null
    | some r ↦ (receipt_digest r >>= λ d. some (str d))
  ]

  -- `TaskChain.add`: the new receipt and the longer chain, or an exception.
  unfoldable pub add :
      TaskChain
      → (List ℕ → String)
      → (kind did receipt_id issued_at : String) → String
      → Value
      → Option (Fields × TaskChain)
  unfolding next_prev
  add chain signer kind did receipt_id issued_at record_type body =
      next_prev chain.receipts >>= λ prev.
      new_envelope chain.task_id kind did receipt_id record_type (length chain.receipts) prev body
        chain.spec issued_at
      >>= λ envelope. sign_receipt signer did envelope >>= λ receipt.
          some (receipt, record chain { receipts = chain.receipts ++ receipt ∷ [] })

-- `if value: bundle[key] = value`
abbrev put_list : String → Items → Fields → Fields
put_list k nil d = d
put_list k (cons v vs) d = put k (list (cons v vs)) d

abbrev put_dict : String → Fields → Fields → Fields
put_dict k end d = d
put_dict k (field j v m) d = put k (dict (field j v m)) d

-- `TaskChain.bundle`
unfoldable pub make_bundle : TaskChain → Fields → Items → Items → Fields
make_bundle chain disclosure_map anchors revocations =
    let base =
      field "spec" (str chain.spec) (
        field "task_id" (str chain.task_id) (field "receipts" (list (items chain.receipts)) end)) in
    put_list "revocations" revocations
      (put_list "anchors" anchors (put_dict "disclosure_map" disclosure_map base))
