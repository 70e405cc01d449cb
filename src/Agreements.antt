-- ===== src/Agreements.antt =====
-- continuity_receipt/agreements.py: the emitters of agreement records.
use continuity_receipt.Base.{String, Option, none, some, List, [], ◌∷◌, if◌then◌else◌, ◌>>=◌}
use continuity_receipt.Value.{Value, null, str, Fields, end, field, get, put, truthy, as_dict}
use continuity_receipt.Crypto.{Crypto}
use continuity_receipt.Canon.{canonical_bytes, sha256_prefixed}
use continuity_receipt.Records.Timestamp.{validate_timestamp}
use continuity_receipt.Bundle.{receipt_digest}

abbrev pub bound_types : List String
bound_types = "task.decision" ∷ "task.execution" ∷ "delivery.attestation" ∷ "settlement" ∷ []

-- `v or w`
abbrev or_value : Value → Value → Value
or_value v w = if truthy v then v else w

module _ (c : Crypto) where
  unfoldable pub terms_hash : Value → Option String
  unfolding sha256_prefixed canonical_bytes
  terms_hash terms = canonical_bytes terms >>= λ bytes. some (sha256_prefixed c bytes)

  -- `offer_body`; `none` is a ValueError, a `terms_ref` of `null` is none.
  unfoldable pub offer_body : String → String → Value → Value → String → Value → Option Fields
  unfolding terms_hash validate_timestamp
  offer_body offer_id offeree terms valid_until nonce terms_ref =
      if validate_timestamp valid_until
      then (terms_hash terms >>= λ hash.
          let body = field "offer_id" (str offer_id) (
            field "offeree" (str offeree) (
              field "terms_hash" (str hash)
                (field "valid_until" valid_until (field "nonce" (str nonce) end)))) in
          some (elim terms_ref [ null ↦ body | other ↦ put "terms_ref" other body ]))
      else none

  -- `accept_body`; `offer_id` and `offeree` are `null` where the caller gives none.
  unfoldable pub accept_body : Value → Value → Value → Option Fields
  accept_body offer_receipt offer_id offeree = as_dict offer_receipt >>= λ offer.
      as_dict (get offer "body") >>= λ body. receipt_digest c offer >>= λ digest. some (
        field "offer_ref" (str digest) (
          field "offer_id" (or_value offer_id (get body "offer_id")) (
            field "terms_hash" (get body "terms_hash")
              (field "offeree" (or_value offeree (get body "offeree")) end))))

  unfoldable pub bind_body : Value → Fields → Option Fields
  bind_body body accept_receipt = as_dict body >>= λ d.
      receipt_digest c accept_receipt >>= λ digest. some (put "agreement_ref" (str digest) d)
