-- ===== src/Revocations/Merge.antt =====
-- Merging drops repeated statements, and nothing else.
use continuity_receipt.Base.{
  ◌++◌, Option, ap, false, ◌≡◌, refl, List, [], ◌∷◌, Bool-cases, inl, inr,
}
use mathlib.Core.List.{append-nil}
use continuity_receipt.Base.{none, ◌∙◌, ap}
use continuity_receipt.Value.{Value, dict}
use continuity_receipt.Revocations.{
  group_or_empty, merge_statements, Fingerprint, fingerprint, seen_in, merge_from,
}

-- The fingerprint of an object; what is no object is never compared.
abbrev Unseen : List Fingerprint → Value → Type 0
Unseen seen (dict d) = seen_in (fingerprint (dict d)) seen ≡ false
Unseen seen _ = Unit

-- No object has the fingerprint of an earlier one, nor one of `seen`.
abbrev pub Distinct : List Fingerprint → List Value → Type 0
Distinct seen [] = Unit
Distinct seen (dict d ∷ vs) =
    (seen_in (fingerprint (dict d)) seen ≡ false) × Distinct (fingerprint (dict d) ∷ seen) vs
Distinct seen (_ ∷ vs) = Distinct seen vs

Distinct-merge_from :
    (vs : List Value) (seen : List Fingerprint) → Distinct seen (merge_from seen vs)
unfolding merge_from
Distinct-merge_from [] seen = tt
Distinct-merge_from (dict d ∷ vs) seen = elim (Bool-cases (seen_in (fingerprint (dict d)) seen)) [
  | inl old ↦ rw old (Distinct-merge_from vs seen)
  | inr new ↦ rw new (new, Distinct-merge_from vs (fingerprint (dict d) ∷ seen))
]
Distinct-merge_from (v ∷ vs) seen = Distinct-merge_from vs seen

-- Where nothing repeats, merging keeps everything, in order.
merge_from-id :
    (vs : List Value) (seen : List Fingerprint) → Distinct seen vs → merge_from seen vs ≡ vs
unfolding merge_from
merge_from-id [] seen h = refl
merge_from-id (dict d ∷ vs) seen h =
    rw h.0 (ap (λ l. dict d ∷ l) (merge_from-id vs (fingerprint (dict d) ∷ seen) h.1))
merge_from-id (v ∷ vs) seen h = ap (λ l. v ∷ l) (merge_from-id vs seen h)

-- In a merged list no object has the fingerprint of an earlier one, and merging it again changes
-- nothing.
pub merge_statements_lem :
    (first : List Value) (second : Option (List Value))
    → Distinct [] (merge_statements first second)
      × (merge_statements (merge_statements first second) none ≡ merge_statements first second)
unfolding merge_statements
merge_statements_lem first second =
    let merged = merge_from [] (first ++ group_or_empty second) in
    let distinct = Distinct-merge_from (first ++ group_or_empty second) [] in
    (distinct, ap (merge_from []) (append-nil merged) ∙ merge_from-id merged [] distinct)

-- Two groups in which no fingerprint repeats are merged by putting them in a row.
pub merge_statements-append :
    (first : List Value) (second : Option (List Value))
    → Distinct [] (first ++ group_or_empty second)
    → merge_statements first second ≡ first ++ group_or_empty second
unfolding merge_statements
merge_statements-append first second distinct =
    merge_from-id (first ++ group_or_empty second) [] distinct
