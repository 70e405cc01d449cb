-- ===== src/WitnessFile/Ready.antt =====
-- What `ensure_not_ahead` promises the commit that follows it.
use continuity_receipt.Base.{
  ℕ, zero, suc, ◌<◌, ◌≤◌, String, true, Option, none, some, ltb, str_eq, eq_iff, if◌then◌else◌, ◌≡◌,
  refl, ap, ◌∙◌, ◌⊎◌, inl, inr, arith, pos, ◌==◌,
}
use mathlib.Core.Path.{subst}
use continuity_receipt.Value.{null, int, str, dict}
use continuity_receipt.Value.Number.{codes}
use continuity_receipt.Verify.Body.{is_hex, is_digest, keys_in}
use continuity_receipt.Witness.{
  done, raises, OffHostWitness, from_dict, differs_from, new_witness, read_digest, read_generation,
  pin,
}
use continuity_receipt.WitnessFile.{
  WitnessFile, holds, Reference, existing, ensure_not_ahead, data_of, drift, commit,
}
use continuity_receipt.Witness.Follows.{all_pass, unequal, Follows, Follows-trans, not_below}
use continuity_receipt.WitnessFile.Floor.{drift-Follows}

-- A reference of a store: its sequence starts at 1, the digest and the generation have their forms.
pub record IsReference (r : Reference) : Type 0 where
  pub counted : 1 ≤ r.sequence
  pub digest_form : is_digest "sha256:" (str r.checkpoint_digest) ≡ true
  pub generation_form : is_hex 32 (codes r.generation_id) ≡ true

-- The witness of a reference.
abbrev pub witness_of : Reference → OffHostWitness
witness_of r = record {
  min_sequence = r.sequence;
  latest_checkpoint = r.checkpoint_digest;
  generation_id = some r.generation_id;
  expected_checkpoint_digest = none;
}

new_witness_lem :
    (n : ℕ) (digest generation : String)
    → 1 ≤ n
    → is_digest "sha256:" (str digest) ≡ true
    → is_hex 32 (codes generation) ≡ true
    → new_witness (int (pos n)) (str digest) (str generation) null
      ≡ done (record {
        min_sequence = n;
        latest_checkpoint = digest;
        generation_id = some generation;
        expected_checkpoint_digest = none;
      })
unfolding new_witness read_digest read_generation pin
new_witness_lem zero digest generation h d g = absurd (omega arith)
new_witness_lem (suc n) digest generation h d g =
    ap
      (λ b. elim (if b then some digest else none) [
        | none ↦ raises "off_host_witness_checkpoint_invalid"
        | some c ↦ elim (read_generation (str generation)) [
          | none ↦ raises "off_host_witness_generation_invalid"
          | some o ↦ pin (suc n) c o null
        ]
      ])
      d
    ∙ ap
        (λ b. elim (if b then some (some generation) else none) [
          | none ↦ raises "off_host_witness_generation_invalid"
          | some o ↦ pin (suc n) digest o null
        ])
        g

from_dict-data_of :
    (r : Reference) → IsReference r → from_dict (dict (data_of r)) null ≡ done (witness_of r)
unfolding from_dict keys_in
from_dict-data_of r v =
    new_witness_lem r.sequence r.checkpoint_digest r.generation_id v.counted v.digest_form
      v.generation_form

-- The local reference is followed by the next one: any, if there is none; else itself or a later one.
abbrev pub Advances : Option Reference → Reference → Type 0
Advances none r = Unit
Advances (some known) r = (known.sequence < r.sequence) ⊎ (known ≡ r)

Follows-ensure_not_ahead :
    (w : OffHostWitness) (r : Reference)
    → ensure_not_ahead (some w) (some r) ≡ none
    → Follows w (witness_of r)
unfolding ensure_not_ahead
Follows-ensure_not_ahead w r h =
    let (above, rest) =
      all_pass (ltb r.sequence w.min_sequence) (w.min_sequence == r.sequence)
        (str_eq w.latest_checkpoint r.checkpoint_digest)
        (differs_from w.generation_id (some r.generation_id)) _ _ h in
    elim (not_below w.min_sequence r.sequence above) [
      | inl higher ↦ inl higher
      | inr level ↦ elim rest [
        | inl apart ↦ absurd (unequal (w.min_sequence == r.sequence) (ground arith) apart)
        | inr (checkpoint, generation) ↦
            inr (level, (eq_iff w.latest_checkpoint r.checkpoint_digest).0 checkpoint, generation)
      ]
    ]

-- The reference that advances the known one may follow the witness.
drift-ensure_not_ahead :
    (e : Option OffHostWitness) (known : Option Reference) (r : Reference)
    → ensure_not_ahead e known ≡ none
    → Advances known r
    → drift e (witness_of r) ≡ none
unfolding ensure_not_ahead drift
drift-ensure_not_ahead none known r h a = refl
drift-ensure_not_ahead (some w) none r h a = cc
drift-ensure_not_ahead (some w) (some known) r h (inl later) = drift-Follows w (witness_of r) (
    Follows-trans w (witness_of known) (witness_of r) (Follows-ensure_not_ahead w known h)
      (inl later))
drift-ensure_not_ahead (some w) (some known) r h (inr same) =
    drift-Follows w (witness_of r)
      (subst (λ k. Follows w (witness_of k)) same (Follows-ensure_not_ahead w known h))

-- After `ensure_not_ahead` lets the local reference pass, `commit` writes that reference or a later one:
-- the file is readable, and the reference that is committed has the form of a store's references.
pub commit-ensure_not_ahead :
    (f : WitnessFile) (e : Option OffHostWitness) (known : Option Reference) (r : Reference)
    → existing f ≡ done e
    → ensure_not_ahead e known ≡ none
    → Advances known r
    → IsReference r
    → commit f r ≡ done (holds (dict (data_of r)))
unfolding commit
commit-ensure_not_ahead f e known r found passed advances valid =
    ap
      (λ m. elim m [
        | raises code ↦ raises code
        | done v ↦ elim (existing f) [
          | raises code ↦ raises code
          | done w ↦ elim (drift w v) [
            | some code ↦ raises code
            | none ↦ done (holds (dict (data_of r)))
          ]
        ]
      ])
      (from_dict-data_of r valid)
    ∙ ap
        (λ m. elim m [
          | raises code ↦ raises code
          | done w ↦ elim (drift w (witness_of r)) [
            | some code ↦ raises code
            | none ↦ done (holds (dict (data_of r)))
          ]
        ])
        found
    ∙ ap (λ o. elim o [ some code ↦ raises code | none ↦ done (holds (dict (data_of r))) ])
        (drift-ensure_not_ahead e known r passed advances)
