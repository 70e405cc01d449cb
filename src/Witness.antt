-- ===== src/Witness.antt =====
-- continuity_receipt/witness.py: a floor under the sequence of checkpoints. A witness is made of valid
-- members only; the texts of errors are kept, those of the reasons are constructors.
pub mod Follows
use continuity_receipt.Base.{
  ℕ, suc, String, Bool, true, false, not, ◌&&◌, ◌==◌, Option, none, some, [], ◌∷◌, pos, ltb, str_eq,
  if◌then◌else◌,
}
use continuity_receipt.Value.{Value, null, int, str, dict, get, has}
use continuity_receipt.Value.Number.{codes}
use continuity_receipt.Verify.Body.{is_hex, is_digest, keys_in}

-- What a call returns, or the ValueError that it raises.
pub data Result {ℓ} (A : Type ℓ) : Type ℓ where
  done : A → Result A
  raises : String → Result A

-- `_sequence_valid`, with the number that it lets through.
abbrev pub read_sequence : Value → Option ℕ
read_sequence (int (pos (suc n))) = some (suc n)
read_sequence _ = none

-- `_digest_valid`
unfoldable pub read_digest : Value → Option String
unfolding is_digest
read_digest (str s) = if is_digest "sha256:" (str s) then some s else none
read_digest _ = none

-- `_generation_valid`
unfoldable pub read_generation : Value → Option (Option String)
unfolding is_hex
read_generation null = some none
read_generation (str s) = if is_hex 32 (codes s) then some (some s) else none
read_generation _ = none

pub record OffHostWitness : Type 0 where
  pub min_sequence : ℕ
  pub latest_checkpoint : String
  pub generation_id : Option String
  pub expected_checkpoint_digest : Option String

-- The last tests of `__post_init__`.
unfoldable pub pin : ℕ → String → Option String → Value → Result OffHostWitness
unfolding read_digest
pin sequence checkpoint generation null = done (record {
  min_sequence = sequence;
  latest_checkpoint = checkpoint;
  generation_id = generation;
  expected_checkpoint_digest = none;
})
pin sequence checkpoint generation expected = elim (read_digest expected) [
  | none ↦ raises "off_host_witness_expected_reference_invalid"
  | some digest ↦
      if not (str_eq digest checkpoint)
      then raises "off_host_witness_reference_mismatch"
      else done (record {
        min_sequence = sequence;
        latest_checkpoint = checkpoint;
        generation_id = generation;
        expected_checkpoint_digest = some digest;
      })
]

-- The constructor with `__post_init__`.
unfoldable pub new_witness :
    (sequence checkpoint generation expected : Value) → Result OffHostWitness
unfolding read_digest read_generation pin
new_witness sequence checkpoint generation expected = elim (read_sequence sequence) [
  | none ↦ raises "off_host_witness_sequence_invalid"
  | some n ↦ elim (read_digest checkpoint) [
    | none ↦ raises "off_host_witness_checkpoint_invalid"
    | some digest ↦ elim (read_generation generation) [
      | none ↦ raises "off_host_witness_generation_invalid"
      | some g ↦ pin n digest g expected
    ]
  ]
]

-- `OffHostWitness.from_dict`
unfoldable pub from_dict : Value → Value → Result OffHostWitness
unfolding new_witness keys_in
from_dict (dict data') expected =
    if (has "sequence" data' && has "checkpoint_digest" data')
      && keys_in ("sequence" ∷ "checkpoint_digest" ∷ "generation_id" ∷ []) data'
    then new_witness (get data' "sequence") (get data' "checkpoint_digest")
        (get data' "generation_id") expected
    else raises "off_host_witness_invalid"
from_dict _ expected = raises "off_host_witness_invalid"

-- The answer of `verify`, with the reason where it is not trusted.
pub data Answer : Type 0 where
  trusted : Answer
  sequence_invalid : Answer
  checkpoint_invalid : Answer
  generation_invalid : Answer
  below_witness : (sequence min_sequence : ℕ) → Answer
  checkpoint_mismatch : ℕ → Answer
  generation_mismatch : ℕ → Answer

-- `a is not None and b != a`
abbrev pub differs_from : Option String → Option String → Bool
differs_from none b = false
differs_from (some a) none = true
differs_from (some a) (some b) = not (str_eq b a)

-- The tests of `OffHostWitness.verify` after those of the arguments.
unfoldable pub verify_at : OffHostWitness → ℕ → String → Option String → Answer
verify_at w sequence digest generation =
    if ltb sequence w.min_sequence
    then below_witness sequence w.min_sequence
    else if sequence == w.min_sequence
    then (if not (str_eq digest w.latest_checkpoint)
        then checkpoint_mismatch sequence
        else if differs_from w.generation_id generation
        then generation_mismatch sequence
        else trusted)
    else trusted

-- `OffHostWitness.verify`
unfoldable pub verify_witness : OffHostWitness → (sequence digest generation : Value) → Answer
unfolding read_digest read_generation verify_at
verify_witness w sequence digest generation = elim (read_sequence sequence) [
  | none ↦ sequence_invalid
  | some n ↦ elim (read_digest digest) [
    | none ↦ checkpoint_invalid
    | some d ↦ elim (read_generation generation) [
      | none ↦ generation_invalid
      | some g ↦ verify_at w n d g
    ]
  ]
]
