-- ===== src/Tests/Publication.antt =====
-- Witness files that are published to.
use continuity_receipt.Base.{ℕ, String, none, some, ◌≡◌, refl, inl, ◌↔◌, arith, pos, ◌<◌}
use Prim.Native.String.{◌++◌ as append_text}
use continuity_receipt.Tests.{repeated}
use continuity_receipt.Value.{int, str, null, dict}
use continuity_receipt.Verify.Body.{is_hex, is_digest}
use continuity_receipt.Witness.{OffHostWitness, done, trusted, verify_at, verify_witness}
use continuity_receipt.Witness.Follows.{IsTrusted, verify_witness-IsTrusted}
use continuity_receipt.WitnessFile.{
  WitnessFile, holds, Reference, existing, ensure_not_ahead, data_of, commit,
}
use continuity_receipt.WitnessFile.Floor.{Holds, here, next, commits, Reaches-verify_at}
use continuity_receipt.WitnessFile.Ready.{IsReference, witness_of, commit-ensure_not_ahead}

abbrev reference : ℕ → String → Reference
reference n s = record {
  sequence = n;
  checkpoint_digest = append_text "sha256:" (repeated 64 s);
  generation_id = repeated 32 s;
}

first : Reference
first = reference 1 "a"

second : Reference
second = reference 2 "b"

-- The file after the first and after the second reference.
file_of : Reference → WitnessFile
file_of r = holds (dict (data_of r))

first_held : Holds (file_of first) (witness_of first)
unfolding file_of first existing
first_held = refl

second_step : commit (file_of first) second ≡ done (file_of second)
unfolding file_of first second commit
second_step = refl

Reaches-verify_at_example :
    (v : OffHostWitness) × Holds (file_of second) v
    × (verify_at (witness_of first) v.min_sequence v.latest_checkpoint v.generation_id ≡ trusted)
Reaches-verify_at_example =
    Reaches-verify_at (file_of first) (file_of second) (witness_of first) first_held
      (next here (commits second second_step))

first_passes : ensure_not_ahead (some (witness_of first)) (some first) ≡ none
unfolding first ensure_not_ahead
first_passes = refl

second-IsReference : IsReference second
unfolding second is_digest is_hex
second-IsReference = record { counted = omega arith; digest_form = refl; generation_form = refl }

second_later : first.sequence < second.sequence
unfolding first second
second_later = omega arith

commit-ensure_not_ahead_example :
    commit (file_of first) second ≡ done (holds (dict (data_of second)))
commit-ensure_not_ahead_example =
    commit-ensure_not_ahead (file_of first) (some (witness_of first)) (some first) second first_held
      first_passes (inl second_later) second-IsReference

verify_witness-IsTrusted_example :
    verify_witness (witness_of first) (int (pos 2)) (str second.checkpoint_digest) null ≡ trusted
    ↔ IsTrusted (witness_of first) (int (pos 2)) (str second.checkpoint_digest) null
verify_witness-IsTrusted_example =
    verify_witness-IsTrusted (witness_of first) (int (pos 2)) (str second.checkpoint_digest) null
