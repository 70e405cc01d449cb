-- ===== src/WitnessFile.antt =====
-- continuity_receipt/witness_file.py: `WitnessPublication` with its test and its update. The file is
-- the value that its text decodes to; opening, locking and replacing it are the operating system's.
pub mod Floor
pub mod Ready
use continuity_receipt.Base.{
  ℕ, String, not, ◌&&◌, ◌||◌, ◌==◌, Option, none, some, pos, ltb, str_eq, if◌then◌else◌,
}
use continuity_receipt.Value.{Value, null, int, str, dict, Fields, end, field}
use continuity_receipt.Witness.{Result, done, raises, OffHostWitness, from_dict, differs_from}

-- The text of an unreadable file is refused with an error.
pub data WitnessFile : Type 0 where
  missing : WitnessFile
  unreadable : String → WitnessFile
  holds : Value → WitnessFile

-- The reference of the receiver's store.
pub record Reference : Type 0 where
  pub sequence : ℕ
  pub checkpoint_digest : String
  pub generation_id : String

abbrev pub present : Result OffHostWitness → Result (Option OffHostWitness)
present (done w) = done (some w)
present (raises code) = raises code

-- `_existing`, with `_parse_witness` after the decoder.
unfoldable pub existing : WitnessFile → Result (Option OffHostWitness)
unfolding from_dict
existing missing = done none
existing (unreadable code) = raises code
existing (holds v) = present (from_dict v null)

-- `ensure_not_ahead`; `none` is its return.
unfoldable pub ensure_not_ahead : Option OffHostWitness → Option Reference → Option String
ensure_not_ahead none reference = none
ensure_not_ahead (some w) none = some "witness_ahead_of_local_reference"
ensure_not_ahead (some w) (some r) =
    if ltb r.sequence w.min_sequence
    then some "witness_ahead_of_local_reference"
    else if w.min_sequence == r.sequence
    then (if not (str_eq w.latest_checkpoint r.checkpoint_digest)
        then some "witness_local_reference_conflict"
        else if differs_from w.generation_id (some r.generation_id)
        then some "witness_local_reference_conflict"
        else none)
    else none

-- `data` of `commit`
abbrev pub data_of : Reference → Fields
data_of r = field "sequence" (int (pos r.sequence)) (
    field "checkpoint_digest" (str r.checkpoint_digest)
      (field "generation_id" (str r.generation_id) end))

-- The error of an incoming witness, if it may not follow the existing one.
unfoldable pub drift : Option OffHostWitness → OffHostWitness → Option String
drift none incoming = none
drift (some w) incoming =
    if ltb incoming.min_sequence w.min_sequence
    then some "witness_sequence_regression"
    else if (w.min_sequence == incoming.min_sequence)
        && (not (str_eq w.latest_checkpoint incoming.latest_checkpoint)
            || differs_from w.generation_id incoming.generation_id)
    then some "witness_checkpoint_conflict"
    else none

-- `commit`: the file after it.
unfoldable pub commit : WitnessFile → Reference → Result WitnessFile
unfolding existing drift
commit file r = elim (from_dict (dict (data_of r)) null) [
  | raises code ↦ raises code
  | done incoming ↦ elim (existing file) [
    | raises code ↦ raises code
    | done w ↦ elim (drift w incoming) [
      | some code ↦ raises code
      | none ↦ done (holds (dict (data_of r)))
    ]
  ]
]
