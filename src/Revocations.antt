-- ===== src/Revocations.antt =====
-- `merge_statements` and `verify_statements` of continuity_receipt/revocations.py.
pub mod Merge
use continuity_receipt.Base.{
  ℕ, String, Bool, true, false, not, ◌&&◌, ◌||◌, Option, none, some, List, [], ◌∷◌, ◌++◌, ◌==◌,
  if◌then◌else◌, ◌>>=◌,
}
use continuity_receipt.Value.{Value, str, dict, Fields, get, without, as_dict, is_text, truthy}
use continuity_receipt.Value.Equal.{identical}
use continuity_receipt.Crypto.{Crypto}
use continuity_receipt.Canon.{canonical_bytes}
use continuity_receipt.Keys
use continuity_receipt.Keys.{did_key_to_pubkey}
use continuity_receipt.Records.Timestamp.{timestamp}

-- The canonical bytes of a statement, or its `repr` where it has none.
pub data Fingerprint : Type 0 where
  bytes : List ℕ → Fingerprint
  repr : Value → Fingerprint

unfoldable pub fingerprint : Value → Fingerprint
unfolding canonical_bytes
fingerprint v = elim (canonical_bytes v) [ none ↦ repr v | some b ↦ bytes b ]

unfoldable pub bytes_eq : List ℕ → List ℕ → Bool
bytes_eq [] [] = true
bytes_eq (a ∷ s) (b ∷ t) = a == b && bytes_eq s t
bytes_eq _ _ = false

unfoldable pub same_fingerprint : Fingerprint → Fingerprint → Bool
unfolding bytes_eq identical
same_fingerprint (bytes a) (bytes b) = bytes_eq a b
same_fingerprint (repr v) (repr w) = identical v w
same_fingerprint _ _ = false

unfoldable pub seen_in : Fingerprint → List Fingerprint → Bool
unfolding same_fingerprint
seen_in f [] = false
seen_in f (g ∷ gs) = same_fingerprint f g || seen_in f gs

-- The statements of one sequence with those before it: `seen` holds their fingerprints. What is no
-- object passes through.
unfoldable pub merge_from : List Fingerprint → List Value → List Value
unfolding seen_in
merge_from seen [] = []
merge_from seen (dict d ∷ vs) =
    let f = fingerprint (dict d) in
    let skip = merge_from seen vs in
    let keep = dict d ∷ merge_from (f ∷ seen) vs in if seen_in f seen then skip else keep
merge_from seen (v ∷ vs) = v ∷ merge_from seen vs

abbrev pub group_or_empty : Option (List Value) → List Value
group_or_empty none = []
group_or_empty (some vs) = vs

-- `merge_statements(first, second)`
unfoldable pub merge_statements : List Value → Option (List Value) → List Value
merge_statements first second = merge_from [] (first ++ group_or_empty second)

-- What a statement comes to: an exception, an error, or a verified key with its instant.
pub data Checked : Type 0 where
  raises : Checked
  rejected : Checked
  revokes : String → ℕ → Checked

module _ (c : Crypto) where
  -- `keys.verify(key, message, value)`: decoding a signature that is no text raises a TypeError,
  -- unless the key is refused first.
  unfoldable pub check_signed : String → ℕ → List ℕ → Value → Checked
  check_signed key at message (str value) =
      if Keys.verify c key message value then revokes key at else rejected
  check_signed key at message _ = elim (did_key_to_pubkey key) [ none ↦ rejected | some k ↦ raises ]

  check_sig : String → ℕ → Fields → Value → Checked
  unfolding canonical_bytes
  check_sig key at statement sig = elim (as_dict sig) [
    | none ↦ rejected
    | some s ↦
        if not (is_text (get s "alg") "ed25519") || not (truthy (get s "value"))
        then rejected
        else elim (canonical_bytes (dict (without "sig" statement))) [
          | none ↦ raises
          | some message ↦ check_signed key at message (get s "value")
        ]
  ]

  check_key : Value → Value → Fields → Checked
  unfolding check_sig
  check_key (str key) revoked_at statement = elim (timestamp revoked_at) [
    | none ↦ rejected
    | some at ↦ check_sig key at statement (get statement "sig")
  ]
  check_key _ revoked_at statement = rejected

  unfoldable pub check_statement : Value → Checked
  unfolding check_key
  check_statement (dict d) = check_key (get d "key") (get d "revoked_at") d
  check_statement _ = rejected

  -- The verified keys with their instants, and the number of errors; `none` is an exception.
  unfoldable pub verify_statements : List Value → Option (List (String × ℕ) × ℕ)
  verify_statements [] = some ([], 0)
  verify_statements (v ∷ vs) =
      let rest = verify_statements vs in
      elim (check_statement v) [
        | raises ↦ none
        | rejected ↦ (rest >>= λ (revoked, errors). some (revoked, ℕ.suc errors))
        | revokes key at ↦ (rest >>= λ (revoked, errors). some ((key, at) ∷ revoked, errors))
      ]
