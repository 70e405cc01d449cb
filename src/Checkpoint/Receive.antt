-- ===== src/Checkpoint/Receive.antt =====
-- What `assess_import` accepts, and what `receive_bundle` gives to the sink.
use continuity_receipt.Base.{
  ℕ, ◌≤◌, String, false, Option, none, some, List, ltb, length, ◌≡◌, refl, if◌then◌else◌, ◌>>=◌,
}
use continuity_receipt.Value.{Value, dict}
use continuity_receipt.Crypto.{Crypto}
use continuity_receipt.Canon.{canonical_bytes, sha256_prefixed}
use continuity_receipt.StrictJson.{Json, loads}
use continuity_receipt.Verify.Main.{verify_bundle}
use continuity_receipt.Checkpoint.Statement.{
  Receiver, Decision, accept, needs_evidence, reject, max_bundle_bytes,
}
use continuity_receipt.Checkpoint.Current.{Accepting}
use continuity_receipt.Checkpoint.Kept.{unless}
use continuity_receipt.Checkpoint.Accepts.{IsImportable, IsImportable-assess_core, within}
use continuity_receipt.Checkpoint.{
  assess_object, object_of, assess_import, receive_bundle, is_accept,
}

module _ (c : Crypto) (j : Json) (encode : List ℕ → String) where
  IsImportable-assess_object :
      (bytes : List ℕ) (given : Option (List ℕ)) (r : Receiver) (o : Option Value)
      → loads j bytes ≡ o
      → length bytes ≤ max_bundle_bytes
      → Accepting
          (assess_object c j encode (object_of c j encode o) given r (sha256_prefixed c bytes))
      → IsImportable c j encode r bytes given
  unfolding assess_object
  IsImportable-assess_object bytes given r none parsed bounded h = cc
  IsImportable-assess_object bytes given r (some (dict d)) parsed bounded h =
      go (canonical_bytes (dict d)) h
    where
      go :
          (o : Option (List ℕ))
          → Accepting
              (assess_object c j encode (o >>= λ encoded. some d) given r (sha256_prefixed c bytes))
          → IsImportable c j encode r bytes given
      go none k = cc
      go (some encoded) k =
          IsImportable-assess_core c j encode d bytes given r (verify_bundle c false none (dict d))
            parsed bounded refl k
  IsImportable-assess_object bytes given r (some _) parsed bounded h = cc

  -- `assess_import` returns ACCEPT only for bytes of an object that the verifier calls TRUSTED, of
  -- version 0.5, with a checkpoint whose digest the receiver keeps, and which names the receiver's
  -- context, the digest of the bytes and a window of the receiver's age around now. The checkpoint's
  -- own member `sig` has the encoding of 64 bytes, and the receiver's trusted key verifies these over
  -- the canonical bytes of the checkpoint without `sig`.
  pub assess_import-IsImportable :
      (bytes : List ℕ) (given : Option (List ℕ)) (r : Receiver)
      → (assess_import c j encode bytes given r).outcome ≡ accept
      → IsImportable c j encode r bytes given
  unfolding assess_import
  assess_import-IsImportable bytes given r h =
      let (bounded, accepted) =
        unless (ltb max_bundle_bytes (length bytes))
          (assess_object c j encode (object_of c j encode (loads j bytes)) given r
            (sha256_prefixed c bytes))
          _ _ none none h in
      IsImportable-assess_object bytes given r (loads j bytes) refl
        (within max_bundle_bytes (length bytes) bounded) accepted

  delivered :
      (d : Decision) (o : Option Value) (v : Value)
      → (if is_accept c j encode d then o else none) ≡ some v
      → (d ≡ accept) × (o ≡ some v)
  delivered accept o v h = (refl, h)
  delivered needs_evidence o v h = cc
  delivered reject o v h = cc

  -- What `receive_bundle` gives to the sink is what the bytes decode to, and they may be imported.
  pub receive_bundle-IsImportable :
      (bytes : List ℕ) (given : Option (List ℕ)) (r : Receiver) (v : Value)
      → (receive_bundle c j encode bytes given r).1 ≡ some v
      → (loads j bytes ≡ some v) × IsImportable c j encode r bytes given
  unfolding receive_bundle
  receive_bundle-IsImportable bytes given r v h =
      let (accepted, same) =
        delivered (assess_import c j encode bytes given r).outcome (loads j bytes) v h in
      (same, assess_import-IsImportable bytes given r accepted)
