-- ===== src/Checkpoint/Kept.antt =====
-- The checkpoint of an accepted import.
use continuity_receipt.Base.{
  ℕ, String, Bool, true, false, not, Option, none, some, List, ◌≡◌, refl, if◌then◌else◌,
}
use continuity_receipt.Value.{Value, str, dict, Fields, is_text}
use continuity_receipt.Value.Equal.{is_text-eq}
use continuity_receipt.Crypto.{Crypto}
use continuity_receipt.Canon.{canonical_bytes, sha256_prefixed}
use continuity_receipt.StrictJson.{Json, loads}
use continuity_receipt.Checkpoint.Time.{time}
use continuity_receipt.Checkpoint.Statement.{
  Core, ImportAssessment, Receiver, first_reason, rejection, max_age, shape_tests, assess_statement,
}
use continuity_receipt.Checkpoint.Current.{
  IsCurrent, Accepting, holds, no_reason, IsCurrent-assess_statement,
}
use continuity_receipt.Checkpoint.Signature.{IsVouched, IsVouched-sig_reason}
use continuity_receipt.Checkpoint.{assess_signed, sig_reason, assess_checkpoint}

pub unless :
    (b : Bool) (a : ImportAssessment) (reason : String) (core : Core) (d e : Option String)
    → Accepting (if b then rejection reason core d e else a)
    → (b ≡ false) × Accepting a
unless true a reason core d e h = cc
unless false a reason core d e h = (refl, h)

module _ (c : Crypto) (j : Json) (encode : List ℕ → String) where
  -- The checkpoint in the bytes is signed by the key, is the one whose digest the receiver keeps, and
  -- is current.
  pub record IsKept (key : List ℕ) (r : Receiver) (checkpoint : List ℕ) (digest : String)
      : Type 0 where
    pub members : Fields
    pub read : loads j checkpoint ≡ some (dict members)
    pub vouched : IsVouched c encode key members
    pub bytes : List ℕ
    pub encoded : canonical_bytes (dict members) ≡ some bytes
    pub reference : r.accepted_checkpoint_digest ≡ str (sha256_prefixed c bytes)
    pub now : ℕ
    pub age : ℕ
    pub now_is : time r.now ≡ some now
    pub age_is : max_age r.max_age_seconds ≡ some age
    pub current : IsCurrent members r now age digest

  IsKept-assess_signed :
      (key : List ℕ) (r : Receiver) (checkpoint : List ℕ) (digest : String) (core : Core)
      (cp : Fields) (now age : ℕ) (o : Option (List ℕ))
      → loads j checkpoint ≡ some (dict cp)
      → IsVouched c encode key cp
      → time r.now ≡ some now
      → max_age r.max_age_seconds ≡ some age
      → canonical_bytes (dict cp) ≡ o
      → Accepting (assess_signed c j encode cp r now age digest core o)
      → IsKept key r checkpoint digest
  unfolding assess_signed
  IsKept-assess_signed key r checkpoint digest core cp now age none read vouched n a e h = cc
  IsKept-assess_signed key r checkpoint digest core cp now age (some bytes) read vouched n a e h =
      let chash = sha256_prefixed c bytes in
      let (same, stated) =
        unless (not (is_text r.accepted_checkpoint_digest chash))
          (assess_statement cp r now age digest chash core) _ core (some digest) (some chash) h in
      record {
        members = cp;
        read = read;
        vouched = vouched;
        bytes = bytes;
        encoded = e;
        reference = is_text-eq r.accepted_checkpoint_digest chash (holds _ same);
        now = now;
        age = age;
        now_is = n;
        age_is = a;
        current = IsCurrent-assess_statement cp r now age digest chash core stated;
      }

  pub IsKept-assess_checkpoint :
      (key : List ℕ) (r : Receiver) (checkpoint : List ℕ) (digest : String) (core : Core)
      (now age : ℕ) (v : Value)
      → loads j checkpoint ≡ some v
      → time r.now ≡ some now
      → max_age r.max_age_seconds ≡ some age
      → Accepting (assess_checkpoint c j encode key r now age digest core v)
      → IsKept key r checkpoint digest
  unfolding assess_checkpoint
  IsKept-assess_checkpoint key r checkpoint digest core now age (dict cp) read n a h =
      let signed = assess_signed c j encode cp r now age digest core (canonical_bytes (dict cp)) in
      let (_, shaped) = no_reason (first_reason (shape_tests cp)) _ core (some digest) none h in
      let (vouched, accepted) =
        no_reason (sig_reason c j encode key cp) signed core (some digest) none shaped in
      IsKept-assess_signed key r checkpoint digest core cp now age (canonical_bytes (dict cp)) read
        (IsVouched-sig_reason c j encode key cp vouched) n a refl accepted
  IsKept-assess_checkpoint key r checkpoint digest core now age _ read n a h = cc
