-- ===== src/Checkpoint/Signature.antt =====
-- The signature of an accepted checkpoint.
use continuity_receipt.Base.{
  ℕ, String, Bool, true, false, not, ◌&&◌, ◌==◌, Option, none, some, List, [], ◌∷◌, str_eq, length,
  ◌≡◌, ==_iff, eq_iff, &&_true, refl, if◌then◌else◌,
}
use continuity_receipt.Value.{
  Value, null, bool, int, float, str, list, dict, Fields, get, without, is_text,
}
use continuity_receipt.Value.Equal.{is_text-eq}
use continuity_receipt.Crypto.{Crypto}
use continuity_receipt.Canon.{canonical_bytes}
use continuity_receipt.Keys.{b64u_decode}
use continuity_receipt.Verify.Body.{keys_in}
use continuity_receipt.StrictJson.{Json}
use continuity_receipt.Checkpoint.Statement.{sig_value, all_in}
use continuity_receipt.Checkpoint.Current.{holds}
use continuity_receipt.Checkpoint.{signature_reason, sig_reason}

-- The checkpoint's own signature: its member `sig` is an object with the algorithm Ed25519 and a text
-- that is the encoding of 64 bytes, and the key verifies these over the checkpoint without `sig`.
pub record IsVouched (c : Crypto) (encode : List ℕ → String) (key : List ℕ) (cp : Fields)
    : Type 0 where
  pub sig : Fields
  pub sig_is : get cp "sig" ≡ dict sig
  pub alg_is : get sig "alg" ≡ str "Ed25519"
  pub value : String
  pub value_is : get sig "value" ≡ str value
  pub signature : List ℕ
  pub decoded : b64u_decode c value ≡ some signature
  pub has_length : length signature ≡ 64
  pub reencoded : encode signature ≡ value
  pub message : List ℕ
  pub view : canonical_bytes (dict (without "sig" cp)) ≡ some message
  pub verifies : c.ed25519_verify key signature message ≡ true

-- The signature's object and text.
SigText : Fields → String → Type 0
SigText cp value =
    (sig : Fields) × (get cp "sig" ≡ dict sig)
    × (get sig "alg" ≡ str "Ed25519")
    × (get sig "value" ≡ str value)

no_bar :
    (b : Bool) (o : Option String) (s : String)
    → (if b then some s else o) ≡ none
    → (b ≡ false) × (o ≡ none)
no_bar true o s h = cc
no_bar false o s h = (refl, h)

taken :
    (b : Bool) (o : Option String) (value : String)
    → (if b then o else none) ≡ some value
    → (b ≡ true) × (o ≡ some value)
taken true o value h = (refl, h)
taken false o value h = cc

value_text :
    (b : String → Bool) (v : Value) (value : String)
    → ◌≡◌ {A = Option String}
        (elim v [ str s ↦ if b s then some s else none | _ ↦ none ])
        (some value)
    → v ≡ str value
value_text b (str s) value h = cc (taken (b s) (some s) value h).1
value_text b null value h = cc
value_text b (bool x) value h = cc
value_text b (int z) value h = cc
value_text b (float f) value h = cc
value_text b (list vs) value h = cc
value_text b (dict d) value h = cc

SigText-sig_value :
    (cp : Fields) (value : String) → sig_value (get cp "sig") ≡ some value → SigText cp value
unfolding sig_value SigText
SigText-sig_value cp value = go (get cp "sig") refl
  where
    go : (v : Value) → get cp "sig" ≡ v → sig_value v ≡ some value → SigText cp value
    go (dict sig) e h =
        let (formed, texted) =
          taken
            ((keys_in ("alg" ∷ "value" ∷ []) sig && all_in ("alg" ∷ "value" ∷ []) sig)
              && is_text (get sig "alg") "Ed25519")
            _ value h in
        let (_, alg) = (&&_true _ (is_text (get sig "alg") "Ed25519")).0 formed in
        (
          sig,
          e,
          is_text-eq (get sig "alg") "Ed25519" alg,
          value_text _ (get sig "value") value texted,
        )
    go null e h = cc
    go (bool x) e h = cc
    go (int z) e h = cc
    go (float f) e h = cc
    go (str s) e h = cc
    go (list vs) e h = cc

module _ (c : Crypto) (j : Json) (encode : List ℕ → String) where
  IsVouched-signature_reason :
      (key : List ℕ) (cp : Fields) (value : String)
      → SigText cp value
      → signature_reason c j encode key cp value ≡ none
      → IsVouched c encode key cp
  unfolding SigText
  IsVouched-signature_reason key cp value (sig, sig_is, alg_is, value_is) =
      go (b64u_decode c value) (canonical_bytes (dict (without "sig" cp))) refl refl
    where
      go :
          (raw view : Option (List ℕ))
          → b64u_decode c value ≡ raw
          → canonical_bytes (dict (without "sig" cp)) ≡ view
          → ◌≡◌ {A = Option String}
              (elim raw [
                | none ↦ some "checkpoint_invalid"
                | some s ↦
                    if not ((length s == 64) && str_eq (encode s) value)
                    then some "checkpoint_signature_invalid"
                    else elim view [
                      | none ↦ some "checkpoint_invalid"
                      | some m ↦
                          if not (c.ed25519_verify key s m)
                          then some "checkpoint_bad_signature"
                          else none
                    ]
              ])
              none
          → IsVouched c encode key cp
      go none view d e h = cc
      go (some s) none d e h =
          let (_, k) =
            no_bar (not ((length s == 64) && str_eq (encode s) value)) (some "checkpoint_invalid") _
              h in
          cc k
      go (some s) (some m) d e h =
          let (formed, k) =
            no_bar (not ((length s == 64) && str_eq (encode s) value))
              (if not (c.ed25519_verify key s m) then some "checkpoint_bad_signature" else none) _
              h in
          let (long, same) =
            (&&_true (length s == 64) (str_eq (encode s) value)).0 (holds _ formed) in
          record {
            sig = sig;
            sig_is = sig_is;
            alg_is = alg_is;
            value = value;
            value_is = value_is;
            signature = s;
            decoded = d;
            has_length = (==_iff (length s) 64).0 long;
            reencoded = (eq_iff (encode s) value).0 same;
            message = m;
            view = e;
            verifies =
                holds (c.ed25519_verify key s m)
                  (no_bar (not (c.ed25519_verify key s m)) none _ k).0;
          }

  pub IsVouched-sig_reason :
      (key : List ℕ) (cp : Fields) → sig_reason c j encode key cp ≡ none → IsVouched c encode key cp
  unfolding sig_reason
  IsVouched-sig_reason key cp = go (sig_value (get cp "sig")) refl
    where
      go :
          (o : Option String)
          → sig_value (get cp "sig") ≡ o
          → ◌≡◌ {A = Option String}
              (elim o [
                | none ↦ some "checkpoint_signature_invalid"
                | some value ↦ signature_reason c j encode key cp value
              ])
              none
          → IsVouched c encode key cp
      go none e h = cc
      go (some value) e h = IsVouched-signature_reason key cp value (SigText-sig_value cp value e) h
