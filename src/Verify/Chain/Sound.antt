-- ===== src/Verify/Chain/Sound.antt =====
-- A report without fatal entries means a chain.
use continuity_receipt.Base.{
  suc, &&_true, pos, none, ◌&&◌, is_some, Option, not, ◌∷◌, [], ◌||◌, Bool, if◌then◌else◌, ℕ,
  String, true, false, ◌≡◌, refl, List, some, inl, inr, arith, Bool-cases, Option-cases, str_eq,
  eq_iff, ◌∙◌, sym, ap,
}
use continuity_receipt.Verify.Report.Grade.{
  fatal_free_parts, fatal_free, fatal_free-append, fatal_free-fatal_if,
}
use continuity_receipt.Records.{
  spec_06, specs_from_05, required_fields, missing_from, supported_specs,
}
use continuity_receipt.Records.{is_empty}
use continuity_receipt.Verify.Chain.{
  validate_timestamp, check_receipts, check_receipt, check_06_body, check_05_body, check_typed,
  issuer_id_or_empty, verifies_sig,
}
use continuity_receipt.Verify.Shape.{check_receipt_shape, check_receipt_shapes}
use continuity_receipt.Verify.Report.Grade.{fatal_free_parts}
use continuity_receipt.Verify.Report.Grade.{taken}
use continuity_receipt.Value.{
  is_dict, is_nonempty_text, is_text, text_in, Value, null, bool, int, float, str, list, dict,
  Fields, end, field, get, lookup, without,
}
use continuity_receipt.Value.Equal.{py_eq-IsPosition, py_eq, py_eq-str, py_eq-null, IsPosition}
use continuity_receipt.Crypto.{Crypto}
use continuity_receipt.Canon.{canonical_bytes, reject_floats}
use continuity_receipt.Keys
use continuity_receipt.Records.{supported_specs, unsigned_view}
use continuity_receipt.Bundle.{receipt_digest}
use continuity_receipt.Verify.Chain.{
  known_type, check_body, has_signature, signature_verifies, link_after,
}
use continuity_receipt.Verify.Chain.Linked.{
  IsChain, IsLinked, IsSigned, IsIndex, integer, zero_as_false, one_as_true, IsLink, start, digest,
}

||_false : (a b : Bool) → (a || b) ≡ false → (a ≡ false) × (b ≡ false)
||_false a b h = ground arith

reject_floats-cond :
    (b : Bool) (i : String) (w : Value) (d : Fields)
    → reject_floats (dict (if b then d else field i w d)) ≡ false
    → (reject_floats (dict d) ≡ false) × (b ≡ false → reject_floats w ≡ false)
unfolding reject_floats
reject_floats-cond true i w d free = (free, λ e. cc)
reject_floats-cond false i w d free =
    let parts = ||_false (reject_floats w) (reject_floats (dict d)) free in (parts.1, λ e. parts.0)

-- A member of an object without floats has none, unless it was dropped.
reject_floats-lookup :
    (k j : String) (d : Fields) (v : Value)
    → str_eq j k ≡ false
    → reject_floats (dict (without k d)) ≡ false
    → lookup j d ≡ some v
    → reject_floats v ≡ false
reject_floats-lookup k j end v ne free e = cc
reject_floats-lookup k j (field i w d) v ne free e = elim (Bool-cases (str_eq i j)) [
  | inl same ↦
      let ne' : str_eq i k ≡ false = rw ((eq_iff i j).0 same) ne in
      let found : some w ≡ some v = rw same at e in
      let w_is_v : w ≡ v = cc in
      rw (← w_is_v) ((reject_floats-cond (str_eq i k) i w (without k d) free).1 ne')
  | inr other ↦
      reject_floats-lookup k j d v ne (reject_floats-cond (str_eq i k) i w (without k d) free).0
        (rw other at e)
]

IsLink-link_after : (c : Crypto) (d : Fields) → IsLink (link_after c d)
unfolding link_after
IsLink-link_after c d = elim (Option-cases (receipt_digest c d)) [
  | inl e ↦ start (rw (e, link_after) refl)
  | inr (s, e) ↦ digest s (rw (e, link_after) refl)
]

py_eq-link : (v e : Value) → IsLink e → py_eq v e ≡ true → v ≡ e
py_eq-link v e (start p) h = py_eq-null v (rw p at h) ∙ sym p
py_eq-link v e (digest s p) h = py_eq-str v s (rw p at h) ∙ sym p

-- An encodable receipt has no float among its members.
encodable_free :
    (c : Crypto) (d : Fields) {s : String}
    → receipt_digest c d ≡ some s
    → reject_floats (dict (without "sig" d)) ≡ false
unfolding receipt_digest canonical_bytes unsigned_view
encodable_free c d e = elim (Bool-cases (reject_floats (dict (without "sig" d)))) [
  | inl bad ↦ absurd (cc (rw bad at e))
  | inr free ↦ free
]

IsIndex-of_position : (n : ℕ) (v : Value) → IsPosition n v → reject_floats v ≡ false → IsIndex n v
unfolding reject_floats
IsIndex-of_position n (int z) p free = integer (ap int p)
IsIndex-of_position n (bool true) p free = one_as_true refl p
IsIndex-of_position n (bool false) p free = zero_as_false refl p
IsIndex-of_position n (float f) p free = cc
IsIndex-of_position n null p free = elim p [ ]
IsIndex-of_position n (str s) p free = elim p [ ]
IsIndex-of_position n (list vs) p free = elim p [ ]
IsIndex-of_position n (dict d) p free = elim p [ ]

get_free :
    (c : Crypto) (d : Fields) (j : String) {s : String}
    → str_eq j "sig" ≡ false
    → receipt_digest c d ≡ some s
    → reject_floats (get d j) ≡ false
get_free c d j ne e = elim (Option-cases (lookup j d)) [
  | inl absent ↦ rw (absent, get) (unfold reject_floats in refl)
  | inr (v, found) ↦
      rw (found, get) (reject_floats-lookup "sig" j d v ne (encodable_free c d e) found)
]

signed_of_texts :
    (c : Crypto) (receipt : Fields) (issuer value : Value)
    → signature_verifies c receipt issuer value ≡ true
    → (did text : String) × (message : List ℕ) × (issuer ≡ str did)
      × (value ≡ str text)
      × (canonical_bytes (dict (unsigned_view receipt)) ≡ some message)
      × (Keys.verify c did message text ≡ true)
unfolding signature_verifies
signed_of_texts c receipt (str did) (str text) h =
    elim (Option-cases (canonical_bytes (dict (unsigned_view receipt)))) [
      | inl e ↦ absurd (cc (rw (e, signature_verifies) at h))
      | inr (m, e) ↦ (did, text, m, refl, refl, e, rw (e, signature_verifies) at h)
    ]
signed_of_texts c receipt _ _ h = cc

&&_parts : (a b c : Bool) → ((a && b) && c) ≡ true → (a ≡ true) × (c ≡ true)
&&_parts a b c h = ground arith

IsSigned-verifies_sig :
    (c : Crypto) (receipt : Fields) (v : Value)
    → get receipt "sig" ≡ v
    → verifies_sig c receipt v ≡ true
    → IsSigned c receipt
unfolding verifies_sig
IsSigned-verifies_sig c receipt (dict sig) e h =
    let value = get sig "value" in
    let parts =
      &&_parts (is_text (get sig "alg") "ed25519") (is_nonempty_text value)
        (signature_verifies c receipt (issuer_id_or_empty receipt) value) h in
    let (did, text, message, issuer_is, value_is, view_is, verified_is) =
      signed_of_texts c receipt (issuer_id_or_empty receipt) value parts.1 in
    record {
      sig = sig;
      did = did;
      value = text;
      message = message;
      sig_member = e;
      algorithm = parts.0;
      signature = value_is;
      issuer = issuer_is;
      view = view_is;
      verified = verified_is;
    }
IsSigned-verifies_sig c receipt _ e h = cc

is_empty_eq : (names : List String) → is_empty names ≡ true → names ≡ []
is_empty_eq [] h = refl
is_empty_eq (n ∷ ns) h = cc

all_tests :
    (a b c d e f g h : Bool)
    → ((((((((not (not a) && b) && c) && not (not d)) && not (not e)) && not (not f))
            && not (not g))
          && not (not h))
        ≡ true)
    → (a ≡ true)
      × (b ≡ true)
      × (c ≡ true)
      × (d ≡ true)
      × (e ≡ true)
      × (f ≡ true)
      × (g ≡ true)
      × (h ≡ true)
all_tests a b c d e f g h p = ground arith

three_tests :
    (a b c : Bool)
    → ((not (not a) && not (not b)) && c) ≡ true
    → (a ≡ true) × (b ≡ true) × (c ≡ true)
three_tests a b c p = ground arith

some_of : {A : Type 0} (o : Option A) → is_some o ≡ true → (a : A) × (o ≡ some a)
some_of none h = cc
some_of (some a) h = (a, refl)

-- The part of `check_body` that the chain rests on.
IsLinked-check_body :
    (c : Crypto) (task_id expected : Value) (index : ℕ) (t : String) (d body : Fields)
    → IsLink expected
    → text_in (get d "spec") supported_specs ≡ true
    → py_eq (get d "task_id") task_id ≡ true
    → get d "type" ≡ str t
    → known_type t (get d "spec") ≡ true
    → get d "body" ≡ dict body
    → fatal_free (check_body c t index expected d body) ≡ true
    → IsLinked c task_id index expected d
unfolding check_body
IsLinked-check_body c task_id expected index t d body link spec task typed known has_body free =
    let rid = get d "receipt_id" in
    let spec' = get d "spec" in
    let (complete, v05, v06, dated, at_index, prev_eq, has_digest, signed) =
      all_tests (is_empty (missing_from body (required_fields t spec')))
        (fatal_free (if text_in spec' specs_from_05 then check_05_body t body rid else []))
        (fatal_free (if is_text spec' spec_06 then check_06_body t body rid else []))
        (validate_timestamp (get d "issued_at")) (py_eq (get d "seq") (int (pos index)))
        (py_eq (get d "prev") expected) (is_some (receipt_digest c d)) (has_signature c d)
        (simp (fatal_free-append, fatal_free-fatal_if) at free) in
    let (own_digest, encodable) = some_of (receipt_digest c d) has_digest in
    record {
      spec_supported = spec;
      same_task = task;
      record_type = t;
      typed = typed;
      known = known;
      body = body;
      body_member = has_body;
      complete = is_empty_eq _ complete;
      vocabulary_05 = taken _ _ v05;
      vocabulary_06 = taken _ _ v06;
      dated = dated;
      in_position =
          IsIndex-of_position index (get d "seq") (py_eq-IsPosition (get d "seq") index at_index)
            (get_free c d "seq" refl encodable);
      linked = py_eq-link (get d "prev") expected link prev_eq;
      own_digest = own_digest;
      encodable = encodable;
      signed = IsSigned-verifies_sig c d (get d "sig") refl (unfold has_signature in signed);
    }

-- Where the body is an object and nothing fatal is found, the type is known and the next link is
-- the digest of the receipt.
IsLinked-check_typed :
    (c : Crypto) (task_id expected : Value) (index : ℕ) (v : Value) (d body : Fields)
    → IsLink expected
    → text_in (get d "spec") supported_specs ≡ true
    → py_eq (get d "task_id") task_id ≡ true
    → get d "type" ≡ v
    → get d "body" ≡ dict body
    → fatal_free (check_typed c v index expected d).0 ≡ true
    → IsLinked c task_id index expected d × ((check_typed c v index expected d).1 ≡ link_after c d)
unfolding check_typed
IsLinked-check_typed c task_id expected index (str t) d body link spec task typed has_body free =
    elim (Bool-cases (known_type t (get d "spec"))) [
      | inl known ↦
          let free' = rw (known, has_body) at free in
          (
            IsLinked-check_body c task_id expected index t d body link spec task typed known
                has_body free',
            rw (known, has_body),
          )
      | inr unknown ↦ let bad : false ≡ true = rw unknown at free in cc
    ]
IsLinked-check_typed c task_id expected index _ d body link spec task typed has_body free = cc

two_tests : (a b : Bool) → (not (not a) && not (not b)) ≡ true → (a && b) ≡ true
two_tests a b p = ground arith

dict_of : (v : Value) → is_dict v ≡ true → (d : Fields) × (v ≡ dict d)
dict_of (dict d) h = (d, refl)
dict_of _ h = cc

body_of_shape :
    (d : Fields)
    → fatal_free (check_receipt_shape (dict d)) ≡ true
    → (body : Fields) × (get d "body" ≡ dict body)
unfolding check_receipt_shape
body_of_shape d free =
    let is_body = (&&_true (is_dict (get d "body")) (is_dict (get d "issuer"))).0 (
      two_tests (is_dict (get d "body")) (is_dict (get d "issuer"))
        (simp (fatal_free-append, fatal_free-fatal_if) at free)) in
    dict_of (get d "body") is_body.0

module _ (c : Crypto) (task_id : Value) where
  -- One object with an object for its body.
  IsLinked-check_receipt :
      (expected : Value) (index : ℕ) (d body : Fields)
      → IsLink expected
      → get d "body" ≡ dict body
      → fatal_free (check_receipt c task_id index expected (dict d)).0 ≡ true
      → IsLinked c task_id index expected d
        × ((check_receipt c task_id index expected (dict d)).1 ≡ link_after c d)
  unfolding check_receipt
  IsLinked-check_receipt expected index d body link has_body free =
      let typed = check_typed c (get d "type") index expected d in
      let (spec, task, rest) =
        three_tests (text_in (get d "spec") supported_specs) (py_eq (get d "task_id") task_id)
          (fatal_free typed.0) (simp (fatal_free-append, fatal_free-fatal_if) at free) in
      IsLinked-check_typed c task_id expected index (get d "type") d body link spec task refl
        has_body rest

  -- The receipts of a report without fatal entries form a chain.
  pub IsChain-check_receipts :
      (vs : List Value) (expected : Value) (index : ℕ)
      → IsLink expected
      → fatal_free (check_receipt_shapes vs) ≡ true
      → fatal_free (check_receipts c task_id index expected vs) ≡ true
      → IsChain c task_id index expected vs
  unfolding check_receipts check_receipt_shapes check_receipt_shape
  IsChain-check_receipts [] expected index link shaped free = tt
  IsChain-check_receipts (dict d ∷ vs) expected index link shaped free =
      let step = check_receipt c task_id index expected (dict d) in
      let (shape, shapes) =
        fatal_free_parts (check_receipt_shape (dict d)) (check_receipt_shapes vs) shaped in
      let (clean, rest) =
        fatal_free_parts step.0 (check_receipts c task_id (suc index) step.1 vs) free in
      let (body, has_body) = body_of_shape d shape in
      let (linked, next) = IsLinked-check_receipt expected index d body link has_body clean in
      (
        linked,
        IsChain-check_receipts vs (link_after c d) (suc index) (IsLink-link_after c d) shapes
            (rw next at rest),
      )
  IsChain-check_receipts (v ∷ vs) expected index link shaped free = cc
