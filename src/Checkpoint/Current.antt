-- ===== src/Checkpoint/Current.antt =====
-- What the statement of a checkpoint is when it is accepted.
use continuity_receipt.Base.{
  ℕ, ◌+◌, ◌≤◌, String, Bool, true, false, not, ◌&&◌, ◌==◌, Option, none, some, List, [], ◌∷◌, pos,
  leb, arith, ◌≡◌, refl, All, &&_true,
}
use continuity_receipt.Value.{int, str, Fields, get, is_text}
use continuity_receipt.Value.Equal.{py_eq, is_text-eq}
use continuity_receipt.Checkpoint.Time.{time}
use continuity_receipt.Checkpoint.Statement.{
  Core, ImportAssessment, Receiver, accept, first_reason, window, window_reason, rejection,
  checkpoint_kind, statement_tests, assess_statement,
}

-- A text for the receiver's context and the bundle, and a window of the receiver's age around now.
pub record IsCurrent (cp : Fields) (r : Receiver) (now age : ℕ) (digest : String) : Type 0 where
  pub kind_is : get cp "kind" ≡ str checkpoint_kind
  pub version_is : py_eq (get cp "version") (int (pos 1)) ≡ true
  pub context_is : py_eq (get cp "context") r.expected_context ≡ true
  pub about : get cp "bundle_digest" ≡ str digest
  pub age_is : py_eq (get cp "max_age_seconds") r.max_age_seconds ≡ true
  pub issued : ℕ
  pub expires : ℕ
  pub issued_at : time (get cp "issued_at") ≡ some issued
  pub expires_at : time (get cp "expires_at") ≡ some expires
  pub lasts : expires ≡ issued + age
  pub begun : issued ≤ now
  pub not_over : now ≤ expires

pub first_reason-none :
    (ts : List (Bool × String)) → first_reason ts ≡ none → All (λ t. t.0 ≡ false) ts
first_reason-none [] h = tt
first_reason-none ((true, reason) ∷ ts) h = cc
first_reason-none ((false, reason) ∷ ts) h = (refl, first_reason-none ts h)

pub holds : (b : Bool) → not b ≡ false → b ≡ true
holds b h = ground arith

-- An assessment that accepts.
abbrev pub Accepting : ImportAssessment → Type 0
Accepting a = a.outcome ≡ accept

-- The instants of a window that has no reason against it.
record IsOpen (i e : Option ℕ) (now age : ℕ) : Type 0 where
  issued : ℕ
  expires : ℕ
  issued_at : i ≡ some issued
  expires_at : e ≡ some expires
  lasts : expires ≡ issued + age
  begun : issued ≤ now
  not_over : now ≤ expires

both_pass : (a b : Bool) → window_reason (some (a, b)) ≡ none → (a ≡ true) × (b ≡ true)
both_pass true true h = (refl, refl)
both_pass true false h = cc
both_pass false b h = cc

IsOpen-window :
    (i e : Option ℕ) (now age : ℕ) → window_reason (window i e now age) ≡ none → IsOpen i e now age
IsOpen-window none e now age h = cc
IsOpen-window (some i) none now age h = cc
IsOpen-window (some i) (some e) now age h =
    let (lasts, current) = both_pass (e == i + age) (leb i now && leb now e) h in
    let (begun, not_over) = (&&_true (leb i now) (leb now e)).0 current in
    record {
      issued = i;
      expires = e;
      issued_at = refl;
      expires_at = refl;
      lasts = ground arith;
      begun = ground arith;
      not_over = ground arith;
    }

pub no_reason :
    (o : Option String) (a : ImportAssessment) (core : Core) (d e : Option String)
    → Accepting (elim o [ some reason ↦ rejection reason core d e | none ↦ a ])
    → (o ≡ none) × Accepting a
no_reason none a core d e h = (refl, h)
no_reason (some reason) a core d e h = cc

pub IsCurrent-assess_statement :
    (cp : Fields) (r : Receiver) (now age : ℕ) (digest chash : String) (core : Core)
    → Accepting (assess_statement cp r now age digest chash core)
    → IsCurrent cp r now age digest
unfolding assess_statement statement_tests
IsCurrent-assess_statement cp r now age digest chash core h =
    let (fit, timely) =
      no_reason (first_reason (statement_tests cp r digest)) _ core (some digest) none h in
    let (no_bar, _) =
      no_reason
        (window_reason (window (time (get cp "issued_at")) (time (get cp "expires_at")) now age)) _
        core (some digest) none timely in
    let (version, (context, (about, (same_age, _)))) =
      first_reason-none (statement_tests cp r digest) fit in
    let w = IsOpen-window (time (get cp "issued_at")) (time (get cp "expires_at")) now age no_bar in
    let (kind_ok, version_ok) =
      (&&_true (is_text (get cp "kind") checkpoint_kind) (py_eq (get cp "version") (int (pos 1)))).0
        (holds _ version) in
    record {
      kind_is = is_text-eq (get cp "kind") checkpoint_kind kind_ok;
      version_is = version_ok;
      context_is = holds _ context;
      about = is_text-eq (get cp "bundle_digest") digest (holds _ about);
      age_is = holds _ same_age;
      issued = w.issued;
      expires = w.expires;
      issued_at = w.issued_at;
      expires_at = w.expires_at;
      lasts = w.lasts;
      begun = w.begun;
      not_over = w.not_over;
    }
