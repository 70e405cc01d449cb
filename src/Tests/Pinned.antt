-- ===== src/Tests/Pinned.antt =====
-- A receiver's profile.
use continuity_receipt.Value.Equal.{py_eq}
use continuity_receipt.Base.{false, ℕ, List, [], ◌∷◌, ◌≡◌, refl, pos}
use continuity_receipt.Value.{Value, str, int, bool, list, nil, cons}
use continuity_receipt.Tests.{toy, obj}
use continuity_receipt.Canon.{reject_floats, canonical_bytes, sha256_prefixed}
use continuity_receipt.Witness.{Result, done, raises}
use continuity_receipt.Profile.{Profile, validate_profile}
use continuity_receipt.Profile.Valid.{IsProfile, validate_profile-IsProfile}

public_key : List ℕ
public_key = 1 ∷ 2 ∷ []

profile : Value
unfolding public_key
profile = obj (
    ("kind", str "cpr-experimental-local-receiver-profile")
    ∷ ("version", int (pos 1))
    ∷ ("id", str "p")
    ∷ (
      "export",
      obj (
          ("scope", str "s")
          ∷ ("inventory", list (cons (str "notes/b.md") (cons (str "a.md") nil)))
          ∷ ("optional", list nil)
          ∷ ("memory_paths", list (cons (str "a.md") nil))
          ∷ []),
    )
    ∷ (
      "trust",
      obj (
          ("context", str "ctx")
          ∷ ("key_sha256", str (sha256_prefixed toy public_key))
          ∷ (
            "reference",
            str "receiver-trust-db/current_reference; advanced only by explicit local publish",
          )
          ∷ ("clock", str "system-utc")
          ∷ []),
    )
    ∷ (
      "authority",
      obj (("status", str "operator-asserted") ∷ ("basis", str "outside this verifier") ∷ []),
    )
    ∷ (
      "consent",
      obj (("status", str "operator-asserted") ∷ ("subject_consent_verified", bool false) ∷ []),
    )
    ∷ (
      "retention",
      obj (
          (
            "mode",
            str
                "retain current generation until explicit replacement; prior generations may remain on disk",
          )
          ∷ ("deletion", str "operator-managed")
          ∷ []),
    )
    ∷ (
      "refusal",
      list (
          cons (str "missing policy or reference") (
            cons (str "untrusted or stale evidence") (
              cons (str "inventory mismatch")
                (cons (str "selected memory file missing or invalid UTF-8") nil)))),
    )
    ∷ [])

abbrev summary_of : Result Profile → Profile
summary_of (done p) = p
summary_of (raises code) = record {
  id = str code;
  digest = "";
  inventory = [];
  optional = [];
  memory_paths = [];
}

summary : Profile
unfolding profile public_key validate_profile
summary = summary_of (validate_profile toy "ctx" "s" public_key profile)

is_valid : validate_profile toy "ctx" "s" public_key profile ≡ done summary
unfolding profile public_key validate_profile summary py_eq sha256_prefixed toy canonical_bytes
    reject_floats
is_valid = refl

validate_profile-IsProfile_example : IsProfile toy "ctx" "s" public_key profile summary
validate_profile-IsProfile_example =
    validate_profile-IsProfile toy "ctx" "s" public_key profile summary is_valid
