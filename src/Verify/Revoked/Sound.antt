-- ===== src/Verify/Revoked/Sound.antt =====
-- No receipt of a clean bundle was issued at or after a revocation of its issuer's key.
use continuity_receipt.Base.{
  refl, none, ap, ◌∙◌, sym, length, leb, ◌&&◌, Option, str_eq, ℕ, zero, suc, ◌<◌, true, false, ◌≡◌,
  List, [], ◌∷◌, ◌++◌, All, String, some, arith, eq_iff,
}
use mathlib.Core.Path.{ap₂}
use continuity_receipt.Verify.Revoked.{check_stamped, check_verified, check_bundled}
use continuity_receipt.Value.{str, Value, Fields, get}
use continuity_receipt.Crypto.{Crypto}
use continuity_receipt.Records.Timestamp.{timestamp}
use continuity_receipt.Revocations.{verify_statements, merge_statements}
use continuity_receipt.Verify.Report.{key_revoked, fatal_if}
use continuity_receipt.Verify.Report.Grade.{fatal_free, fatal_free_parts, not_raised}
use continuity_receipt.Verify.Resolve.{issuer_id}
use continuity_receipt.Verify.Revoked.{
  check_issuer, check_revoked, check_all_revoked, rejections, check_merged, check_revocations,
  bundled, all_dicts, checked_note, external_note,
}

-- The issue time of the receipt precedes every revocation of its issuer's key.
abbrev pub IsUnrevoked : List (String × ℕ) → Fields → Type 0
IsUnrevoked revoked receipt =
    (key : String) (at : ℕ)
    → issuer_id receipt ≡ str key
    → timestamp (get receipt "issued_at") ≡ some at
    → All (λ entry. entry.0 ≡ key → at < entry.1) revoked

before_issuer :
    (revoked : List (String × ℕ)) (key : String) (at : ℕ) (rid : Value)
    → fatal_free (check_issuer revoked key at rid) ≡ true
    → All (λ entry. entry.0 ≡ key → at < entry.1) revoked
unfolding check_issuer
before_issuer [] key at rid free = tt
before_issuer ((k, t) ∷ revoked) key at rid free =
    let (first, rest) =
      fatal_free_parts (fatal_if (str_eq k key && leb t at) key_revoked rid)
        (check_issuer revoked key at rid) free in
    let passes : (str_eq k key && leb t at) ≡ false = not_raised _ _ _ first in
    ((λ e. ground (arith, eq_iff k key)), before_issuer revoked key at rid rest)

IsUnrevoked-check_revoked :
    (revoked : List (String × ℕ)) (receipt : Fields)
    → fatal_free (check_revoked revoked receipt) ≡ true
    → IsUnrevoked revoked receipt
unfolding check_revoked
IsUnrevoked-check_revoked revoked receipt free key at issuer issued =
    let rid = get receipt "receipt_id" in
    before_issuer revoked key at rid
      (sym (ap₂ (λ v o. fatal_free (check_stamped revoked v o rid)) issuer issued) ∙ free)

IsUnrevoked-check-All :
    (revoked : List (String × ℕ)) (dicts : List Fields)
    → fatal_free (check_all_revoked revoked dicts) ≡ true
    → All (IsUnrevoked revoked) dicts
unfolding check_all_revoked
IsUnrevoked-check-All revoked [] free = tt
IsUnrevoked-check-All revoked (d ∷ ds) free =
    let (first, rest) =
      fatal_free_parts (check_revoked revoked d) (check_all_revoked revoked ds) free in
    (IsUnrevoked-check_revoked revoked d first, IsUnrevoked-check-All revoked ds rest)

no_rejections : (n : ℕ) → fatal_free (rejections n) ≡ true → n ≡ 0
unfolding rejections
no_rejections zero h = refl
no_rejections (suc n) h = cc

-- A revocation list that raises nothing: every statement verifies.
pub record IsChecked (c : Crypto) (statements : List Value) (dicts : List Fields) : Type 0 where
  pub revoked : List (String × ℕ)
  pub all_verified : verify_statements c statements ≡ some (revoked, 0)
  pub unrevoked : All (IsUnrevoked revoked) dicts

IsChecked-check_verified :
    (c : Crypto) (statements : List Value) (external : Option (List Value)) (dicts : List Fields)
    (o : Option (List (String × ℕ) × ℕ))
    → verify_statements c statements ≡ o
    → fatal_free (check_verified statements external dicts o) ≡ true
    → IsChecked c statements dicts
unfolding check_verified
IsChecked-check_verified c statements external dicts none e free = cc
IsChecked-check_verified c statements external dicts (some (revoked, errors)) e free =
    let rejected = rejections errors in
    let applied = check_all_revoked revoked dicts in
    let counted = checked_note statements (length revoked) in
    let (a, b) = fatal_free_parts (rejected ++ applied ++ counted) (external_note external) free in
    let (a', b') = fatal_free_parts (rejected ++ applied) counted a in
    let (none_rejected, clean) = fatal_free_parts rejected applied a' in
    let no_errors = no_rejections errors none_rejected in
    record {
      revoked = revoked;
      all_verified = e ∙ ap (λ n. some (revoked, n)) no_errors;
      unrevoked = IsUnrevoked-check-All revoked dicts clean;
    }

-- The revocations that a clean bundle carries and those that are given from outside.
pub IsChecked-check_revocations :
    (c : Crypto) (bundle : Fields) (dicts : List Fields) (external : Option (List Value))
    (statements : List Value)
    → bundled (get bundle "revocations") ≡ some statements
    → all_dicts statements ≡ true
    → fatal_free (check_revocations c bundle dicts external) ≡ true
    → IsChecked c (merge_statements statements external) dicts
unfolding check_revocations
IsChecked-check_revocations c bundle dicts external statements listed objects free =
    let merged = merge_statements statements external in
    let here : fatal_free (check_bundled c (some statements) external dicts) ≡ true =
      sym (ap (λ o. fatal_free (check_bundled c o external dicts)) listed) ∙ free in
    let checked : fatal_free (check_merged c merged external dicts) ≡ true = rw objects at here in
    IsChecked-check_verified c merged external dicts (verify_statements c merged) refl checked
