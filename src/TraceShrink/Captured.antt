-- ===== src/TraceShrink/Captured.antt =====
-- What is left of the captured files.
use mathlib.Core.List.Sublist
use mathlib.Core.List.{Sublist, nil-sublist}
use continuity_receipt.Base.{
  either_way, String, Bool, true, Option, none, some, List, [], ◌∷◌, ◌≡◌, refl, inl, inr, length,
  leb, str_eq, if◌then◌else◌,
}
use continuity_receipt.TraceShrink.{alone, except, deletions, shrink_counterexample}
use continuity_receipt.TraceShrink.Reduce.{IsReduced}

module _ {ℓ} {A : Type ℓ} (fails : List (String × A) → Bool) where
  Sublist-except : (k : String) (xs : List (String × A)) → Sublist (except fails k xs) xs
  Sublist-except k [] = Sublist.refl []
  Sublist-except k ((x, a) ∷ xs) =
      either_way (λ ys. Sublist ys ((x, a) ∷ xs)) (str_eq x k)
        (λ e. Sublist.cons (x, a) (Sublist-except k xs))
        (λ e. Sublist.cons-cons (x, a) (Sublist-except k xs))

  deletions-IsReduced :
      (captured xs ys : List (String × A))
      → IsReduced fails captured ys
      → IsReduced fails captured (deletions fails captured xs ys)
  unfolding deletions
  deletions-IsReduced captured [] ys h = h
  deletions-IsReduced captured ((k, a) ∷ xs) ys h =
      let trial = except fails k captured in
      deletions-IsReduced captured xs (if fails trial then trial else ys) (
        either_way (IsReduced fails captured) (fails trial)
          (λ e. (Sublist-except k captured, inl e)) (λ e. h))

  -- A failing part of the files, if there is one.
  abbrev Found : List (String × A) → Option (List (String × A)) → Type ℓ
  Found xs none = Unit
  Found xs (some ys) = Sublist ys xs × (fails ys ≡ true)

  Found-cons :
      (x : String × A) (xs : List (String × A)) (o : Option (List (String × A)))
      → Found xs o
      → Found (x ∷ xs) o
  Found-cons x xs none h = tt
  Found-cons x xs (some ys) h = (Sublist.cons x h.0, h.1)

  Found-alone : (xs : List (String × A)) → Found xs (alone fails xs)
  unfolding alone
  Found-alone [] = tt
  Found-alone (x ∷ xs) =
      either_way (Found (x ∷ xs)) (fails (x ∷ [])) (λ e. (Sublist.cons-cons x (nil-sublist xs), e))
        (λ e. Found-cons x xs (alone fails xs) (Found-alone xs))

  -- What `shrink_counterexample` returns is part of the captured files, which fails unless it is all
  -- of them.
  pub shrink_counterexample-IsReduced :
      (captured : List (String × A))
      → IsReduced fails captured (shrink_counterexample fails captured)
  unfolding shrink_counterexample
  shrink_counterexample-IsReduced captured =
      either_way (IsReduced fails captured) (leb (length captured) 1) (λ e. whole)
        (λ e. go (alone fails captured) (Found-alone captured))
    where
      whole : IsReduced fails captured captured
      whole = (Sublist.refl captured, inr refl)

      go :
          (o : Option (List (String × A)))
          → Found captured o
          → IsReduced fails captured
              (elim o [ some ys ↦ ys | none ↦ deletions fails captured captured captured ])
      go none h = deletions-IsReduced captured captured captured (Sublist.refl captured, inr refl)
      go (some ys) h = (h.0, inl h.1)
