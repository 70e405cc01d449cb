-- ===== src/TraceShrink/Minimal.antt =====
-- What the shrunk trace is.
use mathlib.Core.List.Sublist
use mathlib.Core.List.{Sublist}
use continuity_receipt.Base.{
  either_way, ℕ, zero, suc, ◌<◌, ◌≤◌, Bool, true, false, Option, some, List, [], ◌∷◌, ◌≡◌, refl,
  sym, ap, ◌∙◌, ◌⊎◌, inl, inr, arith, length, leb, All, map, ◌>>=◌,
}
use mathlib.Core.Path.{subst}
use continuity_receipt.TraceShrink.{omit, omit_step, omissions, shrink_trace}
use continuity_receipt.TraceShrink.Reduce.{
  IsReduced, Sublist-omit_omit, search-IsReduced, IsReduced-omit_step, omissions-keep,
}

-- The lists that leave one element out.
abbrev pub omitted {ℓ} : {A : Type ℓ} → List A → List (List A)
omitted [] = []
omitted (x ∷ xs) = xs ∷ map (◌∷◌ x) (omitted xs)

before_or_at : (j i : ℕ) → j < suc i → (j < i) ⊎ (j ≡ i)
before_or_at zero zero h = inr refl
before_or_at zero (suc i) h = inl (omega arith)
before_or_at (suc j) zero h = absurd (omega arith)
before_or_at (suc j) (suc i) h = elim (before_or_at j i (omega arith)) [
  | inl earlier ↦ inl (omega arith)
  | inr here ↦ inr (ap suc here)
]

module _ {ℓ κ} {A : Type ℓ} where
  All-map_cons :
      (P : List A → Type κ) (x : A) (ls : List (List A))
      → All (λ l. P (x ∷ l)) ls
      → All P (map (◌∷◌ x) ls)
  All-map_cons P x [] h = tt
  All-map_cons P x (l ∷ ls) h = (h.0, All-map_cons P x ls h.1)

  All-omitted :
      (P : List A → Type κ) (xs : List A)
      → ((i : ℕ) → i < length xs → P (omit i xs))
      → All P (omitted xs)
  All-omitted P [] h = tt
  All-omitted P (x ∷ xs) h = (
    h 0 (omega arith),
    All-map_cons P x (omitted xs)
        (All-omitted (λ l. P (x ∷ l)) xs (λ i within. h (suc i) (omega arith))),
  )

module _ {ℓ κ} {A : Type ℓ} (fails : List A → Bool) where
  abbrev Ends : List A → (List A → ℕ → Type κ) → Option (List A) → Type (ℓ ⊔ κ)
  Ends events I o =
      (ys : List A) × (k : ℕ) × (o ≡ some ys) × I ys k × (length ys ≤ k ⊎ length ys ≤ 1)

  -- What a round of the omissions keeps holds of the result, where it holds of the failing prefix.
  shrink_trace-Ends :
      (events : List A) (I : List A → ℕ → Type κ)
      → ((xs : List A) (i : ℕ)
          → i < length xs
          → I xs i
          → I (omit_step fails xs i).0 (omit_step fails xs i).1)
      → ((xs : List A) → IsReduced fails events xs → I xs 0)
      → Ends events I (shrink_trace fails events)
  unfolding shrink_trace
  shrink_trace-Ends events I keeps start =
      either_way (Ends events I) (leb (length events) 1)
        (λ e. (events, 0, refl, start events whole, inr (ground arith)))
        (λ e.
          let (xs, found, reduced) =
            search-IsReduced fails events (suc (length events))
              (record { low = 1; high = length events; failing_prefix = events })
              (omega arith, omega arith, omega arith) whole in
          subst (λ o. Ends events I (o >>= λ ys. omissions fails (suc (length ys)) ys 0))
            (sym found)
            (omissions-keep fails I keeps (suc (length xs)) xs 0 (omega arith, omega arith)
              (start xs reduced)))
    where
      whole : IsReduced fails events events
      whole = (Sublist.refl events, inr refl)

module _ {ℓ} {A : Type ℓ} (fails : List A → Bool) where
  -- `shrink_trace` ends, and what it returns is part of the events in their order, which fails
  -- unless it is all of them.
  pub shrink_trace-IsReduced :
      (events : List A)
      → (ys : List A) × (shrink_trace fails events ≡ some ys) × IsReduced fails events ys
  shrink_trace-IsReduced events =
      let (ys, k, e, h, _) =
        shrink_trace-Ends fails events (λ xs i. IsReduced fails events xs)
          (λ xs i within. IsReduced-omit_step fails events xs i) (λ xs h. h) in
      (ys, e, h)

  module _ (monotone : (xs ys : List A) → Sublist xs ys → fails xs ≡ true → fails ys ≡ true) where
    abbrev PassBefore : List A → ℕ → Type 0
    PassBefore xs i = (j : ℕ) → j < i → fails (omit j xs) ≡ false

    PassBefore-omit_step :
        (xs : List A) (i : ℕ)
        → PassBefore xs i
        → PassBefore (omit_step fails xs i).0 (omit_step fails xs i).1
    unfolding omit_step
    PassBefore-omit_step xs i h =
        either_way (λ (s : List A × ℕ). PassBefore s.0 s.1) (fails (omit i xs))
          (λ e j before.
            passes (omit j (omit i xs)) (omit j xs) (Sublist-omit_omit j i xs before) (h j before))
          (λ e j before. before_or_here j before e)
      where
        passes : (xs ys : List A) → Sublist xs ys → fails ys ≡ false → fails xs ≡ false
        passes xs ys s p = ground (arith, monotone xs ys s)

        before_or_here : (j : ℕ) → j < suc i → fails (omit i xs) ≡ false → fails (omit j xs) ≡ false
        before_or_here j before e = elim (before_or_at j i before) [
          | inl earlier ↦ h j earlier
          | inr here ↦ ap (λ k. fails (omit k xs)) here ∙ e
        ]

    -- Where what contains a failing list fails, `shrink_trace` ends with a list of at most one
    -- event, or with one that passes whichever one of its events is left out.
    pub shrink_trace-IsMinimal :
        (events : List A)
        → (ys : List A) × (shrink_trace fails events ≡ some ys)
          × (length ys ≤ 1 ⊎ All (λ l. fails l ≡ false) (omitted ys))
    shrink_trace-IsMinimal events =
        let (ys, k, e, h, last) =
          shrink_trace-Ends fails events PassBefore (λ xs i within. PassBefore-omit_step xs i)
            (λ xs reduced j before. absurd (omega arith)) in
        (ys, e, settle ys k h last)
      where
        settle :
            (ys : List A) (k : ℕ)
            → PassBefore ys k
            → length ys ≤ k ⊎ length ys ≤ 1
            → length ys ≤ 1 ⊎ All (λ l. fails l ≡ false) (omitted ys)
        settle ys k h (inr short) = inl short
        settle ys k h (inl past) =
            inr (All-omitted (λ l. fails l ≡ false) ys (λ i within. h i (omega arith)))
